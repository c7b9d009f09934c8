-- ===== src/Pipeline/Strategy/Bounds.antt =====
-- The bounds of the strategy steps of workflows/production.ts, and of the decision at the outline gate.
use ai_content_workflow.Prelude.{ℕ, String, Option, none, some, arith, str_eq, if◌then◌else◌, ◌<>◌}
use ai_content_workflow.Run.{Hitl1Payload}
use ai_content_workflow.Pipeline.StepNames.{StepName}
use ai_content_workflow.Pipeline.Platform.{Platform, OutlineInput}
use ai_content_workflow.Pipeline.Flow.{status_step, emit_step, throw_error}
use ai_content_workflow.Pipeline.Strategy.{
  RunLoad, load_run, run_outline, save_outline, load_gap_payload, fetch_article, analyse_gap,
  refresh_outline, refresh_steps, run_refresh_strategy, run_create_strategy, apply_hitl1,
  apply_edits, record_hitl1, edit_outline, override_route,
}
use ai_content_workflow.Pipeline.Bounds.{
  Bounded, Quiet, keep_if, keep_pure, then_plain, quiet_rules, keep_throw,
}

module _ (limit : ℕ) (p : Platform) where
  pub load_run-Quiet : (run_id : String) → Quiet limit 0 (load_run p run_id)
  unfolding load_run
  load_run-Quiet run_id = search quiet_rules

  run_outline_Quiet : (input : OutlineInput) → Quiet limit 0 (run_outline p input)
  unfolding run_outline save_outline
  run_outline_Quiet input = search quiet_rules

  fetch_article-Quiet :
      (run_id : String) (run : RunLoad) (url : String)
      → Quiet limit 0 (fetch_article p run_id run url)
  unfolding fetch_article
  fetch_article-Quiet run_id run url = search quiet_rules depth 20

  analyse_gap-Quiet :
      (run_id : String) (run : RunLoad) (url : String)
      → Quiet limit 0 (analyse_gap p run_id run url)
  unfolding analyse_gap
  analyse_gap-Quiet run_id run url = search quiet_rules depth 20

  load_gap_payload-Quiet : Quiet limit 0 (load_gap_payload p)
  unfolding load_gap_payload
  load_gap_payload-Quiet n = record { sound = λ w below. (below, omega arith, tt) }

  refresh_outline-Quiet :
      (run_id : String) (run : RunLoad) (markdown : String)
      → Quiet limit 0 (refresh_outline p run_id run markdown)
  unfolding refresh_outline
  refresh_outline-Quiet run_id run markdown =
      search (quiet_rules, load_gap_payload-Quiet, run_outline_Quiet) depth 20

  -- The outline of a new article is made between the steps of ranks 2 and 12.
  pub keep_run_create_strategy :
      (run_id : String) (run : RunLoad) → Bounded limit 0 2 12 (run_create_strategy p run_id run)
  unfolding run_create_strategy status_step emit_step
  keep_run_create_strategy run_id run =
      then_plain p StepName.status_strategy (omega arith) (search quiet_rules) λ _.
        then_plain p StepName.emit_outline_start (omega arith) (search quiet_rules) λ _.
          then_plain p StepName.outline (omega arith) (run_outline_Quiet _)
            λ _. keep_pure limit run 12 12 (omega arith)

  keep_refresh_steps :
      (run_id : String) (run : RunLoad) (url : String)
      → Bounded limit 0 2 12 (refresh_steps p run_id run url)
  unfolding refresh_steps status_step emit_step
  keep_refresh_steps run_id run url =
      then_plain p StepName.status_fetching (omega arith) (search quiet_rules) λ _.
        then_plain p StepName.emit_fetch_start (omega arith) (search quiet_rules) λ _.
          then_plain p StepName.fetch_article (omega arith) (fetch_article-Quiet run_id run url)
            λ fetched. then_plain p StepName.emit_fetch_done (omega arith) (search quiet_rules) λ _.
              then_plain p StepName.status_strategy_refresh (omega arith) (search quiet_rules) λ _.
                then_plain p StepName.emit_gap_start (omega arith) (search quiet_rules) λ _.
                  then_plain p StepName.gap_analysis (omega arith)
                    (analyse_gap-Quiet run_id run url)
                    λ _. then_plain p StepName.emit_gap_done (omega arith) (search quiet_rules) λ _.
                      then_plain p StepName.emit_outline_start_refresh (omega arith)
                        (search quiet_rules)
                        λ _.
                          then_plain p StepName.outline (omega arith)
                            (refresh_outline-Quiet run_id run _)
                            λ route. keep_pure limit _ 12 12 (omega arith)

  pub keep_run_refresh_strategy :
      (run_id : String) (run : RunLoad) → Bounded limit 0 2 12 (run_refresh_strategy p run_id run)
  unfolding run_refresh_strategy
  keep_run_refresh_strategy run_id run = by_url run.article_url
    where
      by_url :
          (o : Option String)
          → Bounded limit {A = RunLoad} 0 2 12 (elim o [
            | none ↦ throw_error ("refresh run " <> run_id <> " has no article_url")
            | some article_url ↦
                if str_eq article_url ""
                then throw_error ("refresh run " <> run_id <> " has no article_url")
                else refresh_steps p run_id run article_url
          ])
      by_url none = keep_throw limit _ 2 12 (omega arith)
      by_url (some url) =
          keep_if limit (str_eq url "") 0 2 12 (keep_throw limit _ 2 12 (omega arith))
            (keep_refresh_steps run_id run url)

pub apply_hitl1-Quiet : (limit : ℕ) (payload : Hitl1Payload) → Quiet limit 0 (apply_hitl1 payload)
unfolding apply_hitl1 apply_edits record_hitl1 edit_outline override_route
apply_hitl1-Quiet limit payload n = record { sound = λ w below. ground arith }
