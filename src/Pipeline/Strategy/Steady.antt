-- ===== src/Pipeline/Strategy/Steady.antt =====
-- The strategy steps of workflows/production.ts never park and send nothing to the CMS.
use ai_content_workflow.Prelude.{
  refl, String, Option, none, some, arith, str_eq, if◌then◌else◌, ◌<>◌,
}
use ai_content_workflow.Run.{Hitl1Payload}
use ai_content_workflow.Pipeline.Platform.{Platform, OutlineInput}
use ai_content_workflow.Pipeline.Flow.{status_step, emit_step, throw_error}
use ai_content_workflow.Pipeline.Strategy.{RunLoad}
use ai_content_workflow.Pipeline.Frames.{same_cms, Steady, Steady-throw, Steady-if, steady_rules}
use ai_content_workflow.Pipeline.Strategy.{
  RunLoad, load_run, run_outline, save_outline, load_gap_payload, fetch_article, analyse_gap,
  refresh_outline, refresh_steps, run_refresh_strategy, run_create_strategy, apply_hitl1,
  apply_edits, record_hitl1, edit_outline, override_route,
}

module _ (p : Platform) where
  pub load_run-Steady : (run_id : String) → Steady same_cms (load_run p run_id)
  unfolding load_run
  load_run-Steady run_id = search steady_rules

  run_outline_Steady : (input : OutlineInput) → Steady same_cms (run_outline p input)
  unfolding run_outline save_outline
  run_outline_Steady input = search steady_rules

  fetch_article-Steady :
      (run_id : String) (run : RunLoad) (url : String)
      → Steady same_cms (fetch_article p run_id run url)
  unfolding fetch_article
  fetch_article-Steady run_id run url = search steady_rules depth 20

  analyse_gap-Steady :
      (run_id : String) (run : RunLoad) (url : String)
      → Steady same_cms (analyse_gap p run_id run url)
  unfolding analyse_gap
  analyse_gap-Steady run_id run url = search steady_rules depth 20

  load_gap_payload-Steady : Steady same_cms (load_gap_payload p)
  unfolding load_gap_payload
  load_gap_payload-Steady = record { steady = λ w. ((λ x. x), refl) }

  refresh_outline-Steady :
      (run_id : String) (run : RunLoad) (markdown : String)
      → Steady same_cms (refresh_outline p run_id run markdown)
  unfolding refresh_outline
  refresh_outline-Steady run_id run markdown =
      search (steady_rules, load_gap_payload-Steady, run_outline_Steady) depth 20

  pub run_create_strategy-Steady :
      (run_id : String) (run : RunLoad) → Steady same_cms (run_create_strategy p run_id run)
  unfolding run_create_strategy status_step emit_step
  run_create_strategy-Steady run_id run = search (steady_rules, run_outline_Steady) depth 20

  refresh_steps-Steady :
      (run_id : String) (run : RunLoad) (url : String)
      → Steady same_cms (refresh_steps p run_id run url)
  unfolding refresh_steps status_step emit_step
  refresh_steps-Steady run_id run url =
      search (steady_rules, fetch_article-Steady, analyse_gap-Steady, refresh_outline-Steady) depth
        40 fits 5000

  pub run_refresh_strategy-Steady :
      (run_id : String) (run : RunLoad) → Steady same_cms (run_refresh_strategy p run_id run)
  unfolding run_refresh_strategy
  run_refresh_strategy-Steady run_id run = by_url run.article_url
    where
      by_url :
          (o : Option String)
          → Steady same_cms {A = RunLoad} (elim o [
            | none ↦ throw_error ("refresh run " <> run_id <> " has no article_url")
            | some article_url ↦
                if str_eq article_url ""
                then throw_error ("refresh run " <> run_id <> " has no article_url")
                else refresh_steps p run_id run article_url
          ])
      by_url none = Steady-throw same_cms _
      by_url (some url) =
          Steady-if same_cms (str_eq url "") (Steady-throw same_cms _)
            (refresh_steps-Steady run_id run url)

pub apply_hitl1-Steady : (payload : Hitl1Payload) → Steady same_cms (apply_hitl1 payload)
unfolding apply_hitl1 apply_edits record_hitl1 edit_outline override_route
apply_hitl1-Steady payload = record { steady = λ w. ground arith }
