-- ===== src/Pipeline/Production/Bounds.antt =====
-- The bounds of the production loop of workflows/production.ts.
use ai_content_workflow.Prelude.{
  ℕ, zero, suc, ◌+◌, ◌*◌, ◌-◌, ◌≤◌, ◌≡◌, refl, String, Bool, true, false, ◌||◌, Option, List, arith,
  if◌then◌else◌, inl, inr, leb, Bool-cases,
}
use ai_content_workflow.Json.{Json}
use ai_content_workflow.Pipeline.StepNames.{StepName}
use ai_content_workflow.Pipeline.Platform.{Platform, WriterResult}
use ai_content_workflow.Pipeline.Flow.{pure, status_step, emit_step}
use ai_content_workflow.Pipeline.Strategy.{RunLoad}
use ai_content_workflow.Pipeline.Bounds.{
  Bounded, Quiet, keep_if, keep_bind, then_plain, keep_pure, quiet_rules, keep_step, keep_gets,
  weaken,
}
use ai_content_workflow.Pipeline.Production.{
  save_draft, run_writer, load_draft_markup, run_citations, load_final_markup, save_render,
  run_render, load_render, save_audit, run_audit, emit_citations_outcome, production_pass,
  production_rounds, run_production_loop, max_iterations,
}

module _ (limit : ℕ) (p : Platform) where
  save_draft-Quiet :
      (iteration : ℕ) (out : WriterResult) → Quiet limit 0 (save_draft p iteration out)
  unfolding save_draft
  save_draft-Quiet iteration out n = record { sound = λ w below. (below, omega arith, tt) }

  run_writer-Quiet :
      (run_id : String) (run : RunLoad) (iteration : ℕ) (notes : Option (List Json))
      → Quiet limit 0 (run_writer p run_id run iteration notes)
  unfolding run_writer
  run_writer-Quiet run_id run iteration notes = search (quiet_rules, save_draft-Quiet) depth 20

  run_citations-Quiet : (run : RunLoad) (id : ℕ) → Quiet limit 0 (run_citations p run id)
  unfolding run_citations load_draft_markup
  run_citations-Quiet run id = search quiet_rules depth 20

  run_render-Quiet : (run : RunLoad) (id : ℕ) → Quiet limit 0 (run_render p run id)
  unfolding run_render load_final_markup save_render
  run_render-Quiet run id = search quiet_rules depth 20

  run_audit-Quiet :
      (run_id : String) (run : RunLoad) (id : ℕ) → Quiet limit 0 (run_audit p run_id run id)
  unfolding run_audit load_render load_draft_markup save_audit
  run_audit-Quiet run_id run id = search quiet_rules depth 20

  keep_emit_citations_outcome :
      (run_id : String) (round iteration : ℕ) (outcome : Json × ℕ)
      → Bounded limit 0
          (26 + 60 * round + 20 * iteration)
          (28 + 60 * round + 20 * iteration)
          (emit_citations_outcome p run_id round iteration outcome)
  unfolding emit_citations_outcome emit_step
  keep_emit_citations_outcome run_id round iteration outcome =
      then_plain p (StepName.emit_citations_done round iteration) (omega arith) (search quiet_rules)
        λ _.
          keep_if limit _ 0 _ _
            (keep_step limit p (StepName.emit_citations_empty round iteration) 0 _ _ (omega arith)
              (omega arith) (search quiet_rules))
            (keep_pure limit _ _ _ (omega arith))

  -- A pass starts its steps in order.
  keep_production_pass :
      (run_id : String) (run : RunLoad) (round iteration : ℕ) (notes : Option (List Json))
      → Bounded limit 0
          (21 + 60 * round + 20 * iteration)
          (34 + 60 * round + 20 * iteration)
          (production_pass p run_id run round iteration notes)
  unfolding production_pass emit_step
  keep_production_pass run_id run round iteration notes =
      then_plain p (StepName.emit_writer_start round iteration) (omega arith) (search quiet_rules)
        λ _.
          then_plain p (StepName.writer round iteration) (omega arith)
            (run_writer-Quiet run_id run iteration notes)
            λ id.
              then_plain p (StepName.emit_writer_done round iteration) (omega arith)
                (search quiet_rules)
                λ _.
                  then_plain p (StepName.emit_citations_start round iteration) (omega arith)
                    (search quiet_rules)
                    λ _.
                      then_plain p (StepName.resolve_citations round iteration) (omega arith)
                        (run_citations-Quiet run id)
                        λ outcome.
                          keep_bind limit 0 0 _ (28 + 60 * round + 20 * iteration) _ (omega arith)
                            (weaken limit 0 _ _ _ _ (omega arith) (omega arith)
                              (keep_emit_citations_outcome run_id round iteration outcome))
                            λ _.
                              then_plain p (StepName.emit_render_start round iteration)
                                (omega arith) (search quiet_rules)
                                λ _.
                                  then_plain p (StepName.render round iteration) (omega arith)
                                    (run_render-Quiet run id)
                                    λ _.
                                      then_plain p (StepName.emit_render_done round iteration)
                                        (omega arith) (search quiet_rules)
                                        λ _.
                                          then_plain p (StepName.emit_audit_start round iteration)
                                            (omega arith) (search quiet_rules)
                                            λ _.
                                              then_plain p (StepName.audit round iteration)
                                                (omega arith) (run_audit-Quiet run_id run id)
                                                λ pass.
                                                  then_plain p
                                                    (StepName.emit_audit_done round iteration)
                                                    (omega arith) (search quiet_rules)
                                                    λ _. keep_pure limit pass _ _ (omega arith)

  -- From iteration `iteration` on, `max_iterations - iteration` passes of fuel are enough.
  keep_production_rounds :
      (fuel : ℕ) (run_id : String) (run : RunLoad) (round iteration : ℕ)
      (notes : Option (List Json))
      → (fuel + iteration ≡ max_iterations)
      → 1 ≤ fuel
      → Bounded limit 0
          (21 + 60 * round + 20 * iteration)
          (61 + 60 * round)
          (production_rounds p fuel run_id run round iteration notes)
  unfolding production_rounds
  keep_production_rounds zero run_id run round iteration notes enough some_fuel =
      absurd (omega (arith, some_fuel))
  keep_production_rounds (suc fuel) run_id run round iteration notes enough some_fuel = record {
    sound =
        (keep_bind limit 0 0 _ (21 + 60 * round + 20 * iteration) _ (omega arith)
          (keep_gets limit _ _ _ (omega arith))
          λ refine_notes.
            keep_bind limit 0 0 _ (34 + 60 * round + 20 * iteration) _ (omega arith)
              (keep_production_pass run_id run round iteration refine_notes)
              λ pass. finish pass λ more.
                weaken limit 0 (21 + 60 * round + 20 * (iteration + 1)) (61 + 60 * round) _ _
                  (omega arith) (omega arith)
                  (keep_production_rounds fuel run_id run round (iteration + 1) notes
                    (omega (arith, enough)) (ground (arith, more)))).sound;
  }
    where
      finish :
          (pass : Bool)
          → ((leb (max_iterations - 1) iteration ≡ false)
              → Bounded limit 0
                  (34 + 60 * round + 20 * iteration)
                  (61 + 60 * round)
                  (production_rounds p fuel run_id run round (iteration + 1) notes))
          → Bounded limit 0 (34 + 60 * round + 20 * iteration) (61 + 60 * round) (
              if pass || leb (max_iterations - 1) iteration
              then pure tt
              else production_rounds p fuel run_id run round (iteration + 1) notes)
      finish true rest = keep_pure limit tt _ _ (omega arith)
      finish false rest = elim (Bool-cases (leb (max_iterations - 1) iteration)) [
        | inl last ↦ rw last (keep_pure limit tt _ _ (omega arith))
        | inr more ↦ rw more (rest more)
      ]

  pub keep_run_production_loop :
      (run_id : String) (run : RunLoad) (round : ℕ) (notes : Option (List Json))
      → Bounded limit 0
          (20 + 60 * round)
          (61 + 60 * round)
          (run_production_loop p run_id run round notes)
  unfolding run_production_loop status_step
  keep_run_production_loop run_id run round notes =
      then_plain p (StepName.status_production round) (omega arith) (search quiet_rules) λ _.
        weaken limit 0 (21 + 60 * round + 20 * 0) (61 + 60 * round) _ _ (omega arith) (omega arith)
          (keep_production_rounds max_iterations run_id run round 0 notes refl (omega arith))
