-- ===== src/Pipeline/Production/Steady.antt =====
-- The production loop of workflows/production.ts never parks and sends nothing to the CMS.
use ai_content_workflow.Prelude.{ℕ, zero, suc, ◌+◌, ◌-◌, refl, String, ◌||◌, Option, List, leb}
use ai_content_workflow.Json.{Json}
use ai_content_workflow.Pipeline.Platform.{Platform, WriterResult}
use ai_content_workflow.Pipeline.Flow.{status_step, emit_step}
use ai_content_workflow.Pipeline.Strategy.{RunLoad}
use ai_content_workflow.Pipeline.Frames.{
  same_cms, Steady, Steady-bind, Steady-pure, Steady-gets, Steady-if, steady_rules,
}
use ai_content_workflow.Pipeline.Drafts.{build_refine_notes}
use ai_content_workflow.Pipeline.Production.{
  save_draft, run_writer, load_draft_markup, run_citations, load_final_markup, save_render,
  run_render, load_render, save_audit, run_audit, emit_citations_outcome, production_pass,
  production_rounds, run_production_loop, max_iterations,
}

module _ (p : Platform) where
  save_draft-Steady :
      (iteration : ℕ) (out : WriterResult) → Steady same_cms (save_draft p iteration out)
  unfolding save_draft
  save_draft-Steady iteration out = record { steady = λ w. ((λ x. x), refl) }

  run_writer-Steady :
      (run_id : String) (run : RunLoad) (iteration : ℕ) (notes : Option (List Json))
      → Steady same_cms (run_writer p run_id run iteration notes)
  unfolding run_writer
  run_writer-Steady run_id run iteration notes = search (steady_rules, save_draft-Steady) depth 20

  run_citations-Steady : (run : RunLoad) (id : ℕ) → Steady same_cms (run_citations p run id)
  unfolding run_citations load_draft_markup
  run_citations-Steady run id = search steady_rules depth 20

  run_render-Steady : (run : RunLoad) (id : ℕ) → Steady same_cms (run_render p run id)
  unfolding run_render load_final_markup save_render
  run_render-Steady run id = search steady_rules depth 20

  run_audit-Steady :
      (run_id : String) (run : RunLoad) (id : ℕ) → Steady same_cms (run_audit p run_id run id)
  unfolding run_audit load_render load_draft_markup save_audit
  run_audit-Steady run_id run id = search steady_rules depth 20

  production_pass-Steady :
      (run_id : String) (run : RunLoad) (round iteration : ℕ) (notes : Option (List Json))
      → Steady same_cms (production_pass p run_id run round iteration notes)
  unfolding production_pass emit_step emit_citations_outcome
  production_pass-Steady run_id run round iteration notes =
      search
        (steady_rules, run_writer-Steady, run_citations-Steady, run_render-Steady, run_audit-Steady)
        depth 40 fits 5000

  production_rounds-Steady :
      (fuel : ℕ) (run_id : String) (run : RunLoad) (round iteration : ℕ)
      (notes : Option (List Json))
      → Steady same_cms (production_rounds p fuel run_id run round iteration notes)
  unfolding production_rounds
  production_rounds-Steady zero run_id run round iteration notes = record {
    steady = λ w. ((λ x. x), refl);
  }
  production_rounds-Steady (suc fuel) run_id run round iteration notes = record {
    steady =
        (Steady-bind same_cms (Steady-gets same_cms (build_refine_notes iteration _))
          λ refine_notes.
            Steady-bind same_cms (production_pass-Steady run_id run round iteration refine_notes)
              λ pass.
                Steady-if same_cms (pass || leb (max_iterations - 1) iteration)
                  (Steady-pure same_cms tt)
                  (production_rounds-Steady fuel run_id run round (iteration + 1) notes)).steady;
  }

  pub run_production_loop-Steady :
      (run_id : String) (run : RunLoad) (round : ℕ) (notes : Option (List Json))
      → Steady same_cms (run_production_loop p run_id run round notes)
  unfolding run_production_loop status_step
  run_production_loop-Steady run_id run round notes =
      search (steady_rules, production_rounds-Steady)
