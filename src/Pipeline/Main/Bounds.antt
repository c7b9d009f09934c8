-- ===== src/Pipeline/Main/Bounds.antt =====
-- The bounds of a whole run of workflows/production.ts: steps, requests to the CMS, and fuel.
use ai_content_workflow.Prelude.{
  ℕ, zero, suc, ◌+◌, ◌*◌, ◌≤◌, ◌≡◌, String, Bool, true, false, Option, none, some, List, arith, inl,
  inr, leb, Bool-cases,
}
use ai_content_workflow.Json.{Json}
use ai_content_workflow.Run.{Hitl1Payload, Hitl2Payload, Hitl2Decision, is_refresh}
use ai_content_workflow.Publish.Failure.{Failure, err}
use ai_content_workflow.Pipeline.StepNames.{StepName}
use ai_content_workflow.Pipeline.Platform.{Platform}
use ai_content_workflow.Pipeline.Flow.{
  Exit, done, threw, parked, out_of_fuel, Flow, status_step, emit_step, gate_step,
}
use ai_content_workflow.Pipeline.Strategy.{RunLoad}
use ai_content_workflow.Pipeline.Bounds.{
  Below-mono, Ends, Bounded, keep_if, keep_bind, then_plain, then_step, keep_pure, quiet_rules,
  keep_step, keep_lift, weaken, weaken_cms, keep_wait_hitl1, keep_wait_hitl2,
}
use ai_content_workflow.Pipeline.Strategy.Bounds.{
  load_run-Quiet, keep_run_create_strategy, keep_run_refresh_strategy, apply_hitl1-Quiet,
}
use ai_content_workflow.Pipeline.Production.Bounds.{keep_run_production_loop}
use ai_content_workflow.Pipeline.Publishing.Bounds.{keep_publish}
use ai_content_workflow.Pipeline.Main.{
  RescueGate, at_hitl_1, at_hitl_2, settle_hitl1, hitl1_gate, run_strategy, next_decision,
  write_compliance, approve_round, settle_hitl2, hitl2_rounds, from_hitl2, run_from, emit_rescued,
  run_pipeline, fail_run, catch_failure, run, max_hitl2_rounds, build_reviewer_refine_notes,
  auto_approve,
}

-- The round that a run enters the second gate with.
abbrev pub first_round : Option RescueGate → ℕ
first_round (some (at_hitl_2 payload iteration)) = iteration
first_round _ = 0

module _ (limit : ℕ) (p : Platform) where
  keep_settle_hitl1 :
      (run_id : String) (payload : Hitl1Payload)
      → Bounded limit 0 15 20 (settle_hitl1 p run_id payload)
  unfolding settle_hitl1 emit_step
  keep_settle_hitl1 run_id payload =
      then_plain p StepName.apply_hitl1 (omega arith) (apply_hitl1-Quiet limit payload) λ cancelled.
        keep_if limit cancelled 0 16 20
          (then_plain p StepName.emit_completed_cancel (omega arith) (search quiet_rules)
            λ _. keep_pure limit false _ 20 (omega arith))
          (keep_pure limit true _ 20 (omega arith))

  keep_hitl1_gate :
      (run_id : String) (run : RunLoad) → Bounded limit 0 13 20 (hitl1_gate p run_id run)
  unfolding hitl1_gate emit_step gate_step
  keep_hitl1_gate run_id run =
      keep_if limit run.auto_accept_hitl1 0 13 20
        (then_plain p StepName.emit_hitl1_auto (omega arith) (search quiet_rules) λ _.
          then_plain p StepName.apply_hitl1_auto (omega arith)
            (apply_hitl1-Quiet limit auto_approve) λ _. keep_pure limit true _ 20 (omega arith))
        (then_plain p StepName.gate_hitl1 (omega arith) (search quiet_rules) λ _.
          keep_bind limit 0 0 _ 15 20 (omega arith)
            (keep_wait_hitl1 limit StepName.await_hitl1 _ _ (omega arith) (omega arith))
            λ payload. keep_settle_hitl1 run_id payload)

  keep_run_strategy :
      (run_id : String) (run : RunLoad) → Bounded limit 0 2 20 (run_strategy p run_id run)
  unfolding run_strategy emit_step
  keep_run_strategy run_id run =
      keep_bind limit 0 0 2 12 20 (omega arith)
        (keep_if limit (is_refresh run.start_mode) 0 2 12
          (keep_run_refresh_strategy limit p run_id run)
          (keep_run_create_strategy limit p run_id run))
        λ run'. then_plain p StepName.emit_outline_done (omega arith) (search quiet_rules) λ _.
          keep_bind limit 0 0 13 20 20 (omega arith) (keep_hitl1_gate run_id run')
            λ go_on. keep_pure limit _ 20 20 (omega arith)

  keep_next_decision :
      (run_id : String) (run : RunLoad) (injected : Option Hitl2Payload) (iteration : ℕ)
      (notes : Option (List Json))
      → Bounded limit 0
          (20 + 60 * iteration)
          (63 + 60 * iteration)
          (next_decision p run_id run injected iteration notes)
  unfolding next_decision gate_step
  keep_next_decision run_id run (some payload) iteration notes =
      keep_pure limit payload _ _ (omega arith)
  keep_next_decision run_id run none iteration notes =
      keep_bind limit 0 0 _ (61 + 60 * iteration) _ (omega arith)
        (keep_run_production_loop limit p run_id run iteration notes)
        λ _. then_plain p (StepName.gate_hitl2 iteration) (omega arith) (search quiet_rules) λ _.
          keep_wait_hitl2 limit (StepName.await_hitl2 iteration) _ _ (omega arith) (omega arith)

  keep_approve_round :
      (run_id : String) (run : RunLoad) (iteration : ℕ)
      → Bounded limit 1 (100 + 60 * limit) (107 + 60 * limit) (approve_round p run_id run iteration)
  unfolding approve_round status_step emit_step write_compliance
  keep_approve_round run_id run iteration =
      then_step limit p (StepName.status_publishing iteration) 0 1 _ _ (omega arith) (omega arith)
        (search quiet_rules)
        λ _.
          then_step limit p (StepName.emit_publish_start iteration) 0 1 _ _ (omega arith)
            (omega arith) (search quiet_rules)
            λ _.
              keep_bind limit 1 0 _ (104 + 60 * limit) _ (omega arith)
                (weaken limit 1 (102 + 60 * limit) (104 + 60 * limit) _ _ (omega arith)
                  (omega arith) (keep_publish limit p run_id run))
                λ _.
                  then_plain p (StepName.emit_publish_done iteration) (omega arith)
                    (search quiet_rules)
                    λ _. then_plain p StepName.compliance (omega arith) (search quiet_rules) λ _.
                      keep_step limit p StepName.emit_completed_approve 0 _ _ (omega arith)
                        (omega arith) (search quiet_rules)

  keep_settle_hitl2 :
      (run_id : String) (run : RunLoad) (iteration : ℕ) (revise : Flow (Unit {0}))
      → iteration ≤ limit
      → max_hitl2_rounds ≤ limit
      → (leb max_hitl2_rounds iteration ≡ false
          → Bounded limit 1 (20 + 60 * (iteration + 1)) (107 + 60 * limit) revise)
      → (decision : Hitl2Decision)
      → Bounded limit 1
          (63 + 60 * iteration)
          (107 + 60 * limit)
          (settle_hitl2 p run_id run iteration revise decision)
  unfolding settle_hitl2 gate_step status_step
  keep_settle_hitl2 run_id run iteration revise small large next Hitl2Decision.approve =
      weaken limit 1 _ _ _ _ (omega (arith, small)) (omega arith)
        (keep_approve_round run_id run iteration)
  keep_settle_hitl2 run_id run iteration revise small large next Hitl2Decision.reject =
      weaken_cms limit _ _ (
        keep_step limit p StepName.gate_rejected 0 _ _ (omega (arith, small)) (omega arith)
          (search quiet_rules))
  keep_settle_hitl2 run_id run iteration revise small large next Hitl2Decision.request_changes =
      elim (Bool-cases (leb max_hitl2_rounds iteration)) [
        | inl last ↦ rw last (
            weaken_cms limit _ _ (
              keep_step limit p StepName.gate_changes_requested 0 _ _ (omega (arith, small))
                (omega arith) (search quiet_rules)))
        | inr more ↦ rw more (
            then_step limit p (StepName.status_revising (iteration + 1)) 0 1 _ _ (omega arith)
              (ground (arith, more, large)) (search quiet_rules)
              λ _.
                weaken limit 1 (20 + 60 * (iteration + 1)) (107 + 60 * limit) _ _ (omega arith)
                  (omega arith) (next more))
      ]

  -- The rounds left are bounded by the fuel, wherever they start.
  keep_hitl2_rounds :
      (fuel : ℕ) (run_id : String) (run : RunLoad) (injected : Option Hitl2Payload) (iteration : ℕ)
      (notes : Option (List Json))
      → max_hitl2_rounds + 1 ≤ fuel + iteration
      → 1 ≤ fuel
      → iteration ≤ limit
      → max_hitl2_rounds ≤ limit
      → Bounded limit 1
          (20 + 60 * iteration)
          (107 + 60 * limit)
          (hitl2_rounds p fuel run_id run injected iteration notes)
  unfolding hitl2_rounds
  keep_hitl2_rounds zero run_id run injected iteration notes enough some_fuel small large =
      absurd (omega (arith, some_fuel))
  keep_hitl2_rounds (suc fuel) run_id run injected iteration notes enough some_fuel small large =
      record {
        sound =
            (keep_bind limit 0 1 _ (63 + 60 * iteration) _ (omega (arith, small))
              (keep_next_decision run_id run injected iteration notes)
              λ payload.
                keep_settle_hitl2 run_id run iteration _ small large
                  (λ more.
                    keep_hitl2_rounds fuel run_id run none (iteration + 1)
                      (some (build_reviewer_refine_notes payload)) (omega (arith, enough))
                      (ground (arith, more, enough)) (ground (arith, more, large)) large)
                  payload.decision).sound;
      }

  keep_from_hitl2 :
      (run_id : String) (run : RunLoad) (go_on : Bool) (injected : Option Hitl2Payload)
      (iteration : ℕ)
      → iteration ≤ limit
      → max_hitl2_rounds ≤ limit
      → Bounded limit 1 20 (107 + 60 * limit) (from_hitl2 p run_id run go_on injected iteration)
  unfolding from_hitl2
  keep_from_hitl2 run_id run false injected iteration small large =
      weaken_cms limit _ _ (keep_pure limit tt _ _ (omega arith))
  keep_from_hitl2 run_id run true injected iteration small large =
      weaken limit 1 (20 + 60 * iteration) _ _ _ (omega arith) (omega arith) (
        keep_hitl2_rounds (max_hitl2_rounds + 1) run_id run injected iteration none (omega arith)
          (omega arith) small large)

  keep_run_from :
      (run_id : String) (run : RunLoad) (rescue : Option RescueGate)
      → first_round rescue ≤ limit
      → max_hitl2_rounds ≤ limit
      → Bounded limit 1 2 (107 + 60 * limit) (run_from p run_id run rescue)
  unfolding run_from
  keep_run_from run_id run none small large =
      keep_bind limit 0 1 2 20 _ (omega arith) (keep_run_strategy run_id run)
        λ strategy. keep_from_hitl2 run_id strategy.0 strategy.1 none 0 (omega arith) large
  keep_run_from run_id run (some (at_hitl_1 payload)) small large =
      keep_bind limit 0 1 2 20 _ (omega arith)
        (weaken limit 0 15 20 _ _ (omega arith) (omega arith) (keep_settle_hitl1 run_id payload))
        λ go_on. keep_from_hitl2 run_id run go_on none 0 (omega arith) large
  keep_run_from run_id run (some (at_hitl_2 payload iteration)) small large =
      weaken limit 1 20 (107 + 60 * limit) _ _ (omega arith) (omega arith)
        (keep_from_hitl2 run_id run true (some payload) iteration small large)

  keep_emit_rescued :
      (run_id : String) (rescue : Option RescueGate)
      → Bounded limit 0 1 2 (emit_rescued p run_id rescue)
  unfolding emit_rescued emit_step
  keep_emit_rescued run_id none = keep_pure limit tt _ _ (omega arith)
  keep_emit_rescued run_id (some gate) =
      keep_step limit p StepName.emit_rescued 0 _ _ (omega arith) (omega arith) (search quiet_rules)

  keep_run_pipeline :
      (run_id : String) (rescue : Option RescueGate)
      → first_round rescue ≤ limit
      → max_hitl2_rounds ≤ limit
      → Bounded limit 1 0 (107 + 60 * limit) (run_pipeline p run_id rescue)
  unfolding run_pipeline
  keep_run_pipeline run_id rescue small large =
      then_step limit p StepName.load_run 0 1 _ _ (omega arith) (omega arith)
        (load_run-Quiet limit p run_id)
        λ run.
          keep_bind limit 0 1 1 2 _ (omega arith) (keep_emit_rescued run_id rescue)
            λ _. keep_run_from run_id run rescue small large

  keep_fail_run :
      (run_id : String) (e : Failure)
      → Bounded limit 0 (107 + 60 * limit) (109 + 60 * limit) (fail_run p run_id e)
  unfolding fail_run emit_step
  keep_fail_run run_id e =
      then_plain p StepName.on_error_persist (omega arith) (search quiet_rules) λ _.
        then_plain p StepName.emit_graph_error (omega arith) (search quiet_rules)
          λ _. keep_lift limit (err e) _ _ (omega arith)

  keep_catch_failure :
      (run_id : String) (out : Exit (Unit {0}))
      → Ends out
      → Bounded limit 0 (107 + 60 * limit) (109 + 60 * limit) (catch_failure p run_id out)
  unfolding catch_failure
  keep_catch_failure run_id (threw e) ends = record { sound = (keep_fail_run run_id e).sound }
  keep_catch_failure run_id (done a) ends = record {
    sound = λ w below. (Below-mono limit _ _ w.labels (omega arith) below, omega arith, tt);
  }
  keep_catch_failure run_id parked ends = record {
    sound = λ w below. (Below-mono limit _ _ w.labels (omega arith) below, omega arith, tt);
  }
  keep_catch_failure run_id out_of_fuel ends = absurd ends

  pub keep_run :
      (run_id : String) (rescue : Option RescueGate)
      → first_round rescue ≤ limit
      → max_hitl2_rounds ≤ limit
      → Bounded limit 1 0 (109 + 60 * limit) (run p run_id rescue)
  unfolding run
  keep_run run_id rescue small large = record {
    sound = λ w below.
        let s = (keep_run_pipeline run_id rescue small large).sound w below in
        let out = run_pipeline p run_id rescue w in
        let t = (keep_catch_failure run_id out.0 s.2).sound out.1 s.0 in
        (t.0, omega (arith, s.1, t.1), t.2);
  }
