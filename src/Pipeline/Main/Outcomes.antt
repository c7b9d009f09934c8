-- ===== src/Pipeline/Main/Outcomes.antt =====
-- How a run of workflows/production.ts ends: the status that it leaves, and what it has sent by then.
use ai_content_workflow.Prelude.{
  ℕ, zero, suc, ◌+◌, refl, String, Bool, true, false, Option, none, some, List, arith,
  if◌then◌else◌, inl, inr, leb,
}
use ai_content_workflow.Json.{Json}
use ai_content_workflow.Run.{RunRow, Hitl1Payload, Hitl2Payload, Hitl2Decision, Status, is_refresh}
use ai_content_workflow.Pipeline.StepNames.{StepName}
use ai_content_workflow.Pipeline.World.{World}
use ai_content_workflow.Pipeline.Platform.{Platform}
use ai_content_workflow.Pipeline.Flow.{Flow, pure, emit_step, wait_hitl1, ◌>>◌}
use ai_content_workflow.Pipeline.Strategy.{RunLoad}
use ai_content_workflow.Pipeline.Frames.{
  same_cms, same_run, Steady, Steady-bind, Steady-pure, Steady-if, Steady-step, Steady-emit_step,
  Steady-status_step, steady_rules,
}
use ai_content_workflow.Pipeline.Outcomes.{
  HasStatus, EndsIn, Asked, Asks, Settled, Settles, ends_after, ends_before, ends_step, Asks-bind,
  Asked-bind, Asks-after, Asks-if, Settles-bind, Settles-after, Settles-published, Asks-ends,
  Asks-gate, wait_hitl1-Asked, wait_hitl2-Asked, Settles-gate, Settles-if, Asked-keeps,
}
use ai_content_workflow.Pipeline.Strategy.{no_payload, apply_hitl1}
use ai_content_workflow.Pipeline.Strategy.Steady.{
  load_run-Steady, run_create_strategy-Steady, run_refresh_strategy-Steady, apply_hitl1-Steady,
}
use ai_content_workflow.Pipeline.Production.Steady.{run_production_loop-Steady}
use ai_content_workflow.Pipeline.Publishing.Steady.{publish-EndsIn}
use ai_content_workflow.Pipeline.Main.{
  RescueGate, at_hitl_1, at_hitl_2, settle_hitl1, hitl1_gate, run_strategy, next_decision,
  write_compliance, approve_round, settle_hitl2, hitl2_rounds, from_hitl2, run_from, emit_rescued,
  run_pipeline, run, max_hitl2_rounds, build_reviewer_refine_notes, auto_approve,
}

-- A gate that ends the run says so in its status.
abbrev GoOn : Bool → Option RunRow → Type 0
GoOn true row = Unit
GoOn false row = HasStatus Status.changes_requested row

abbrev Cancelled : Bool → Option RunRow → Type 0
Cancelled true row = HasStatus Status.changes_requested row
Cancelled false row = Unit

apply_hitl1-EndsIn : (payload : Hitl1Payload) → EndsIn Cancelled (apply_hitl1 payload)
unfolding apply_hitl1
apply_hitl1-EndsIn payload = record { ends = λ w. ground arith }

module _ (p : Platform) where
  settle_hitl1-Asks :
      (run_id : String) (payload : Hitl1Payload) → Asks GoOn (settle_hitl1 p run_id payload)
  unfolding settle_hitl1
  settle_hitl1-Asks run_id payload =
      Asks-bind _
        (Asks-ends (Steady-step same_cms p StepName.apply_hitl1 (apply_hitl1-Steady payload))
          (ends_step p StepName.apply_hitl1 (apply_hitl1-EndsIn payload)))
        tell
    where
      tell :
          (cancelled : Bool) (w : World)
          → Cancelled cancelled w.run
          → Asked GoOn w (
              (if cancelled
                  then (emit_step p StepName.emit_completed_cancel run_id "graph.completed"
                        no_payload none
                      >> pure false)
                  else pure true)
                w)
      tell true w h =
          Asked-keeps (HasStatus Status.changes_requested) GoOn _
            (Steady-emit_step same_cms p StepName.emit_completed_cancel run_id "graph.completed"
              no_payload none)
            (Steady-emit_step same_run p StepName.emit_completed_cancel run_id "graph.completed"
              no_payload none)
            (λ x v q. (q, refl)) w h
      tell false w h = (tt, refl)

  hitl1_gate-Asks : (run_id : String) (run : RunLoad) → Asks GoOn (hitl1_gate p run_id run)
  unfolding hitl1_gate
  hitl1_gate-Asks run_id run =
      Asks-if run.auto_accept_hitl1
        (Asks-after
          (Steady-emit_step same_cms p StepName.emit_hitl1_auto run_id "hitl.auto_approved" _ none)
          λ _.
            Asks-after
              (Steady-step same_cms p StepName.apply_hitl1_auto (apply_hitl1-Steady auto_approve))
              λ _. record { asks = λ w. (tt, refl) })
        (Asks-bind _ (Asks-gate p StepName.gate_hitl1 run_id Status.hitl_1 "hitl.interrupted" _)
          λ _ w h.
            Asked-bind (λ x row. Unit) GoOn (wait_hitl1 StepName.await_hitl1)
              (settle_hitl1 p run_id) w (wait_hitl1-Asked StepName.await_hitl1 w h)
              (λ payload v _. (settle_hitl1-Asks run_id payload).asks v))

  run_strategy-Asks :
      (run_id : String) (run : RunLoad) → Asks (λ x. GoOn x.1) (run_strategy p run_id run)
  unfolding run_strategy
  run_strategy-Asks run_id run =
      Asks-after
        (Steady-if same_cms (is_refresh run.start_mode) (run_refresh_strategy-Steady p run_id run)
          (run_create_strategy-Steady p run_id run))
        λ run'.
          Asks-after
            (Steady-emit_step same_cms p StepName.emit_outline_done run_id "strategy.outline.done"
              no_payload none)
            λ _. Asks-bind _ (hitl1_gate-Asks run_id run') λ go_on w h. (h, refl)

  next_decision-Asks :
      (run_id : String) (run : RunLoad) (injected : Option Hitl2Payload) (iteration : ℕ)
      (notes : Option (List Json))
      → Asks (λ x row. Unit) (next_decision p run_id run injected iteration notes)
  unfolding next_decision
  next_decision-Asks run_id run (some payload) iteration notes = record { asks = λ w. (tt, refl) }
  next_decision-Asks run_id run none iteration notes =
      Asks-after (run_production_loop-Steady p run_id run iteration notes) λ _.
        Asks-bind _
          (Asks-gate p (StepName.gate_hitl2 iteration) run_id Status.hitl_2 "hitl.interrupted" _)
          λ _ w h. wait_hitl2-Asked (StepName.await_hitl2 iteration) w h

  write_compliance-Steady : (run_id : String) → Steady same_run (write_compliance p run_id)
  unfolding write_compliance
  write_compliance-Steady run_id = search steady_rules

  approve_round-EndsIn :
      (run_id : String) (run : RunLoad) (iteration : ℕ)
      → EndsIn (λ x. HasStatus Status.published) (approve_round p run_id run iteration)
  unfolding approve_round
  approve_round-EndsIn run_id run iteration =
      ends_after same_cms
        (Steady-status_step p (StepName.status_publishing iteration) Status.publishing)
        λ _.
          ends_after same_cms
            (Steady-emit_step same_cms p (StepName.emit_publish_start iteration) run_id
              "publish.publish.start" no_payload none)
            λ _. ends_before (publish-EndsIn p run_id run) λ _.
              Steady-bind same_run
                (Steady-emit_step same_run p (StepName.emit_publish_done iteration) run_id
                  "publish.publish.done" no_payload none)
                λ _.
                  Steady-bind same_run
                    (Steady-step same_run p StepName.compliance (write_compliance-Steady run_id))
                    λ _.
                      Steady-emit_step same_run p StepName.emit_completed_approve run_id
                        "graph.completed" no_payload none

  settle_hitl2-Settles :
      (run_id : String) (run : RunLoad) (iteration : ℕ) (revise : Flow (Unit {0}))
      → Settles revise
      → (decision : Hitl2Decision) → Settles (settle_hitl2 p run_id run iteration revise decision)
  unfolding settle_hitl2
  settle_hitl2-Settles run_id run iteration revise next Hitl2Decision.approve =
      Settles-published (approve_round-EndsIn run_id run iteration)
  settle_hitl2-Settles run_id run iteration revise next Hitl2Decision.reject =
      Settles-gate p StepName.gate_rejected run_id Status.rejected "graph.completed" no_payload
        (inl refl)
  settle_hitl2-Settles run_id run iteration revise next Hitl2Decision.request_changes =
      Settles-if (leb max_hitl2_rounds iteration)
        (Settles-gate p StepName.gate_changes_requested run_id Status.changes_requested
          "graph.completed" no_payload (inr refl))
        (Settles-after
          (Steady-status_step p (StepName.status_revising (iteration + 1)) Status.revising)
          λ _. next)

  hitl2_rounds-Settles :
      (fuel : ℕ) (run_id : String) (run : RunLoad) (injected : Option Hitl2Payload) (iteration : ℕ)
      (notes : Option (List Json))
      → Settles (hitl2_rounds p fuel run_id run injected iteration notes)
  unfolding hitl2_rounds
  hitl2_rounds-Settles zero run_id run injected iteration notes = record { settles = λ w. tt }
  hitl2_rounds-Settles (suc fuel) run_id run injected iteration notes = record {
    settles =
        (Settles-bind _ (next_decision-Asks run_id run injected iteration notes) λ payload w h.
          (settle_hitl2-Settles run_id run iteration _
              (hitl2_rounds-Settles fuel run_id run none (iteration + 1)
                (some (build_reviewer_refine_notes payload)))
              payload.decision).settles
            w).settles;
  }

  from_hitl2-Settled :
      (run_id : String) (run : RunLoad) (go_on : Bool) (injected : Option Hitl2Payload)
      (iteration : ℕ) (w : World)
      → GoOn go_on w.run
      → Settled w (from_hitl2 p run_id run go_on injected iteration w)
  unfolding from_hitl2
  from_hitl2-Settled run_id run false injected iteration w h = inr (inr h, refl)
  from_hitl2-Settled run_id run true injected iteration w h =
      (hitl2_rounds-Settles (max_hitl2_rounds + 1) run_id run injected iteration none).settles w

  run_from-Settles :
      (run_id : String) (run : RunLoad) (rescue : Option RescueGate)
      → Settles (run_from p run_id run rescue)
  unfolding run_from
  run_from-Settles run_id run none =
      Settles-bind _ (run_strategy-Asks run_id run) λ s. from_hitl2-Settled run_id s.0 s.1 none 0
  run_from-Settles run_id run (some (at_hitl_1 payload)) =
      Settles-bind _ (settle_hitl1-Asks run_id payload)
        λ go_on. from_hitl2-Settled run_id run go_on none 0
  run_from-Settles run_id run (some (at_hitl_2 payload iteration)) = record {
    settles = λ w. from_hitl2-Settled run_id run true (some payload) iteration w tt;
  }

  emit_rescued-Steady :
      (run_id : String) (rescue : Option RescueGate)
      → Steady same_cms (emit_rescued p run_id rescue)
  unfolding emit_rescued
  emit_rescued-Steady run_id none = Steady-pure same_cms tt
  emit_rescued-Steady run_id (some gate) =
      Steady-emit_step same_cms p StepName.emit_rescued run_id "graph.rescued" _ none

  pub run_pipeline-Settles :
      (run_id : String) (rescue : Option RescueGate) → Settles (run_pipeline p run_id rescue)
  unfolding run_pipeline
  run_pipeline-Settles run_id rescue =
      Settles-after (Steady-step same_cms p StepName.load_run (load_run-Steady p run_id)) λ run.
        Settles-after (emit_rescued-Steady run_id rescue) λ _. run_from-Settles run_id run rescue
