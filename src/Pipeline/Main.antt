-- ===== src/Pipeline/Main.antt =====
-- `run` and `runPipeline` of workflows/production.ts: the gates, the rounds of revision, and the
-- handler of a failure.
pub mod Bounds
pub mod Outcomes
pub mod Runs
pub mod Examples
mod Tests
use ai_content_workflow.Prelude.{
  ℕ, zero, suc, ◌+◌, String, Bool, true, false, Option, none, some, List, [], ◌∷◌, ◌++◌, map,
  str_eq, leb, if◌then◌else◌, length, ◌<>◌,
}
use ai_content_workflow.Json.{
  Json, bool, str, arr, obj, nil, cons, end, field, elements, get_field, Fields,
}
use ai_content_workflow.Run.{
  Status, is_refresh, Hitl1Decision, Hitl2Decision, Hitl1Payload, Hitl2Payload,
}
use ai_content_workflow.Publish.Failure.{Failure, err}
use ai_content_workflow.Pipeline.StepNames.{StepName}
use ai_content_workflow.Pipeline.World.{update_run}
use ai_content_workflow.Pipeline.Platform.{Platform}
use ai_content_workflow.Pipeline.Flow.{
  Exit, done, threw, parked, out_of_fuel, Flow, pure, lift, gets, modify, ◌>>=◌, ◌>>◌, do_step,
  status_step, emit_step, gate_step, wait_hitl1, wait_hitl2,
}
use ai_content_workflow.Pipeline.Strategy.{
  RunLoad, no_payload, load_run, run_refresh_strategy, run_create_strategy, apply_hitl1,
}
use ai_content_workflow.Pipeline.Production.{run_production_loop}
use ai_content_workflow.Pipeline.Publishing.{publish}

abbrev pub max_hitl2_rounds : ℕ
max_hitl2_rounds = 3

-- The gate that a run is adopted at, with the decision that was already claimed.
pub data RescueGate : Type 0 where
  at_hitl_1 : Hitl1Payload → RescueGate
  at_hitl_2 : Hitl2Payload → ℕ → RescueGate

abbrev pub gate_name : RescueGate → String
gate_name (at_hitl_1 payload) = "hitl_1"
gate_name (at_hitl_2 payload iteration) = "hitl_2"

text_of : String → Fields → String
unfolding get_field
text_of key fs = elim (get_field key fs) [ some (str s) ↦ s | _ ↦ "undefined" ]

reviewer_note : String → Json
reviewer_note issue = obj (
    field "source" (str "reviewer") (
      field "severity" (str "high") (field "must_fix" (bool true) (field "issue" (str issue) end))))

comment_note : Json → Json
unfolding text_of reviewer_note
comment_note (obj fs) =
    reviewer_note ("On span \"" <> text_of "anchor_text" fs <> "\": " <> text_of "comment" fs)
comment_note _ = reviewer_note "On span \"undefined\": undefined"

overall_note : Option String → List Json
unfolding reviewer_note
overall_note none = []
overall_note (some notes) =
    if str_eq notes "" then [] else reviewer_note ("Overall reviewer note: " <> notes) ∷ []

comments_of : Option Json → List Json
unfolding elements
comments_of (some (arr xs)) = elements xs
comments_of _ = []

unfoldable pub build_reviewer_refine_notes : Hitl2Payload → List Json
unfolding comment_note overall_note comments_of
build_reviewer_refine_notes payload =
    map comment_note (comments_of payload.comments) ++ overall_note payload.notes

-- `{ next: [name] }`
abbrev next_payload : String → Json
next_payload name = obj (field "next" (arr (cons (str name) nil)) end)

abbrev auto_approve : Hitl1Payload
auto_approve = record {
  decision = Hitl1Decision.approve;
  notes = none;
  edited_outline = none;
  new_route = none;
}

module _ (p : Platform) where
  -- Applies the decision at the outline gate; `false` when it ends the run.
  settle_hitl1 : String → Hitl1Payload → Flow Bool
  unfolding ◌>>=◌
  settle_hitl1 run_id payload = do
    cancelled ← do_step p StepName.apply_hitl1 (apply_hitl1 payload)
    if cancelled
        then (emit_step p StepName.emit_completed_cancel run_id "graph.completed" no_payload none
            >> pure false)
        else pure true

  hitl1_gate : String → RunLoad → Flow Bool
  unfolding ◌>>=◌ settle_hitl1
  hitl1_gate run_id run =
      if run.auto_accept_hitl1
      then (emit_step p StepName.emit_hitl1_auto run_id "hitl.auto_approved"
            (obj (field "gate" (str "hitl_1") end)) none
          >> (do_step p StepName.apply_hitl1_auto (apply_hitl1 auto_approve) >>= λ _. pure true))
      else (gate_step p StepName.gate_hitl1 run_id Status.hitl_1 "hitl.interrupted"
            (next_payload "production")
          >> (wait_hitl1 StepName.await_hitl1 >>= settle_hitl1 run_id))

  -- Strategy, outline and the first gate of a run that is not rescued.
  run_strategy : String → RunLoad → Flow (RunLoad × Bool)
  unfolding ◌>>=◌ hitl1_gate
  run_strategy run_id run = do
    run' ←
        if is_refresh run.start_mode
        then run_refresh_strategy p run_id run
        else run_create_strategy p run_id run
    emit_step p StepName.emit_outline_done run_id "strategy.outline.done" no_payload none
    go_on ← hitl1_gate run_id run'
    pure (run', go_on)

  -- The decision of this round: the injected one, or the one that the gate waits for.
  next_decision :
      String → RunLoad → Option Hitl2Payload → ℕ → Option (List Json) → Flow Hitl2Payload
  unfolding ◌>>=◌
  next_decision run_id run (some payload) iteration notes = pure payload
  next_decision run_id run none iteration notes = do
    run_production_loop p run_id run iteration notes
    gate_step p (StepName.gate_hitl2 iteration) run_id Status.hitl_2 "hitl.interrupted"
        (next_payload "publish_or_revise")
    wait_hitl2 (StepName.await_hitl2 iteration)

  -- The row of the compliance log is written by compliance/log.ts.
  write_compliance : String → Flow (Unit {0})
  unfolding ◌>>=◌
  write_compliance run_id = do
    tick ← gets (λ w. length w.labels)
    lift (p.write_compliance_log tick)
    modify (λ w. record w { compliance = w.compliance ++ run_id ∷ [] })

  approve_round : String → RunLoad → ℕ → Flow (Unit {0})
  unfolding ◌>>=◌
  approve_round run_id run iteration = do
    status_step p (StepName.status_publishing iteration) Status.publishing
    emit_step p (StepName.emit_publish_start iteration) run_id "publish.publish.start" no_payload
        none
    publish p run_id run
    emit_step p (StepName.emit_publish_done iteration) run_id "publish.publish.done" no_payload none
    do_step p StepName.compliance (write_compliance run_id)
    emit_step p StepName.emit_completed_approve run_id "graph.completed" no_payload none

  -- What a decision at the second gate does; `revise` is the next round.
  settle_hitl2 : String → RunLoad → ℕ → Flow (Unit {0}) → Hitl2Decision → Flow (Unit {0})
  unfolding ◌>>=◌ approve_round
  settle_hitl2 run_id run iteration revise Hitl2Decision.approve =
      approve_round run_id run iteration
  settle_hitl2 run_id run iteration revise Hitl2Decision.reject =
      gate_step p StepName.gate_rejected run_id Status.rejected "graph.completed" no_payload
  settle_hitl2 run_id run iteration revise Hitl2Decision.request_changes =
      if leb max_hitl2_rounds iteration
      then gate_step p StepName.gate_changes_requested run_id Status.changes_requested
          "graph.completed" no_payload
      else (status_step p (StepName.status_revising (iteration + 1)) Status.revising >> revise)

  -- The rounds of revision, on fuel.
  hitl2_rounds :
      ℕ → String → RunLoad → Option Hitl2Payload → ℕ → Option (List Json) → Flow (Unit {0})
  unfolding ◌>>=◌
  hitl2_rounds zero run_id run injected iteration notes w = (out_of_fuel, w)
  hitl2_rounds (suc fuel) run_id run injected iteration notes w =
      (do
        payload ← next_decision run_id run injected iteration notes
        let revised = build_reviewer_refine_notes payload
        let revise = hitl2_rounds fuel run_id run none (iteration + 1) (some revised)
        settle_hitl2 run_id run iteration revise payload.decision)
        w

  -- What follows the first gate, unless the run ended there.
  from_hitl2 : String → RunLoad → Bool → Option Hitl2Payload → ℕ → Flow (Unit {0})
  unfolding hitl2_rounds
  from_hitl2 run_id run false injected iteration = pure tt
  from_hitl2 run_id run true injected iteration =
      hitl2_rounds (max_hitl2_rounds + 1) run_id run injected iteration none

  -- A fresh run, or one adopted at a gate.
  run_from : String → RunLoad → Option RescueGate → Flow (Unit {0})
  unfolding ◌>>=◌ from_hitl2 run_strategy settle_hitl1
  run_from run_id run none = do
    strategy ← run_strategy run_id run
    from_hitl2 run_id strategy.0 strategy.1 none 0
  run_from run_id run (some (at_hitl_1 payload)) = do
    go_on ← settle_hitl1 run_id payload
    from_hitl2 run_id run go_on none 0
  run_from run_id run (some (at_hitl_2 payload iteration)) =
      from_hitl2 run_id run true (some payload) iteration

  emit_rescued : String → Option RescueGate → Flow (Unit {0})
  emit_rescued run_id none = pure tt
  emit_rescued run_id (some gate) =
      emit_step p StepName.emit_rescued run_id "graph.rescued"
        (obj (field "gate" (str (gate_name gate)) end)) none

  pub run_pipeline : String → Option RescueGate → Flow (Unit {0})
  unfolding ◌>>=◌ run_from emit_rescued
  run_pipeline run_id rescue = do
    run ← do_step p StepName.load_run (load_run p run_id)
    emit_rescued run_id rescue
    run_from run_id run rescue

  -- The catch: the failure is persisted, surfaced and thrown on.
  pub fail_run : String → Failure → Flow (Unit {0})
  unfolding ◌>>=◌
  fail_run run_id e = do
    do_step p StepName.on_error_persist
        (modify (update_run (λ r. record r { status = Status.failed; error = some e })))
    emit_step p StepName.emit_graph_error run_id "graph.error"
        (obj (field "message" (str e.message) end)) none
    lift (err e)

  pub catch_failure : String → Exit (Unit {0}) → Flow (Unit {0})
  unfolding fail_run
  catch_failure run_id (threw e) w = fail_run run_id e w
  catch_failure run_id (done a) w = (done a, w)
  catch_failure run_id parked w = (parked, w)
  catch_failure run_id out_of_fuel w = (out_of_fuel, w)

  pub run : String → Option RescueGate → Flow (Unit {0})
  unfolding run_pipeline catch_failure
  run run_id rescue w = let (r, w') = run_pipeline run_id rescue w in catch_failure run_id r w'
