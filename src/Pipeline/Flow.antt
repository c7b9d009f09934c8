-- ===== src/Pipeline/Flow.antt =====
-- Workflow code as state passing: it ends, throws, parks at an event that has not come, or runs out
-- of fuel. What was written before a throw stays written. The wrappers are those of production.ts.
use ai_content_workflow.Prelude.{ℕ, String, Option, none, some, List, [], ◌∷◌, ◌++◌, length}
use ai_content_workflow.Json.{Json}
use ai_content_workflow.Run.{Status, Hitl1Payload, Hitl2Payload}
use ai_content_workflow.Publish.Failure.{Failure, Result, ok, err}
use ai_content_workflow.Pipeline.StepNames.{StepName}
use ai_content_workflow.Pipeline.World.{World, update_run, log_label}
use ai_content_workflow.Pipeline.Platform.{Platform, Fault, before, after}

pub data Exit {ℓ} (A : Type ℓ) : Type ℓ where
  done : A → Exit A
  threw : Failure → Exit A
  parked out_of_fuel : Exit A

abbrev pub Flow : Type 0 → Type 0
Flow A = World → Exit A × World

abbrev pub pure : {A : Type 0} → A → Flow A
pure a w = (done a, w)

abbrev pub lift : {A : Type 0} → Result A → Flow A
lift (ok a) w = (done a, w)
lift (err e) w = (threw e, w)

-- `throw new Error(message)`
abbrev pub throw_error : {A : Type 0} → String → Flow A
throw_error message w = (threw (record { name = "Error"; message = message }), w)

abbrev pub gets : {A : Type 0} → (World → A) → Flow A
gets f w = (done (f w), w)

abbrev pub modify : (World → World) → Flow (Unit {0})
modify f w = (done tt, f w)

abbrev pub continue : {A B : Type 0} → Exit A → (A → Flow B) → Flow B
continue (done a) f w = f a w
continue (threw e) f w = (threw e, w)
continue parked f w = (parked, w)
continue out_of_fuel f w = (out_of_fuel, w)

infixl 5 ◌>>=◌ ◌>>◌
unfoldable pub ◌>>=◌ : {A B : Type 0} → Flow A → (A → Flow B) → Flow B
◌>>=◌ m f w = let (r, w') = m w in continue r f w'

abbrev pub ◌>>◌ : {B : Type 0} → Flow (Unit {0}) → Flow B → Flow B
m >> k = m >>= λ _. k

-- `rows[0]`, or the error that its absence throws
abbrev pub or_throw : {A : Type 0} → Option A → String → Flow A
or_throw none message = throw_error message
or_throw (some a) message = pure a

abbrev pub set_status : Status → Flow (Unit {0})
set_status s = modify (update_run (λ r. record r { status = s }))

unfoldable pub interrupt : {A : Type 0} → Option Fault → Flow A → Flow A
interrupt none body w = body w
interrupt (some (before e)) body w = (threw e, w)
interrupt (some (after e)) body w = (threw e, (body w).1)

module _ (p : Platform) where
  -- `step.do(label, body)`, run once
  unfoldable pub do_step : {A : Type 0} → StepName → Flow A → Flow A
  unfolding interrupt
  do_step label body w = interrupt (p.fault (length w.labels)) body (log_label label w)

  unfoldable pub emit : String → String → Json → Option ℕ → Flow (Unit {0})
  emit run_id event payload iteration w = (
    done tt,
    record w {
      events =
          w.events
          ++ record {
            event = event;
            run_id = run_id;
            timestamp = p.now (length w.labels);
            payload = payload;
            iteration = iteration;
          }
            ∷ [];
    },
  )

  unfoldable pub status_step : StepName → Status → Flow (Unit {0})
  unfolding do_step
  status_step label s = do_step label (set_status s)

  unfoldable pub emit_step : StepName → String → String → Json → Option ℕ → Flow (Unit {0})
  unfolding do_step emit
  emit_step label run_id event payload iteration =
      do_step label (emit run_id event payload iteration)

  unfoldable pub gate_step : StepName → String → Status → String → Json → Flow (Unit {0})
  unfolding do_step emit ◌>>=◌
  gate_step label run_id s event payload =
      do_step label (do set_status s; emit run_id event payload none)

unfoldable pub take_event : {A : Type 0} → List A → (List A → World → World) → Flow A
take_event [] put w = (parked, w)
take_event (e ∷ es) put w = (done e, put es w)

-- `step.waitForEvent`: the oldest decision that has come, or the run parks.
unfoldable pub wait_hitl1 : StepName → Flow Hitl1Payload
unfolding take_event
wait_hitl1 label w =
    take_event w.hitl1_events (λ es v. record v { hitl1_events = es }) (log_label label w)

unfoldable pub wait_hitl2 : StepName → Flow Hitl2Payload
unfolding take_event
wait_hitl2 label w =
    take_event w.hitl2_events (λ es v. record v { hitl2_events = es }) (log_label label w)
