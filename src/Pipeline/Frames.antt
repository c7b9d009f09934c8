-- ===== src/Pipeline/Frames.antt =====
-- What a flow leaves alone: relations between the worlds before and after it, whichever way it exits
-- without parking.
use ai_content_workflow.Prelude.{
  ℕ, String, ◌≡◌, refl, ◌∙◌, Bool, true, false, Option, none, some, length,
}
use ai_content_workflow.Json.{Json}
use ai_content_workflow.Run.{Status}
use ai_content_workflow.Publish.Failure.{Result, ok, err}
use ai_content_workflow.Pipeline.StepNames.{StepName}
use ai_content_workflow.Pipeline.World.{World, Event, log_label, update_run}
use ai_content_workflow.Pipeline.Platform.{Platform, before, after, Fault}
use ai_content_workflow.Pipeline.Flow.{
  Exit, done, threw, parked, out_of_fuel, Flow, pure, lift, gets, modify, throw_error, continue,
  ◌>>=◌, or_throw, do_step, emit, emit_step, status_step, interrupt,
}
use ai_content_workflow.Prelude.{if◌then◌else◌, List}

-- A relation that labels and events do not break.
pub record Frame : Type 1 where
  pub Rel : World → World → Type 0
  pub rel_refl : (w : World) → Rel w w
  pub rel_trans : (u v w : World) → Rel u v → Rel v w → Rel u w
  pub rel_label : (label : StepName) (w : World) → Rel w (log_label label w)
  pub rel_events : (events : List Event) (w : World) → Rel w (record w { events = events })

-- Nothing was sent to the CMS.
abbrev pub same_cms : Frame
same_cms = record {
  Rel = λ v w. w.cms ≡ v.cms;
  rel_refl = λ w. refl;
  rel_trans = λ u v w h k. k ∙ h;
  rel_label = λ label w. refl;
  rel_events = λ events w. refl;
}

-- The row of the run is as it was.
abbrev pub same_run : Frame
same_run = record {
  Rel = λ v w. w.run ≡ v.run;
  rel_refl = λ w. refl;
  rel_trans = λ u v w h k. k ∙ h;
  rel_label = λ label w. refl;
  rel_events = λ events w. refl;
}

-- Neither the row nor the requests.
abbrev pub untouched : Frame
untouched = record {
  Rel = λ v w. (w.cms ≡ v.cms) × (w.run ≡ v.run);
  rel_refl = λ w. (refl, refl);
  rel_trans = λ u v w h k. (k.0 ∙ h.0, k.1 ∙ h.1);
  rel_label = λ label w. (refl, refl);
  rel_events = λ events w. (refl, refl);
}

abbrev pub any_change : Frame
any_change = record {
  Rel = λ v w. Unit;
  rel_refl = λ w. tt;
  rel_trans = λ u v w h k. tt;
  rel_label = λ label w. tt;
  rel_events = λ events w. tt;
}

abbrev pub Parks : {A : Type 0} → Exit A → Type 0
Parks parked = Unit
Parks (done a) = ⊥
Parks (threw e) = ⊥
Parks out_of_fuel = ⊥

module _ (frame : Frame) where
  -- A flow that does not park and stays within the frame.
  pub record Steady {A : Type 0} (m : Flow A) : Type 0 where
    pub steady : (w : World) → (Parks (m w).0 → ⊥) × frame.Rel w (m w).1

  pub Steady-bind :
      {A B : Type 0} {m : Flow A} {f : A → Flow B}
      → Steady m
      → ((x : A) → Steady (f x))
      → Steady (m >>= f)
  unfolding ◌>>=◌
  Steady-bind {A} {B} {m} {f} hm hf = record { steady = λ w. go w (m w) (hm.steady w) }
    where
      go :
          (w : World) (out : Exit A × World)
          → (Parks out.0 → ⊥) × frame.Rel w out.1
          → (Parks (continue out.0 f out.1).0 → ⊥) × frame.Rel w (continue out.0 f out.1).1
      go w (done x, v) h = let k = (hf x).steady v in (k.0, frame.rel_trans w v _ h.1 k.1)
      go w (threw e, v) h = ((λ x. x), h.1)
      go w (parked, v) h = absurd (h.0 tt)
      go w (out_of_fuel, v) h = ((λ x. x), h.1)

  pub Steady-pure : {A : Type 0} (a : A) → Steady (pure a)
  Steady-pure a = record { steady = λ w. ((λ x. x), frame.rel_refl w) }

  pub Steady-lift : {A : Type 0} (x : Result A) → Steady (lift x)
  Steady-lift (ok a) = record { steady = λ w. ((λ x. x), frame.rel_refl w) }
  Steady-lift (err e) = record { steady = λ w. ((λ x. x), frame.rel_refl w) }

  pub Steady-gets : {A : Type 0} (f : World → A) → Steady (gets f)
  Steady-gets f = record { steady = λ w. ((λ x. x), frame.rel_refl w) }

  pub Steady-throw : {A : Type 0} (message : String) → Steady (throw_error {A = A} message)
  Steady-throw message = record { steady = λ w. ((λ x. x), frame.rel_refl w) }

  pub Steady-or_throw : {A : Type 0} (o : Option A) (message : String) → Steady (or_throw o message)
  Steady-or_throw none message = Steady-throw message
  Steady-or_throw (some a) message = Steady-pure a

  pub Steady-if :
      {A : Type 0} {x y : Flow A} (b : Bool) → Steady x → Steady y → Steady (if b then x else y)
  Steady-if true hx hy = hx
  Steady-if false hx hy = hy

  pub Steady-modify : (f : World → World) → ((w : World) → frame.Rel w (f w)) → Steady (modify f)
  Steady-modify f h = record { steady = λ w. ((λ x. x), h w) }

  pub Steady-emit :
      (p : Platform) (run_id event : String) (payload : Json) (iteration : Option ℕ)
      → Steady (emit p run_id event payload iteration)
  unfolding emit
  Steady-emit p run_id event payload iteration = record {
    steady = λ w. ((λ x. x), frame.rel_events _ w);
  }

  pub Steady-step :
      {A : Type 0} {body : Flow A} (p : Platform) (label : StepName)
      → Steady body
      → Steady (do_step p label body)
  unfolding do_step interrupt
  Steady-step {A} {body} p label h = record { steady = λ w. go w (p.fault (length w.labels)) }
    where
      go :
          (w : World) (fault : Option Fault)
          → (Parks (interrupt fault body (log_label label w)).0 → ⊥)
            × frame.Rel w (interrupt fault body (log_label label w)).1
      go w none =
          let k = h.steady (log_label label w) in
          (k.0, frame.rel_trans w _ _ (frame.rel_label label w) k.1)
      go w (some (before e)) = ((λ x. x), frame.rel_label label w)
      go w (some (after e)) =
          let k = h.steady (log_label label w) in
          ((λ x. x), frame.rel_trans w _ _ (frame.rel_label label w) k.1)

  pub Steady-emit_step :
      (p : Platform) (label : StepName) (run_id event : String) (payload : Json)
      (iteration : Option ℕ)
      → Steady (emit_step p label run_id event payload iteration)
  unfolding emit_step
  Steady-emit_step p label run_id event payload iteration =
      Steady-step p label (Steady-emit p run_id event payload iteration)

pub Steady-status_step :
    (p : Platform) (label : StepName) (s : Status) → Steady same_cms (status_step p label s)
unfolding status_step
Steady-status_step p label s =
    Steady-step same_cms p label
      (Steady-modify same_cms (update_run (λ r. record r { status = s })) (λ w. refl))

pub ruleset steady_rules = (
  Steady-bind, Steady-pure, Steady-lift, Steady-gets, Steady-throw, Steady-or_throw, Steady-if,
  Steady-modify, Steady-emit, Steady-step,
)
