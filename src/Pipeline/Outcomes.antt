-- ===== src/Pipeline/Outcomes.antt =====
-- The outcomes of flows: the status that the row of the run has when a flow is done.
use ai_content_workflow.Prelude.{
  ℕ, ◌≡◌, refl, sym, subst, map_some, String, Bool, true, false, Option, none, some, List, [], ◌∷◌,
  if◌then◌else◌, length, inl, inr, ◌∙◌, ◌⊎◌,
}
use ai_content_workflow.Json.{Json}
use ai_content_workflow.Run.{RunRow, Status}
use ai_content_workflow.Pipeline.StepNames.{StepName}
use ai_content_workflow.Pipeline.World.{World, update_run, log_label}
use ai_content_workflow.Pipeline.Platform.{Platform, Fault, before, after}
use ai_content_workflow.Pipeline.Flow.{
  Exit, done, threw, parked, out_of_fuel, Flow, modify, gate_step, do_step, interrupt, continue,
  set_status, emit, take_event, wait_hitl1, wait_hitl2, ◌>>=◌,
}
use ai_content_workflow.Pipeline.Frames.{
  Frame, same_cms, same_run, Steady, Steady-bind, Steady-modify, Steady-emit, Steady-step, Parks,
}

-- A run without a row has no status.
abbrev pub HasStatus : Status → Option RunRow → Type 0
HasStatus s none = Unit
HasStatus s (some r) = r.status ≡ s

abbrev pub DoneIn : {A : Type 0} → (A → Option RunRow → Type 0) → Exit A → World → Type 0
DoneIn S (done a) w = S a w.run
DoneIn S (threw e) w = Unit
DoneIn S parked w = ⊥
DoneIn S out_of_fuel w = Unit

-- A flow that does not park, and whose result and row are in `S` when it is done.
pub record EndsIn {A : Type 0} (S : A → Option RunRow → Type 0) (m : Flow A) : Type 0 where
  pub ends : (w : World) → DoneIn S (m w).0 (m w).1

pub ends_after :
    {A B : Type 0} {S : B → Option RunRow → Type 0} {m : Flow A} {f : A → Flow B} (frame : Frame)
    → Steady frame m
    → ((x : A) → EndsIn S (f x))
    → EndsIn S (m >>= f)
unfolding ◌>>=◌
ends_after {A} {B} {S} {m} {f} frame hm hf = record { ends = λ w. go (m w) (hm.steady w).0 }
  where
    go :
        (out : Exit A × World)
        → (Parks out.0 → ⊥)
        → DoneIn S (continue out.0 f out.1).0 (continue out.0 f out.1).1
    go (done x, v) h = (hf x).ends v
    go (threw e, v) h = tt
    go (parked, v) h = absurd (h tt)
    go (out_of_fuel, v) h = tt

-- What follows leaves the row alone.
pub ends_before :
    {A B : Type 0} {S : Option RunRow → Type 0} {m : Flow A} {f : A → Flow B}
    → EndsIn (λ x. S) m
    → ((x : A) → Steady same_run (f x))
    → EndsIn (λ x. S) (m >>= f)
unfolding ◌>>=◌
ends_before {A} {B} {S} {m} {f} hm hf = record { ends = λ w. go (m w) (hm.ends w) }
  where
    keep_done :
        (v : World) (out : Exit B × World)
        → S v.run
        → (Parks out.0 → ⊥) × (out.1.run ≡ v.run)
        → DoneIn (λ x. S) out.0 out.1
    keep_done v (done y, u) h k = subst S (sym k.1) h
    keep_done v (threw e, u) h k = tt
    keep_done v (parked, u) h k = k.0 tt
    keep_done v (out_of_fuel, u) h k = tt

    go :
        (out : Exit A × World)
        → DoneIn (λ x. S) out.0 out.1
        → DoneIn (λ x. S) (continue out.0 f out.1).0 (continue out.0 f out.1).1
    go (done x, v) h = keep_done v (f x v) h ((hf x).steady v)
    go (threw e, v) h = tt
    go (parked, v) h = absurd h
    go (out_of_fuel, v) h = tt

pub ends_if :
    {A : Type 0} {S : A → Option RunRow → Type 0} {x y : Flow A} (b : Bool)
    → EndsIn S x
    → EndsIn S y
    → EndsIn S (if b then x else y)
ends_if true hx hy = hx
ends_if false hx hy = hy

pub ends_step :
    {A : Type 0} {S : A → Option RunRow → Type 0} {body : Flow A} (p : Platform) (label : StepName)
    → EndsIn S body
    → EndsIn S (do_step p label body)
unfolding do_step interrupt
ends_step {A} {S} {body} p label h = record { ends = λ w. go w (p.fault (length w.labels)) }
  where
    go :
        (w : World) (fault : Option Fault)
        → DoneIn S
            (interrupt fault body (log_label label w)).0
            (interrupt fault body (log_label label w)).1
    go w none = h.ends (log_label label w)
    go w (some (before e)) = tt
    go w (some (after e)) = tt

pub ends_status :
    {s : Status} (f : World → World)
    → ((w : World) → HasStatus s (f w).run)
    → EndsIn (λ x. HasStatus s) (modify f)
ends_status f h = record { ends = h }

pub HasStatus-update_run :
    (s : Status) (f : RunRow → RunRow)
    → ((r : RunRow) → (f r).status ≡ s)
    → (w : World) → HasStatus s (update_run f w).run
HasStatus-update_run s f h w = by_row w.run
  where
    by_row : (o : Option RunRow) → HasStatus s (map_some f o)
    by_row none = tt
    by_row (some r) = h r

-- A gate sends nothing to the CMS; a run that parks there shows the gate in its status, and a
-- result comes with a row in `S`.
abbrev pub Asked : {A : Type 0} → (A → Option RunRow → Type 0) → World → Exit A × World → Type 0
Asked S w (done a, v) = S a v.run × (v.cms ≡ w.cms)
Asked S w (threw e, v) = Unit
Asked S w (parked, v) =
    (HasStatus Status.hitl_1 v.run ⊎ HasStatus Status.hitl_2 v.run) × (v.cms ≡ w.cms)
Asked S w (out_of_fuel, v) = Unit

pub record Asks {A : Type 0} (S : A → Option RunRow → Type 0) (m : Flow A) : Type 0 where
  pub asks : (w : World) → Asked S w (m w)

-- A run that is done is published, or it was turned down and nothing was sent; a run that is
-- parked waits at a gate and has sent nothing.
abbrev pub Settled : World → Exit (Unit {0}) × World → Type 0
Settled w (done a, v) =
    HasStatus Status.published v.run
    ⊎ ((HasStatus Status.rejected v.run ⊎ HasStatus Status.changes_requested v.run)
        × (v.cms ≡ w.cms))
Settled w (threw e, v) = Unit
Settled w (parked, v) =
    (HasStatus Status.hitl_1 v.run ⊎ HasStatus Status.hitl_2 v.run) × (v.cms ≡ w.cms)
Settled w (out_of_fuel, v) = Unit

pub record Settles (m : Flow (Unit {0})) : Type 0 where
  pub settles : (w : World) → Settled w (m w)

Asked-trans :
    {A : Type 0} (S : A → Option RunRow → Type 0) (u v : World) (out : Exit A × World)
    → v.cms ≡ u.cms
    → Asked S v out
    → Asked S u out
Asked-trans S u v (done a, w) e h = (h.0, h.1 ∙ e)
Asked-trans S u v (threw x, w) e h = tt
Asked-trans S u v (parked, w) e h = (h.0, h.1 ∙ e)
Asked-trans S u v (out_of_fuel, w) e h = tt

Settled-trans :
    (u v : World) (out : Exit (Unit {0}) × World) → v.cms ≡ u.cms → Settled v out → Settled u out
Settled-trans u v (done a, w) e (inl h) = inl h
Settled-trans u v (done a, w) e (inr h) = inr (h.0, h.1 ∙ e)
Settled-trans u v (threw x, w) e h = tt
Settled-trans u v (parked, w) e h = (h.0, h.1 ∙ e)
Settled-trans u v (out_of_fuel, w) e h = tt

pub Asks-Steady : {A : Type 0} {m : Flow A} → Steady same_cms m → Asks (λ x row. Unit) m
Asks-Steady {A} {m} h = record { asks = λ w. go w (m w) (h.steady w) }
  where
    go :
        (w : World) (out : Exit A × World)
        → (Parks out.0 → ⊥) × (out.1.cms ≡ w.cms)
        → Asked (λ x row. Unit) w out
    go w (done a, v) k = (tt, k.1)
    go w (threw e, v) k = tt
    go w (parked, v) k = absurd (k.0 tt)
    go w (out_of_fuel, v) k = tt

-- A gate, then what is asked next, for the results that the gate lets through.
pub Asked-bind :
    {A B : Type 0} (S : A → Option RunRow → Type 0) (T : B → Option RunRow → Type 0) (m : Flow A)
    (f : A → Flow B) (w : World)
    → Asked S w (m w)
    → ((x : A) (v : World) → S x v.run → Asked T v (f x v))
    → Asked T w ((m >>= f) w)
unfolding ◌>>=◌
Asked-bind {A} {B} S T m f w h hf = go (m w) h
  where
    go : (out : Exit A × World) → Asked S w out → Asked T w (continue out.0 f out.1)
    go (done x, v) k = Asked-trans T w v (f x v) k.1 (hf x v k.0)
    go (threw e, v) k = tt
    go (parked, v) k = k
    go (out_of_fuel, v) k = tt

pub Asks-bind :
    {A B : Type 0} {S : A → Option RunRow → Type 0} {T : B → Option RunRow → Type 0} {m : Flow A}
    (f : A → Flow B)
    → Asks S m
    → ((x : A) (w : World) → S x w.run → Asked T w (f x w))
    → Asks T (m >>= f)
Asks-bind {A} {B} {S} {T} {m} f hm hf = record { asks = λ w. Asked-bind S T m f w (hm.asks w) hf }

pub Asks-after :
    {A B : Type 0} {T : B → Option RunRow → Type 0} {m : Flow A} {f : A → Flow B}
    → Steady same_cms m
    → ((x : A) → Asks T (f x))
    → Asks T (m >>= f)
Asks-after hm hf = Asks-bind _ (Asks-Steady hm) (λ x w h. (hf x).asks w)

-- A step that leaves the row alone keeps what is known of it.
pub Asked-keeps :
    {A B : Type 0} (Q : Option RunRow → Type 0) (T : B → Option RunRow → Type 0) {m : Flow A}
    (f : A → Flow B)
    → Steady same_cms m
    → Steady same_run m
    → ((x : A) (v : World) → Q v.run → Asked T v (f x v))
    → (w : World) → Q w.run
    → Asked T w ((m >>= f) w)
unfolding ◌>>=◌
Asked-keeps {A} {B} Q T {m} f hc hr hf w q = go (m w) (hc.steady w) (hr.steady w).1
  where
    go :
        (out : Exit A × World)
        → (Parks out.0 → ⊥) × (out.1.cms ≡ w.cms)
        → out.1.run ≡ w.run
        → Asked T w (continue out.0 f out.1)
    go (done x, v) c e = Asked-trans T w v (f x v) c.1 (hf x v (subst Q (sym e) q))
    go (threw x, v) c e = tt
    go (parked, v) c e = absurd (c.0 tt)
    go (out_of_fuel, v) c e = tt

pub Asks-if :
    {A : Type 0} {S : A → Option RunRow → Type 0} {x y : Flow A} (b : Bool)
    → Asks S x
    → Asks S y
    → Asks S (if b then x else y)
Asks-if true hx hy = hx
Asks-if false hx hy = hy

pub Settles-bind :
    {A : Type 0} {S : A → Option RunRow → Type 0} {m : Flow A} (f : A → Flow (Unit {0}))
    → Asks S m
    → ((x : A) (w : World) → S x w.run → Settled w (f x w))
    → Settles (m >>= f)
unfolding ◌>>=◌
Settles-bind {A} {S} {m} f hm hf = record { settles = λ w. go w (m w) (hm.asks w) }
  where
    go : (w : World) (out : Exit A × World) → Asked S w out → Settled w (continue out.0 f out.1)
    go w (done x, v) h = Settled-trans w v (f x v) h.1 (hf x v h.0)
    go w (threw e, v) h = tt
    go w (parked, v) h = h
    go w (out_of_fuel, v) h = tt

pub Settles-after :
    {A : Type 0} {m : Flow A} {f : A → Flow (Unit {0})}
    → Steady same_cms m
    → ((x : A) → Settles (f x))
    → Settles (m >>= f)
Settles-after hm hf = Settles-bind _ (Asks-Steady hm) (λ x w h. (hf x).settles w)

pub Settles-published :
    {m : Flow (Unit {0})} → EndsIn (λ x. HasStatus Status.published) m → Settles m
Settles-published {m} h = record { settles = λ w. go w (m w) (h.ends w) }
  where
    go :
        (w : World) (out : Exit (Unit {0}) × World)
        → DoneIn (λ x. HasStatus Status.published) out.0 out.1
        → Settled w out
    go w (done a, v) k = inl k
    go w (threw e, v) k = tt
    go w (parked, v) k = absurd k
    go w (out_of_fuel, v) k = tt

pub Asks-ends :
    {A : Type 0} {S : A → Option RunRow → Type 0} {m : Flow A}
    → Steady same_cms m
    → EndsIn S m
    → Asks S m
Asks-ends {A} {S} {m} hm he = record { asks = λ w. go w (m w) (hm.steady w) (he.ends w) }
  where
    go :
        (w : World) (out : Exit A × World)
        → (Parks out.0 → ⊥) × (out.1.cms ≡ w.cms)
        → DoneIn S out.0 out.1
        → Asked S w out
    go w (done a, v) k d = (d, k.1)
    go w (threw e, v) k d = tt
    go w (parked, v) k d = absurd d
    go w (out_of_fuel, v) k d = tt

pub set_status-EndsIn : (s : Status) → EndsIn (λ x. HasStatus s) (set_status s)
set_status-EndsIn s =
    ends_status (update_run (λ r. record r { status = s }))
      (HasStatus-update_run s (λ r. record r { status = s }) (λ r. refl))

pub emit-same_run :
    (p : Platform) (run_id event : String) (payload : Json) (iteration : Option ℕ)
    → Steady same_run (emit p run_id event payload iteration)
emit-same_run p run_id event payload iteration =
    Steady-emit same_run p run_id event payload iteration

-- A gate's step leaves the run with the status of the gate.
pub Asks-gate :
    (p : Platform) (label : StepName) (run_id : String) (s : Status) (event : String)
    (payload : Json)
    → Asks (λ x. HasStatus s) (gate_step p label run_id s event payload)
unfolding gate_step
Asks-gate p label run_id s event payload =
    Asks-ends
      (Steady-step same_cms p label (
        Steady-bind same_cms
          (Steady-modify same_cms (update_run (λ r. record r { status = s })) (λ w. refl))
          λ _. Steady-emit same_cms p run_id event payload none))
      (ends_step p label
        (ends_before (set_status-EndsIn s) λ _. emit-same_run p run_id event payload none))

AtGate : Option RunRow → Type 0
AtGate row = HasStatus Status.hitl_1 row ⊎ HasStatus Status.hitl_2 row

take_event-Asked :
    {A : Type 0} (es : List A) (put : List A → World → World) (u w : World)
    → w.cms ≡ u.cms
    → ((xs : List A) → (put xs w).cms ≡ w.cms)
    → AtGate w.run
    → Asked {A = A} (λ x row. Unit) u (take_event es put w)
unfolding take_event AtGate
take_event-Asked [] put u w e h g = (g, e)
take_event-Asked (x ∷ xs) put u w e h g = (tt, h xs ∙ e)

pub wait_hitl1-Asked :
    (label : StepName) (w : World)
    → HasStatus Status.hitl_1 w.run
    → Asked (λ x row. Unit) w (wait_hitl1 label w)
unfolding wait_hitl1 AtGate
wait_hitl1-Asked label w h =
    take_event-Asked w.hitl1_events (λ es v. record v { hitl1_events = es }) w (log_label label w)
      refl (λ xs. refl) (inl h)

pub wait_hitl2-Asked :
    (label : StepName) (w : World)
    → HasStatus Status.hitl_2 w.run
    → Asked (λ x row. Unit) w (wait_hitl2 label w)
unfolding wait_hitl2 AtGate
wait_hitl2-Asked label w h =
    take_event-Asked w.hitl2_events (λ es v. record v { hitl2_events = es }) w (log_label label w)
      refl (λ xs. refl) (inr h)

-- A gate that ends the run turns it down.
pub Settles-gate :
    (p : Platform) (label : StepName) (run_id : String) (s : Status) (event : String)
    (payload : Json)
    → (s ≡ Status.rejected) ⊎ (s ≡ Status.changes_requested)
    → Settles (gate_step p label run_id s event payload)
Settles-gate p label run_id s event payload turned = record {
  settles = λ w.
      go w (gate_step p label run_id s event payload w)
        ((Asks-gate p label run_id s event payload).asks w);
}
  where
    go :
        (w : World) (out : Exit (Unit {0}) × World) → Asked (λ x. HasStatus s) w out → Settled w out
    go w (done a, v) h = inr (
      elim turned [
        | inl e ↦ inl (subst (λ t. HasStatus t v.run) e h.0)
        | inr e ↦ inr (subst (λ t. HasStatus t v.run) e h.0)
      ],
      h.1,
    )
    go w (threw e, v) h = tt
    go w (parked, v) h = h
    go w (out_of_fuel, v) h = tt

pub Settles-if :
    {x y : Flow (Unit {0})} (b : Bool) → Settles x → Settles y → Settles (if b then x else y)
Settles-if true hx hy = hx
Settles-if false hx hy = hy
