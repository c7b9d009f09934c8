-- ===== src/Pipeline/Bounds.antt =====
-- A logic of bounds for the flows of workflows/production.ts: the steps that a flow starts have rising
-- ranks, its requests to the CMS are counted, and it never runs out of fuel.
use ai_content_workflow.Prelude.{
  ℕ, suc, ◌+◌, ◌*◌, ◌≤◌, ◌<◌, ◌≡◌, refl, sym, subst, ap, Bool, true, false, Option, none, some,
  List, [], ◌∷◌, arith, length, String, if◌then◌else◌, All, Distinct,
}
use ai_content_workflow.Json.{Json}
use ai_content_workflow.Run.{Status}
use ai_content_workflow.Publish.Failure.{Result, ok, err}
use ai_content_workflow.Pipeline.StepNames.{StepName}
use ai_content_workflow.Pipeline.World.{World, log_label, update_run}
use ai_content_workflow.Pipeline.Platform.{Platform, before, after, Fault}
use ai_content_workflow.Pipeline.Flow.{
  Exit, done, threw, parked, out_of_fuel, Flow, pure, lift, gets, modify, throw_error, set_status,
  continue, ◌>>=◌, or_throw, do_step, emit, interrupt, wait_hitl1, wait_hitl2, take_event,
}

-- The place of a step in a run whose rounds stay within `limit`.
abbrev pub rank : ℕ → StepName → ℕ
rank limit StepName.load_run = 0
rank limit StepName.emit_rescued = 1
rank limit StepName.status_strategy = 2
rank limit StepName.emit_outline_start = 3
rank limit StepName.status_fetching = 2
rank limit StepName.emit_fetch_start = 3
rank limit StepName.fetch_article = 4
rank limit StepName.emit_fetch_done = 5
rank limit StepName.status_strategy_refresh = 6
rank limit StepName.emit_gap_start = 7
rank limit StepName.gap_analysis = 8
rank limit StepName.emit_gap_done = 9
rank limit StepName.emit_outline_start_refresh = 10
rank limit StepName.outline = 11
rank limit StepName.emit_outline_done = 12
rank limit StepName.emit_hitl1_auto = 13
rank limit StepName.apply_hitl1_auto = 14
rank limit StepName.gate_hitl1 = 13
rank limit StepName.await_hitl1 = 14
rank limit StepName.apply_hitl1 = 15
rank limit StepName.emit_completed_cancel = 16
rank limit (StepName.status_revising k) = 19 + 60 * k
rank limit (StepName.status_production k) = 20 + 60 * k
rank limit (StepName.emit_writer_start k i) = 21 + 60 * k + 20 * i
rank limit (StepName.writer k i) = 22 + 60 * k + 20 * i
rank limit (StepName.emit_writer_done k i) = 23 + 60 * k + 20 * i
rank limit (StepName.emit_citations_start k i) = 24 + 60 * k + 20 * i
rank limit (StepName.resolve_citations k i) = 25 + 60 * k + 20 * i
rank limit (StepName.emit_citations_done k i) = 26 + 60 * k + 20 * i
rank limit (StepName.emit_citations_empty k i) = 27 + 60 * k + 20 * i
rank limit (StepName.emit_render_start k i) = 28 + 60 * k + 20 * i
rank limit (StepName.render k i) = 29 + 60 * k + 20 * i
rank limit (StepName.emit_render_done k i) = 30 + 60 * k + 20 * i
rank limit (StepName.emit_audit_start k i) = 31 + 60 * k + 20 * i
rank limit (StepName.audit k i) = 32 + 60 * k + 20 * i
rank limit (StepName.emit_audit_done k i) = 33 + 60 * k + 20 * i
rank limit (StepName.gate_hitl2 k) = 61 + 60 * k
rank limit (StepName.await_hitl2 k) = 62 + 60 * k
rank limit (StepName.status_publishing k) = 100 + 60 * limit
rank limit (StepName.emit_publish_start k) = 101 + 60 * limit
rank limit StepName.resolve_publish_target = 102 + 60 * limit
rank limit StepName.publish = 103 + 60 * limit
rank limit StepName.publish_ghost = 103 + 60 * limit
rank limit (StepName.emit_publish_done k) = 104 + 60 * limit
rank limit StepName.compliance = 105 + 60 * limit
rank limit StepName.emit_completed_approve = 106 + 60 * limit
rank limit StepName.gate_rejected = 100 + 60 * limit
rank limit StepName.gate_changes_requested = 100 + 60 * limit
rank limit StepName.on_error_persist = 107 + 60 * limit
rank limit StepName.emit_graph_error = 108 + 60 * limit

-- A flow that ran out of fuel has no result.
abbrev pub Ends : {A : Type 0} → Exit A → Type 0
Ends (done a) = Unit
Ends (threw e) = Unit
Ends parked = Unit
Ends out_of_fuel = ⊥

module _ (limit : ℕ) where
  -- The ranks of the started steps fall from the newest one, which is below `n`.
  abbrev pub Below : ℕ → List StepName → Type 0
  Below n [] = Unit
  Below n (l ∷ ls) = (rank limit l < n) × Below (rank limit l) ls

  pub Below-mono : (m n : ℕ) (ls : List StepName) → m ≤ n → Below m ls → Below n ls
  Below-mono m n [] h b = tt
  Below-mono m n (l ∷ ls) h b = (omega (arith, b.0, h), b.1)

  Below-All : (n : ℕ) (ls : List StepName) → Below n ls → All (λ l. rank limit l < n) ls
  Below-All n [] b = tt
  Below-All n (l ∷ ls) b =
      (b.0, Below-All n ls (Below-mono (rank limit l) n ls (omega (arith, b.0)) b.1))

  All-other :
      (l : StepName) (ls : List StepName)
      → All (λ x. rank limit x < rank limit l) ls
      → All (λ x. l ≡ x → ⊥) ls
  All-other l [] h = tt
  All-other l (x ∷ xs) h = ((λ e. omega (arith, h.0, ap (rank limit) e)), All-other l xs h.1)

  -- Steps of falling ranks are different.
  pub Distinct-Below : (n : ℕ) (ls : List StepName) → Below n ls → Distinct ls
  Distinct-Below n [] b = tt
  Distinct-Below n (l ∷ ls) b =
      (All-other l ls (Below-All (rank limit l) ls b.1), Distinct-Below (rank limit l) ls b.1)

  abbrev pub Sound : {A : Type 0} → ℕ → ℕ → World → Exit A × World → Type 0
  Sound r b w out = Below b out.1.labels × (length out.1.cms ≤ length w.cms + r) × Ends out.0

  -- From steps below `a` to steps below `b`, with at most `r` requests to the CMS.
  pub record Bounded {A : Type 0} (r a b : ℕ) (m : Flow A) : Type 0 where
    pub sound : (w : World) → Below a w.labels → Sound r b w (m w)

  -- A body that starts no step.
  abbrev pub Quiet : {A : Type 0} → ℕ → Flow A → Type 0
  Quiet r m = (n : ℕ) → Bounded r n n m

  pub weaken :
      {A : Type 0} {m : Flow A} (r a b a' b' : ℕ)
      → a' ≤ a
      → b ≤ b'
      → Bounded r a b m
      → Bounded r a' b' m
  weaken r a b a' b' ha hb h = record {
    sound = λ w below.
        let s = h.sound w (Below-mono a' a w.labels ha below) in
        (Below-mono b b' _ hb s.0, s.1, s.2);
  }

  pub weaken_cms : {A : Type 0} {m : Flow A} (a b : ℕ) → Bounded 0 a b m → Bounded 1 a b m
  weaken_cms a b h = record {
    sound = λ w below. let s = h.sound w below in (s.0, omega (arith, s.1), s.2);
  }

  pub keep_bind :
      {A B : Type 0} {m : Flow A} {f : A → Flow B} (r s a b c : ℕ)
      → b ≤ c
      → Bounded r a b m
      → ((x : A) → Bounded s b c (f x))
      → Bounded (r + s) a c (m >>= f)
  unfolding ◌>>=◌
  keep_bind {A} {B} {m} {f} r s a b c hbc hm hf = record {
    sound = λ w below. go w (m w) (hm.sound w below);
  }
    where
      go :
          (w : World) (out : Exit A × World)
          → Sound r b w out
          → Sound (r + s) c w (continue out.0 f out.1)
      go w (done x, w') h = let k = (hf x).sound w' h.0 in (k.0, omega (arith, h.1, k.1), k.2)
      go w (threw e, w') h = (Below-mono b c w'.labels hbc h.0, omega (arith, h.1), tt)
      go w (parked, w') h = (Below-mono b c w'.labels hbc h.0, omega (arith, h.1), tt)
      go w (out_of_fuel, w') h = absurd h.2

  pub keep_pure : {A : Type 0} (a : A) (n m : ℕ) → n ≤ m → Bounded 0 n m (pure a)
  keep_pure a n m h = record {
    sound = λ w below. (Below-mono n m w.labels h below, omega arith, tt);
  }

  pub keep_lift : {A : Type 0} (x : Result A) (n m : ℕ) → n ≤ m → Bounded 0 n m (lift x)
  keep_lift (ok a) n m h = record {
    sound = λ w below. (Below-mono n m w.labels h below, omega arith, tt);
  }
  keep_lift (err e) n m h = record {
    sound = λ w below. (Below-mono n m w.labels h below, omega arith, tt);
  }

  pub keep_gets : {A : Type 0} (f : World → A) (n m : ℕ) → n ≤ m → Bounded 0 n m (gets f)
  keep_gets f n m h = record {
    sound = λ w below. (Below-mono n m w.labels h below, omega arith, tt);
  }

  pub keep_throw :
      {A : Type 0} (message : String) (n m : ℕ)
      → n ≤ m
      → Bounded 0 n m (throw_error {A = A} message)
  keep_throw message n m h = record {
    sound = λ w below. (Below-mono n m w.labels h below, omega arith, tt);
  }

  pub keep_or_throw :
      {A : Type 0} (o : Option A) (message : String) (n m : ℕ)
      → n ≤ m
      → Bounded 0 n m (or_throw o message)
  keep_or_throw none message n m h = keep_throw message n m h
  keep_or_throw (some a) message n m h = keep_pure a n m h

  pub keep_if :
      {A : Type 0} {x y : Flow A} (b : Bool) (r n m : ℕ)
      → Bounded r n m x
      → Bounded r n m y
      → Bounded r n m (if b then x else y)
  keep_if true r n m hx hy = hx
  keep_if false r n m hx hy = hy

  -- The bodies of steps: at every level.
  pub Quiet-bind :
      {A B : Type 0} {m : Flow A} {f : A → Flow B} (r s : ℕ)
      → Quiet r m
      → ((x : A) → Quiet s (f x))
      → Quiet (r + s) (m >>= f)
  Quiet-bind r s hm hf n = keep_bind r s n n n (omega arith) (hm n) (λ x. hf x n)

  pub Quiet-pure : {A : Type 0} (a : A) → Quiet 0 (pure a)
  Quiet-pure a n = keep_pure a n n (omega arith)

  pub Quiet-lift : {A : Type 0} (x : Result A) → Quiet 0 (lift x)
  Quiet-lift x n = keep_lift x n n (omega arith)

  pub Quiet-gets : {A : Type 0} (f : World → A) → Quiet 0 (gets f)
  Quiet-gets f n = keep_gets f n n (omega arith)

  pub Quiet-or_throw : {A : Type 0} (o : Option A) (message : String) → Quiet 0 (or_throw o message)
  Quiet-or_throw o message n = keep_or_throw o message n n (omega arith)

  -- A write that leaves the started steps and the requests alone.
  pub Quiet-modify :
      (f : World → World)
      → ((w : World) → (f w).labels ≡ w.labels)
      → ((w : World) → (f w).cms ≡ w.cms)
      → Quiet 0 (modify f)
  Quiet-modify f hl hc n = record {
    sound = λ w below. (subst (Below n) (sym (hl w)) below, omega (arith, ap length (hc w)), tt);
  }

  keep_interrupt :
      {A : Type 0} {body : Flow A} (fault : Option Fault) (r n : ℕ)
      → Bounded r n n body
      → Bounded r n n (interrupt fault body)
  unfolding interrupt
  keep_interrupt none r n h = record { sound = λ w below. h.sound w below }
  keep_interrupt (some (before e)) r n h = record { sound = λ w below. (below, omega arith, tt) }
  keep_interrupt (some (after e)) r n h = record {
    sound = λ w below. let s = h.sound w below in (s.0, s.1, tt);
  }

  module _ (p : Platform) where
    pub keep_step :
        {A : Type 0} {body : Flow A} (label : StepName) (r a b : ℕ)
        → a ≤ rank limit label
        → rank limit label < b
        → Quiet r body
        → Bounded r a b (do_step p label body)
    unfolding do_step
    keep_step label r a b ha hb h = record {
      sound = λ w below.
          let k = rank limit label + 1 in
          let s =
            (keep_interrupt (p.fault (length w.labels)) r k (h k)).sound (log_label label w)
              (omega arith, Below-mono a (rank limit label) w.labels ha below) in
          (Below-mono k b _ (omega arith) s.0, s.1, s.2);
    }

    -- A step, then the rest.
    pub then_step :
        {A B : Type 0} {body : Flow A} {f : A → Flow B} (label : StepName) (r s a c : ℕ)
        → a ≤ rank limit label
        → rank limit label < c
        → Quiet r body
        → ((x : A) → Bounded s (suc (rank limit label)) c (f x))
        → Bounded (r + s) a c (do_step p label body >>= f)
    then_step label r s a c ha hc hb hf =
        keep_bind r s a (suc (rank limit label)) c (omega arith)
          (keep_step label r a (suc (rank limit label)) ha (omega arith) hb) hf

    pub Quiet-emit :
        (run_id event : String) (payload : Json) (iteration : Option ℕ)
        → Quiet 0 (emit p run_id event payload iteration)
    unfolding emit
    Quiet-emit run_id event payload iteration n = record {
      sound = λ w below. (below, omega arith, tt);
    }

  pub Quiet-status : (s : Status) → Quiet 0 (set_status s)
  Quiet-status s = Quiet-modify (update_run (λ r. record r { status = s })) (λ w. refl) (λ w. refl)

  keep_wait :
      {A : Type 0} (es : List A) (put : List A → World → World) (n m : ℕ)
      → n ≤ m
      → ((xs : List A) (w : World) → (put xs w).labels ≡ w.labels)
      → ((xs : List A) (w : World) → (put xs w).cms ≡ w.cms)
      → Bounded 0 n m (take_event es put)
  unfolding take_event
  keep_wait [] put n m h hl hc = record {
    sound = λ w below. (Below-mono n m w.labels h below, omega arith, tt);
  }
  keep_wait (e ∷ es) put n m h hl hc = record {
    sound = λ w below. (
      subst (Below m) (sym (hl es w)) (Below-mono n m w.labels h below),
      omega (arith, ap length (hc es w)),
      tt,
    );
  }

  pub keep_wait_hitl1 :
      (label : StepName) (a b : ℕ)
      → a ≤ rank limit label
      → rank limit label < b
      → Bounded 0 a b (wait_hitl1 label)
  unfolding wait_hitl1
  keep_wait_hitl1 label a b ha hb = record {
    sound = λ w below.
        (keep_wait w.hitl1_events (λ es v. record v { hitl1_events = es }) (suc (rank limit label))
            b (omega arith) (λ xs v. refl) (λ xs v. refl)).sound
          (log_label label w) (omega arith, Below-mono a (rank limit label) w.labels ha below);
  }

  pub keep_wait_hitl2 :
      (label : StepName) (a b : ℕ)
      → a ≤ rank limit label
      → rank limit label < b
      → Bounded 0 a b (wait_hitl2 label)
  unfolding wait_hitl2
  keep_wait_hitl2 label a b ha hb = record {
    sound = λ w below.
        (keep_wait w.hitl2_events (λ es v. record v { hitl2_events = es }) (suc (rank limit label))
            b (omega arith) (λ xs v. refl) (λ xs v. refl)).sound
          (log_label label w) (omega arith, Below-mono a (rank limit label) w.labels ha below);
  }

  -- The rules for bodies without requests, as `search` applies them.
  pub Quiet-then :
      {A B : Type 0} {m : Flow A} {f : A → Flow B}
      → Quiet 0 m
      → ((x : A) → Quiet 0 (f x))
      → Quiet 0 (m >>= f)
  Quiet-then = Quiet-bind 0 0

  pub Quiet-if :
      {A : Type 0} {x y : Flow A} (b : Bool) → Quiet 0 x → Quiet 0 y → Quiet 0 (if b then x else y)
  Quiet-if b hx hy n = keep_if b 0 n n (hx n) (hy n)

  pub Quiet-throw : {A : Type 0} (message : String) → Quiet 0 (throw_error {A = A} message)
  Quiet-throw message n = keep_throw message n n (omega arith)

-- A step without requests, then the rest.
pub then_plain :
    {limit : ℕ} (p : Platform) (label : StepName) {A B : Type 0} {a c : ℕ} {body : Flow A}
    {f : A → Flow B}
    → (a ≤ rank limit label) × (rank limit label < c)
    → Quiet limit 0 body
    → ((x : A) → Bounded limit 0 (suc (rank limit label)) c (f x))
    → Bounded limit 0 a c (do_step p label body >>= f)
then_plain {limit} p label {A} {B} {a} {c} h = then_step limit p label 0 0 a c (h.0) (h.1)

pub ruleset quiet_rules = (
  Quiet-then, Quiet-gets, Quiet-lift, Quiet-or_throw, Quiet-pure, Quiet-modify, Quiet-if,
  Quiet-throw, Quiet-emit, Quiet-status,
)
