-- ===== src/Prelude/Programs.antt =====
-- Programs on a state that may fail: a failure keeps the state that was reached.
use mathlib.Core.Path.{◌≡◌, ap}
use mathlib.Core.Option.{Option, none, some}

abbrev pub Fallible : Type 0 → Type 0 → Type 0
Fallible S A = S → Option A × S

infixl 5 ◌>>=◌ ◌>>◌
abbrev pub ◌>>=◌ : {S A B : Type 0} → Fallible S A → (A → Fallible S B) → Fallible S B
◌>>=◌ m f s = let r = m s in elim r.0 [ none ↦ (none, r.1) | some a ↦ f a r.1 ]

abbrev pub ◌>>◌ : {S A B : Type 0} → Fallible S A → Fallible S B → Fallible S B
m >> k = m >>= λ _. k

abbrev pub pure : {S A : Type 0} → A → Fallible S A
pure a s = (some a, s)

module _ {S : Type 0} where
  -- `P` of a result and the state after it, `Q` of the state where a statement failed.
  abbrev pub Ends : {A : Type 0} → (A → S → Type 0) → (S → Type 0) → Option A × S → Type 0
  Ends P Q (none, s) = Q s
  Ends P Q (some a, s) = P a s

  module _ {A B : Type 0} (m : Fallible S A) (f : A → Fallible S B) where
    pub bind_failed : (s t : S) → m s ≡ (none, t) → (m >>= f) s ≡ (none, t)
    bind_failed s t e = ap (λ r. elim r.0 [ none ↦ (none, r.1) | some a ↦ f a r.1 ]) e

    pub bind_done : (a : A) (s t : S) → m s ≡ (some a, t) → (m >>= f) s ≡ f a t
    bind_done a s t e = ap (λ r. elim r.0 [ none ↦ (none, r.1) | some a ↦ f a r.1 ]) e

  pub Ends-bind :
      {A B : Type 0} (R : B → S → Type 0) (Q : S → Type 0) (m : Fallible S A) (f : A → Fallible S B)
      (s : S)
      → Ends (λ a t. Ends R Q (f a t)) Q (m s)
      → Ends R Q ((m >>= f) s)
  Ends-bind {A} {B} R Q m f s h = after (m s) h
    where
      after :
          (r : Option A × S)
          → Ends (λ a t. Ends R Q (f a t)) Q r
          → Ends R Q (elim r.0 [ none ↦ (none, r.1) | some a ↦ f a r.1 ])
      after (none, t) g = g
      after (some a, t) g = g

  -- What holds either way holds of the state.
  pub Ends-state : {A : Type 0} (K : S → Type 0) (r : Option A × S) → Ends (λ a. K) K r → K r.1
  Ends-state K (none, t) h = h
  Ends-state K (some a, t) h = h
