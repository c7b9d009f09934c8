-- ===== src/Prelude/Pairs.antt =====
-- Relations that hold between the entries of a list, and predicates under filters.
use mathlib.Core.Logic.{inl, inr}
use mathlib.Core.Bool.{Bool}
use mathlib.Core.List.{List, [], ◌∷◌, ◌++◌}
use ai_content_workflow.Prelude.Tests.{Bool-cases}
use ai_content_workflow.Prelude.Lists.{All, keep}

-- Each entry with every later one.
abbrev pub Pairwise : {A : Type 0} → (A → A → Type 0) → List A → Type 0
Pairwise R [] = Unit
Pairwise R (x ∷ xs) = All (R x) xs × Pairwise R xs

module _ {A : Type 0} where
  pub All-map : {P Q : A → Type 0} → ((x : A) → P x → Q x) → (xs : List A) → All P xs → All Q xs
  All-map f [] h = tt
  All-map f (x ∷ xs) h = (f x h.0, All-map f xs h.1)

  pub All-zip : (P Q : A → Type 0) (xs : List A) → All P xs → All Q xs → All (λ x. P x × Q x) xs
  All-zip P Q [] h g = tt
  All-zip P Q (x ∷ xs) h g = ((h.0, g.0), All-zip P Q xs h.1 g.1)

  pub All-append_one :
      (P : A → Type 0) (x : A) (xs : List A) → All P xs → P x → All P (xs ++ (x ∷ []))
  All-append_one P x [] h p = (p, tt)
  All-append_one P x (y ∷ xs) h p = (h.0, All-append_one P x xs h.1 p)

  pub Pairwise-append_one :
      (R : A → A → Type 0) (x : A) (xs : List A)
      → Pairwise R xs
      → All (λ y. R y x) xs
      → Pairwise R (xs ++ (x ∷ []))
  Pairwise-append_one R x [] h p = (tt, tt)
  Pairwise-append_one R x (y ∷ xs) h p =
      (All-append_one (R y) x xs h.0 p.0, Pairwise-append_one R x xs h.1 p.1)

  module _ (f : A → Bool) where
    pub All-of-keep : (P : A → Type 0) (xs : List A) → All P xs → All P (keep f xs)
    unfolding keep
    All-of-keep P [] h = tt
    All-of-keep P (x ∷ xs) h = elim (Bool-cases (f x)) [
      | inl kept ↦ rw (kept, keep) (h.0, All-of-keep P xs h.1)
      | inr dropped ↦ rw (dropped, keep) (All-of-keep P xs h.1)
    ]

    pub Pairwise-keep : (R : A → A → Type 0) (xs : List A) → Pairwise R xs → Pairwise R (keep f xs)
    unfolding keep
    Pairwise-keep R [] h = tt
    Pairwise-keep R (x ∷ xs) h = elim (Bool-cases (f x)) [
      | inl kept ↦ rw (kept, keep) (All-of-keep (R x) xs h.0, Pairwise-keep R xs h.1)
      | inr dropped ↦ rw (dropped, keep) (Pairwise-keep R xs h.1)
    ]
