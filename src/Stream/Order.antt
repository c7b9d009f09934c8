-- ===== src/Stream/Order.antt =====
-- Inserting numbered rows into a table that has some of them.
use ai_content_workflow.Prelude.{
  ℕ, suc, ◌+◌, ◌≤◌, ◌≡◌, refl, sym, ◌∙◌, subst, ◌⊎◌, inl, inr, true, false, List, [], ◌∷◌, ◌++◌,
  arith, length, Bool-cases, eq_iff,
}
use mathlib.Core.List.{append_assoc, append-nil}
use ai_content_workflow.Stream.Rows.{EventLogRow, same_key, has_key, persist_events}

-- The rows have the numbers from `n` on.
abbrev pub IsNumbered : ℕ → List EventLogRow → Type 0
IsNumbered n [] = Unit
IsNumbered n (r ∷ rs) = (r.seq ≡ n) × IsNumbered (suc n) rs

pub IsNumbered-append :
    (n : ℕ) (xs ys : List EventLogRow)
    → IsNumbered n xs
    → IsNumbered (n + length xs) ys
    → IsNumbered n (xs ++ ys)
IsNumbered-append n [] ys hx hy = subst (λ m. IsNumbered m ys) (omega arith) hy
IsNumbered-append n (x ∷ xs) ys hx hy =
    (hx.0, IsNumbered-append (suc n) xs ys hx.1 (subst (λ m. IsNumbered m ys) (omega arith) hy))

pub IsNumbered-split :
    (n : ℕ) (xs ys : List EventLogRow)
    → IsNumbered n (xs ++ ys)
    → IsNumbered n xs × IsNumbered (n + length xs) ys
IsNumbered-split n [] ys h = (tt, subst (λ m. IsNumbered m ys) (omega arith) h)
IsNumbered-split n (x ∷ xs) ys h =
    let rest = IsNumbered-split (suc n) xs ys h.1 in
    ((h.0, rest.0), subst (λ m. IsNumbered m ys) (omega arith) rest.1)

has_key_fresh :
    (n : ℕ) (r : EventLogRow) (table : List EventLogRow)
    → IsNumbered n table
    → n + length table ≤ r.seq
    → has_key r table ≡ false
unfolding has_key same_key
has_key_fresh n r [] h le = refl
has_key_fresh n r (s ∷ table) h le =
    ground (arith, h.0, le, has_key_fresh (suc n) r table h.1 (omega (arith, le)))

has_key_self :
    (r : EventLogRow) (before after : List EventLogRow) → has_key r (before ++ (r ∷ after)) ≡ true
unfolding has_key same_key
has_key_self r [] after = grind (arith, eq_iff)
has_key_self r (s ∷ before) after = ground (arith, has_key_self r before after)

pub persist_fresh :
    (table rows : List EventLogRow)
    → IsNumbered 0 (table ++ rows)
    → persist_events table rows ≡ table ++ rows
unfolding persist_events
persist_fresh table [] h = sym (append-nil table)
persist_fresh table (r ∷ rows) h =
    let parts = IsNumbered-split 0 table (r ∷ rows) h in
    let fresh = has_key_fresh 0 r table parts.0 (omega (arith, parts.1.0)) in
    let shifted = append_assoc table (r ∷ []) rows in
    rw (fresh, persist_events)
      (persist_fresh (table ++ (r ∷ [])) rows (subst (IsNumbered 0) (sym shifted) h) ∙ shifted)

pub persist_present :
    (before rows after : List EventLogRow)
    → persist_events (before ++ (rows ++ after)) rows ≡ before ++ (rows ++ after)
unfolding persist_events
persist_present before [] after = refl
persist_present before (r ∷ rows) after =
    let shifted = append_assoc before (r ∷ []) (rows ++ after) in
    rw (has_key_self r before (rows ++ after), persist_events)
      (subst (λ t. persist_events t rows ≡ t) shifted
        (persist_present (before ++ (r ∷ [])) rows after))

pub persist-append :
    (table xs ys : List EventLogRow)
    → persist_events table (xs ++ ys) ≡ persist_events (persist_events table xs) ys
unfolding persist_events
persist-append table [] ys = refl
persist-append table (x ∷ xs) ys = elim (Bool-cases (has_key x table)) [
  | inl known ↦ rw (known, persist_events) (persist-append table xs ys)
  | inr fresh ↦ rw (fresh, persist_events) (persist-append (table ++ (x ∷ [])) xs ys)
]

-- Of two ways to part a list, one parts it later.
pub append_cases :
    (a b c d : List EventLogRow)
    → a ++ b ≡ c ++ d
    → ((f : List EventLogRow) × (a ≡ c ++ f) × (d ≡ f ++ b))
      ⊎ ((g : List EventLogRow) × (c ≡ a ++ g) × (b ≡ g ++ d))
append_cases a b [] d e = inl (a, refl, sym e)
append_cases [] b (x ∷ c) d e = inr (x ∷ c, refl, e)
append_cases (y ∷ a) b (x ∷ c) d e = elim (append_cases a b c d (cc e)) [
  | inl (f, ea, ed) ↦ inl (f, cc (e, ea), ed)
  | inr (g, ec, eb) ↦ inr (g, cc (e, ec), eb)
]
