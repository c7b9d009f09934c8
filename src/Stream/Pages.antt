-- ===== src/Stream/Pages.antt =====
-- What a read of the log (getEventLogs of deploy/cloudflare-workers/src/db/event-log.ts) gives.
use ai_content_workflow.Prelude.{
  ℕ, String, zero, suc, ◌≤◌, ◌≡◌, refl, ap, ◌⊎◌, inl, inr, Bool, true, not, Option, List, [], ◌∷◌,
  ◌++◌, arith, drop, take, length, leb, keep, All, All-keep, Bool-cases, subst, sym,
}
use mathlib.Core.List.{Perm, Pairwise, Pairwise-singleton, perm_middle, Mem, forall_mem-cons}
use mathlib.Core.List.Perm
use native.Mathlib.Bridge.{le_prop}
use ai_content_workflow.Stream.Rows.{EventLogRow, LogLevel}
use ai_content_workflow.Stream.Reading.{
  Finite, clamp_limit, is_wanted, insert_row, order_by_seq, get_event_logs,
}
use ai_content_workflow.Stream.Paging.{query_of, Wants, is_wanted_iff}

-- Rows in the order of their numbers.
abbrev pub IsOrdered : List EventLogRow → Type 0
IsOrdered = Pairwise (λ r s. r.seq ≤ s.seq)

abbrev IsBelow : ℕ → List EventLogRow → Type 0
IsBelow n rows = (s : EventLogRow) → Mem s rows → n ≤ s.seq

insert_row-perm : (r : EventLogRow) (rows : List EventLogRow) → Perm (insert_row r rows) (r ∷ rows)
unfolding insert_row
insert_row-perm r [] = Perm.rfl
insert_row-perm r (s ∷ rows) = elim (Bool-cases (leb r.seq s.seq)) [
  | inl low ↦ rw (low, insert_row) Perm.rfl
  | inr high ↦
      rw (high, insert_row) (Perm.trans (Perm.cons s (insert_row-perm r rows)) (Perm.swap r s rows))
]

IsBelow-cons :
    (n : ℕ) (r : EventLogRow) (rows : List EventLogRow)
    → n ≤ r.seq
    → IsBelow n rows
    → IsBelow n (r ∷ rows)
IsBelow-cons n r rows low h = (forall_mem-cons (λ x. le_prop)).1 (low, h)

insert_row-IsOrdered :
    (r : EventLogRow) (rows : List EventLogRow) → IsOrdered rows → IsOrdered (insert_row r rows)
unfolding insert_row
insert_row-IsOrdered r [] h = Pairwise-singleton _ r
insert_row-IsOrdered r (s ∷ rows) (Pairwise.cons below h) = elim (Bool-cases (leb r.seq s.seq)) [
  | inl low ↦
      let first : r.seq ≤ s.seq = ground (arith, low) in
      rw (low, insert_row)
        (Pairwise.cons (IsBelow-cons r.seq s rows first (λ t m. omega (arith, first, below t m)))
          (Pairwise.cons below h))
  | inr high ↦
      let first : s.seq ≤ r.seq = ground (arith, high) in
      rw (high, insert_row)
        (Pairwise.cons
          (λ t m.
            IsBelow-cons s.seq r rows first below t ((Perm.mem_iff (insert_row-perm r rows)).0 m))
          (insert_row-IsOrdered r rows h))
]

order_by_seq-perm : (rows : List EventLogRow) → Perm (order_by_seq rows) rows
unfolding order_by_seq
order_by_seq-perm [] = Perm.rfl
order_by_seq-perm (r ∷ rows) =
    Perm.trans (insert_row-perm r (order_by_seq rows)) (Perm.cons r (order_by_seq-perm rows))

order_by_seq-IsOrdered : (rows : List EventLogRow) → IsOrdered (order_by_seq rows)
unfolding order_by_seq
order_by_seq-IsOrdered [] = Pairwise.nil
order_by_seq-IsOrdered (r ∷ rows) =
    insert_row-IsOrdered r (order_by_seq rows) (order_by_seq-IsOrdered rows)

module _ (p : EventLogRow → Bool) where
  -- Every row is kept or left.
  keep-perm : (rows : List EventLogRow) → Perm (keep p rows ++ keep (λ r. not (p r)) rows) rows
  unfolding keep
  keep-perm [] = Perm.rfl
  keep-perm (r ∷ rows) = elim (Bool-cases (p r)) [
    | inl holds ↦ rw (holds, keep) (Perm.cons r (keep-perm rows))
    | inr fails ↦
        rw (fails, keep)
          (Perm.trans (perm_middle (keep p rows) (keep (λ s. not (p s)) rows))
            (Perm.cons r (keep-perm rows)))
  ]

All-take :
    (P : EventLogRow → Type 0) (n : ℕ) (rows : List EventLogRow)
    → All P rows
    → All P (take n rows) × All P (drop n rows)
All-take P zero rows h = (tt, h)
All-take P (suc n) [] h = (tt, tt)
All-take P (suc n) (r ∷ rows) h = let rest = All-take P n rows h.1 in ((h.0, rest.0), rest.1)

-- A part of the rows comes first; when it is short of the limit, it is all.
take_lem :
    (n : ℕ) (rows : List EventLogRow)
    → (take n rows ++ drop n rows ≡ rows)
      × (length (take n rows) ≤ n)
      × ((drop n rows ≡ []) ⊎ (length (take n rows) ≡ n))
take_lem zero rows = (refl, omega arith, inr refl)
take_lem (suc n) [] = (refl, omega arith, inl refl)
take_lem (suc n) (r ∷ rows) =
    let rest = take_lem n rows in
    (
      ap (λ l. r ∷ l) rest.0,
      omega (arith, rest.1),
      elim rest.2 [ inl all ↦ inl all | inr full ↦ inr (omega (arith, full)) ],
    )

All-weaken :
    (P Q : EventLogRow → Type 0)
    → ((r : EventLogRow) → P r → Q r)
    → (rows : List EventLogRow) → All P rows
    → All Q rows
All-weaken P Q f [] h = tt
All-weaken P Q f (r ∷ rows) h = (f r h.0, All-weaken P Q f rows h.1)

All-insert_row :
    (P : EventLogRow → Type 0) (r : EventLogRow) (rows : List EventLogRow)
    → P r
    → All P rows
    → All P (insert_row r rows)
unfolding insert_row
All-insert_row P r [] own h = (own, tt)
All-insert_row P r (s ∷ rows) own h = elim (Bool-cases (leb r.seq s.seq)) [
  | inl low ↦ rw (low, insert_row) (own, h)
  | inr high ↦ rw (high, insert_row) (h.0, All-insert_row P r rows own h.1)
]

All-order_by_seq :
    (P : EventLogRow → Type 0) (rows : List EventLogRow) → All P rows → All P (order_by_seq rows)
unfolding order_by_seq
All-order_by_seq P [] h = tt
All-order_by_seq P (r ∷ rows) h =
    All-insert_row P r (order_by_seq rows) h.0 (All-order_by_seq P rows h.1)

-- A page of the table, with the rows that the query wants and that come later, and the other rows.
abbrev pub IsPageOf :
    List EventLogRow
    → String
    → Option ℕ
    → Option Finite
    → Option LogLevel
    → List EventLogRow
    → Type 0
IsPageOf table id since limit level page =
    (later : List EventLogRow) × (others : List EventLogRow) × Perm ((page ++ later) ++ others)
      table
    × IsOrdered (page ++ later)
    × All (Wants id since level) page
    × All (Wants id since level) later
    × All (λ r. Wants id since level r → ⊥) others
    × (length page ≤ clamp_limit limit)
    × ((later ≡ []) ⊎ (length page ≡ clamp_limit limit))

-- A read of the log for the rows of a stream after a number and of a level, where these are given,
-- parts the rows of any table in three: the page that it answers, the wanted rows that come later and
-- the others, which are not wanted. Page and later rows together are in the order of their numbers, the
-- page is no longer than the limit, and when it is shorter nothing comes later.
pub get_event_logs-IsPageOf :
    (table : List EventLogRow) (id : String) (since : Option ℕ) (limit : Option Finite)
    (level : Option LogLevel)
    → IsPageOf table id since limit level (get_event_logs table id (query_of since limit level))
unfolding get_event_logs
get_event_logs-IsPageOf table id since limit level =
    let wanted : EventLogRow → Bool = is_wanted id (query_of since limit level) in
    let rows : List EventLogRow = keep wanted table in
    let ordered : List EventLogRow = order_by_seq rows in
    let n : ℕ = clamp_limit limit in
    let others : List EventLogRow = keep (λ r. not (wanted r)) table in
    let parts = take_lem n ordered in
    let all_wanted : All (Wants id since level) rows =
      All-weaken (λ r. wanted r ≡ true) (Wants id since level)
        (λ r. (is_wanted_iff id since limit level r).0) rows (All-keep wanted table) in
    let ours =
      All-take (Wants id since level) n ordered
        (All-order_by_seq (Wants id since level) rows all_wanted) in
    let unwanted : All (λ r. Wants id since level r → ⊥) others =
      All-weaken (λ r. not (wanted r) ≡ true) (λ r. Wants id since level r → ⊥)
        (λ r refused asked.
          let holds : wanted r ≡ true = (is_wanted_iff id since limit level r).1 asked in
          absurd (ground (arith, refused, holds)))
        others (All-keep (λ r. not (wanted r)) table) in
    (
      drop n ordered,
      others,
      subst (λ (l : List EventLogRow). Perm (l ++ others) table) (sym parts.0)
          (Perm.trans (Perm.append_right others (order_by_seq-perm rows)) (keep-perm wanted table)),
      subst IsOrdered (sym parts.0) (order_by_seq-IsOrdered rows),
      ours.0,
      ours.1,
      unwanted,
      parts.1,
      parts.2,
    )
