-- ===== src/Stream/Delivery.antt =====
-- No row of the log is lost, repeated or reordered on its way from the events to the table.
use ai_content_workflow.Prelude.{
  ℕ, ◌≡◌, refl, sym, ap, ◌∙◌, subst, inl, inr, some, List, [], ◌∷◌, ◌++◌, arith, length,
  Option-cases,
}
use mathlib.Core.List.{append_assoc, append-nil}
use ai_content_workflow.Json.{Fields}
use ai_content_workflow.Stream.Rows.{EventLogRow, Starts, parse_event_to_row, persist_events}
use ai_content_workflow.Stream.Hub.{StreamEnv, row_of}
use ai_content_workflow.Stream.Steps.{log_of}
use ai_content_workflow.Stream.Order.{
  IsNumbered, IsNumbered-append, IsNumbered-split, persist_fresh, persist_present, persist-append,
  append_cases,
}

-- The table has the first rows in order; the rows after them wait, behind rows that a failed insertion
-- may have left in the table.
abbrev pub Waits : List EventLogRow → List EventLogRow → List EventLogRow → Type 0
Waits logged waiting rows =
    (before : List EventLogRow) × (twice : List EventLogRow) × (after : List EventLogRow) × (rows
      ≡ before ++ (twice ++ after))
    × (logged ≡ before ++ twice)
    × (waiting ≡ twice ++ after)

pub Waits-append :
    (logged waiting rows more : List EventLogRow)
    → Waits logged waiting rows
    → Waits logged (waiting ++ more) (rows ++ more)
Waits-append logged waiting rows more (b, t, a, er, el, ew) = (
  b,
  t,
  a ++ more,
  ap (λ l. l ++ more) er ∙ append_assoc b (t ++ a) more ∙ ap (λ l. b ++ l) (append_assoc t a more),
  el,
  ap (λ l. l ++ more) ew ∙ append_assoc t a more,
)

-- What an insertion of the first waiting rows makes of the table.
pub Waits-persist_events :
    (logged flight pending rows : List EventLogRow)
    → Waits logged (flight ++ pending) rows
    → IsNumbered 0 rows
    → Waits (persist_events logged flight) pending rows
      × Waits (persist_events logged flight) (flight ++ pending) rows
Waits-persist_events logged flight pending rows (b, t, a, er, el, ew) h =
    elim (append_cases flight pending t a ew) [
      | inl (f, ef, ea) ↦
          let grown : persist_events logged flight ≡ b ++ (t ++ f) = more f ef ea in
          let all_rows : rows ≡ b ++ (t ++ (f ++ pending)) = er ∙ ap (λ l. b ++ (t ++ l)) ea in
          (
            (
              b ++ (t ++ f),
              [],
              pending,
              all_rows ∙ regroup t f pending,
              grown ∙ sym (append-nil (b ++ (t ++ f))),
              refl,
            ),
            (
              b,
              t ++ f,
              pending,
              all_rows ∙ ap (λ l. b ++ l) (sym (append_assoc t f pending)),
              grown,
              ap (λ l. l ++ pending) ef,
            ),
          )
      | inr (g, et, ep) ↦
          let same : persist_events logged flight ≡ b ++ (flight ++ g) =
            ap (λ l. persist_events l flight) (el ∙ ap (λ l. b ++ l) et)
            ∙ persist_present b flight g in
          let all_rows : rows ≡ b ++ (flight ++ g ++ a) = er ∙ ap (λ l. b ++ (l ++ a)) et in
          (
            (
              b ++ flight,
              g,
              a,
              all_rows
                  ∙ ap (λ l. b ++ l) (append_assoc flight g a)
                  ∙ sym (append_assoc b flight (g ++ a)),
              same ∙ sym (append_assoc b flight g),
              ep,
            ),
            (
              b,
              flight ++ g,
              a,
              all_rows,
              same,
              ap (λ l. flight ++ l) ep ∙ sym (append_assoc flight g a),
            ),
          )
    ]
  where
    regroup : (t f p : List EventLogRow) → b ++ (t ++ (f ++ p)) ≡ b ++ (t ++ f) ++ p
    regroup t f p = ap (λ l. b ++ l) (sym (append_assoc t f p)) ∙ sym (append_assoc b (t ++ f) p)

    more :
        (f : List EventLogRow)
        → flight ≡ t ++ f
        → a ≡ f ++ pending
        → persist_events logged flight ≡ b ++ (t ++ f)
    more f ef ea =
        let present : persist_events (b ++ t) t ≡ b ++ t =
          subst (λ l. persist_events (b ++ l) t ≡ b ++ l) (append-nil t) (persist_present b t []) in
        let numbered : IsNumbered 0 (b ++ t ++ f ++ pending) =
          subst (IsNumbered 0)
            (er
              ∙ ap (λ l. b ++ (t ++ l)) ea
              ∙ sym (append_assoc b t (f ++ pending))
              ∙ sym (append_assoc (b ++ t) f pending))
            h in
        ap (λ l. persist_events l flight) el
        ∙ ap (persist_events (b ++ t)) ef
        ∙ persist-append (b ++ t) t f
        ∙ ap (λ l. persist_events l f) present
        ∙ persist_fresh (b ++ t) f (IsNumbered-split 0 (b ++ t ++ f) pending numbered).0
        ∙ append_assoc b t f

row_of-seq :
    (env : StreamEnv) (e : Fields) (n : ℕ) (starts after : Starts) (row : EventLogRow)
    → row_of env e n starts ≡ some (row, after)
    → row.seq ≡ n
unfolding row_of parse_event_to_row
row_of-seq env e n starts after row h = ground arith

pub log_of-IsNumbered : (env : StreamEnv) (es : List Fields) → IsNumbered 0 (log_of env es).0
unfolding log_of
log_of-IsNumbered env [] = tt
log_of-IsNumbered env (e ∷ es) =
    let past = log_of env es in
    elim (Option-cases (row_of env e (length past.0) past.1)) [
      | inl unlogged ↦ rw (unlogged, log_of) (log_of-IsNumbered env es)
      | inr ((row, starts), found) ↦
          rw (found, log_of)
            (IsNumbered-append 0 past.0 (row ∷ []) (log_of-IsNumbered env es)
              (omega (arith, row_of-seq env e (length past.0) past.1 starts row found), tt))
    ]
