-- ===== src/Stream/Reached.antt =====
-- What holds of every hub that is reached, whatever the order of its steps: of its log, its alarm, its
-- buffer and its heartbeat.
use ai_content_workflow.Prelude.{
  ℕ, String, ◌+◌, ◌≡◌, refl, sym, ap, ◌∙◌, subst, ◌⊎◌, inl, inr, Bool, true, false, not, ◌&&◌, ◌||◌,
  List, [], ◌∷◌, ◌++◌, arith, length, length-append, Bool-cases, Option-cases, keep, ◌==◌,
}
use mathlib.Core.List.{append_assoc, append-nil}
use ai_content_workflow.Json.{Fields}
use ai_content_workflow.Stream.Rows.{EventLogRow, Starts}
use ai_content_workflow.Stream.Hub.{
  StreamEnv, Hub, append, take_snapshot, flush, flush_failed, open_stream, cancel, fan_out, row_of,
  persist, enqueue_log, ensure_flush_alarm, broadcast, maybe_stop_heartbeat, ensure_heartbeat,
  is_nobody, is_thinking_event, frame, deliver, heartbeat_frame,
}
use ai_content_workflow.Stream.Steps.{
  Reach, start, appended, fired, flushed, failed, opened, cancelled, pinged, left, log_of,
}
use ai_content_workflow.Stream.Delivery.{
  Waits, Waits-append, Waits-persist_events, log_of-IsNumbered,
}

-- The counter, the times and the rows of the log stand as the history says; rows that are pending have
-- an alarm to flush them.
abbrev pub HasLogged : Hub → List EventLogRow → Starts → Type 0
HasLogged h rows starts =
    (h.seq ≡ length rows)
    × (h.start_ms ≡ starts)
    × Waits h.logged (h.in_flight ++ h.pending) rows
    × ((h.pending ≡ []) ⊎ (h.alarm ≡ true))

abbrev pub IsLogged : StreamEnv → Hub → List Fields → Type 0
IsLogged env h es = HasLogged h (log_of env es).0 (log_of env es).1

HasLogged-ensure_flush_alarm :
    (h : Hub) (rows : List EventLogRow) (starts : Starts)
    → h.seq ≡ length rows
    → h.start_ms ≡ starts
    → Waits h.logged (h.in_flight ++ h.pending) rows
    → HasLogged (ensure_flush_alarm h) rows starts
unfolding ensure_flush_alarm
HasLogged-ensure_flush_alarm h rows starts s t w = elim (Bool-cases h.alarm) [
  | inl set ↦ simp (set, ensure_flush_alarm) (s, t, w, inr refl)
  | inr unset ↦ simp (unset, ensure_flush_alarm) (s, t, w, inr refl)
]

module _ (env : StreamEnv) where
  IsLogged-maybe_stop_heartbeat :
      (h : Hub) (es : List Fields) → IsLogged env h es → IsLogged env (maybe_stop_heartbeat h) es
  unfolding maybe_stop_heartbeat
  IsLogged-maybe_stop_heartbeat h es l = elim (Bool-cases (is_nobody h.readers && h.heartbeat)) [
    | inl stops ↦ rw (stops, maybe_stop_heartbeat) l
    | inr stays ↦ rw (stays, maybe_stop_heartbeat) l
  ]

  IsLogged-ensure_heartbeat :
      (h : Hub) (es : List Fields) → IsLogged env h es → IsLogged env (ensure_heartbeat h) es
  unfolding ensure_heartbeat
  IsLogged-ensure_heartbeat h es l = elim (Bool-cases (h.heartbeat || is_nobody h.readers)) [
    | inl stays ↦ rw (stays, ensure_heartbeat) l
    | inr starts ↦ rw (starts, ensure_heartbeat) l
  ]

  IsLogged-enqueue_log :
      (e : Fields) (h : Hub) (es : List Fields)
      → IsLogged env h es
      → IsLogged env (enqueue_log env e h) (e ∷ es)
  unfolding enqueue_log log_of
  IsLogged-enqueue_log e h es (s, t, w, a) =
      let past : List EventLogRow × Starts = log_of env es in
      let same : row_of env e h.seq h.start_ms ≡ row_of env e (length past.0) past.1 = cc (s, t) in
      elim (Option-cases (row_of env e (length past.0) past.1)) [
        | inl unlogged ↦ rw (same ∙ unlogged, unlogged, enqueue_log, log_of) (s, t, w, a)
        | inr ((row, starts), found) ↦
            rw (same ∙ found, found, enqueue_log, log_of)
              (HasLogged-ensure_flush_alarm
                (record h { pending = h.pending ++ (row ∷ []); seq = 1 + h.seq; start_ms = starts })
                (past.0 ++ (row ∷ [])) starts (omega (arith, s, length-append past.0 (row ∷ [])))
                refl
                (subst (λ l. Waits h.logged l (past.0 ++ (row ∷ [])))
                  (append_assoc h.in_flight h.pending (row ∷ []))
                  (Waits-append h.logged (h.in_flight ++ h.pending) past.0 (row ∷ []) w)))
      ]

  IsLogged-persist :
      (e : Fields) (h : Hub) (es : List Fields) → IsLogged env h es → IsLogged env (persist e h) es
  unfolding persist
  IsLogged-persist e h es l = l

  IsLogged-fan_out :
      (chunk : String) (h : Hub) (es : List Fields)
      → IsLogged env h es
      → IsLogged env (fan_out chunk h) es
  unfolding fan_out
  IsLogged-fan_out chunk h es l =
      IsLogged-maybe_stop_heartbeat (record h { readers = deliver chunk h.readers }) es l

  IsLogged-append :
      (e : Fields) (h : Hub) (es : List Fields)
      → IsLogged env h es
      → IsLogged env (append env e h) (e ∷ es)
  unfolding append broadcast
  IsLogged-append e h es l = elim (Bool-cases (is_thinking_event e)) [
    | inl live ↦
        rw (live, append)
          (IsLogged-fan_out (frame env e) (enqueue_log env e h) (e ∷ es)
            (IsLogged-enqueue_log e h es l))
    | inr milestone ↦
        rw (milestone, append)
          (IsLogged-fan_out (frame env e) (enqueue_log env e (persist e h)) (e ∷ es)
            (IsLogged-enqueue_log e (persist e h) es (IsLogged-persist e h es l)))
  ]

  IsLogged-take_snapshot :
      (h : Hub) (es : List Fields)
      → h.in_flight ≡ []
      → IsLogged env h es
      → IsLogged env (take_snapshot h) es
  unfolding take_snapshot
  IsLogged-take_snapshot h es idle (s, t, w, a) = (
    s,
    t,
    subst (λ l. Waits h.logged l (log_of env es).0)
        (ap (λ l. l ++ h.pending) idle ∙ sym (append-nil h.pending)) w,
    inl refl,
  )

  IsLogged-flush : (h : Hub) (es : List Fields) → IsLogged env h es → IsLogged env (flush h) es
  unfolding flush
  IsLogged-flush h es (s, t, w, a) = (
    s,
    t,
    (Waits-persist_events h.logged h.in_flight h.pending (log_of env es).0 w
        (log_of-IsNumbered env es)).0,
    a,
  )

  IsLogged-flush_failed :
      (committed : Bool) (h : Hub) (es : List Fields)
      → IsLogged env h es
      → IsLogged env (flush_failed committed h) es
  unfolding flush_failed
  IsLogged-flush_failed true h es (s, t, w, a) = (
    s,
    t,
    (Waits-persist_events h.logged h.in_flight h.pending (log_of env es).0 w
        (log_of-IsNumbered env es)).1,
    inr refl,
  )
  IsLogged-flush_failed false h es (s, t, w, a) = (s, t, w, inr refl)

  IsLogged-cancel :
      (id : ℕ) (h : Hub) (es : List Fields) → IsLogged env h es → IsLogged env (cancel id h) es
  unfolding cancel
  IsLogged-cancel id h es l =
      IsLogged-maybe_stop_heartbeat
        (record h { readers = keep (λ r. not (r.reader_id == id)) h.readers }) es l

  pub Reach-IsLogged : {h : Hub} {es : List Fields} → Reach env h es → IsLogged env h es
  unfolding log_of open_stream
  Reach-IsLogged start = (refl, refl, ([], [], [], refl, refl, refl), inl refl)
  Reach-IsLogged (appended {h} {es} e r) = IsLogged-append e h es (Reach-IsLogged r)
  Reach-IsLogged (fired {h} {es} alarm idle r) = IsLogged-take_snapshot h es idle (Reach-IsLogged r)
  Reach-IsLogged (flushed {h} {es} busy r) = IsLogged-flush h es (Reach-IsLogged r)
  Reach-IsLogged (failed {h} {es} committed busy r) =
      IsLogged-flush_failed committed h es (Reach-IsLogged r)
  Reach-IsLogged (opened {h} {es} id r) = IsLogged-ensure_heartbeat _ es (Reach-IsLogged r)
  Reach-IsLogged (cancelled {h} {es} id r) = IsLogged-cancel id h es (Reach-IsLogged r)
  Reach-IsLogged (pinged {h} {es} beats r) =
      IsLogged-fan_out heartbeat_frame h es (Reach-IsLogged r)
  Reach-IsLogged (left rs same r) = Reach-IsLogged r

  -- However the steps interleave, and whether a failed insertion was committed or not, the table holds
  -- the first rows of the history's log, each once and in order; the rows that it lacks wait in this
  -- order at the end of the snapshot and the pending rows, and an alarm is set when some are pending.
  pub Reach-logged :
      {h : Hub} {es : List Fields}
      → Reach env h es
      → (twice : List EventLogRow) × (missing : List EventLogRow) × ((log_of env es).0
          ≡ h.logged ++ missing)
        × (h.in_flight ++ h.pending ≡ twice ++ missing)
        × ((h.pending ≡ []) ⊎ (h.alarm ≡ true))
  Reach-logged {h} {es} r =
      let (s, t, (b, twice, missing, er, el, ew), a) = Reach-IsLogged r in
      (
        twice,
        missing,
        er ∙ sym (append_assoc b twice missing) ∙ ap (λ l. l ++ missing) (sym el),
        ew,
        a,
      )

  -- When nothing is pending and no insertion is under way, the table is the log of the history.
  pub Reach-flushed :
      {h : Hub} {es : List Fields}
      → Reach env h es
      → h.in_flight ≡ []
      → h.pending ≡ []
      → h.logged ≡ (log_of env es).0
  Reach-flushed {h} {es} r idle none_left =
      let (twice, missing, er, ew, a) = Reach-logged r in
      nothing_missing twice missing er (sym ew ∙ ap (λ l. l ++ h.pending) idle ∙ none_left)
    where
      nothing_missing :
          (twice missing : List EventLogRow)
          → (log_of env es).0 ≡ h.logged ++ missing
          → twice ++ missing ≡ []
          → h.logged ≡ (log_of env es).0
      nothing_missing [] [] er e = sym (er ∙ append-nil h.logged)
      nothing_missing [] (m ∷ ms) er e = absurd (cc e)
      nothing_missing (x ∷ xs) missing er e = absurd (cc e)
