-- ===== src/Stream/Steps.antt =====
-- What can happen to a stream's object, in any order: events come in, the alarm fires, the insertion that
-- it starts succeeds or fails while more events come in, readers come, leave and stop reading.
use ai_content_workflow.Prelude.{ℕ, ◌≡◌, Bool, true, none, some, List, [], ◌∷◌, ◌++◌, length}
use ai_content_workflow.Json.{Fields}
use ai_content_workflow.Stream.Rows.{EventLogRow, Starts}
use ai_content_workflow.Stream.Hub.{
  StreamEnv, Hub, Reader, new_hub, append, take_snapshot, flush, flush_failed, open_stream, cancel,
  fan_out, row_of, heartbeat_frame,
}

-- The hubs that are reached by the events, the newest first.
pub data Reach (env : StreamEnv) : Hub → List Fields → Type 0 where
  start : Reach env new_hub []
  appended :
      {h : Hub} {es : List Fields} (e : Fields)
      → Reach env h es
      → Reach env (append env e h) (e ∷ es)
  fired :
      {h : Hub} {es : List Fields}
      → h.alarm ≡ true
      → h.in_flight ≡ []
      → Reach env h es
      → Reach env (take_snapshot h) es
  flushed :
      {h : Hub} {es : List Fields}
      → (h.in_flight ≡ [] → ⊥)
      → Reach env h es
      → Reach env (flush h) es
  failed :
      {h : Hub} {es : List Fields} (committed : Bool)
      → (h.in_flight ≡ [] → ⊥)
      → Reach env h es
      → Reach env (flush_failed committed h) es
  opened :
      {h : Hub} {es : List Fields} (id : ℕ) → Reach env h es → Reach env (open_stream env id h) es
  cancelled : {h : Hub} {es : List Fields} (id : ℕ) → Reach env h es → Reach env (cancel id h) es
  pinged :
      {h : Hub} {es : List Fields}
      → h.heartbeat ≡ true
      → Reach env h es
      → Reach env (fan_out heartbeat_frame h) es
  left :
      {h : Hub} {es : List Fields} (rs : List Reader)
      → length rs ≡ length h.readers
      → Reach env h es
      → Reach env (record h { readers = rs }) es

-- The rows of the log for a history, numbered by their place, and the times of the starts after it.
unfoldable pub log_of : StreamEnv → List Fields → List EventLogRow × Starts
log_of env [] = ([], [])
log_of env (e ∷ es) =
    let past = log_of env es in
    elim (row_of env e (length past.0) past.1) [
      | none ↦ past
      | some (row, starts) ↦ (past.0 ++ (row ∷ []), starts)
    ]
