-- ===== src/Stream/Heartbeat.antt =====
-- The heartbeat of a stream.
use ai_content_workflow.Prelude.{
  ℕ, String, ◌≡◌, refl, sym, ap, ◌∙◌, inl, inr, Bool, true, false, not, List, [], ◌∷◌, ◌++◌, arith,
  length, Bool-cases, Option-cases, keep, ◌==◌,
}
use ai_content_workflow.Json.{Fields}
use ai_content_workflow.Stream.Hub.{
  StreamEnv, Hub, Reader, append, take_snapshot, flush, flush_failed, open_stream, cancel, fan_out,
  row_of, persist, enqueue_log, ensure_flush_alarm, broadcast, maybe_stop_heartbeat,
  ensure_heartbeat, is_nobody, is_thinking_event, deliver,
}
use ai_content_workflow.Stream.Steps.{
  Reach, start, appended, fired, flushed, failed, opened, cancelled, pinged, left,
}

abbrev pub IsBeating : Hub → Type 0
IsBeating h = h.heartbeat ≡ not (is_nobody h.readers)

maybe_stop_heartbeat-IsBeating :
    (h : Hub)
    → (is_nobody h.readers ≡ false → h.heartbeat ≡ true)
    → IsBeating (maybe_stop_heartbeat h)
unfolding maybe_stop_heartbeat
maybe_stop_heartbeat-IsBeating h beats = elim (Bool-cases (is_nobody h.readers)) [
  | inl nobody ↦ ground (arith, nobody)
  | inr somebody ↦ ground (arith, somebody, beats somebody)
]

ensure_heartbeat-IsBeating :
    (h : Hub) → is_nobody h.readers ≡ false → IsBeating (ensure_heartbeat h)
unfolding ensure_heartbeat
ensure_heartbeat-IsBeating h somebody = ground (arith, somebody)

is_nobody-deliver :
    (chunk : String) (rs : List Reader)
    → is_nobody (deliver chunk rs) ≡ false
    → is_nobody rs ≡ false
unfolding is_nobody deliver
is_nobody-deliver chunk [] h = h
is_nobody-deliver chunk (r ∷ rs) h = refl

is_nobody-append : (rs : List Reader) (r : Reader) → is_nobody (rs ++ (r ∷ [])) ≡ false
unfolding is_nobody
is_nobody-append [] r = refl
is_nobody-append (q ∷ rs) r = refl

is_nobody-keep :
    (p : Reader → Bool) (rs : List Reader) → is_nobody (keep p rs) ≡ false → is_nobody rs ≡ false
unfolding is_nobody keep
is_nobody-keep p [] h = h
is_nobody-keep p (r ∷ rs) h = refl

is_nobody-length : (rs qs : List Reader) → length rs ≡ length qs → is_nobody rs ≡ is_nobody qs
unfolding is_nobody
is_nobody-length [] [] h = refl
is_nobody-length [] (q ∷ qs) h = absurd (omega (arith, h))
is_nobody-length (r ∷ rs) [] h = absurd (omega (arith, h))
is_nobody-length (r ∷ rs) (q ∷ qs) h = refl

module _ (env : StreamEnv) where
  fan_out-IsBeating : (chunk : String) (h : Hub) → IsBeating h → IsBeating (fan_out chunk h)
  unfolding fan_out
  fan_out-IsBeating chunk h b =
      maybe_stop_heartbeat-IsBeating (record h { readers = deliver chunk h.readers })
        (λ somebody. b ∙ ap not (is_nobody-deliver chunk h.readers somebody))

  cancel-IsBeating : (id : ℕ) (h : Hub) → IsBeating h → IsBeating (cancel id h)
  unfolding cancel
  cancel-IsBeating id h b =
      maybe_stop_heartbeat-IsBeating
        (record h { readers = keep (λ r. not (r.reader_id == id)) h.readers })
        (λ somebody. b ∙ ap not (is_nobody-keep (λ r. not (r.reader_id == id)) h.readers somebody))

  ensure_flush_alarm-IsBeating : (h : Hub) → IsBeating h → IsBeating (ensure_flush_alarm h)
  unfolding ensure_flush_alarm
  ensure_flush_alarm-IsBeating h b = elim (Bool-cases h.alarm) [
    | inl set ↦ simp (set, ensure_flush_alarm) b
    | inr unset ↦ simp (unset, ensure_flush_alarm) b
  ]

  enqueue_log-IsBeating : (e : Fields) (h : Hub) → IsBeating h → IsBeating (enqueue_log env e h)
  unfolding enqueue_log
  enqueue_log-IsBeating e h b = elim (Option-cases (row_of env e h.seq h.start_ms)) [
    | inl unlogged ↦ rw (unlogged, enqueue_log) b
    | inr ((row, starts), found) ↦ rw (found, enqueue_log) (ensure_flush_alarm-IsBeating _ b)
  ]

  append-IsBeating : (e : Fields) (h : Hub) → IsBeating h → IsBeating (append env e h)
  unfolding append broadcast persist
  append-IsBeating e h b = elim (Bool-cases (is_thinking_event e)) [
    | inl live ↦ rw (live, append) (fan_out-IsBeating _ _ (enqueue_log-IsBeating e h b))
    | inr milestone ↦
        rw (milestone, append) (fan_out-IsBeating _ _ (enqueue_log-IsBeating e (persist e h) b))
  ]

  -- The heartbeat runs exactly while a reader is subscribed.
  pub Reach-IsBeating : {h : Hub} {es : List Fields} → Reach env h es → IsBeating h
  unfolding take_snapshot flush flush_failed open_stream is_nobody
  Reach-IsBeating start = refl
  Reach-IsBeating (appended {h} e r) = append-IsBeating e h (Reach-IsBeating r)
  Reach-IsBeating (fired alarm idle r) = Reach-IsBeating r
  Reach-IsBeating (flushed busy r) = Reach-IsBeating r
  Reach-IsBeating (failed committed busy r) = Reach-IsBeating r
  Reach-IsBeating (opened {h} id r) = ensure_heartbeat-IsBeating _ (is_nobody-append h.readers _)
  Reach-IsBeating (cancelled {h} id r) = cancel-IsBeating id h (Reach-IsBeating r)
  Reach-IsBeating (pinged {h} beats r) = fan_out-IsBeating _ h (Reach-IsBeating r)
  Reach-IsBeating (left {h} rs same r) =
      Reach-IsBeating r ∙ ap not (sym (is_nobody-length rs h.readers same))
