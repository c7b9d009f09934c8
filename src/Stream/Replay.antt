-- ===== src/Stream/Replay.antt =====
-- The buffer that a late reader is sent.
use ai_content_workflow.Prelude.{
  ℕ, zero, String, suc, ◌+◌, ◌-◌, ◌≤◌, ◌≡◌, refl, sym, ap, ◌∙◌, inl, inr, not, List, [], ◌∷◌, ◌++◌,
  arith, length, length-append, length-drop, drop, Bool-cases, Option-cases, if◌then◌else◌, ltb,
  keep, ◌==◌,
}
use ai_content_workflow.Json.{Fields}
use ai_content_workflow.Stream.Hub.{
  StreamEnv, Hub, append, take_snapshot, flush, flush_failed, open_stream, cancel, fan_out, row_of,
  persist, enqueue_log, ensure_flush_alarm, broadcast, maybe_stop_heartbeat, ensure_heartbeat,
  is_thinking_event, frame, event_buffer_size, heartbeat_frame, deliver,
}
use ai_content_workflow.Stream.Steps.{
  Reach, start, appended, fired, flushed, failed, opened, cancelled, pinged, left,
}

unfoldable pub take_last {ℓ} : {A : Type ℓ} → ℕ → List A → List A
take_last n xs = drop (length xs - n) xs

-- The events of a history that are not thoughts, the oldest first.
unfoldable pub milestones : List Fields → List Fields
milestones [] = []
milestones (e ∷ es) =
    let past = milestones es in if is_thinking_event e then past else past ++ (e ∷ [])

module _ {ℓ} {A : Type ℓ} where
  drop-nil : (n : ℕ) → drop {A = A} n [] ≡ []
  drop-nil zero = refl
  drop-nil (suc n) = refl

  drop-drop : (m k : ℕ) (xs : List A) → drop m (drop k xs) ≡ drop (k + m) xs
  drop-drop m zero xs = let same : m ≡ 0 + m = omega arith in ap (λ n. drop n xs) same
  drop-drop m (suc k) [] = drop-nil m ∙ sym (drop-nil (suc k + m))
  drop-drop m (suc k) (x ∷ xs) =
      let same : suc (k + m) ≡ suc k + m = omega arith in
      drop-drop m k xs ∙ ap (λ n. drop n (x ∷ xs)) same

  drop-append : (k : ℕ) (xs ys : List A) → k ≤ length xs → drop k xs ++ ys ≡ drop k (xs ++ ys)
  drop-append zero xs ys h = refl
  drop-append (suc k) [] ys h = absurd (omega (arith, h))
  drop-append (suc k) (x ∷ xs) ys h = drop-append k xs ys (omega (arith, h))

  take_last_short : (n : ℕ) (xs : List A) → length xs ≤ n → take_last n xs ≡ xs
  unfolding take_last
  take_last_short n xs h =
      let all_kept : length xs - n ≡ 0 = omega (arith, h) in ap (λ j. drop j xs) all_kept

  -- What was dropped before does not count.
  pub take_last-append-take_last :
      (n : ℕ) (xs ys : List A) → take_last n (take_last n xs ++ ys) ≡ take_last n (xs ++ ys)
  unfolding take_last
  take_last-append-take_last n xs ys =
      let k : ℕ = length xs - n in
      let moved : drop k xs ++ ys ≡ drop k (xs ++ ys) = drop-append k xs ys (omega arith) in
      ap (λ l. drop (length l - n) l) moved
      ∙ drop-drop (length (drop k (xs ++ ys)) - n) k (xs ++ ys)
      ∙ ap (λ j. drop j (xs ++ ys)) same_place
    where
      same_place :
          length xs - n + (length (drop (length xs - n) (xs ++ ys)) - n) ≡ length (xs ++ ys) - n
      same_place = omega (arith, length-drop (length xs - n) (xs ++ ys), length-append xs ys)

module _ (env : StreamEnv) where
  events-maybe_stop_heartbeat : (h : Hub) → (maybe_stop_heartbeat h).events ≡ h.events
  unfolding maybe_stop_heartbeat
  events-maybe_stop_heartbeat h = ground arith

  events-fan_out : (chunk : String) (h : Hub) → (fan_out chunk h).events ≡ h.events
  unfolding fan_out
  events-fan_out chunk h =
      events-maybe_stop_heartbeat (record h { readers = deliver chunk h.readers })

  events-cancel : (id : ℕ) (h : Hub) → (cancel id h).events ≡ h.events
  unfolding cancel
  events-cancel id h =
      events-maybe_stop_heartbeat
        (record h { readers = keep (λ r. not (r.reader_id == id)) h.readers })

  events-ensure_heartbeat : (h : Hub) → (ensure_heartbeat h).events ≡ h.events
  unfolding ensure_heartbeat
  events-ensure_heartbeat h = ground arith

  events-ensure_flush_alarm : (h : Hub) → (ensure_flush_alarm h).events ≡ h.events
  unfolding ensure_flush_alarm
  events-ensure_flush_alarm h = ground arith

  events-enqueue_log : (e : Fields) (h : Hub) → (enqueue_log env e h).events ≡ h.events
  unfolding enqueue_log
  events-enqueue_log e h = elim (Option-cases (row_of env e h.seq h.start_ms)) [
    | inl unlogged ↦ rw (unlogged, enqueue_log) refl
    | inr ((row, starts), found) ↦ rw (found, enqueue_log) (events-ensure_flush_alarm _)
  ]

  events-persist :
      (e : Fields) (h : Hub)
      → (persist e h).events ≡ take_last event_buffer_size (h.events ++ (e ∷ []))
  unfolding persist take_last
  events-persist e h = elim (Bool-cases (ltb event_buffer_size (length (h.events ++ (e ∷ []))))) [
    | inl full ↦ rw (full, persist) refl
    | inr fits ↦
        rw (fits, persist)
          (sym (take_last_short event_buffer_size (h.events ++ (e ∷ [])) (ground (arith, fits))))
  ]

  events-append :
      (e : Fields) (h : Hub) (es : List Fields)
      → h.events ≡ take_last event_buffer_size (milestones es)
      → (append env e h).events ≡ take_last event_buffer_size (milestones (e ∷ es))
  unfolding append broadcast milestones
  events-append e h es before = elim (Bool-cases (is_thinking_event e)) [
    | inl live ↦
        rw (live, append, milestones)
          (events-fan_out (frame env e) (enqueue_log env e h) ∙ events-enqueue_log e h ∙ before)
    | inr milestone ↦
        rw (milestone, append, milestones)
          (events-fan_out (frame env e) (enqueue_log env e (persist e h))
            ∙ events-enqueue_log e (persist e h)
            ∙ events-persist e h
            ∙ ap (λ l. take_last event_buffer_size (l ++ (e ∷ []))) before
            ∙ take_last-append-take_last event_buffer_size (milestones es) (e ∷ []))
  ]

  -- When appends do not overlap, the buffer that a new reader is sent holds the last 500 events that are
  -- not thoughts, in order.
  pub Reach-events :
      {h : Hub} {es : List Fields}
      → Reach env h es
      → h.events ≡ take_last event_buffer_size (milestones es)
  unfolding milestones take_last take_snapshot flush flush_failed open_stream
  Reach-events start = refl
  Reach-events (appended {h} {es} e r) = events-append e h es (Reach-events r)
  Reach-events (fired alarm idle r) = Reach-events r
  Reach-events (flushed busy r) = Reach-events r
  Reach-events (failed committed busy r) = Reach-events r
  Reach-events (opened id r) = events-ensure_heartbeat _ ∙ Reach-events r
  Reach-events (cancelled {h} id r) = events-cancel id h ∙ Reach-events r
  Reach-events (pinged {h} beats r) = events-fan_out heartbeat_frame h ∙ Reach-events r
  Reach-events (left rs same r) = Reach-events r
