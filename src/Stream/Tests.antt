-- ===== src/Stream/Tests.antt =====
-- The theorems on a stream's object at a run of two events, the second of which comes in while an
-- insertion fails after its rows were committed.
use ai_content_workflow.Prelude.{
  ◌≡◌, refl, ◌⊎◌, true, none, some, List, [], ◌∷◌, ◌++◌, not, ends_with,
}
use ai_content_workflow.Json.{str, Fields, end, field}
use ai_content_workflow.Stream.Rows.{EventLogRow, run_stream, parse_event_to_row, should_persist}
use ai_content_workflow.Stream.Hub.{
  StreamEnv, Hub, to_envelope, append, take_snapshot, flush, flush_failed, new_hub, enqueue_log,
  ensure_flush_alarm, broadcast, fan_out, maybe_stop_heartbeat, persist, row_of, stream_id_of,
  event_buffer_size, is_nobody,
}
use ai_content_workflow.Stream.Steps.{Reach, start, appended, fired, flushed, failed, log_of}
use ai_content_workflow.Stream.Reached.{Reach-logged, Reach-flushed}
use ai_content_workflow.Stream.Replay.{take_last, milestones, Reach-events}
use ai_content_workflow.Stream.Heartbeat.{Reach-IsBeating}
use ai_content_workflow.Stream.Reading.{get_event_logs}
use ai_content_workflow.Stream.Paging.{query_of}
use ai_content_workflow.Stream.Pages.{IsPageOf, get_event_logs-IsPageOf}

abbrev stream_env : StreamEnv
stream_env = record { stringify = λ v. "{}"; parse_date = λ s. some 7; persist_thinking = none }

abbrev first_event : Fields
first_event = field "event" (str "writer.start") (field "run_id" (str "r1") end)

abbrev second_event : Fields
second_event = field "event" (str "writer.done") (field "run_id" (str "r1") end)

-- The insertion has failed with both rows pending.
abbrev retried : Hub
retried =
    flush_failed true
      (append stream_env second_event (take_snapshot (append stream_env first_event new_hub)))

abbrev settled : Hub
settled = flush (take_snapshot retried)

nonempty : {r : EventLogRow} {rs : List EventLogRow} → r ∷ rs ≡ [] → ⊥
nonempty e = absurd (cc e)

Reach-retried : Reach stream_env retried (second_event ∷ first_event ∷ [])
unfolding append take_snapshot enqueue_log ensure_flush_alarm broadcast fan_out maybe_stop_heartbeat
    persist row_of stream_id_of flush_failed should_persist ends_with
Reach-retried =
    failed true nonempty (appended second_event (fired refl refl (appended first_event start)))

Reach-settled : Reach stream_env settled (second_event ∷ first_event ∷ [])
unfolding append take_snapshot enqueue_log ensure_flush_alarm broadcast fan_out maybe_stop_heartbeat
    persist row_of stream_id_of flush flush_failed should_persist ends_with
Reach-settled = flushed nonempty (fired refl refl Reach-retried)

Reach-logged_example :
    (twice : List EventLogRow) × (missing : List EventLogRow) × ((log_of stream_env
        (second_event ∷ first_event ∷ [])).0
      ≡ retried.logged ++ missing)
    × (retried.in_flight ++ retried.pending ≡ twice ++ missing)
    × ((retried.pending ≡ []) ⊎ (retried.alarm ≡ true))
Reach-logged_example = Reach-logged stream_env Reach-retried

Reach-flushed_example : settled.logged ≡ (log_of stream_env (second_event ∷ first_event ∷ [])).0
unfolding flush take_snapshot
Reach-flushed_example = Reach-flushed stream_env Reach-settled refl refl

Reach-events_example :
    retried.events ≡ take_last event_buffer_size (milestones (second_event ∷ first_event ∷ []))
Reach-events_example = Reach-events stream_env Reach-retried

Reach-IsBeating_example : retried.heartbeat ≡ not (is_nobody retried.readers)
Reach-IsBeating_example = Reach-IsBeating stream_env Reach-retried

-- Rows of two streams, and those of the first out of order.
abbrev mixed_rows : List EventLogRow
mixed_rows =
    (parse_event_to_row (λ v. "{}") (λ s. some 7) "r1" run_stream
      (to_envelope "writer.done" second_event) 1 []).0
    ∷ (parse_event_to_row (λ v. "{}") (λ s. some 7) "r2" run_stream
        (to_envelope "writer.start" first_event) 0 []).0
    ∷ (parse_event_to_row (λ v. "{}") (λ s. some 7) "r1" run_stream
        (to_envelope "writer.start" first_event) 0 []).0
    ∷ []

get_event_logs-IsPageOf_example :
    IsPageOf mixed_rows "r1" none none none
      (get_event_logs mixed_rows "r1" (query_of none none none))
get_event_logs-IsPageOf_example = get_event_logs-IsPageOf mixed_rows "r1" none none none
