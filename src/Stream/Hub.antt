-- ===== src/Stream/Hub.antt =====
-- RunStream of deploy/cloudflare-workers/src/run-stream.ts: the durable object that keeps, logs and
-- broadcasts the events of one stream. Its storage, its alarm and its readers are a record; the rows of
-- the table run_event_logs that it wrote are part of it.
use ai_content_workflow.Prelude.{
  ℕ, String, ◌+◌, ◌-◌, ◌<>◌, Bool, true, false, not, ◌&&◌, ◌||◌, Option, none, some, List, [], ◌∷◌,
  ◌++◌, map, str_eq, ltb, ◌==◌, if◌then◌else◌, ends_with, trim, to_lower, length, drop, keep,
}
use ai_content_workflow.Json.{Json, null, num, str, obj, Fields, end, get_field}
use ai_content_workflow.Stream.Rows.{
  StreamKind, run_stream, batch_stream, EventEnvelope, EventLogRow, Starts, should_persist,
  parse_event_to_row, persist_events,
}

abbrev pub event_buffer_size : ℕ
event_buffer_size = 500

abbrev pub heartbeat_frame : String
heartbeat_frame = ": ping\n\n"

-- The platform's JSON.stringify and Date.parse, and the variable PERSIST_THINKING.
pub record StreamEnv : Type 0 where
  pub stringify : Json → String
  pub parse_date : String → Option ℕ
  pub persist_thinking : Option String

-- A subscriber with the frames it was sent; `gone` when its stream refuses them.
pub record Reader : Type 0 where
  pub reader_id : ℕ
  pub gone : Bool
  pub frames : List String

pub record Hub : Type 0 where
  pub events : List Fields
  pub pending : List EventLogRow
  pub seq : ℕ
  pub start_ms : Starts
  pub alarm : Bool
  -- the snapshot of an alarm that is writing it
  pub in_flight : List EventLogRow
  pub logged : List EventLogRow
  pub readers : List Reader
  pub heartbeat : Bool

abbrev pub new_hub : Hub
new_hub = record {
  events = [];
  pending = [];
  seq = 0;
  start_ms = [];
  alarm = false;
  in_flight = [];
  logged = [];
  readers = [];
  heartbeat = false;
}

text_at : String → Fields → Option String
unfolding get_field
text_at key event = elim (get_field key event) [ some (str s) ↦ some s | _ ↦ none ]

unfoldable pub is_thinking_event : Fields → Bool
unfolding text_at
is_thinking_event event = elim (text_at "event" event) [
  | none ↦ false
  | some name ↦ ends_with name ".thinking"
]

unfoldable pub frame : StreamEnv → Fields → String
frame env event = "data: " <> env.stringify (obj event) <> "\n\n"

unfoldable pub persist_thinking_enabled : StreamEnv → Bool
persist_thinking_enabled env = elim env.persist_thinking [
  | none ↦ true
  | some raw ↦
      let normalized = to_lower (trim raw) in
      not (str_eq normalized "0" || str_eq normalized "false" || str_eq normalized "off")
]

non_empty_at : String → Fields → Option String
unfolding text_at
non_empty_at key event = elim (text_at key event) [
  | none ↦ none
  | some s ↦ if str_eq s "" then none else some s
]

unfoldable pub stream_id_of : Fields → Option String
unfolding non_empty_at
stream_id_of event = elim (non_empty_at "run_id" event) [
  | some id ↦ some id
  | none ↦ non_empty_at "batch_id" event
]

unfoldable pub stream_kind_of : Fields → StreamKind
unfolding non_empty_at
stream_kind_of event = elim (non_empty_at "batch_id" event) [
  | none ↦ run_stream
  | some id ↦ batch_stream
]

-- `event["payload"] ?? {}`
payload_of : Option Json → Json
payload_of none = obj end
payload_of (some null) = obj end
payload_of (some v) = v

iteration_of : Option Json → Option ℕ
iteration_of (some (num n)) = some n
iteration_of _ = none

unfoldable pub to_envelope : String → Fields → EventEnvelope
unfolding text_at payload_of iteration_of
to_envelope name event = record {
  event = name;
  timestamp = elim (text_at "timestamp" event) [ none ↦ "" | some s ↦ s ];
  iteration = iteration_of (get_field "iteration" event);
  payload = payload_of (get_field "payload" event);
}

unfoldable pub persist : Fields → Hub → Hub
persist event hub =
    let events = hub.events ++ (event ∷ []) in
    record hub {
      events =
          if ltb event_buffer_size (length events)
          then drop (length events - event_buffer_size) events
          else events;
    }

-- The row of an event at a sequence number, if the event is logged.
unfoldable pub row_of : StreamEnv → Fields → ℕ → Starts → Option (EventLogRow × Starts)
unfolding text_at stream_id_of
row_of env event seq starts = elim (text_at "event" event) [
  | none ↦ none
  | some name ↦
      if should_persist name (persist_thinking_enabled env)
      then elim (stream_id_of event) [
        | none ↦ none
        | some stream_id ↦ some (
            parse_event_to_row env.stringify env.parse_date stream_id (stream_kind_of event)
              (to_envelope name event) seq starts)
      ]
      else none
]

unfoldable pub ensure_flush_alarm : Hub → Hub
ensure_flush_alarm hub = if hub.alarm then hub else record hub { alarm = true }

unfoldable pub enqueue_log : StreamEnv → Fields → Hub → Hub
unfolding row_of ensure_flush_alarm
enqueue_log env event hub = elim (row_of env event hub.seq hub.start_ms) [
  | none ↦ hub
  | some (row, starts) ↦
      ensure_flush_alarm
        (record hub { pending = hub.pending ++ (row ∷ []); seq = 1 + hub.seq; start_ms = starts })
]

unfoldable pub is_nobody : List Reader → Bool
is_nobody [] = true
is_nobody (r ∷ rs) = false

unfoldable pub maybe_stop_heartbeat : Hub → Hub
unfolding is_nobody
maybe_stop_heartbeat hub =
    if is_nobody hub.readers && hub.heartbeat then record hub { heartbeat = false } else hub

unfoldable pub ensure_heartbeat : Hub → Hub
unfolding is_nobody
ensure_heartbeat hub =
    if hub.heartbeat || is_nobody hub.readers then hub else record hub { heartbeat = true }

abbrev pub send : String → Reader → Reader
send chunk r = record r { frames = r.frames ++ (chunk ∷ []) }

unfoldable pub deliver : String → List Reader → List Reader
deliver chunk [] = []
deliver chunk (r ∷ rs) = let rest = deliver chunk rs in if r.gone then rest else send chunk r ∷ rest

unfoldable pub fan_out : String → Hub → Hub
unfolding deliver maybe_stop_heartbeat
fan_out chunk hub = maybe_stop_heartbeat (record hub { readers = deliver chunk hub.readers })

unfoldable pub broadcast : StreamEnv → Fields → Hub → Hub
unfolding frame fan_out
broadcast env event hub = fan_out (frame env event) hub

-- POST /append. One step of the object: persist's get and put of `events` stand outside
-- blockConcurrencyWhile, so appends that overlap at them are not modelled.
unfoldable pub append : StreamEnv → Fields → Hub → Hub
unfolding is_thinking_event persist enqueue_log broadcast
append env event hub =
    let kept = if is_thinking_event event then hub else persist event hub in
    broadcast env event (enqueue_log env event kept)

-- The alarm fires: the snapshot is taken and its slot is cleared.
unfoldable pub take_snapshot : Hub → Hub
take_snapshot hub = record hub { alarm = false; in_flight = hub.pending; pending = [] }

-- The insertion of the snapshot succeeds.
unfoldable pub flush : Hub → Hub
unfolding persist_events
flush hub = record hub { logged = persist_events hub.logged hub.in_flight; in_flight = [] }

-- It fails, before or after the database committed the rows.
unfoldable pub flush_failed : Bool → Hub → Hub
unfolding persist_events
flush_failed committed hub = record hub {
  logged = if committed then persist_events hub.logged hub.in_flight else hub.logged;
  pending = hub.in_flight ++ hub.pending;
  in_flight = [];
  alarm = true;
}

-- GET /events: a heartbeat, the replay of the buffer, then live events.
unfoldable pub open_stream : StreamEnv → ℕ → Hub → Hub
unfolding frame ensure_heartbeat
open_stream env id hub =
    let reader : Reader = record {
      reader_id = id;
      gone = false;
      frames = heartbeat_frame ∷ map (frame env) hub.events;
    } in
    ensure_heartbeat (record hub { readers = hub.readers ++ (reader ∷ []) })

unfoldable pub cancel : ℕ → Hub → Hub
unfolding keep maybe_stop_heartbeat
cancel id hub =
    maybe_stop_heartbeat (record hub { readers = keep (λ r. not (r.reader_id == id)) hub.readers })
