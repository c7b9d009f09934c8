-- ===== src/Stream/Rows.antt =====
-- deploy/cloudflare-workers/src/db/event-log.ts: the row of the log that an event gives. `stringify` is
-- JSON.stringify and `parse_date` is Date.parse, which answers `none` for NaN; times are from 1970 on.
use ai_content_workflow.Prelude.{
  ℕ, String, ◌-◌, Bool, true, false, ◌&&◌, ◌||◌, Option, none, some, List, [], ◌∷◌, str_eq, leb,
  ltb, ◌==◌, ◌++◌, if◌then◌else◌, ends_with, byte_len, split, get_last?, includes,
}
use ai_content_workflow.Json.{Json, bool, num, str, arr, obj, Items, Fields, end, field}
use Prim.Native.String.{compare}
use Prim.Native.Nat.{Ordering}

pub data LogLevel : Type 0 where
  info thinking gate error : LogLevel

pub data StreamKind : Type 0 where
  run_stream batch_stream : StreamKind

pub record EventEnvelope : Type 0 where
  pub event : String
  pub timestamp : String
  pub iteration : Option ℕ
  pub payload : Json

-- A difference of two times; `nan` when the first does not parse.
pub data Millis : Type 0 where
  nan : Millis
  later earlier : ℕ → Millis

pub record EventLogRow : Type 0 where
  pub stream_id : String
  pub stream_kind : StreamKind
  pub seq : ℕ
  pub event : String
  pub level : LogLevel
  pub step : Option String
  pub iteration : Option ℕ
  pub duration_ms : Option Millis
  pub payload : Json
  pub recorded_at : String

abbrev pub max_bytes : ℕ
max_bytes = 16384

abbrev pub max_field : ℕ
max_field = 2048

abbrev pub verbs : List String
verbs = "start" ∷ "done" ∷ "error" ∷ "thinking" ∷ "completed" ∷ "interrupted" ∷ []

-- The entry before the last one.
before_last : List String → Option String
before_last [] = none
before_last (s ∷ []) = none
before_last (s ∷ t ∷ []) = some s
before_last (s ∷ t ∷ u ∷ rest) = before_last (t ∷ u ∷ rest)

unfoldable pub derive_step : String → Option String
unfolding before_last split
derive_step event =
    let segments = split b'.' event in
    elim (get_last? segments) [
      | none ↦ none
      | some last ↦ if includes verbs last then before_last segments else some last
    ]

unfoldable pub derive_level : String → LogLevel
derive_level event =
    if ends_with event ".thinking"
    then thinking
    else if ends_with event ".error" || str_eq event "graph.error"
    then error
    else if str_eq event "hitl.interrupted" || ends_with event ".gate"
    then gate
    else info

unfoldable pub should_persist : String → Bool → Bool
should_persist event persist_thinking =
    if ends_with event ".thinking" then persist_thinking else true

-- The stub of an oversized value: `{ _truncated: true, _bytes }`.
abbrev pub stub : ℕ → Json
stub bytes = obj (field "_truncated" (bool true) (field "_bytes" (num bytes) end))

unfoldable pub cap_field : Json → Json
cap_field (str s) = if leb (byte_len s) max_field then str s else stub (byte_len s)
cap_field v = v

unfoldable pub cap_fields : Fields → Fields
unfolding cap_field
cap_fields end = end
cap_fields (field k v fs) = field k (cap_field v) (cap_fields fs)

unfoldable pub keys : Fields → List String
keys end = []
keys (field k v fs) = k ∷ keys fs

text_le : String → String → Bool
text_le s t = elim (compare s t) [ Ordering.gt ↦ false | _ ↦ true ]

insert_text : String → List String → List String
unfolding text_le
insert_text s [] = s ∷ []
insert_text s (t ∷ ts) = let rest = insert_text s ts in if text_le s t then s ∷ t ∷ ts else t ∷ rest

-- `keys.sort()`, by code points.
unfoldable pub sort_texts : List String → List String
unfolding insert_text
sort_texts [] = []
sort_texts (s ∷ ss) = insert_text s (sort_texts ss)

abbrev pub texts : List String → Items
texts [] = Items.nil
texts (s ∷ ss) = Items.cons (str s) (texts ss)

-- The summary of a payload that is too big even with its fields capped.
unfoldable pub summary : ℕ → Fields → Json
unfolding sort_texts keys
summary bytes fs = obj (
    field "_truncated" (bool true)
      (field "_bytes" (num bytes) (field "_keys" (arr (texts (sort_texts (keys fs)))) end)))

module _ (stringify : Json → String) where
  unfoldable pub json_bytes : Json → ℕ
  json_bytes v = byte_len (stringify v)

  unfoldable pub cap_value : Json → Json
  unfolding json_bytes
  cap_value v = if leb (json_bytes v) max_bytes then v else stub (json_bytes v)

  unfoldable pub cap_payload : Json → Json
  unfolding cap_value json_bytes cap_fields summary
  cap_payload (obj fs) =
      if leb (json_bytes (obj fs)) max_bytes
      then obj fs
      else if leb (json_bytes (obj (cap_fields fs))) max_bytes
      then obj (cap_fields fs)
      else summary (json_bytes (obj fs)) fs
  cap_payload v = cap_value v

-- The time of the last start of each step; `none` for one that did not parse.
abbrev pub Starts : Type 0
Starts = List (String × Option ℕ)

unfoldable pub find_start : String → Starts → Option (Option ℕ)
find_start step [] = none
find_start step (s ∷ rest) =
    let later_ones = find_start step rest in if str_eq s.0 step then some s.1 else later_ones

unfoldable pub delete_start : String → Starts → Starts
delete_start step [] = []
delete_start step (s ∷ rest) =
    let kept = delete_start step rest in if str_eq s.0 step then kept else s ∷ kept

unfoldable pub set_start : String → Option ℕ → Starts → Starts
unfolding delete_start
set_start step at starts = (step, at) ∷ delete_start step starts

unfoldable pub difference : ℕ → Option ℕ → Millis
difference now none = nan
difference now (some start) = if ltb now start then earlier (start - now) else later (now - start)

-- The duration of the event and the times of the starts after it.
unfoldable pub take_time : String → Option ℕ → Starts → Option Millis × Starts
unfolding derive_step find_start delete_start set_start difference
take_time event recorded starts = elim (derive_step event) [
  | none ↦ (none, starts)
  | some step ↦
      if ends_with event ".start"
      then (none, set_start step recorded starts)
      else if ends_with event ".done"
      then elim (find_start step starts) [
        | none ↦ (none, starts)
        | some start ↦ elim recorded [
          | none ↦ (none, starts)
          | some now ↦ (some (difference now start), delete_start step starts)
        ]
      ]
      else (none, starts)
]

module _ (stringify : Json → String) (parse_date : String → Option ℕ) where
  unfoldable pub parse_event_to_row :
      String → StreamKind → EventEnvelope → ℕ → Starts → EventLogRow × Starts
  unfolding take_time derive_step derive_level cap_payload
  parse_event_to_row stream_id stream_kind envelope seq starts =
      let timed = take_time envelope.event (parse_date envelope.timestamp) starts in
      (
        record {
          stream_id = stream_id;
          stream_kind = stream_kind;
          seq = seq;
          event = envelope.event;
          level = derive_level envelope.event;
          step = derive_step envelope.event;
          iteration = envelope.iteration;
          duration_ms = timed.0;
          payload = cap_payload stringify envelope.payload;
          recorded_at = envelope.timestamp;
        },
        timed.1,
      )

-- ON CONFLICT (stream_id, seq)
unfoldable pub same_key : EventLogRow → EventLogRow → Bool
same_key r s = str_eq r.stream_id s.stream_id && r.seq == s.seq

unfoldable pub has_key : EventLogRow → List EventLogRow → Bool
unfolding same_key
has_key r [] = false
has_key r (s ∷ table) = same_key r s || has_key r table

-- The rows in the order in which they were inserted; a row with a key of the table is left out.
unfoldable pub persist_events : List EventLogRow → List EventLogRow → List EventLogRow
unfolding has_key
persist_events table [] = table
persist_events table (r ∷ rows) =
    if has_key r table then persist_events table rows else persist_events (table ++ (r ∷ [])) rows
