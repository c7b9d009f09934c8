-- ===== src/Stream/Reading.antt =====
-- The read API of deploy/cloudflare-workers/src/db/event-log.ts. The rows of the table have their types;
-- that the driver gives numbers as texts, and mapLogRow, is left out.
use ai_content_workflow.Prelude.{
  ℕ, String, Bool, true, false, not, ◌&&◌, ◌||◌, Option, none, some, List, [], ◌∷◌, str_eq, ltb,
  leb, if◌then◌else◌, keep, trim, take,
}
use ai_content_workflow.Stream.Rows.{EventLogRow, LogLevel, info, thinking, gate, error}

-- A finite number of JavaScript: its sign, its whole part, and whether it has a fraction.
pub record Finite : Type 0 where
  pub negative : Bool
  pub whole : ℕ
  pub fractional : Bool

abbrev pub default_log_limit : ℕ
default_log_limit = 2000

abbrev pub max_log_limit : ℕ
max_log_limit = 10000

pub record LogQuery : Type 0 where
  pub since_seq : Option Finite
  pub limit : Option Finite
  pub level : Option LogLevel

unfoldable pub is_positive : Finite → Bool
is_positive n = not n.negative && (ltb 0 n.whole || n.fractional)

-- `limit` is finite where it is given: parseLogQuery leaves out a number that is not.
unfoldable pub clamp_limit : Option Finite → ℕ
unfolding is_positive
clamp_limit none = default_log_limit
clamp_limit (some limit) =
    if is_positive limit
    then if leb limit.whole max_log_limit then limit.whole else max_log_limit
    else default_log_limit

unfoldable pub same_level : LogLevel → LogLevel → Bool
same_level info info = true
same_level thinking thinking = true
same_level gate gate = true
same_level error error = true
same_level _ _ = false

-- `seq > since`
unfoldable pub is_after : Option Finite → ℕ → Bool
is_after none seq = true
is_after (some since) seq =
    since.negative && (ltb 0 since.whole || since.fractional) || ltb since.whole seq

unfoldable pub is_wanted : String → LogQuery → EventLogRow → Bool
unfolding is_after same_level
is_wanted stream_id query r =
    str_eq r.stream_id stream_id
    && is_after query.since_seq r.seq
    && elim query.level [ none ↦ true | some level ↦ same_level r.level level ]

unfoldable pub insert_row : EventLogRow → List EventLogRow → List EventLogRow
insert_row r [] = r ∷ []
insert_row r (s ∷ rows) =
    let rest = insert_row r rows in if leb r.seq s.seq then r ∷ s ∷ rows else s ∷ rest

-- ORDER BY seq ASC
unfoldable pub order_by_seq : List EventLogRow → List EventLogRow
unfolding insert_row
order_by_seq [] = []
order_by_seq (r ∷ rows) = insert_row r (order_by_seq rows)

unfoldable pub get_event_logs : List EventLogRow → String → LogQuery → List EventLogRow
unfolding clamp_limit is_wanted order_by_seq
get_event_logs table stream_id query =
    take (clamp_limit query.limit) (order_by_seq (keep (is_wanted stream_id query) table))

unfoldable pub log_level : String → Option LogLevel
log_level s =
    if str_eq s "info"
    then some info
    else if str_eq s "thinking"
    then some thinking
    else if str_eq s "gate"
    then some gate
    else if str_eq s "error"
    then some error
    else none

-- `Number(s)` is a parameter that answers `none` where it is not finite.
module _ (number : String → Option Finite) where
  finite : Option String → Option Finite
  finite none = none
  finite (some s) = if str_eq (trim s) "" then none else number s

  -- Math.trunc
  truncate : Option Finite → Option Finite
  truncate none = none
  truncate (some n) = some (record n { fractional = false })

  unfoldable pub parse_log_query : (String → Option String) → LogQuery
  unfolding finite truncate log_level
  parse_log_query param = record {
    since_seq = truncate (finite (param "since_seq"));
    limit = finite (param "limit");
    level = elim (param "level") [ none ↦ none | some s ↦ log_level (trim s) ];
  }
