-- ===== src/Refresh/Scoring.antt =====
-- computeStaleness of deploy/cloudflare-workers/src/refresh/evaluator.ts with the weights of
-- config/refresh.ts, the counts of refresh/deterministic_checks.ts and the schedule of
-- refresh/inventory.ts. The score is kept exactly, in ninetieths of a point, and rounded to hundredths:
-- no score lies half way between two hundredths, so that the rounding of floats does not show.
use ai_content_workflow.Prelude.{
  ℕ, suc, ◌+◌, ◌-◌, ◌*◌, ◌/◌, String, Bool, false, ◌&&◌, ◌||◌, Option, none, some, List, [], ◌∷◌,
  ◌++◌, ltb, leb, ◌==◌, if◌then◌else◌,
}

pub data Severity : Type 0 where
  high medium low : Severity

pub record Finding : Type 0 where
  pub id : String
  pub severity : Severity
  pub message : String

pub record DeterministicResult : Type 0 where
  pub findings : List Finding
  pub severity_high : ℕ
  pub severity_medium : ℕ
  pub severity_low : ℕ

abbrev pub no_findings : DeterministicResult
no_findings = record { findings = []; severity_high = 0; severity_medium = 0; severity_low = 0 }

add_severity : Severity → DeterministicResult → DeterministicResult
add_severity high r = record r { severity_high = r.severity_high + 1 }
add_severity medium r = record r { severity_medium = r.severity_medium + 1 }
add_severity low r = record r { severity_low = r.severity_low + 1 }

unfoldable pub add : Finding → DeterministicResult → DeterministicResult
unfolding add_severity
add f r = add_severity f.severity (record r { findings = r.findings ++ (f ∷ []) })

unfoldable pub add_all : List Finding → DeterministicResult → DeterministicResult
unfolding add
add_all [] r = r
add_all (f ∷ fs) r = add_all fs (add f r)

abbrev pub audit_det_medium_threshold : ℕ
audit_det_medium_threshold = 1

unfoldable pub passed : DeterministicResult → Bool
passed r = r.severity_high == 0 && leb r.severity_medium audit_det_medium_threshold

pub record LlmFindings : Type 0 where
  pub severity_high : ℕ
  pub severity_medium : ℕ
  pub severity_low : ℕ
  pub raw : String
  pub tokens_in : ℕ
  pub tokens_out : ℕ
  pub latency_ms : ℕ

pub data Action : Type 0 where
  refresh monitor ok : Action

-- A number of days, which is negative for a time to come: `negsuc n` is -(n + 1).
pub data ℤ : Type 0 where
  pos : ℕ → ℤ
  negsuc : ℕ → ℤ

abbrev pub ms_per_day : ℕ
ms_per_day = 86400000

-- The days between two times, rounded down.
unfoldable pub days_between : ℕ → ℕ → ℤ
days_between reference now =
    if leb reference now
    then pos ((now - reference) / ms_per_day)
    else negsuc ((reference - now - 1) / ms_per_day)

-- Points in ninetieths: 0.4 * min(10, 10 * days / 180), which is days / 45 and at most 4.
unfoldable pub age_points : ℤ → ℕ
age_points (pos days) = if leb days 180 then 2 * days else 360
age_points (negsuc n) = 0

-- What a time to come takes off.
unfoldable pub age_loss : ℤ → ℕ
age_loss (pos days) = 0
age_loss (negsuc n) = 2 * suc n

unfoldable pub llm_points : Option LlmFindings → ℕ
llm_points none = 0
llm_points (some llm) =
    if ltb 0 llm.severity_high then 270 else if ltb 0 llm.severity_medium then 135 else 0

unfoldable pub raw_points : DeterministicResult → Option LlmFindings → ℤ → ℕ
unfolding age_points age_loss llm_points
raw_points det llm age =
    age_points age
    + 180 * det.severity_high
    + 45 * det.severity_medium
    + llm_points llm
    - age_loss age

-- Clamped to ten points, and rounded to hundredths of a point.
unfoldable pub to_hundredths : ℕ → ℕ
to_hundredths points = (200 * (if leb points 900 then points else 900) + 90) / 180

abbrev pub refresh_threshold : ℕ
refresh_threshold = 600

abbrev pub monitor_threshold : ℕ
monitor_threshold = 300

unfoldable pub has_high : Option LlmFindings → Bool
has_high none = false
has_high (some llm) = ltb 0 llm.severity_high

unfoldable pub has_high_severity : DeterministicResult → Option LlmFindings → Bool
unfolding has_high
has_high_severity det llm = ltb 0 det.severity_high || has_high llm

unfoldable pub choose_action : ℕ → Bool → Action
choose_action score is_high =
    if leb refresh_threshold score || is_high
    then refresh
    else if leb monitor_threshold score
    then monitor
    else ok

pub record StalenessResult : Type 0 where
  pub score : ℕ
  pub action : Action

unfoldable pub compute_staleness : DeterministicResult → Option LlmFindings → ℤ → StalenessResult
unfolding raw_points to_hundredths has_high_severity choose_action
compute_staleness det llm age =
    let score = to_hundredths (raw_points det llm age) in
    record { score = score; action = choose_action score (has_high_severity det llm) }

-- The next time of a scan; `none` leaves it as it is.
unfoldable pub advance_schedule : Action → ℕ → Option ℕ
advance_schedule refresh now = none
advance_schedule monitor now = some (now + 14 * ms_per_day)
advance_schedule ok now = some (now + 30 * ms_per_day)

abbrev pub schedule_after_retry : ℕ → ℕ
schedule_after_retry now = now + 1 * ms_per_day
