-- ===== src/Refresh/Store.antt =====
-- The tables that a scan reads and writes, and its queries (insertEvaluation and persistSchedule of
-- refresh/scanner.ts).
use ai_content_workflow.Prelude.{
  Fallible, ◌>>=◌, ◌>>◌, pure, ℕ, suc, String, Bool, true, false, ◌&&◌, Option, none, some, List,
  [], ◌∷◌, ◌++◌, str_eq, if◌then◌else◌, or_else, get_or_else,
}
use ai_content_workflow.Refresh.Scoring.{DeterministicResult, ℤ, Action}

pub data TriggerSource : Type 0 where
  cron manual_api manual_per_article : TriggerSource

pub record ArticleRow : Type 0 where
  pub article_id : String
  pub article_url : String
  pub wp_post_id : Option ℕ
  pub persona : Option String
  pub first_seen_at : String
  pub last_persisted_at : Option String
  pub next_scan_due_at : ℕ
  pub dismissed_until : Option ℕ
  pub updated_at : ℕ

pub data Outcome : Type 0 where
  open_outcome superseded : Outcome

-- The findings of the checks, or why there are none.
pub data DetColumn : Type 0 where
  wp_fetch_failed : String → DetColumn
  wp_post_not_found : DetColumn
  checked : DeterministicResult → DetColumn

pub data LlmColumn : Type 0 where
  llm_error : String → LlmColumn
  raw_findings : String → LlmColumn

pub data SkippedReason : Type 0 where
  scanner_error no_published_html deterministic_passed cap_exceeded llm_failed : SkippedReason

pub record Evaluation : Type 0 where
  pub evaluation_id : ℕ
  pub article_id : String
  pub trigger_source : TriggerSource
  pub age_days : ℤ
  pub fetched_html_hash : Option String
  pub deterministic_findings : DetColumn
  pub llm_findings : Option LlmColumn
  pub llm_skipped_reason : Option SkippedReason
  pub score : ℕ
  pub action : Action
  pub outcome : Outcome
  pub tokens_in : Option ℕ
  pub tokens_out : Option ℕ
  pub latency_ms : Option ℕ

-- `queries` counts the statements that were sent, `llm_requests` the requests to the model.
pub record Store : Type 0 where
  pub articles : List ArticleRow
  pub evaluations : List Evaluation
  pub next_id : ℕ
  pub queries : ℕ
  pub llm_requests : ℕ

abbrev pub is_open : Evaluation → Bool
is_open e = elim e.outcome [ open_outcome ↦ true | superseded ↦ false ]

unfoldable pub supersede_row : String → Evaluation → Evaluation
supersede_row article_id e =
    if str_eq e.article_id article_id && is_open e then record e { outcome = superseded } else e

unfoldable pub supersede : String → List Evaluation → List Evaluation
unfolding supersede_row
supersede article_id [] = []
supersede article_id (e ∷ es) = supersede_row article_id e ∷ supersede article_id es

unfoldable pub schedule_row : String → Option ℕ → Option ℕ → ℕ → ArticleRow → ArticleRow
schedule_row article_id due wp_post_id now a =
    if str_eq a.article_id article_id
    then record a {
      next_scan_due_at = get_or_else due a.next_scan_due_at;
      wp_post_id = or_else wp_post_id a.wp_post_id;
      updated_at = now;
    }
    else a

unfoldable pub schedule : String → Option ℕ → Option ℕ → ℕ → List ArticleRow → List ArticleRow
unfolding schedule_row
schedule article_id due wp_post_id now [] = []
schedule article_id due wp_post_id now (a ∷ rows) =
    schedule_row article_id due wp_post_id now a ∷ schedule article_id due wp_post_id now rows

-- A query of a database that may fail at any statement; a failed one changes nothing.
abbrev pub M : Type 0 → Type 0
M A = Fallible Store A

module _ (fails : Store → Bool) where
  unfoldable pub query : (Store → Store) → M (Unit {0})
  query f s =
      let sent = record s { queries = suc s.queries } in
      if fails s then (none, sent) else (some tt, f sent)

  -- The prior evaluations of the article are superseded, and a new one is opened.
  unfoldable pub insert_evaluation : String → (ℕ → Evaluation) → M ℕ
  unfolding query supersede
  insert_evaluation article_id row = do
    query (λ s. record s { evaluations = supersede article_id s.evaluations })
    id ← λ s. (some s.next_id, s)
    query (λ s. record s { evaluations = s.evaluations ++ (row id ∷ []); next_id = suc id })
    pure id

  unfoldable pub persist_schedule : String → Option ℕ → Option ℕ → ℕ → M (Unit {0})
  unfolding query schedule
  persist_schedule article_id due wp_post_id now =
      query (λ s. record s { articles = schedule article_id due wp_post_id now s.articles })
