-- ===== src/Refresh/Scan.antt =====
-- scanArticle of deploy/cloudflare-workers/src/refresh/scanner.ts. What it calls is a parameter: the
-- clock, WordPress, the checks of the HTML, the model, the hash; each answer may depend on the state.
-- The calls that throw answer with their message, as far as the code uses it.
use ai_content_workflow.Prelude.{
  ◌>>=◌, ◌>>◌, pure, ℕ, suc, String, Bool, not, Option, none, some, List, if◌then◌else◌, ltb,
  map_some, take_text, get_or_else, ◌==◌,
}
use Prim.Native.Char.{code}
use ai_content_workflow.Refresh.Scoring.{
  DeterministicResult, Finding, no_findings, add_all, passed, LlmFindings, ℤ, pos, days_between,
  Action, refresh, monitor, compute_staleness, advance_schedule, schedule_after_retry,
}
use ai_content_workflow.Refresh.Store.{
  TriggerSource, ArticleRow, open_outcome, DetColumn, wp_fetch_failed, wp_post_not_found, checked,
  LlmColumn, llm_error, raw_findings, SkippedReason, scanner_error, no_published_html,
  deterministic_passed, cap_exceeded, llm_failed, Evaluation, Store, M, insert_evaluation,
  persist_schedule,
}

pub record WpPost : Type 0 where
  pub id : ℕ
  pub content_html : String
  pub modified_gmt : String

pub data Fetched : Type 0 where
  fetch_failed : String → Fetched
  fetched : Option WpPost → Fetched

pub data Audited : Type 0 where
  audit_failed : String → Audited
  audited : LlmFindings → Audited

pub record Services : Type 0 where
  pub now : Store → ℕ
  pub parse_date : String → Option ℕ
  pub fetch_post_by_url : String → Store → Fetched
  pub check_html : String → String → Option String → Store → List Finding
  pub llm_audit : String → Option String → Store → Audited
  pub sha256 : String → String
  pub query_fails : Store → Bool

pub record ScanArticleResult : Type 0 where
  pub evaluation_id : ℕ
  pub recommended_action : Action
  pub staleness_score : ℕ
  pub llm_calls_used : ℕ

pub record ScanContext : Type 0 where
  pub trigger_source : TriggerSource
  pub llm_budget_remaining : ℕ

-- `s.replace(" ", "T")`
replace_space : String → String
replace_space String.[] = ""
replace_space (String.◌∷◌ c s) =
    let rest = replace_space s in if code c == 32 then String.◌∷◌ "T" s else String.◌∷◌ c rest

unfoldable pub age_days_from : (String → Option ℕ) → String → ℕ → ℤ
unfolding replace_space days_between
age_days_from parse reference now = elim (parse (replace_space reference)) [
  | none ↦ pos 0
  | some ms ↦ days_between ms now
]

-- What the audit by the model came to.
pub record LlmResult : Type 0 where
  pub llm : Option LlmFindings
  pub skipped_reason : Option SkippedReason
  pub override : Option LlmColumn
  pub used : ℕ

unfoldable pub skipped : SkippedReason → LlmResult
skipped reason = record { llm = none; skipped_reason = some reason; override = none; used = 0 }

unfoldable pub llm_column : LlmResult → Option LlmColumn
llm_column r = elim r.llm [ none ↦ r.override | some l ↦ some (raw_findings l.raw) ]

module _ (p : Services) where
  unfoldable pub settle_audit : Audited → LlmResult
  settle_audit (audited l) = record {
    llm = some l;
    skipped_reason = none;
    override = none;
    used = 1;
  }
  settle_audit (audit_failed message) = record {
    llm = none;
    skipped_reason = some llm_failed;
    override = some (llm_error (take_text 500 message));
    used = 0;
  }

  unfoldable pub audit_budgeted :
      ArticleRow → String → DeterministicResult → ℕ → Store → LlmResult × Store
  unfolding skipped settle_audit passed
  audit_budgeted article html det budget s =
      if passed det
      then (skipped deterministic_passed, s)
      else if not (ltb 0 budget)
      then (skipped cap_exceeded, s)
      else (
        settle_audit (p.llm_audit html article.persona s),
        record s { llm_requests = suc s.llm_requests },
      )

  -- An evaluation without an audit.
  unfoldable pub unaudited :
      ArticleRow → ScanContext → ℤ → DetColumn → SkippedReason → ℕ → Action → ℕ → Evaluation
  unaudited article ctx age det reason score action id = record {
    evaluation_id = id;
    article_id = article.article_id;
    trigger_source = ctx.trigger_source;
    age_days = age;
    fetched_html_hash = none;
    deterministic_findings = det;
    llm_findings = none;
    llm_skipped_reason = some reason;
    score = score;
    action = action;
    outcome = open_outcome;
    tokens_in = none;
    tokens_out = none;
    latency_ms = none;
  }

  -- The schedule of the article is moved on, and the result is returned.
  unfoldable pub finish :
      ArticleRow → Option ℕ → Option ℕ → ℕ → ScanArticleResult → M ScanArticleResult
  unfolding persist_schedule
  finish article due wp_post_id now result = do
    persist_schedule p.query_fails article.article_id due wp_post_id now
    pure result

  abbrev pub result_of : Action → ℕ → ℕ → ℕ → ScanArticleResult
  result_of action score calls id = record {
    evaluation_id = id;
    recommended_action = action;
    staleness_score = score;
    llm_calls_used = calls;
  }

  unfoldable pub scan_unaudited :
      ArticleRow
      → ScanContext
      → ℤ
      → DetColumn
      → SkippedReason
      → ℕ
      → Action
      → Option ℕ
      → ℕ
      → M ScanArticleResult
  unfolding unaudited insert_evaluation finish
  scan_unaudited article ctx age det reason score action due now = do
    id ←
        insert_evaluation p.query_fails article.article_id
          (unaudited article ctx age det reason score action)
    finish article due none now (result_of action score 0 id)

  unfoldable pub audited_row :
      ArticleRow
      → ScanContext
      → ℤ
      → String
      → DeterministicResult
      → LlmResult
      → ℕ
      → Action
      → ℕ
      → Evaluation
  unfolding llm_column
  audited_row article ctx age html det llm score action id = record {
    evaluation_id = id;
    article_id = article.article_id;
    trigger_source = ctx.trigger_source;
    age_days = age;
    fetched_html_hash = some (p.sha256 html);
    deterministic_findings = checked det;
    llm_findings = llm_column llm;
    llm_skipped_reason = llm.skipped_reason;
    score = score;
    action = action;
    outcome = open_outcome;
    tokens_in = map_some (λ l. l.tokens_in) llm.llm;
    tokens_out = map_some (λ l. l.tokens_out) llm.llm;
    latency_ms = map_some (λ l. l.latency_ms) llm.llm;
  }

  unfoldable pub new_post_id : ArticleRow → WpPost → Option ℕ
  new_post_id article post = elim article.wp_post_id [ none ↦ some post.id | some id ↦ none ]

  -- What is done with the result of the audit.
  unfoldable pub record_audit :
      ArticleRow
      → ScanContext
      → ℤ
      → ℕ
      → WpPost
      → DeterministicResult
      → LlmResult
      → M ScanArticleResult
  unfolding audited_row new_post_id insert_evaluation finish compute_staleness advance_schedule
  record_audit article ctx age now post det llm = do
    let staleness = compute_staleness det llm.llm age
    id ←
        insert_evaluation p.query_fails article.article_id
          (audited_row article ctx age post.content_html det llm staleness.score staleness.action)
    finish article (advance_schedule staleness.action now) (new_post_id article post) now
        (result_of staleness.action staleness.score llm.used id)

  unfoldable pub scan_post : ArticleRow → ScanContext → ℤ → ℕ → WpPost → M ScanArticleResult
  unfolding audit_budgeted record_audit add_all
  scan_post article ctx age now post s =
      let det =
        add_all (p.check_html post.content_html post.modified_gmt article.last_persisted_at s)
          no_findings in
      let audit = audit_budgeted article post.content_html det ctx.llm_budget_remaining s in
      record_audit article ctx age now post det audit.0 audit.1

  unfoldable pub scan_fetched : ArticleRow → ScanContext → ℤ → ℕ → Fetched → M ScanArticleResult
  unfolding scan_unaudited scan_post advance_schedule
  scan_fetched article ctx age now (fetch_failed message) =
      scan_unaudited article ctx age (wp_fetch_failed (take_text 500 message)) scanner_error 0
        monitor (some (schedule_after_retry now)) now
  scan_fetched article ctx age now (fetched none) =
      scan_unaudited article ctx age wp_post_not_found no_published_html 1000 refresh
        (advance_schedule refresh now) now
  scan_fetched article ctx age now (fetched (some post)) = scan_post article ctx age now post

  unfoldable pub scan_article : ArticleRow → ScanContext → M ScanArticleResult
  unfolding scan_fetched age_days_from
  scan_article article ctx s =
      let now = p.now s in
      let reference : String = get_or_else article.last_persisted_at article.first_seen_at in
      let age = age_days_from p.parse_date reference now in
      scan_fetched article ctx age now (p.fetch_post_by_url article.article_url s) s
