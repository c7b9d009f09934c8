-- ===== src/Refresh/Branches.antt =====
-- Every branch of scanArticle records one open evaluation of the article.
use ai_content_workflow.Prelude.{
  ℕ, ◌≤◌, ◌≡◌, refl, String, true, Option, none, some, inl, inr, arith, ltb, if◌then◌else◌,
  Bool-cases,
}
use ai_content_workflow.Refresh.Scoring.{
  DeterministicResult, ℤ, Action, refresh, passed, no_findings, add_all, compute_staleness,
  advance_schedule, schedule_after_retry,
}
use ai_content_workflow.Refresh.Store.{
  ArticleRow, Store, Evaluation, is_open, DetColumn, SkippedReason,
}
use ai_content_workflow.Refresh.Scan.{
  Services, WpPost, Fetched, fetch_failed, fetched, Audited, audited, audit_failed, LlmResult,
  ScanArticleResult, ScanContext, scan_unaudited, scan_post, scan_fetched, scan_article,
  record_audit, audit_budgeted, settle_audit, skipped, result_of, unaudited, audited_row,
  new_post_id,
}
use ai_content_workflow.Refresh.Contracts.{recording}

abbrev pub most_calls : ℕ → ℕ
most_calls budget = if ltb 0 budget then 1 else 0

module _ (p : Services) (a : ArticleRow) (ctx : ScanContext) where
  -- A scan from `s` records one row from a state with the same tables.
  pub record Records (s : Store) (outcome : Option ScanArticleResult × Store) : Type 0 where
    pub row : ℕ → Evaluation
    pub due : Option ℕ
    pub wp_post_id : Option ℕ
    pub now : ℕ
    pub result : ℕ → ScanArticleResult
    pub before : Store
    pub outcome_is : outcome ≡ recording p a row due wp_post_id now result before
    pub same_evaluations : before.evaluations ≡ s.evaluations
    pub same_articles : before.articles ≡ s.articles
    pub same_next_id : before.next_id ≡ s.next_id
    pub numbers : (n : ℕ) → (row n).evaluation_id ≡ n
    pub names : (n : ℕ) → (result n).evaluation_id ≡ n
    pub of_article : (n : ℕ) → (row n).article_id ≡ a.article_id
    pub opens : (n : ℕ) → is_open (row n) ≡ true
    pub few_calls : (n : ℕ) → (result n).llm_calls_used ≤ most_calls ctx.llm_budget_remaining
    -- A refresh leaves the schedule as it is.
    pub stays : (n : ℕ) → (result n).recommended_action ≡ refresh → due ≡ none

  scan_unaudited-Records :
      (age : ℤ) (det : DetColumn) (reason : SkippedReason) (score : ℕ) (action : Action)
      (due : Option ℕ) (now : ℕ) (s : Store)
      → (action ≡ refresh → due ≡ none)
      → Records s (scan_unaudited p a ctx age det reason score action due now s)
  unfolding scan_unaudited unaudited
  scan_unaudited-Records age det reason score action due now s stays = record {
    row = unaudited p a ctx age det reason score action;
    due = due;
    wp_post_id = none;
    now = now;
    result = result_of p action score 0;
    before = s;
    outcome_is = refl;
    same_evaluations = refl;
    same_articles = refl;
    same_next_id = refl;
    numbers = λ n. refl;
    names = λ n. refl;
    of_article = λ n. refl;
    opens = λ n. refl;
    few_calls = λ n. omega arith;
    stays = λ n. stays;
  }

  advance_schedule-refresh :
      (action : Action) (now : ℕ) → action ≡ refresh → advance_schedule action now ≡ none
  unfolding advance_schedule
  advance_schedule-refresh action now e = rw e

  record_audit-Records :
      (age : ℤ) (now : ℕ) (post : WpPost) (det : DeterministicResult) (llm : LlmResult)
      (s t : Store)
      → t.evaluations ≡ s.evaluations
      → t.articles ≡ s.articles
      → t.next_id ≡ s.next_id
      → llm.used ≤ most_calls ctx.llm_budget_remaining
      → Records s (record_audit p a ctx age now post det llm t)
  unfolding record_audit audited_row
  record_audit-Records age now post det llm s t evaluations articles next_id few =
      let staleness = compute_staleness det llm.llm age in
      record {
        row = audited_row p a ctx age post.content_html det llm staleness.score staleness.action;
        due = advance_schedule staleness.action now;
        wp_post_id = new_post_id p a post;
        now = now;
        result = result_of p staleness.action staleness.score llm.used;
        before = t;
        outcome_is = refl;
        same_evaluations = evaluations;
        same_articles = articles;
        same_next_id = next_id;
        numbers = λ n. refl;
        names = λ n. refl;
        of_article = λ n. refl;
        opens = λ n. refl;
        few_calls = λ n. few;
        stays = λ n. advance_schedule-refresh staleness.action now;
      }

  settle_audit-used : (r : Audited) → (settle_audit p r).used ≤ 1
  unfolding settle_audit
  settle_audit-used (audited l) = omega arith
  settle_audit-used (audit_failed message) = omega arith

  audit_budgeted_lem :
      (html : String) (det : DeterministicResult) (budget : ℕ) (s : Store)
      → ((audit_budgeted p a html det budget s).1.evaluations ≡ s.evaluations)
        × ((audit_budgeted p a html det budget s).1.articles ≡ s.articles)
        × ((audit_budgeted p a html det budget s).1.next_id ≡ s.next_id)
        × ((audit_budgeted p a html det budget s).0.used ≤ most_calls budget)
  unfolding audit_budgeted skipped
  audit_budgeted_lem html det budget s = elim (Bool-cases (passed det)) [
    | inl is_passed ↦ rw (is_passed, audit_budgeted, skipped) (refl, refl, refl, omega arith)
    | inr failed ↦ elim (Bool-cases (ltb 0 budget)) [
      | inl some_left ↦
          rw (failed, some_left, audit_budgeted)
            (refl, refl, refl, settle_audit-used (p.llm_audit html a.persona s))
      | inr none_left ↦
          rw (failed, none_left, audit_budgeted, skipped) (refl, refl, refl, omega arith)
    ]
  ]

  scan_fetched-Records :
      (age : ℤ) (now : ℕ) (r : Fetched) (s : Store) → Records s (scan_fetched p a ctx age now r s)
  unfolding scan_fetched scan_post advance_schedule
  scan_fetched-Records age now (fetch_failed message) s =
      scan_unaudited-Records _ _ _ _ _ (some (schedule_after_retry now)) now s (λ e. absurd (cc e))
  scan_fetched-Records age now (fetched none) s =
      scan_unaudited-Records _ _ _ _ _ _ now s (λ e. refl)
  scan_fetched-Records age now (fetched (some post)) s =
      let det =
        add_all (p.check_html post.content_html post.modified_gmt a.last_persisted_at s)
          no_findings in
      let audit = audit_budgeted p a post.content_html det ctx.llm_budget_remaining s in
      let facts = audit_budgeted_lem post.content_html det ctx.llm_budget_remaining s in
      record_audit-Records age now post det audit.0 s audit.1 facts.0 facts.1 facts.2 facts.3

  pub scan_article-Records : (s : Store) → Records s (scan_article p a ctx s)
  unfolding scan_article
  scan_article-Records s = scan_fetched-Records _ (p.now s) (p.fetch_post_by_url a.article_url s) s
