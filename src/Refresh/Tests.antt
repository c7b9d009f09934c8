-- ===== src/Refresh/Tests.antt =====
-- The theorems on the refresh scanner at two articles.
use ai_content_workflow.Prelude.{
  ℕ, zero, suc, List, ◌≡◌, ◌≤◌, refl, sym, ap, String, true, false, Option, none, some, [], ◌∷◌,
  arith, keep,
}
use ai_content_workflow.Refresh.Scoring.{
  Severity, Finding, no_findings, add_all, add, passed, LlmFindings, pos, refresh,
  has_high_severity, compute_staleness,
}
use ai_content_workflow.Refresh.Store.{
  cron, ArticleRow, Store, query, insert_evaluation, persist_schedule,
}
use ai_content_workflow.Refresh.Scan.{
  Services, fetched, audited, audit_failed, scan_post, audit_budgeted, settle_audit, record_audit,
  ScanArticleResult, scan_article, scan_fetched, scan_unaudited, finish,
}
use ai_content_workflow.Refresh.Select.{
  SelectDueOptions, select_due_articles, order_by_due, insert_due, is_selected, is_due,
  is_dismissed, is_driven,
}
use ai_content_workflow.Refresh.Tick.{
  TickOptions, scan_tick, run_scan, scan_chunks, scan_chunk, scan_one, used, outcome_of, ids_of,
  llm_cap_per_tick, due_rows, select_options,
}
use ai_content_workflow.Refresh.Opened.{IsSingle, scan-IsSingle}
use ai_content_workflow.Refresh.Budget.{scan-llm_calls}
use ai_content_workflow.Refresh.Agreement.{run_scan-eq-scan_tick}
use ai_content_workflow.Refresh.Urgency.{urgency, compute_staleness_mono}
use ai_content_workflow.Refresh.Route.{scan_route}
use ai_content_workflow.Refresh.Answers.{Follows, IsNumbered, scan_route-Follows}
use ai_content_workflow.Refresh.Queue.{AllRefresh, select_due_articles-scan_tick}

abbrev article : String → ℕ → ArticleRow
article id due = record {
  article_id = id;
  article_url = "https://x.example/a";
  wp_post_id = none;
  persona = none;
  first_seen_at = "2024-01-01";
  last_persisted_at = none;
  next_scan_due_at = due;
  dismissed_until = none;
  updated_at = 0;
}

abbrev before : Store
before = record {
  articles = article "b" 20 ∷ article "a" 10 ∷ article "c" 2000 ∷ [];
  evaluations = [];
  next_id = 1;
  queries = 0;
  llm_requests = 0;
}

abbrev stale : Finding
stale = record { id = "old_year"; severity = Severity.high; message = "old" }

abbrev audit : LlmFindings
audit = record {
  severity_high = 1;
  severity_medium = 0;
  severity_low = 0;
  raw = "{}";
  tokens_in = 10;
  tokens_out = 5;
  latency_ms = 7;
}

abbrev outdated : Services
outdated = record {
  now = λ s. 1000;
  parse_date = λ t. some 0;
  fetch_post_by_url = λ url s.
      fetched (some (record { id = 5; content_html = "<p>"; modified_gmt = "2024-02-01" }));
  check_html = λ html modified persisted s. stale ∷ [];
  llm_audit = λ html persona s. audited audit;
  sha256 = λ t. t;
  query_fails = λ s. false;
}

-- No article is on the site.
abbrev gone : Services
gone = record outdated { fetch_post_by_url = λ url s. fetched none }

abbrev due_only : TickOptions
due_only = record { trigger_source = cron; article_ids = none; force = false }

selected : ids_of (due_rows outdated [] due_only before) ≡ "a" ∷ "b" ∷ []
unfolding ids_of select_due_articles order_by_due insert_due is_selected is_due is_dismissed
    is_driven select_options keep
selected = refl

scan-IsSingle_example :
    IsSingle (scan_tick outdated [] due_only before).1.evaluations
    × IsSingle (run_scan outdated 4 [] due_only before).1.evaluations
scan-IsSingle_example = scan-IsSingle outdated [] due_only 4 before tt

scan-llm_calls_example :
    ((scan_tick outdated [] due_only before).0.llm_calls ≤ llm_cap_per_tick)
    × ((run_scan outdated 4 [] due_only before).0.llm_calls ≤ llm_cap_per_tick)
scan-llm_calls_example = scan-llm_calls outdated [] due_only 4 before

run_scan-eq-scan_tick_example :
    run_scan outdated 1 [] due_only before ≡ scan_tick outdated [] due_only before
run_scan-eq-scan_tick_example = run_scan-eq-scan_tick outdated [] due_only before

compute_staleness_mono_example :
    ((compute_staleness no_findings none (pos 10)).score ≤ 1000)
    × ((compute_staleness no_findings none (pos 10)).score
        ≤ (compute_staleness
            (record no_findings { severity_high = 1 })
            (some audit)
            (pos 90)).score)
    × (urgency (compute_staleness no_findings none (pos 10)).action
        ≤ urgency
            (compute_staleness
              (record no_findings { severity_high = 1 })
              (some audit)
              (pos 90)).action)
    × (has_high_severity no_findings none ≡ true
        → (compute_staleness no_findings none (pos 10)).action ≡ refresh)
compute_staleness_mono_example =
    compute_staleness_mono no_findings (record no_findings { severity_high = 1 }) none (some audit)
      (pos 10) (pos 90) (omega arith, omega arith) tt (omega arith)

gone-AllRefresh : AllRefresh gone
unfolding scan_article scan_fetched scan_unaudited finish insert_evaluation persist_schedule query
gone-AllRefresh a ctx s r e =
    ap (λ (o : Option ScanArticleResult). elim o [ none ↦ refresh | some x ↦ x.recommended_action ])
      (sym e)

abbrev next_tick : SelectDueOptions
next_tick = record { limit = 1; article_ids = none; force = false }

select_due_articles-scan_tick_example :
    ids_of (select_due_articles [] 5000 next_tick (scan_tick gone [] due_only before).1.articles)
    ≡ "a" ∷ []
unfolding ids_of select_due_articles order_by_due insert_due is_selected is_due is_dismissed
    is_driven keep
select_due_articles-scan_tick_example =
    select_due_articles-scan_tick gone [] [] due_only 5000 next_tick before gone-AllRefresh

abbrev many : ℕ → List ArticleRow
many zero = []
many (suc n) = article "a" 10 ∷ many n

-- Requests that fail are not counted: 21 articles send 21 of them in one tick.
uncounted :
    ((run_scan
        (record outdated { llm_audit = λ html persona s. audit_failed "down" })
        4
        []
        due_only
        (record before { articles = many 21 })).1.llm_requests
      ≡ 21)
unfolding run_scan scan_chunks scan_chunk scan_one used outcome_of scan_article scan_fetched
    scan_post audit_budgeted settle_audit record_audit insert_evaluation persist_schedule query
    finish add_all add passed select_due_articles select_options order_by_due insert_due is_selected
    is_due is_dismissed is_driven keep
uncounted = refl

scan_route-Follows_example :
    Follows outdated [] false "a" before (scan_route outdated [] false "a" before)
    × IsNumbered
        (scan_route outdated [] false "a" before).1.next_id
        (scan_route outdated [] false "a" before).1.evaluations
scan_route-Follows_example = scan_route-Follows outdated [] false "a" before tt
