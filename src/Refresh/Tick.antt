-- ===== src/Refresh/Tick.antt =====
-- scanTick of deploy/cloudflare-workers/src/refresh/scanner.ts, and the run of
-- workflows/refresh_scan.ts, which scans in chunks. The articles of a chunk are scanned one after the
-- other here; they share nothing but the database. The advisory lock decides nothing and is left out, and
-- so are the times at which a tick starts and ends.
use ai_content_workflow.Prelude.{
  ℕ, zero, suc, ◌+◌, ◌-◌, String, Bool, true, false, Option, none, some, List, [], ◌∷◌, ◌++◌,
  str_eq, ltb, leb, if◌then◌else◌, includes, length, drop, take,
}
use ai_content_workflow.Refresh.Store.{
  TriggerSource, cron, manual_api, manual_per_article, ArticleRow, Store,
}
use ai_content_workflow.Refresh.Scan.{Services, ScanArticleResult, scan_article}
use ai_content_workflow.Refresh.Select.{RunOf, SelectDueOptions, select_due_articles, batch_size}

abbrev pub llm_cap_per_tick : ℕ
llm_cap_per_tick = 20

abbrev pub concurrency : ℕ
concurrency = 4

pub data SkipReason : Type 0 where
  not_found_or_not_due scan_exception : SkipReason

pub record TickResult : Type 0 where
  pub scanned : ℕ
  pub evaluations_created : ℕ
  pub llm_calls : ℕ
  pub skipped : List (String × SkipReason)

pub record ArticleOutcome : Type 0 where
  pub is_ok : Bool
  pub article_id : String
  pub llm_calls_used : ℕ

pub record TickOptions : Type 0 where
  pub trigger_source : TriggerSource
  pub article_ids : Option (List String)
  pub force : Bool

unfoldable pub normalize_trigger_source : String → TriggerSource
normalize_trigger_source raw =
    if str_eq raw "manual_api"
    then manual_api
    else if str_eq raw "manual_per_article"
    then manual_per_article
    else cron

unfoldable pub ids_of : List ArticleRow → List String
ids_of [] = []
ids_of (a ∷ rows) = a.article_id ∷ ids_of rows

missing : List String → List String → List (String × SkipReason)
missing returned [] = []
missing returned (id ∷ ids) =
    let rest = missing returned ids in
    if includes returned id then rest else (id, not_found_or_not_due) ∷ rest

-- The ids that were asked for and filtered out.
unfoldable pub skipped_ids : Option (List String) → List ArticleRow → List (String × SkipReason)
unfolding ids_of missing
skipped_ids none rows = []
skipped_ids (some ids) rows = missing (ids_of rows) ids

abbrev pub empty_result : List (String × SkipReason) → TickResult
empty_result skipped = record {
  scanned = 0;
  evaluations_created = 0;
  llm_calls = 0;
  skipped = skipped;
}

unfoldable pub count : TickResult → ArticleOutcome → TickResult
count result outcome =
    if outcome.is_ok
    then record result {
      scanned = result.scanned + 1;
      evaluations_created = result.evaluations_created + 1;
      llm_calls = result.llm_calls + outcome.llm_calls_used;
    }
    else record result { skipped = result.skipped ++ ((outcome.article_id, scan_exception) ∷ []) }

unfoldable pub outcome_of : ArticleRow → Option ScanArticleResult → ArticleOutcome
outcome_of article (some scan) = record {
  is_ok = true;
  article_id = article.article_id;
  llm_calls_used = scan.llm_calls_used;
}
outcome_of article none = record {
  is_ok = false;
  article_id = article.article_id;
  llm_calls_used = 0;
}

-- Math.min
abbrev pub reserve : ℕ → ℕ → ℕ
reserve n budget = if leb n budget then n else budget

-- Math.max(1, ·)
abbrev pub at_least_one : ℕ → ℕ
at_least_one size = if ltb 0 size then size else 1

unfoldable pub select_options : TickOptions → SelectDueOptions
select_options opts = record {
  limit = batch_size;
  article_ids = opts.article_ids;
  force = opts.force;
}

module _ (p : Services) where
  -- A scan that throws is an outcome too.
  unfoldable pub scan_one : TriggerSource → ArticleRow → ℕ → Store → ArticleOutcome × Store
  unfolding outcome_of
  scan_one source article budget s =
      let r =
        scan_article p article (record { trigger_source = source; llm_budget_remaining = budget })
          s in
      (outcome_of article r.0, r.1)

  -- The loop of scanTick, with the budget that is left.
  unfoldable pub scan_loop :
      TriggerSource → List ArticleRow → ℕ → TickResult → Store → TickResult × Store
  unfolding scan_one count
  scan_loop source [] budget result s = (result, s)
  scan_loop source (a ∷ rows) budget result s =
      let r = scan_one source a budget s in
      scan_loop source rows (budget - r.0.llm_calls_used) (count result r.0) r.1

  -- The articles of a tick.
  abbrev pub due_rows : List RunOf → TickOptions → Store → List ArticleRow
  due_rows runs opts s = select_due_articles runs (p.now s) (select_options opts) s.articles

  unfoldable pub scan_tick : List RunOf → TickOptions → Store → TickResult × Store
  unfolding scan_loop skipped_ids
  scan_tick runs opts s =
      let rows = due_rows runs opts s in
      scan_loop opts.trigger_source rows llm_cap_per_tick
        (empty_result (skipped_ids opts.article_ids rows)) s

  -- One chunk: the first `reserved` articles may ask the model. The code scans the articles of a chunk with
  -- Promise.all; here they come one after the other.
  unfoldable pub scan_chunk :
      TriggerSource → List ArticleRow → ℕ → Store → List ArticleOutcome × Store
  unfolding scan_one
  scan_chunk source [] reserved s = ([], s)
  scan_chunk source (a ∷ rows) reserved s =
      let r = scan_one source a (if ltb 0 reserved then 1 else 0) s in
      let rest = scan_chunk source rows (reserved - 1) r.1 in (r.0 ∷ rest.0, rest.1)

  unfoldable pub used : List ArticleOutcome → ℕ
  used [] = 0
  used (o ∷ os) = o.llm_calls_used + used os

  -- The chunks of `size` articles, with fuel: the number of articles is enough.
  unfoldable pub scan_chunks :
      ℕ → ℕ → TriggerSource → List ArticleRow → ℕ → Store → List ArticleOutcome × Store
  unfolding scan_chunk used
  scan_chunks zero size source rows budget s = ([], s)
  scan_chunks (suc fuel) size source [] budget s = ([], s)
  scan_chunks (suc fuel) size source (a ∷ rows) budget s =
      let chunk = take size (a ∷ rows) in
      let reserved = reserve (length chunk) budget in
      let r = scan_chunk source chunk reserved s in
      let rest = scan_chunks fuel size source (drop size (a ∷ rows)) (budget - used r.0) r.1 in
      (r.0 ++ rest.0, rest.1)

  unfoldable pub count_all : TickResult → List ArticleOutcome → TickResult
  unfolding count
  count_all result [] = result
  count_all result (o ∷ os) = count_all (count result o) os

  -- RefreshScanWorkflow.run with a concurrency of `max(1, size)`.
  unfoldable pub run_scan : ℕ → List RunOf → TickOptions → Store → TickResult × Store
  unfolding scan_chunks count_all skipped_ids
  run_scan size runs opts s =
      let rows = due_rows runs opts s in
      let outcomes =
        scan_chunks (length rows) (at_least_one size) opts.trigger_source rows llm_cap_per_tick s in
      (count_all (empty_result (skipped_ids opts.article_ids rows)) outcomes.0, outcomes.1)
