-- ===== src/Refresh/Agreement.antt =====
-- The run in chunks of one article is the loop.
use ai_content_workflow.Prelude.{
  ℕ, zero, suc, ◌+◌, ◌-◌, ◌≤◌, ◌≡◌, refl, ap, ◌∙◌, none, some, List, [], ◌∷◌, arith, ltb,
  if◌then◌else◌, length, String,
}
use ai_content_workflow.Refresh.Scoring.{DeterministicResult, ℤ, no_findings, add_all}
use ai_content_workflow.Refresh.Store.{ArticleRow, Store, TriggerSource}
use ai_content_workflow.Refresh.Scan.{
  Services, Fetched, fetch_failed, fetched, LlmResult, ScanContext, scan_unaudited, scan_post,
  scan_fetched, scan_article, record_audit, audit_budgeted, unaudited, audited_row,
}
use ai_content_workflow.Refresh.Tick.{
  ArticleOutcome, TickResult, TickOptions, scan_one, scan_loop, scan_tick, scan_chunk, scan_chunks,
  run_scan, used, count, count_all, llm_cap_per_tick, reserve, due_rows, empty_result, skipped_ids,
}
use ai_content_workflow.Refresh.Select.{RunOf}

module _ (p : Services) (source : TriggerSource) where
  abbrev with_budget : ℕ → ScanContext
  with_budget n = record { trigger_source = source; llm_budget_remaining = n }

  audit_budgeted-budget :
      (a : ArticleRow) (html : String) (det : DeterministicResult) (n m : ℕ) (s : Store)
      → ltb 0 n ≡ ltb 0 m
      → audit_budgeted p a html det n s ≡ audit_budgeted p a html det m s
  unfolding audit_budgeted
  audit_budgeted-budget a html det n m s e = rw e

  scan_fetched-budget :
      (a : ArticleRow) (age : ℤ) (now : ℕ) (r : Fetched) (n m : ℕ) (s : Store)
      → ltb 0 n ≡ ltb 0 m
      → scan_fetched p a (with_budget n) age now r s ≡ scan_fetched p a (with_budget m) age now r s
  unfolding scan_fetched scan_unaudited unaudited scan_post record_audit audited_row
  scan_fetched-budget a age now (fetch_failed message) n m s e = refl
  scan_fetched-budget a age now (fetched none) n m s e = refl
  scan_fetched-budget a age now (fetched (some post)) n m s e =
      let det : DeterministicResult =
        add_all (p.check_html post.content_html post.modified_gmt a.last_persisted_at s)
          no_findings in
      ap
        (λ (audit : LlmResult × Store).
          record_audit p a (with_budget m) age now post det audit.0 audit.1)
        (audit_budgeted-budget a post.content_html det n m s e)

  -- A scan only looks whether a budget is left.
  pub scan_one-budget :
      (a : ArticleRow) (n m : ℕ) (s : Store)
      → ltb 0 n ≡ ltb 0 m
      → scan_one p source a n s ≡ scan_one p source a m s
  unfolding scan_one scan_article
  scan_one-budget a n m s e =
      rw (scan_fetched-budget a _ (p.now s) (p.fetch_post_by_url a.article_url s) n m s e)

  scan_chunks-loop :
      (fuel : ℕ) (rows : List ArticleRow) (budget : ℕ) (result : TickResult) (s : Store)
      → length rows ≤ fuel
      → (
        count_all p result (scan_chunks p fuel 1 source rows budget s).0,
        (scan_chunks p fuel 1 source rows budget s).1,
      )
        ≡ scan_loop p source rows budget result s
  unfolding scan_chunks scan_chunk scan_loop count_all used
  scan_chunks-loop zero [] budget result s h = refl
  scan_chunks-loop zero (a ∷ rows) budget result s h = absurd (omega (arith, h))
  scan_chunks-loop (suc fuel) [] budget result s h = refl
  scan_chunks-loop (suc fuel) (a ∷ rows) budget result s h =
      let first : ℕ = if ltb 0 (reserve 1 budget) then 1 else 0 in
      let same : scan_one p source a first s ≡ scan_one p source a budget s =
        scan_one-budget a first budget s (ground arith) in
      let r : ArticleOutcome × Store = scan_one p source a first s in
      let spent : r.0.llm_calls_used + 0 ≡ r.0.llm_calls_used = omega arith in
      scan_chunks-loop fuel rows (budget - (r.0.llm_calls_used + 0)) (count result r.0) r.1
        (omega (arith, h))
      ∙ ap (λ (n : ℕ). scan_loop p source rows (budget - n) (count result r.0) r.1) spent
      ∙ ap
          (λ (t : ArticleOutcome × Store).
            scan_loop p source rows (budget - t.0.llm_calls_used) (count result t.0) t.1)
          same

-- With a concurrency of one the workflow's run of a tick is scanTick: the same counts and skipped ids, and
-- the same tables and requests.
pub run_scan-eq-scan_tick :
    (p : Services) (runs : List RunOf) (opts : TickOptions) (s : Store)
    → run_scan p 1 runs opts s ≡ scan_tick p runs opts s
unfolding run_scan scan_tick
run_scan-eq-scan_tick p runs opts s =
    let rows : List ArticleRow = due_rows p runs opts s in
    scan_chunks-loop p opts.trigger_source (length rows) rows llm_cap_per_tick
      (empty_result (skipped_ids opts.article_ids rows)) s (omega arith)
