-- ===== src/Refresh/Budget.antt =====
-- A tick counts no more requests to the model than its cap.
use ai_content_workflow.Prelude.{
  Ends, ℕ, zero, suc, ◌+◌, ◌-◌, ◌≤◌, ◌≡◌, sym, subst, Option, none, some, List, [], ◌∷◌, ◌++◌,
  arith, ltb, if◌then◌else◌, length, drop, take,
}
use ai_content_workflow.Refresh.Store.{ArticleRow, Store, TriggerSource}
use ai_content_workflow.Refresh.Scan.{Services, ScanArticleResult, ScanContext, scan_article}
use ai_content_workflow.Refresh.Contracts.{Ends-recording}
use ai_content_workflow.Refresh.Branches.{scan_article-Records, most_calls}
use ai_content_workflow.Refresh.Tick.{
  ArticleOutcome, TickResult, TickOptions, scan_one, scan_loop, scan_tick, scan_chunk, scan_chunks,
  run_scan, used, count, count_all, llm_cap_per_tick, outcome_of, reserve, due_rows, at_least_one,
  empty_result, skipped_ids,
}
use ai_content_workflow.Refresh.Select.{RunOf}

-- Each article takes one off the budget.
outcome_of-used :
    (most : ℕ) (a : ArticleRow) (r : Option ScanArticleResult × Store)
    → Ends (λ x t. x.llm_calls_used ≤ most) (λ t. Unit {0}) r
    → (outcome_of a r.0).llm_calls_used ≤ most
unfolding outcome_of
outcome_of-used most a (none, t) h = omega arith
outcome_of-used most a (some x, t) h = h

module _ (p : Services) where
  pub scan_one-used :
      (source : TriggerSource) (a : ArticleRow) (budget : ℕ) (s : Store)
      → (scan_one p source a budget s).0.llm_calls_used ≤ most_calls budget
  unfolding scan_one
  scan_one-used source a budget s =
      let ctx : ScanContext = record { trigger_source = source; llm_budget_remaining = budget } in
      let r = scan_article-Records p a ctx s in
      outcome_of-used (most_calls budget) a (scan_article p a ctx s) (
        subst (Ends (λ x t. x.llm_calls_used ≤ most_calls budget) (λ t. Unit {0}))
          (sym r.outcome_is)
          (Ends-recording (λ x t. x.llm_calls_used ≤ most_calls budget) (λ t. Unit {0}) p a r.row
            r.due r.wp_post_id r.now r.result r.before tt tt tt (r.few_calls r.before.next_id)))

  scan_loop-llm_calls :
      (source : TriggerSource) (rows : List ArticleRow) (budget : ℕ) (result : TickResult)
      (s : Store)
      → (scan_loop p source rows budget result s).0.llm_calls ≤ result.llm_calls + budget
  unfolding scan_loop count
  scan_loop-llm_calls source [] budget result s = omega arith
  scan_loop-llm_calls source (a ∷ rows) budget result s =
      let r = scan_one p source a budget s in
      ground (
        arith,
        scan_one-used source a budget s,
        scan_loop-llm_calls source rows (budget - r.0.llm_calls_used) (count result r.0) r.1,
      )

  pub scan_chunk-used :
      (source : TriggerSource) (rows : List ArticleRow) (reserved : ℕ) (s : Store)
      → used p (scan_chunk p source rows reserved s).0 ≤ reserved
  unfolding scan_chunk used
  scan_chunk-used source [] reserved s = omega arith
  scan_chunk-used source (a ∷ rows) reserved s =
      let first : ℕ = if ltb 0 reserved then 1 else 0 in
      let r = scan_one p source a first s in
      ground (arith, scan_one-used source a first s, scan_chunk-used source rows (reserved - 1) r.1)

  pub used-append : (xs ys : List ArticleOutcome) → used p (xs ++ ys) ≡ used p xs + used p ys
  unfolding used
  used-append [] ys = omega arith
  used-append (x ∷ xs) ys = omega (arith, used-append xs ys)

  scan_chunks-used :
      (fuel size : ℕ) (source : TriggerSource) (rows : List ArticleRow) (budget : ℕ) (s : Store)
      → used p (scan_chunks p fuel size source rows budget s).0 ≤ budget
  unfolding scan_chunks used
  scan_chunks-used zero size source rows budget s = omega arith
  scan_chunks-used (suc fuel) size source [] budget s = omega arith
  scan_chunks-used (suc fuel) size source (a ∷ rows) budget s =
      let chunk : List ArticleRow = take size (a ∷ rows) in
      let reserved : ℕ = reserve (length chunk) budget in
      let r = scan_chunk p source chunk reserved s in
      let rest = scan_chunks p fuel size source (drop size (a ∷ rows)) (budget - used p r.0) r.1 in
      let within : reserved ≤ budget = ground arith in
      omega (
        arith,
        used-append r.0 rest.0,
        within,
        scan_chunk-used source chunk reserved s,
        scan_chunks-used fuel size source (drop size (a ∷ rows)) (budget - used p r.0) r.1,
      )

  count_all-llm_calls :
      (result : TickResult) (os : List ArticleOutcome)
      → (count_all p result os).llm_calls ≤ result.llm_calls + used p os
  unfolding count_all count used
  count_all-llm_calls result [] = omega arith
  count_all-llm_calls result (o ∷ os) = ground (arith, count_all-llm_calls (count result o) os)

  -- A tick, in a loop or in chunks of any size, counts at most 20 requests to the model.
  pub scan-llm_calls :
      (runs : List RunOf) (opts : TickOptions) (size : ℕ) (s : Store)
      → ((scan_tick p runs opts s).0.llm_calls ≤ llm_cap_per_tick)
        × ((run_scan p size runs opts s).0.llm_calls ≤ llm_cap_per_tick)
  unfolding scan_tick run_scan
  scan-llm_calls runs opts size s =
      let rows = due_rows p runs opts s in
      let start : TickResult = empty_result (skipped_ids opts.article_ids rows) in
      let outcomes =
        scan_chunks p (length rows) (at_least_one size) opts.trigger_source rows llm_cap_per_tick
          s in
      (
        scan_loop-llm_calls opts.trigger_source rows llm_cap_per_tick start s,
        omega (
          arith,
          count_all-llm_calls start outcomes.0,
          scan_chunks-used (length rows) (at_least_one size) opts.trigger_source rows
              llm_cap_per_tick s,
        ),
      )
