-- ===== src/Refresh/Queue.antt =====
-- Articles that are found to need a refresh stay where they are in the queue of the scan.
use ai_content_workflow.Prelude.{
  Ends, ℕ, ◌-◌, ◌≡◌, refl, sym, subst, Option, none, some, List, [], ◌∷◌,
}
use ai_content_workflow.Refresh.Scoring.{refresh}
use ai_content_workflow.Refresh.Store.{ArticleRow, Store, TriggerSource, schedule}
use ai_content_workflow.Refresh.Scan.{Services, ScanArticleResult, ScanContext, scan_article}
use ai_content_workflow.Refresh.Contracts.{Ends-recording}
use ai_content_workflow.Refresh.Branches.{scan_article-Records}
use ai_content_workflow.Refresh.Tick.{
  TickOptions, TickResult, scan_one, scan_loop, scan_tick, due_rows, ids_of, count,
  llm_cap_per_tick, empty_result, skipped_ids,
}
use ai_content_workflow.Refresh.Select.{RunOf, SelectDueOptions, select_due_articles}
use ai_content_workflow.Refresh.Places.{
  SameQueue, SameQueue-refl, SameQueue-trans, SameQueue-schedule, select_due_articles-SameQueue,
  ids_of-SameQueue,
}

module _ (p : Services) where
  -- Whatever is scanned asks for a refresh.
  abbrev pub AllRefresh : Type 0
  AllRefresh =
      (a : ArticleRow) (ctx : ScanContext) (s : Store) (r : ScanArticleResult)
      → (scan_article p a ctx s).0 ≡ some r
      → r.recommended_action ≡ refresh

  abbrev Stays : Store → ScanArticleResult → Store → Type 0
  Stays s r t = r.recommended_action ≡ refresh → SameQueue s.articles t.articles

  Ends-Stays :
      (s : Store) (outcome : Option ScanArticleResult × Store)
      → ((r : ScanArticleResult) → outcome.0 ≡ some r → r.recommended_action ≡ refresh)
      → Ends (Stays s) (λ t. SameQueue s.articles t.articles) outcome
      → SameQueue s.articles outcome.1.articles
  Ends-Stays s (none, t) asks h = h
  Ends-Stays s (some r, t) asks h = h (asks r refl)

  scan_article-SameQueue :
      (a : ArticleRow) (ctx : ScanContext) (s : Store)
      → AllRefresh
      → SameQueue s.articles (scan_article p a ctx s).1.articles
  scan_article-SameQueue a ctx s asks =
      let r = scan_article-Records p a ctx s in
      let unmoved : SameQueue s.articles r.before.articles =
        subst (SameQueue s.articles) (sym r.same_articles) (SameQueue-refl s.articles) in
      let n : ℕ = r.before.next_id in
      Ends-Stays s (scan_article p a ctx s) (asks a ctx s) (
        subst (Ends (Stays s) (λ t. SameQueue s.articles t.articles)) (sym r.outcome_is) (
          Ends-recording (Stays s) (λ t. SameQueue s.articles t.articles) p a r.row r.due
            r.wp_post_id r.now r.result r.before unmoved unmoved unmoved
            (λ e.
              subst
                (λ d.
                  SameQueue s.articles
                    (schedule a.article_id d r.wp_post_id r.now r.before.articles))
                (sym (r.stays n e))
                (SameQueue-trans s.articles r.before.articles _ unmoved
                  (SameQueue-schedule a.article_id r.wp_post_id r.now r.before.articles)))))

  scan_loop-SameQueue :
      (source : TriggerSource) (rows : List ArticleRow) (budget : ℕ) (result : TickResult)
      (s : Store)
      → AllRefresh
      → SameQueue s.articles (scan_loop p source rows budget result s).1.articles
  unfolding scan_loop scan_one
  scan_loop-SameQueue source [] budget result s asks = SameQueue-refl s.articles
  scan_loop-SameQueue source (a ∷ rows) budget result s asks =
      let ctx : ScanContext = record { trigger_source = source; llm_budget_remaining = budget } in
      let t : Store = (scan_article p a ctx s).1 in
      let o = scan_one p source a budget s in
      SameQueue-trans s.articles t.articles _ (scan_article-SameQueue a ctx s asks)
        (scan_loop-SameQueue source rows (budget - o.0.llm_calls_used) (count result o.0) t asks)

  -- Where every article that is scanned asks for a refresh, a tick does not move the queue: at any time
  -- after it, the same articles are selected as if it had not been.
  pub select_due_articles-scan_tick :
      (runs later_runs : List RunOf) (opts : TickOptions) (later : ℕ)
      (later_opts : SelectDueOptions) (s : Store)
      → AllRefresh
      → ids_of
          (select_due_articles later_runs later later_opts (scan_tick p runs opts s).1.articles)
        ≡ ids_of (select_due_articles later_runs later later_opts s.articles)
  unfolding scan_tick
  select_due_articles-scan_tick runs later_runs opts later later_opts s asks =
      let rows : List ArticleRow = due_rows p runs opts s in
      let start : TickResult = empty_result (skipped_ids opts.article_ids rows) in
      let after : Store = (scan_loop p opts.trigger_source rows llm_cap_per_tick start s).1 in
      sym (
        ids_of-SameQueue (select_due_articles later_runs later later_opts s.articles)
          (select_due_articles later_runs later later_opts after.articles)
          (select_due_articles-SameQueue later_runs later later_opts s.articles after.articles
            (scan_loop-SameQueue opts.trigger_source rows llm_cap_per_tick start s asks)))
