-- ===== src/Refresh/Opened.antt =====
-- An article has one open evaluation at most.
use ai_content_workflow.Prelude.{
  Pairwise, Pairwise-append_one, All-map, Ends-state, Ends, ℕ, zero, suc, ◌≡◌, refl, sym, ◌∙◌,
  subst, String, true, ◌&&◌, Option, List, [], ◌∷◌, ◌++◌, inl, inr, arith, All, Bool-cases, str_eq,
  eq_iff, take, drop, length,
}
use ai_content_workflow.Refresh.Store.{
  ArticleRow, Store, Evaluation, TriggerSource, is_open, supersede, supersede_row,
}
use ai_content_workflow.Refresh.Scan.{Services, ScanArticleResult, ScanContext, scan_article}
use ai_content_workflow.Refresh.Contracts.{Ends-recording, recording}
use ai_content_workflow.Refresh.Branches.{scan_article-Records}
use ai_content_workflow.Refresh.Tick.{
  scan_one, scan_loop, scan_chunk, scan_chunks, scan_tick, run_scan, TickOptions, TickResult,
  reserve, due_rows, at_least_one, llm_cap_per_tick, empty_result, skipped_ids,
}
use ai_content_workflow.Refresh.Select.{RunOf}

-- An evaluation that is not the second open one of its article.
abbrev pub NotBoth : Evaluation → Evaluation → Type 0
NotBoth e f = is_open e ≡ true → is_open f ≡ true → e.article_id ≡ f.article_id → ⊥

abbrev pub IsSingle : List Evaluation → Type 0
IsSingle es = Pairwise NotBoth es

abbrev HasNone : String → List Evaluation → Type 0
HasNone id = All (λ e. is_open e ≡ true → e.article_id ≡ id → ⊥)

module _ (id : String) where
  supersede_row-article_id : (e : Evaluation) → (supersede_row id e).article_id ≡ e.article_id
  unfolding supersede_row
  supersede_row-article_id e = elim (Bool-cases (str_eq e.article_id id && is_open e)) [
    | inl closes ↦ rw (closes, supersede_row) refl
    | inr stays ↦ rw (stays, supersede_row) refl
  ]

  -- A row that is open afterwards was open before, and is of another article.
  supersede_row-is_open :
      (e : Evaluation)
      → is_open (supersede_row id e) ≡ true
      → (is_open e ≡ true) × (e.article_id ≡ id → ⊥)
  unfolding supersede_row
  supersede_row-is_open e h = elim (Bool-cases (str_eq e.article_id id && is_open e)) [
    | inl closes ↦ absurd (ground (arith, closes, h))
    | inr stays ↦
        let was_open : is_open e ≡ true = rw (stays, supersede_row) at h in
        (was_open, λ same. ground (arith, stays, was_open, (eq_iff e.article_id id).1 same))
  ]

  supersede-HasNone : (es : List Evaluation) → HasNone id (supersede id es)
  unfolding supersede
  supersede-HasNone [] = tt
  supersede-HasNone (e ∷ es) = (
    (λ is_op same. (supersede_row-is_open e is_op).1 (sym (supersede_row-article_id e) ∙ same)),
    supersede-HasNone es,
  )

  NotBoth-supersede_row :
      (e f : Evaluation) → NotBoth e f → NotBoth (supersede_row id e) (supersede_row id f)
  NotBoth-supersede_row e f h oe of same =
      h (supersede_row-is_open e oe).0 (supersede_row-is_open f of).0
        (sym (supersede_row-article_id e) ∙ same ∙ supersede_row-article_id f)

  All-NotBoth-supersede :
      (e : Evaluation) (es : List Evaluation)
      → All (NotBoth e) es
      → All (NotBoth (supersede_row id e)) (supersede id es)
  unfolding supersede
  All-NotBoth-supersede e [] h = tt
  All-NotBoth-supersede e (f ∷ es) h =
      (NotBoth-supersede_row e f h.0, All-NotBoth-supersede e es h.1)

  pub IsSingle-supersede : (es : List Evaluation) → IsSingle es → IsSingle (supersede id es)
  unfolding supersede
  IsSingle-supersede [] h = tt
  IsSingle-supersede (e ∷ es) h = (All-NotBoth-supersede e es h.0, IsSingle-supersede es h.1)

  pub IsSingle-append :
      (f : Evaluation) (es : List Evaluation)
      → f.article_id ≡ id
      → HasNone id es
      → IsSingle es
      → IsSingle (es ++ (f ∷ []))
  IsSingle-append f es same empty s =
      Pairwise-append_one NotBoth f es s
        (All-map (λ e none_open oe of h. none_open oe (h ∙ same)) es empty)

-- The invariant after an outcome, returned or thrown.
abbrev Keeps : {A : Type 0} → Option A × Store → Type 0
Keeps r = Ends (λ a t. IsSingle t.evaluations) (λ t. IsSingle t.evaluations) r

module _ (p : Services) where
  recording-Keeps :
      (a : ArticleRow) (row : ℕ → Evaluation) (due wp_post_id : Option ℕ) (now : ℕ)
      (result : ℕ → ScanArticleResult) (s : Store)
      → ((n : ℕ) → (row n).article_id ≡ a.article_id)
      → IsSingle s.evaluations
      → Keeps (recording p a row due wp_post_id now result s)
  recording-Keeps a row due wp_post_id now result s same single =
      let closed = IsSingle-supersede a.article_id s.evaluations single in
      let opened =
        IsSingle-append a.article_id (row s.next_id) (supersede a.article_id s.evaluations)
          (same s.next_id) (supersede-HasNone a.article_id s.evaluations) closed in
      Ends-recording (λ r t. IsSingle t.evaluations) (λ t. IsSingle t.evaluations) p a row due
        wp_post_id now result s single closed opened opened

  -- A scan, whatever fails in it, leaves one open evaluation of an article at most.
  pub scan_article-IsSingle :
      (a : ArticleRow) (ctx : ScanContext) (s : Store)
      → IsSingle s.evaluations
      → IsSingle (scan_article p a ctx s).1.evaluations
  scan_article-IsSingle a ctx s single =
      let r = scan_article-Records p a ctx s in
      Ends-state (λ (t : Store). IsSingle t.evaluations) (scan_article p a ctx s)
        (subst Keeps (sym r.outcome_is) (
          recording-Keeps a r.row r.due r.wp_post_id r.now r.result r.before r.of_article
            (subst IsSingle (sym r.same_evaluations) single)))

  scan_loop-IsSingle :
      (source : TriggerSource) (rows : List ArticleRow) (budget : ℕ) (result : TickResult)
      (s : Store)
      → IsSingle s.evaluations
      → IsSingle (scan_loop p source rows budget result s).1.evaluations
  unfolding scan_loop scan_one
  scan_loop-IsSingle source [] budget result s h = h
  scan_loop-IsSingle source (a ∷ rows) budget result s h =
      scan_loop-IsSingle source rows _ _ _ (scan_article-IsSingle a _ s h)

  scan_chunk-IsSingle :
      (source : TriggerSource) (rows : List ArticleRow) (reserved : ℕ) (s : Store)
      → IsSingle s.evaluations
      → IsSingle (scan_chunk p source rows reserved s).1.evaluations
  unfolding scan_chunk scan_one
  scan_chunk-IsSingle source [] reserved s h = h
  scan_chunk-IsSingle source (a ∷ rows) reserved s h =
      scan_chunk-IsSingle source rows _ _ (scan_article-IsSingle a _ s h)

  scan_chunks-IsSingle :
      (fuel size : ℕ) (source : TriggerSource) (rows : List ArticleRow) (budget : ℕ) (s : Store)
      → IsSingle s.evaluations
      → IsSingle (scan_chunks p fuel size source rows budget s).1.evaluations
  unfolding scan_chunks
  scan_chunks-IsSingle zero size source rows budget s h = h
  scan_chunks-IsSingle (suc fuel) size source [] budget s h = h
  scan_chunks-IsSingle (suc fuel) size source (a ∷ rows) budget s h =
      let chunk : List ArticleRow = take size (a ∷ rows) in
      scan_chunks-IsSingle fuel size source (drop size (a ∷ rows)) _ _
        (scan_chunk-IsSingle source chunk (reserve (length chunk) budget) s h)

  -- A tick, whether it scans in a loop or in chunks of any size, and whatever fails in it, leaves one
  -- open evaluation of an article at most.
  pub scan-IsSingle :
      (runs : List RunOf) (opts : TickOptions) (size : ℕ) (s : Store)
      → IsSingle s.evaluations
      → IsSingle (scan_tick p runs opts s).1.evaluations
        × IsSingle (run_scan p size runs opts s).1.evaluations
  unfolding scan_tick run_scan
  scan-IsSingle runs opts size s h =
      let rows = due_rows p runs opts s in
      (
        scan_loop-IsSingle opts.trigger_source rows llm_cap_per_tick
            (empty_result (skipped_ids opts.article_ids rows)) s h,
        scan_chunks-IsSingle (length rows) (at_least_one size) opts.trigger_source rows
            llm_cap_per_tick s h,
      )
