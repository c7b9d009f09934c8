-- ===== src/Refresh/Answers.antt =====
-- What the scan of one article is answered.
use ai_content_workflow.Prelude.{
  Ends, ℕ, suc, ◌<◌, ◌≡◌, ◌⊎◌, refl, sym, ap, ◌∙◌, subst, String, Bool, true, false, not, ◌&&◌,
  Option, none, some, List, [], ◌∷◌, ◌++◌, inl, inr, arith, All, Bool-cases, Option-cases, str_eq,
  eq_iff, ◌==◌,
}
use ai_content_workflow.Refresh.Store.{
  ArticleRow, Store, Evaluation, is_open, supersede, supersede_row,
}
use ai_content_workflow.Refresh.Scan.{Services, ScanArticleResult, ScanContext, scan_article}
use ai_content_workflow.Refresh.Select.{RunOf}
use ai_content_workflow.Refresh.Contracts.{Ends-recording, recording}
use ai_content_workflow.Refresh.Branches.{scan_article-Records}
use ai_content_workflow.Refresh.Route.{
  ScanReply, article_not_found, dismissed, in_progress_run, scan_failed, evaluation_not_found,
  evaluated, let_through, find_article, find_inflight, was_dismissed, guard_article, scan_guard,
  find_evaluation, reply_of, per_article, answer_guard, scan_route,
}

-- Every evaluation has an id below the next one.
abbrev pub IsNumbered : ℕ → List Evaluation → Type 0
IsNumbered n = All (λ e. e.evaluation_id < n)

IsNumbered-supersede :
    (id : String) (n : ℕ) (es : List Evaluation) → IsNumbered n es → IsNumbered n (supersede id es)
unfolding supersede supersede_row
IsNumbered-supersede id n [] h = tt
IsNumbered-supersede id n (e ∷ es) h =
    (below (Bool-cases (str_eq e.article_id id && is_open e)), IsNumbered-supersede id n es h.1)
  where
    below :
        (str_eq e.article_id id && is_open e ≡ true) ⊎ (str_eq e.article_id id && is_open e ≡ false)
        → (supersede_row id e).evaluation_id < n
    below (inl closes) = rw (closes, supersede_row) h.0
    below (inr stays) = rw (stays, supersede_row) h.0

IsNumbered-append :
    (e : Evaluation) (n : ℕ) (es : List Evaluation)
    → e.evaluation_id ≡ n
    → IsNumbered n es
    → IsNumbered (suc n) (es ++ (e ∷ []))
IsNumbered-append e n [] own h = (omega (arith, own), tt)
IsNumbered-append e n (f ∷ es) own h = (omega (arith, h.0), IsNumbered-append e n es own h.1)

find_evaluation-append :
    (e : Evaluation) (n : ℕ) (es : List Evaluation)
    → e.evaluation_id ≡ n
    → IsNumbered n es
    → find_evaluation n (es ++ (e ∷ [])) ≡ some e
unfolding find_evaluation
find_evaluation-append e n [] own h =
    let same : (e.evaluation_id == n) ≡ true = ground (arith, own) in
    rw (same, find_evaluation) refl
find_evaluation-append e n (f ∷ es) own h =
    let other : (f.evaluation_id == n) ≡ false = ground (arith, h.0) in
    rw (other, find_evaluation) (find_evaluation-append e n es own h.1)

module _ (id : String) where
  -- The row that the result names is the article's, and open.
  IsNew : ScanArticleResult → Store → Type 0
  IsNew r t =
      (e : Evaluation) × (find_evaluation r.evaluation_id t.evaluations ≡ some e)
      × (e.article_id ≡ id)
      × (is_open e ≡ true)

  -- What a reply says.
  abbrev pub Says : ScanReply → Type 0
  Says (evaluated e) = (e.article_id ≡ id) × (is_open e ≡ true)
  Says evaluation_not_found = ⊥
  Says _ = Unit

  Says-reply_of :
      (r : ScanArticleResult) (t : Store) → IsNew r t → Says (reply_of (some r) t.evaluations)
  unfolding reply_of IsNew
  Says-reply_of r t (e, found, own, opened) = rw (found, reply_of) (own, opened)

  -- The outcome of a scan keeps the numbering, and its result names a row.
  abbrev Names : Option ScanArticleResult × Store → Type 0
  Names =
      Ends (λ r t. IsNumbered t.next_id t.evaluations × IsNew r t)
        (λ t. IsNumbered t.next_id t.evaluations)

  Names-reply :
      (r : Option ScanArticleResult × Store)
      → Names r
      → Says (reply_of r.0 r.1.evaluations) × IsNumbered r.1.next_id r.1.evaluations
  unfolding reply_of
  Names-reply (none, t) h = (tt, h)
  Names-reply (some r, t) h = (Says-reply_of r t h.1, h.0)

module _ (p : Services) where
  recording-Names :
      (a : ArticleRow) (row : ℕ → Evaluation) (due wp_post_id : Option ℕ) (now : ℕ)
      (result : ℕ → ScanArticleResult) (s : Store)
      → ((n : ℕ) → (row n).article_id ≡ a.article_id)
      → ((n : ℕ) → is_open (row n) ≡ true)
      → ((n : ℕ) → (row n).evaluation_id ≡ n)
      → ((n : ℕ) → (result n).evaluation_id ≡ n)
      → IsNumbered s.next_id s.evaluations
      → Names a.article_id (recording p a row due wp_post_id now result s)
  unfolding IsNew
  recording-Names a row due wp_post_id now result s own opened numbers names h =
      let n : ℕ = s.next_id in
      let closed = IsNumbered-supersede a.article_id n s.evaluations h in
      let kept : List Evaluation = supersede a.article_id s.evaluations in
      let appended : List Evaluation = kept ++ (row n ∷ []) in
      let longer = IsNumbered-append (row n) n kept (numbers n) closed in
      let found : find_evaluation (result n).evaluation_id appended ≡ some (row n) =
        ap (λ (m : ℕ). find_evaluation m appended) (names n)
        ∙ find_evaluation-append (row n) n kept (numbers n) closed in
      Ends-recording (λ r t. IsNumbered t.next_id t.evaluations × IsNew a.article_id r t)
        (λ t. IsNumbered t.next_id t.evaluations) p a row due wp_post_id now result s h closed
        longer (longer, (row n, found, own n, opened n))

  scan_article-Names :
      (a : ArticleRow) (ctx : ScanContext) (s : Store)
      → IsNumbered s.next_id s.evaluations
      → Names a.article_id (scan_article p a ctx s)
  scan_article-Names a ctx s h =
      let r = scan_article-Records p a ctx s in
      let same : IsNumbered r.before.next_id r.before.evaluations =
        subst (λ (es : List Evaluation). IsNumbered r.before.next_id es) (sym r.same_evaluations)
          (subst (λ (n : ℕ). IsNumbered n s.evaluations) (sym r.same_next_id) h) in
      subst (Names a.article_id) (sym r.outcome_is) (
        recording-Names a r.row r.due r.wp_post_id r.now r.result r.before r.of_article r.opens
          r.numbers r.names same)

  -- The request gets past the checks: the article is known, and not dismissed unless the request forces
  -- the scan, and no run drives it.
  abbrev pub IsLetThrough : List RunOf → Bool → String → Store → Type 0
  IsLetThrough runs force id s =
      (a : ArticleRow) × (find_article id s.articles ≡ some a)
      × ((was_dismissed a && not force) ≡ false)
      × (find_inflight id runs ≡ none)

  -- Where a request is let through and where it stops.
  abbrev pub Follows : List RunOf → Bool → String → Store → ScanReply × Store → Type 0
  Follows runs force id s (article_not_found, t) = (find_article id s.articles ≡ none) × (t ≡ s)
  Follows runs force id s (dismissed, t) =
      (a : ArticleRow) × (find_article id s.articles ≡ some a)
      × (was_dismissed a ≡ true)
      × (force ≡ false)
      × (t ≡ s)
  Follows runs force id s (in_progress_run run_id, t) =
      (a : ArticleRow) × (find_article id s.articles ≡ some a)
      × ((was_dismissed a && not force) ≡ false)
      × (find_inflight id runs ≡ some run_id)
      × (t ≡ s)
  Follows runs force id s (scan_failed, t) = IsLetThrough runs force id s
  Follows runs force id s (evaluation_not_found, t) = ⊥
  Follows runs force id s (evaluated e, t) =
      IsLetThrough runs force id s × (e.article_id ≡ id) × (is_open e ≡ true)

  find_article-own :
      (id : String) (rows : List ArticleRow) (a : ArticleRow)
      → find_article id rows ≡ some a
      → a.article_id ≡ id
  unfolding find_article
  find_article-own id [] a e = absurd (cc e)
  find_article-own id (b ∷ rows) a e = elim (Bool-cases (str_eq b.article_id id)) [
    | inl own ↦
        let same : some b ≡ some a = rw (own, find_article) at e in
        ap (λ (o : Option ArticleRow). elim o [ none ↦ id | some x ↦ x.article_id ]) (sym same)
        ∙ (eq_iff b.article_id id).0 own
    | inr other ↦ find_article-own id rows a (rw (other, find_article) at e)
  ]

  Follows-scanned :
      (runs : List RunOf) (force : Bool) (id : String) (s : Store)
      (r : Option ScanArticleResult × Store)
      → IsLetThrough runs force id s
      → Says id (reply_of r.0 r.1.evaluations)
      → Follows runs force id s (reply_of r.0 r.1.evaluations, r.1)
  unfolding reply_of
  Follows-scanned runs force id s (none, t) free says = free
  Follows-scanned runs force id s (some r, t) free says =
      elim (Option-cases (find_evaluation r.evaluation_id t.evaluations)) [
        | inl lost ↦ absurd (rw (lost, reply_of) at says)
        | inr (e, found) ↦
            let facts : Says id (evaluated e) = rw (found, reply_of) at says in
            rw (found, reply_of) (free, facts.0, facts.1)
      ]

  -- The request that is let through scans the article.
  answer_let_through :
      (runs : List RunOf) (force : Bool) (id : String) (a : ArticleRow) (s : Store)
      → a.article_id ≡ id
      → IsLetThrough runs force id s
      → IsNumbered s.next_id s.evaluations
      → Follows runs force id s (answer_guard p (let_through a) s)
        × IsNumbered
            (answer_guard p (let_through a) s).1.next_id
            (answer_guard p (let_through a) s).1.evaluations
  unfolding answer_guard
  answer_let_through runs force id a s own free h =
      let r : Option ScanArticleResult × Store = scan_article p a per_article s in
      let facts = Names-reply a.article_id r (scan_article-Names a per_article s h) in
      (
        Follows-scanned runs force id s r free
            (subst (λ (x : String). Says x (reply_of r.0 r.1.evaluations)) own facts.0),
        facts.1,
      )

  -- The scan of one article is refused, with the tables as they were, exactly when the article is unknown,
  -- or was dismissed and is not forced, or is driven by a run, in this order; otherwise it throws or is
  -- answered by an open evaluation of the article, which is always found. The ids of the evaluations stay
  -- below the next one.
  pub scan_route-Follows :
      (runs : List RunOf) (force : Bool) (id : String) (s : Store)
      → IsNumbered s.next_id s.evaluations
      → Follows runs force id s (scan_route p runs force id s)
        × IsNumbered
            (scan_route p runs force id s).1.next_id
            (scan_route p runs force id s).1.evaluations
  unfolding scan_route scan_guard guard_article answer_guard
  scan_route-Follows runs force id s h = elim (Option-cases (find_article id s.articles)) [
    | inl unknown ↦ rw (unknown, scan_route, scan_guard, answer_guard) ((unknown, refl), h)
    | inr (a, known) ↦ elim (Bool-cases (was_dismissed a && not force)) [
      | inl gone ↦
          let unforced : force ≡ false = ground (arith, gone) in
          let was : was_dismissed a ≡ true = ground (arith, gone) in
          rw (known, gone, scan_route, scan_guard, guard_article, answer_guard)
            ((a, known, was, unforced, refl), h)
      | inr there ↦ elim (Option-cases (find_inflight id runs)) [
        | inl free ↦
            rw (known, there, free, scan_route, scan_guard, guard_article)
              (answer_let_through runs force id a s (find_article-own id s.articles a known)
                (a, known, there, free) h)
        | inr (run_id, driven) ↦
            rw (known, there, driven, scan_route, scan_guard, guard_article, answer_guard)
              ((a, known, there, driven, refl), h)
      ]
    ]
  ]
