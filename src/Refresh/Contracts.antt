-- ===== src/Refresh/Contracts.antt =====
-- Postconditions of the queries of Refresh/Store: `P` of a result and the state after it, `Q` of the
-- state where a statement failed.
use ai_content_workflow.Prelude.{
  Ends, Ends-bind, bind_failed, bind_done, ◌>>=◌, pure, ℕ, suc, String, ◌≡◌, sym, subst, inl, inr,
  Bool, true, false, Option, none, some, [], ◌∷◌, ◌++◌, Bool-cases,
}
use ai_content_workflow.Refresh.Store.{
  Store, ArticleRow, Evaluation, M, query, supersede, schedule, insert_evaluation, persist_schedule,
}
use ai_content_workflow.Refresh.Scan.{Services, ScanArticleResult, finish}

-- A statement more was sent.
abbrev pub sent : Store → Store
sent s = record s { queries = suc s.queries }

module _ (fails : Store → Bool) (f : Store → Store) (s : Store) where
  query_failed : fails s ≡ true → query fails f s ≡ (none, sent s)
  unfolding query
  query_failed h = rw h

  query_done : fails s ≡ false → query fails f s ≡ (some tt, f (sent s))
  unfolding query
  query_done h = rw h

-- What holds after a statement that `k` follows.
pub Ends-query :
    {B : Type 0} (R : B → Store → Type 0) (Q : Store → Type 0) (fails : Store → Bool)
    (f : Store → Store) (k : Unit {0} → M B) (s : Store)
    → Q (sent s)
    → Ends R Q (k tt (f (sent s)))
    → Ends R Q ((query fails f >>= k) s)
Ends-query R Q fails f k s failed done = elim (Bool-cases (fails s)) [
  | inl is_failed ↦
      subst (Ends R Q)
        (sym (bind_failed (query fails f) k s (sent s) (query_failed fails f s is_failed))) failed
  | inr went_on ↦
      subst (Ends R Q)
        (sym (bind_done (query fails f) k tt s (f (sent s)) (query_done fails f s went_on))) done
]

module _ (fails : Store → Bool) (article_id : String) (row : ℕ → Evaluation) (s : Store) where
  -- The states after the first statement of insertEvaluation and after both.
  abbrev pub superseding : Store
  superseding = record (sent s) { evaluations = supersede article_id s.evaluations }

  abbrev pub inserting : Store
  inserting = record (sent superseding) {
    evaluations = supersede article_id s.evaluations ++ (row s.next_id ∷ []);
    next_id = suc s.next_id;
  }

  pub Ends-insert_evaluation :
      (R : ℕ → Store → Type 0) (Q : Store → Type 0)
      → Q (sent s)
      → Q (sent superseding)
      → R s.next_id inserting
      → Ends R Q (insert_evaluation fails article_id row s)
  unfolding insert_evaluation
  Ends-insert_evaluation R Q first second done =
      Ends-query R Q fails (λ t. record t { evaluations = supersede article_id t.evaluations })
        (λ u t.
          (query fails (λ v. record v {
            evaluations = v.evaluations ++ (row t.next_id ∷ []);
            next_id = suc t.next_id;
          })
              >>= λ w. pure t.next_id)
            t)
        s first
        (Ends-query R Q fails
          (λ t. record t {
            evaluations = t.evaluations ++ (row s.next_id ∷ []);
            next_id = suc s.next_id;
          })
          (λ u. pure s.next_id) superseding second done)

pub Ends-finish :
    (R : ScanArticleResult → Store → Type 0) (Q : Store → Type 0) (p : Services) (a : ArticleRow)
    (due wp_post_id : Option ℕ) (now : ℕ) (r : ScanArticleResult) (s : Store)
    → Q (sent s)
    → R r (record (sent s) { articles = schedule a.article_id due wp_post_id now s.articles })
    → Ends R Q (finish p a due wp_post_id now r s)
unfolding finish persist_schedule
Ends-finish R Q p a due wp_post_id now r s failed done =
    Ends-query R Q p.query_fails
      (λ t. record t { articles = schedule a.article_id due wp_post_id now t.articles })
      (λ u. pure r) s failed done

-- The evaluation is inserted, and the schedule moved on.
abbrev pub recording :
    Services
    → ArticleRow
    → (ℕ → Evaluation)
    → Option ℕ
    → Option ℕ
    → ℕ
    → (ℕ → ScanArticleResult)
    → M ScanArticleResult
recording p a row due wp_post_id now result =
    insert_evaluation p.query_fails a.article_id row >>= λ id.
    finish p a due wp_post_id now (result id)

pub Ends-recording :
    (R : ScanArticleResult → Store → Type 0) (Q : Store → Type 0) (p : Services) (a : ArticleRow)
    (row : ℕ → Evaluation) (due wp_post_id : Option ℕ) (now : ℕ) (result : ℕ → ScanArticleResult)
    (s : Store)
    → Q (sent s)
    → Q (sent (superseding p.query_fails a.article_id row s))
    → Q (sent (inserting p.query_fails a.article_id row s))
    → R (result s.next_id) (record (sent (inserting p.query_fails a.article_id row s)) {
      articles = schedule a.article_id due wp_post_id now s.articles;
    })
    → Ends R Q (recording p a row due wp_post_id now result s)
Ends-recording R Q p a row due wp_post_id now result s first second third done =
    Ends-bind R Q (insert_evaluation p.query_fails a.article_id row)
      (λ id. finish p a due wp_post_id now (result id)) s
      (Ends-insert_evaluation p.query_fails a.article_id row s
        (λ id t. Ends R Q (finish p a due wp_post_id now (result id) t)) Q first second
        (Ends-finish R Q p a due wp_post_id now (result s.next_id)
          (inserting p.query_fails a.article_id row s) third done))
