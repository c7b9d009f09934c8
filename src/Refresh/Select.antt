-- ===== src/Refresh/Select.antt =====
-- selectDueArticles of deploy/cloudflare-workers/src/refresh/scanner.ts. The table of runs is a list; a
-- row whose time of the next scan is equal to that of another keeps its place.
use ai_content_workflow.Prelude.{
  ℕ, String, Bool, true, false, not, ◌&&◌, ◌||◌, Option, none, some, List, [], ◌∷◌, ltb, leb,
  if◌then◌else◌, keep, any, includes, same_text, take,
}
use ai_content_workflow.Run.{Status}
use ai_content_workflow.Refresh.Store.{ArticleRow}

pub record RunOf : Type 0 where
  pub run_id : String
  pub article_id : Option String
  pub status : Status

abbrev pub is_in_flight : Status → Bool
is_in_flight Status.pending = true
is_in_flight Status.strategy = true
is_in_flight Status.hitl_1 = true
is_in_flight Status.production = true
is_in_flight Status.hitl_2 = true
is_in_flight Status.persisted = true
is_in_flight _ = false

-- A run drives the article.
unfoldable pub is_driven : List RunOf → ArticleRow → Bool
is_driven runs a =
    any (λ r. same_text r.article_id (some a.article_id) && is_in_flight r.status) runs

unfoldable pub is_due : ℕ → ArticleRow → Bool
is_due now a = leb a.next_scan_due_at now

unfoldable pub is_dismissed : ℕ → ArticleRow → Bool
is_dismissed now a = elim a.dismissed_until [ none ↦ false | some at ↦ not (ltb at now) ]

unfoldable pub is_selected : List RunOf → ℕ → ArticleRow → Bool
unfolding is_due is_dismissed is_driven
is_selected runs now a = is_due now a && not (is_dismissed now a) && not (is_driven runs a)

unfoldable pub insert_due : ArticleRow → List ArticleRow → List ArticleRow
insert_due a [] = a ∷ []
insert_due a (b ∷ rows) =
    let rest = insert_due a rows in
    if leb a.next_scan_due_at b.next_scan_due_at then a ∷ b ∷ rows else b ∷ rest

-- ORDER BY next_scan_due_at ASC
unfoldable pub order_by_due : List ArticleRow → List ArticleRow
unfolding insert_due
order_by_due [] = []
order_by_due (a ∷ rows) = insert_due a (order_by_due rows)

abbrev pub batch_size : ℕ
batch_size = 200

pub record SelectDueOptions : Type 0 where
  pub limit : ℕ
  pub article_ids : Option (List String)
  pub force : Bool

unfoldable pub select_due_articles :
    List RunOf → ℕ → SelectDueOptions → List ArticleRow → List ArticleRow
unfolding is_selected is_due order_by_due
select_due_articles runs now opts rows = elim opts.article_ids [
  | none ↦ take opts.limit (order_by_due (keep (is_selected runs now) rows))
  | some ids ↦
      order_by_due (keep (λ a. includes ids a.article_id && (opts.force || is_due now a)) rows)
]
