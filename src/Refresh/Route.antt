-- ===== src/Refresh/Route.antt =====
-- POST /scan/:articleId of deploy/cloudflare-workers/src/routes/refresh.ts: one article is scanned at
-- once. The reads of the route do not fail here; a scan that throws is answered by the server's error.
use ai_content_workflow.Prelude.{
  ℕ, String, Bool, true, false, not, ◌&&◌, Option, none, some, List, [], ◌∷◌, str_eq, same_text,
  ◌==◌, if◌then◌else◌,
}
use ai_content_workflow.Refresh.Store.{ArticleRow, Store, Evaluation, manual_per_article}
use ai_content_workflow.Refresh.Scan.{Services, ScanArticleResult, ScanContext, scan_article}
use ai_content_workflow.Refresh.Select.{RunOf, is_in_flight}

pub data ScanReply : Type 0 where
  article_not_found dismissed : ScanReply
  in_progress_run : String → ScanReply
  scan_failed evaluation_not_found : ScanReply
  evaluated : Evaluation → ScanReply

pub data ScanGuard : Type 0 where
  refused : ScanReply → ScanGuard
  let_through : ArticleRow → ScanGuard

unfoldable pub find_article : String → List ArticleRow → Option ArticleRow
find_article id [] = none
find_article id (a ∷ rows) =
    let rest = find_article id rows in if str_eq a.article_id id then some a else rest

unfoldable pub find_inflight : String → List RunOf → Option String
find_inflight id [] = none
find_inflight id (r ∷ runs) =
    let rest = find_inflight id runs in
    if same_text r.article_id (some id) && is_in_flight r.status then some r.run_id else rest

-- Whether the article was ever dismissed.
unfoldable pub was_dismissed : ArticleRow → Bool
was_dismissed a = elim a.dismissed_until [ none ↦ false | some at ↦ true ]

unfoldable pub guard_article : List RunOf → Bool → String → ArticleRow → ScanGuard
unfolding was_dismissed find_inflight
guard_article runs force id a =
    if was_dismissed a && not force then refused dismissed else elim (find_inflight id runs) [
      | none ↦ let_through a
      | some run_id ↦ refused (in_progress_run run_id)
    ]

unfoldable pub scan_guard : List RunOf → Bool → String → List ArticleRow → ScanGuard
unfolding find_article guard_article
scan_guard runs force id rows = elim (find_article id rows) [
  | none ↦ refused article_not_found
  | some a ↦ guard_article runs force id a
]

unfoldable pub find_evaluation : ℕ → List Evaluation → Option Evaluation
find_evaluation id [] = none
find_evaluation id (e ∷ es) =
    let rest = find_evaluation id es in if e.evaluation_id == id then some e else rest

unfoldable pub reply_of : Option ScanArticleResult → List Evaluation → ScanReply
unfolding find_evaluation
reply_of none es = scan_failed
reply_of (some scan) es = elim (find_evaluation scan.evaluation_id es) [
  | none ↦ evaluation_not_found
  | some e ↦ evaluated e
]

abbrev pub per_article : ScanContext
per_article = record { trigger_source = manual_per_article; llm_budget_remaining = 999 }

module _ (p : Services) where
  unfoldable pub answer_guard : ScanGuard → Store → ScanReply × Store
  unfolding reply_of
  answer_guard (refused reply) s = (reply, s)
  answer_guard (let_through a) s =
      let r = scan_article p a per_article s in (reply_of r.0 r.1.evaluations, r.1)

  unfoldable pub scan_route : List RunOf → Bool → String → Store → ScanReply × Store
  unfolding scan_guard answer_guard
  scan_route runs force id s = answer_guard (scan_guard runs force id s.articles) s
