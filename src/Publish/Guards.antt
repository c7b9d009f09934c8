-- ===== src/Publish/Guards.antt =====
-- deploy/cloudflare-workers/src/util/publish_guards.ts and wordpress/publish_status.ts
use ai_content_workflow.Prelude.{
  ℕ, String, ◌≡◌, Bool, true, false, not, ◌&&◌, Option, none, some, List, [], ◌∷◌, str_eq, includes,
  trim, trim-empty, ap, to_lower, get_or_else, if◌then◌else◌,
}

pub record PublishGuardInput : Type 0 where
  pub kind : String
  pub status : Option String
  pub publish_at : Option String
  pub category_ids : Option (List ℕ)

abbrev pub scheduled_statuses : List String
scheduled_statuses = "future" ∷ "scheduled" ∷ []

abbrev pub no_date : String
no_date =
    "A scheduled publish needs a publish date/time. Set a future date or choose a different status."

abbrev pub no_categories : String
no_categories = "Ghost has no categories — remove the categories or use tags (ghost_tags) instead."

-- The test of the status, after trimming and lowering.
unfoldable pub is_scheduled : Option String → Bool
unfolding trim to_lower
is_scheduled status = includes scheduled_statuses (to_lower (trim (get_or_else status "")))

-- No status is not a scheduled one.
pub is_scheduled-none : is_scheduled none ≡ false
unfolding is_scheduled to_lower
is_scheduled-none = ap (λ s. includes scheduled_statuses (to_lower s)) trim-empty

unfoldable pub has_publish_at : Option String → Bool
unfolding trim
has_publish_at none = false
has_publish_at (some at) = not (str_eq (trim at) "")

unfoldable pub has_categories : Option (List ℕ) → Bool
has_categories none = false
has_categories (some []) = false
has_categories (some (id ∷ ids)) = true

unfoldable pub check_publish_guards : PublishGuardInput → Option String
check_publish_guards input =
    if is_scheduled input.status && not (has_publish_at input.publish_at)
    then some no_date
    else if str_eq input.kind "ghost" && has_categories input.category_ids
    then some no_categories
    else none

unfoldable pub resolve_publish_status : Option String → String
resolve_publish_status status = get_or_else status "draft"
