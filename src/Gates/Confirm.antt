-- ===== src/Gates/Confirm.antt =====
-- The approval of a publish target in POST /:id/hitl-2 of deploy/cloudflare-workers/src/routes/runs.ts:
-- the settings are checked, and for a refresh the reviewer confirms the target that was resolved.
use ai_content_workflow.Prelude.{
  ℕ, String, Bool, false, ◌&&◌, Option, none, some, List, str_eq, same_text, if◌then◌else◌, or_else,
  get_or_else, map_some, to_decimal,
}
use ai_content_workflow.Json.{Json, null, to_number_array}
use ai_content_workflow.Run.{RunRow, Hitl2Decision, is_refresh}
use ai_content_workflow.Publish.Failure.{Result, ok, err}
use ai_content_workflow.Publish.Guards.{PublishGuardInput, check_publish_guards}
use ai_content_workflow.Publish.Pin.{ResolvedPublishTarget}
use ai_content_workflow.Publish.Slug.{resolve_post_id_for_slug}
use ai_content_workflow.Publish.Target.{ResolvedTarget, target_from_row}
use ai_content_workflow.Pipeline.World.{World}
use ai_content_workflow.Pipeline.Platform.{Platform}
use ai_content_workflow.Pipeline.Strategy.{pg_json}

pub record Hitl2Body : Type 0 where
  pub decision : Option Hitl2Decision
  pub notes : Option String
  pub comments : Option Json
  pub editor_email : Option String
  pub edited_html_body : Option String
  pub edited_seo_title : Option String
  pub edited_meta_description : Option String
  pub confirmed_target : Option ResolvedPublishTarget
  pub wp_publish_status : Option String
  pub wp_author_id : Option ℕ
  pub wp_category_ids : Option (List ℕ)
  pub wp_tag_ids : Option (List ℕ)
  pub wp_featured_media_id : Option ℕ
  pub wp_slug : Option String
  pub wp_excerpt : Option String
  pub wp_publish_at : Option String
  pub ghost_author_ids : Option (List String)
  pub ghost_tags : Option (List String)
  pub feature_image_url : Option String

-- How the check of an approval ends: with a pin to store, or without one, or refused.
pub data Confirmation : Type 0 where
  confirmed : Option ResolvedPublishTarget → Confirmation
  invalid_publish : String → Confirmation
  target_mismatch : ResolvedPublishTarget → Confirmation

-- `pgJson<number[] | null>(meta.wp_category_ids)`
stored_categories : (String → Option Json) → Json → Option (List ℕ)
unfolding pg_json
stored_categories parse v = elim (pg_json parse v) [
  | null ↦ none
  | ids ↦ some (to_number_array ids)
]

effective_settings : Platform → ResolvedTarget → Hitl2Body → RunRow → PublishGuardInput
unfolding stored_categories
effective_settings p target body row = record {
  kind = target.kind;
  status = or_else body.wp_publish_status row.wp_publish_status;
  publish_at = or_else body.wp_publish_at row.wp_publish_at;
  category_ids = or_else body.wp_category_ids (stored_categories p.parse_json row.wp_category_ids);
}

-- The target that the publish step will resolve, with the slug that this decision stores.
unfoldable pub expected_target :
    Platform → ResolvedTarget → Hitl2Body → RunRow → World → ResolvedPublishTarget
expected_target p target body row w =
    let ghost_base =
      or_else row.cms_post_id (elim w.fetched [ none ↦ none | some f ↦ f.cms_post_id ]) in
    let wp_base =
      or_else row.wp_pushed_post_id (elim w.fetched [ none ↦ none | some f ↦ f.wp_post_id ]) in
    let ghost_id =
      resolve_post_id_for_slug p.web (λ s. str_eq s "") ghost_base row.article_url body.wp_slug in
    let wp_id =
      resolve_post_id_for_slug p.web {T = ℕ} (λ n. false) wp_base row.article_url body.wp_slug in
    if str_eq target.kind "ghost"
    then record { kind = "ghost"; post_id = ghost_id; label = target.label }
    else record { kind = "wordpress"; post_id = map_some to_decimal wp_id; label = target.label }

unfoldable pub is_confirmed : Option ResolvedPublishTarget → ResolvedPublishTarget → Bool
is_confirmed none expected = false
is_confirmed (some ct) expected =
    str_eq ct.kind expected.kind
    && same_text ct.post_id expected.post_id
    && str_eq ct.label expected.label

unfoldable pub confirm_refresh : Option ResolvedPublishTarget → ResolvedPublishTarget → Confirmation
unfolding is_confirmed
confirm_refresh ct expected =
    if is_confirmed ct expected then confirmed (some expected) else target_mismatch expected

unfoldable pub confirm_with : Platform → ResolvedTarget → Hitl2Body → RunRow → World → Confirmation
unfolding effective_settings confirm_refresh expected_target
confirm_with p target body row w =
    elim (check_publish_guards (effective_settings p target body row)) [
      | some detail ↦ invalid_publish detail
      | none ↦
          if is_refresh row.start_mode
          then confirm_refresh body.confirmed_target (expected_target p target body row w)
          else confirmed none
    ]

-- The check of an approval at the gate; resolving the target may throw.
unfoldable pub confirm : Platform → ℕ → Hitl2Body → RunRow → World → Result Confirmation
unfolding confirm_with
confirm p tick body row w =
    elim (target_from_row (p.target_row tick row.persona) (get_or_else (p.env "WP_TARGET") "")) [
      | err e ↦ err e
      | ok target ↦ ok (confirm_with p target body row w)
    ]
