-- ===== src/Pipeline/Publishing.antt =====
-- The publish steps of workflows/production.ts: the target, the pin of the approval, and the request
-- to the CMS.
pub mod Bounds
pub mod Steady
pub mod Pinning
mod Tests
use ai_content_workflow.Prelude.{
  ℕ, String, false, not, ◌&&◌, Option, none, some, [], ◌∷◌, ◌++◌, str_eq, if◌then◌else◌, or_else,
  get_or_else, map_some, length, ◌<>◌, to_decimal,
}
use ai_content_workflow.Json.{to_string_array, to_number_array, to_object_array_or_null}
use ai_content_workflow.Run.{RunRow, Status, is_refresh}
use ai_content_workflow.Publish.Failure.{err}
use ai_content_workflow.Publish.Target.{ResolvedTarget, WpEnv, target_from_row, build_target_env}
use ai_content_workflow.Publish.Guards.{resolve_publish_status}
use ai_content_workflow.Publish.Pin.{
  PersistedTargetPin, ResolvedPublishTarget, pinned_target_matches, pin_mismatch_message,
}
use ai_content_workflow.Publish.Slug.{resolve_post_id_for_slug}
use ai_content_workflow.Pipeline.StepNames.{StepName}
use ai_content_workflow.Pipeline.World.{
  World, RenderRow, PublishPayload, GhostPayload, wordpress, ghost, update_run,
}
use ai_content_workflow.Pipeline.Platform.{Platform}
use ai_content_workflow.Pipeline.Flow.{
  Flow, pure, lift, gets, modify, ◌>>=◌, ◌>>◌, or_throw, do_step,
}
use ai_content_workflow.Pipeline.Drafts.{latest_draft, find_render}
use ai_content_workflow.Pipeline.Strategy.{RunLoad}

-- The row with the highest iteration gives the draft that is published.
load_latest_draft_id : String → Flow ℕ
unfolding ◌>>=◌ latest_draft
load_latest_draft_id run_id = do
  found ← gets (λ w. latest_draft w.drafts)
  draft ← or_throw found ("no draft for run " <> run_id)
  pure draft.draft_id

load_render_for_publish : ℕ → Flow RenderRow
unfolding ◌>>=◌ find_render
load_render_for_publish id = do
  found ← gets (λ w. find_render id w.renders)
  or_throw found ("render not found for draft " <> to_decimal id)

-- The row as it stands at the publish step, with the approval and the options chosen at HITL_2.
load_hitl2_options : String → Flow RunRow
unfolding ◌>>=◌
load_hitl2_options run_id = do
  found ← gets (λ w. w.run)
  or_throw found ("run not found: " <> run_id)

unfoldable pub fetched_post_id : World → Option ℕ
fetched_post_id w = elim w.fetched [ none ↦ none | some f ↦ f.wp_post_id ]

unfoldable pub fetched_ghost_post_id : World → Option String
fetched_ghost_post_id w = elim w.fetched [ none ↦ none | some f ↦ f.cms_post_id ]

abbrev pub pin_of : RunRow → PersistedTargetPin
pin_of r = record {
  approved_target_kind = r.approved_target_kind;
  approved_post_id = r.approved_post_id;
  approved_target_label = r.approved_target_label;
}

-- The approval is voided: a restart comes back to the gate.
void_approval : RunRow → RunRow
void_approval r = record r {
  hitl_2_decision = none;
  approved_at = none;
  approved_by = none;
  approved_target_kind = none;
  approved_post_id = none;
  approved_target_label = none;
}

-- Throws without retries unless the target is the one that was confirmed.
unfoldable pub assert_pinned_target : RunRow → ResolvedPublishTarget → Flow (Unit {0})
unfolding ◌>>=◌ void_approval
assert_pinned_target hitl2 actual =
    if pinned_target_matches (pin_of hitl2) actual then pure tt else do
      modify (update_run void_approval)
      lift (
          err (record {
            name = "NonRetryableError";
            message = pin_mismatch_message (pin_of hitl2) actual;
          }))

-- `hitl2.wp_excerpt || (render.excerpt_suggestion ?? "")`
excerpt_of : RunRow → RenderRow → String
excerpt_of hitl2 r =
    let chosen = get_or_else hitl2.wp_excerpt "" in
    if str_eq chosen "" then get_or_else r.excerpt_suggestion "" else chosen

-- `last_persisted_at` of the article in the inventory, for a refresh with a URL.
stamp_article : RunLoad → World → World
stamp_article run w = elim run.article_url [
  | none ↦ w
  | some url ↦
      if is_refresh run.start_mode && not (str_eq url "")
      then record w { persisted_urls = w.persisted_urls ++ url ∷ [] }
      else w
]

module _ (p : Platform) where
  -- The id of the WordPress post: that of an earlier push, or for a refresh the fetched one.
  unfoldable pub wp_base_post_id : RunLoad → World → Option ℕ
  unfolding fetched_post_id
  wp_base_post_id run w =
      if is_refresh run.start_mode
      then or_else run.wp_pushed_post_id (fetched_post_id w)
      else run.wp_pushed_post_id

  unfoldable pub ghost_base_post_id : RunLoad → World → Option String
  unfolding fetched_ghost_post_id
  ghost_base_post_id run w =
      or_else run.cms_post_id (if is_refresh run.start_mode then fetched_ghost_post_id w else none)

  wp_payload : Option ℕ → RunRow → RenderRow → PublishPayload
  unfolding excerpt_of
  wp_payload post_id hitl2 r = record {
    post_id = post_id;
    title = r.seo_title;
    content = r.html_body;
    excerpt = excerpt_of hitl2 r;
    status = resolve_publish_status hitl2.wp_publish_status;
    slug = hitl2.wp_slug;
    categories = to_number_array hitl2.wp_category_ids;
    tags = to_number_array hitl2.wp_tag_ids;
    author = hitl2.wp_author_id;
    featured_media = hitl2.wp_featured_media_id;
    meta = p.build_meta r.meta_description (to_object_array_or_null r.schema_jsonld);
    template = "";
  }

  ghost_payload : Option String → RunRow → RenderRow → GhostPayload
  unfolding excerpt_of
  ghost_payload post_id hitl2 r = record {
    post_id = post_id;
    title = r.seo_title;
    html = r.html_body;
    slug = hitl2.wp_slug;
    status = resolve_publish_status hitl2.wp_publish_status;
    excerpt = excerpt_of hitl2 r;
    author_ids = to_string_array p.parse_json hitl2.ghost_author_ids;
    tags = to_string_array p.parse_json hitl2.ghost_tags;
    feature_image = hitl2.feature_image_url;
    meta_description = r.meta_description;
    code_injection_head = p.build_ghost_schema_head (to_object_array_or_null r.schema_jsonld);
    published_at = hitl2.wp_publish_at;
  }

  -- The post that the publish step addresses: the slug of the decision may ask for a new one.
  unfoldable pub wp_post_id : RunLoad → Option ℕ → RunRow → Option ℕ
  wp_post_id run base hitl2 =
      resolve_post_id_for_slug p.web (λ n. false) base run.article_url hitl2.wp_slug

  unfoldable pub ghost_post_id : RunLoad → Option String → RunRow → Option String
  ghost_post_id run base hitl2 =
      resolve_post_id_for_slug p.web (λ s. str_eq s "") base run.article_url hitl2.wp_slug

  unfoldable pub wp_target : RunLoad → ResolvedTarget → Option ℕ → RunRow → ResolvedPublishTarget
  unfolding wp_post_id
  wp_target run target base hitl2 = record {
    kind = "wordpress";
    post_id = map_some to_decimal (wp_post_id run base hitl2);
    label = target.label;
  }

  unfoldable pub ghost_target :
      RunLoad → ResolvedTarget → Option String → RunRow → ResolvedPublishTarget
  unfolding ghost_post_id
  ghost_target run target base hitl2 = record {
    kind = "ghost";
    post_id = ghost_post_id run base hitl2;
    label = target.label;
  }

  -- One entry is one call of `client.upsert`, on record whether or not it then answers; the client itself
  -- may send the post up to three times (WordPress/Upsert).
  wp_upsert : WpEnv → PublishPayload → Flow (ℕ × String)
  wp_upsert env payload w =
      lift (p.wp_upsert (length w.labels) env payload)
        (record w { cms = w.cms ++ wordpress env payload ∷ [] })

  ghost_upsert : Option String → GhostPayload → Flow (String × String)
  ghost_upsert auth_ref payload w =
      lift (p.ghost_upsert (length w.labels) auth_ref payload)
        (record w { cms = w.cms ++ ghost auth_ref payload ∷ [] })

  wp_published : ℕ × String → World → RunRow → RunRow
  wp_published result w r = record r {
    wp_pushed_post_id = some result.0;
    wp_pushed_at = some (p.now (length w.labels));
    status = Status.published;
    article_url = some result.1;
  }

  ghost_published : String × String → World → RunRow → RunRow
  ghost_published result w r = record r {
    cms_post_id = some result.0;
    wp_pushed_at = some (p.now (length w.labels));
    status = Status.published;
    article_url = some result.1;
  }

  -- The body of the step `publish`.
  publish_to_wordpress : String → RunLoad → ResolvedTarget → WpEnv → Flow (Unit {0})
  unfolding ◌>>=◌ load_hitl2_options load_latest_draft_id load_render_for_publish wp_base_post_id
      assert_pinned_target wp_payload wp_upsert stamp_article wp_published
  publish_to_wordpress run_id run target env = do
    hitl2 ← load_hitl2_options run_id
    draft_id ← load_latest_draft_id run_id
    r ← load_render_for_publish draft_id
    base ← gets (wp_base_post_id run)
    if is_refresh run.start_mode
        then assert_pinned_target hitl2 (wp_target run target base hitl2)
        else pure tt
    result ← wp_upsert env (wp_payload (wp_post_id run base hitl2) hitl2 r)
    modify (stamp_article run)
    modify (λ w. update_run (wp_published result w) w)

  -- The body of the step `publish-ghost`.
  publish_to_ghost : String → RunLoad → ResolvedTarget → Flow (Unit {0})
  unfolding ◌>>=◌ load_hitl2_options load_latest_draft_id load_render_for_publish ghost_base_post_id
      assert_pinned_target ghost_payload ghost_upsert ghost_published
  publish_to_ghost run_id run target = do
    hitl2 ← load_hitl2_options run_id
    draft_id ← load_latest_draft_id run_id
    r ← load_render_for_publish draft_id
    base ← gets (ghost_base_post_id run)
    if is_refresh run.start_mode
        then assert_pinned_target hitl2 (ghost_target run target base hitl2)
        else pure tt
    result ← ghost_upsert target.auth_ref (ghost_payload (ghost_post_id run base hitl2) hitl2 r)
    modify (λ w. update_run (ghost_published result w) w)

  resolve_target : RunLoad → Flow ResolvedTarget
  unfolding ◌>>=◌
  resolve_target run = do
    tick ← gets (λ w. length w.labels)
    lift (target_from_row (p.target_row tick run.persona) (get_or_else (p.env "WP_TARGET") ""))

  -- The dispatch on the kind of the target; credentials are read outside the steps.
  publish_to : String → RunLoad → ResolvedTarget → Flow (Unit {0})
  unfolding ◌>>=◌
  publish_to run_id run target =
      if str_eq target.kind "ghost"
      then (lift (p.has_ghost_creds target.auth_ref)
          >> do_step p StepName.publish_ghost (publish_to_ghost run_id run target))
      else (lift (build_target_env p.env target) >>= λ env.
          do_step p StepName.publish (publish_to_wordpress run_id run target env))

  pub publish : String → RunLoad → Flow (Unit {0})
  unfolding ◌>>=◌ resolve_target publish_to
  publish run_id run = do
    target ← do_step p StepName.resolve_publish_target (resolve_target run)
    publish_to run_id run target
