-- ===== src/Gates/Decide/Tests.antt =====
-- The theorems on the decisions at the second gate, at a refresh that waits there.
use ai_content_workflow.Prelude.{trim, ℕ, ◌≡◌, refl, none, some, [], ◌∷◌, true, false, arith, trim}
use ai_content_workflow.Run.{RunRow, Status, StartMode, Hitl2Decision, is_approve}
use ai_content_workflow.Publish.Failure.{Failure, err}
use ai_content_workflow.Publish.Guards.{
  check_publish_guards, has_publish_at, has_categories, is_scheduled-none,
}
use ai_content_workflow.Publish.Pin.{pinned_target_matches}
use ai_content_workflow.Publish.Slug.{resolve_post_id_for_slug}
use ai_content_workflow.Publish.Target.{target_from_row}
use ai_content_workflow.Pipeline.World.{World}
use ai_content_workflow.Pipeline.Platform.{Platform}
use ai_content_workflow.Pipeline.Publishing.{pin_of}
use ai_content_workflow.Pipeline.Main.Examples.{demo_platform, posted, demo_row, demo_world}
use ai_content_workflow.Gates.Actor.{SessionIdentity, resolve_actor_identity, non_empty}
use ai_content_workflow.Gates.Instances.{Instances}
use ai_content_workflow.Gates.Confirm.{
  Hitl2Body, confirm, confirm_with, confirm_refresh, is_confirmed, expected_target,
}
use ai_content_workflow.Gates.Decide.{
  may_claim, claimed, check_approval, claim, guard_row, hitl2_guard, decide,
}
use ai_content_workflow.Gates.Decide.Agreement.{publish_target, hitl2_guard-pinned}
use ai_content_workflow.Gates.Decide.Invariants.{
  decide-Kept, Counted, hitl2_guard-open, hitl2_guard-approved_by,
}

-- The voice publishes to a Ghost blog.
abbrev platform : Platform
platform = record (demo_platform 0 posted) {
  target_row = λ n voice.
      some (record { name = "blog"; kind = "ghost"; auth_ref = none; is_archived = false });
}

abbrev row : RunRow
row = record (demo_row StartMode.refresh) { status = Status.hitl_2 }

abbrev waiting : World
waiting = record (demo_world StartMode.refresh []) { run = some row }

abbrev body : Hitl2Decision → Hitl2Body
body d = record {
  decision = some d;
  notes = none;
  comments = none;
  editor_email = some "someone@else.example";
  edited_html_body = none;
  edited_seo_title = none;
  edited_meta_description = none;
  confirmed_target = some (record { kind = "ghost"; post_id = none; label = "blog" });
  wp_publish_status = none;
  wp_author_id = none;
  wp_category_ids = none;
  wp_tag_ids = none;
  wp_featured_media_id = none;
  wp_slug = none;
  wp_excerpt = none;
  wp_publish_at = none;
  ghost_author_ids = none;
  ghost_tags = none;
  feature_image_url = none;
}

abbrev session : SessionIdentity
session = record { user_email = some "chief"; user_id = none }

abbrev lost : Failure
lost = record { name = "Error"; message = "instance.not_found" }

-- No instance knows the run, and none can be made.
abbrev no_instances : Instances
no_instances = record {
  send_hitl1 = λ id e. err lost;
  send_hitl2 = λ id e. err lost;
  create = λ id gate. err lost;
  restart = λ id from. err lost;
}

decide-Kept_example :
    let out =
      decide platform no_instances "r1" session (body Hitl2Decision.request_changes) waiting in
    (r : RunRow) × (out.1.run ≡ some r)
    × (r.status ≡ Status.hitl_2)
    × Counted Hitl2Decision.request_changes 0 r.hitl_2_iteration out.0
decide-Kept_example =
    decide-Kept platform no_instances "r1" session (body Hitl2Decision.request_changes) row waiting
      refl

abbrev revised : World
revised = (hitl2_guard platform "chief" (body Hitl2Decision.request_changes) waiting).1

hitl2_guard-open_example :
    (n : ℕ) × ((hitl2_guard platform "other" (body Hitl2Decision.reject) revised).0 ≡ claimed n)
unfolding hitl2_guard guard_row claim check_approval may_claim
hitl2_guard-open_example =
    hitl2_guard-open platform "chief" "other" (body Hitl2Decision.request_changes)
      (body Hitl2Decision.reject) row waiting revised 0 refl refl refl

abbrev approved : World
approved = (hitl2_guard platform "chief" (body Hitl2Decision.approve) waiting).1

hitl2_guard-pinned_example :
    (r : RunRow) × (approved.run ≡ some r)
    × (pinned_target_matches (pin_of r) (
          publish_target platform
            (record { row = row; keyword_list = "k" ∷ [] })
            (record { auth_ref = none; label = "blog"; is_default = false; kind = "ghost" })
            waiting
            r)
        ≡ true)
unfolding hitl2_guard guard_row claim check_approval may_claim confirm target_from_row confirm_with
    confirm_refresh is_confirmed expected_target check_publish_guards has_publish_at has_categories
    resolve_post_id_for_slug
hitl2_guard-pinned_example =
    hitl2_guard-pinned platform "chief" (body Hitl2Decision.approve) row waiting
      (record { auth_ref = none; label = "blog"; is_default = false; kind = "ghost" }) ("k" ∷ [])
      approved 0 refl refl refl refl (ground (arith, is_scheduled-none))

abbrev revised_by : World
revised_by =
    (hitl2_guard platform (resolve_actor_identity session (some "someone@else.example"))
      (body Hitl2Decision.request_changes) waiting).1

hitl2_guard-approved_by_example :
    (r : RunRow) × (revised_by.run ≡ some r)
    × (Hitl2Decision.request_changes ≡ Hitl2Decision.approve → r.approved_by ≡ some "chief")
    × (is_approve Hitl2Decision.request_changes ≡ false
        → (r.approved_by ≡ none) × (r.approved_at ≡ none))
unfolding hitl2_guard guard_row claim check_approval may_claim non_empty trim
hitl2_guard-approved_by_example =
    hitl2_guard-approved_by platform session "chief" (body Hitl2Decision.request_changes) row
      waiting revised_by 0 refl refl refl
