-- ===== src/Pipeline/Publishing/Steady.antt =====
-- The publish step of workflows/production.ts never parks, and when it ends the run is published.
use ai_content_workflow.Prelude.{ℕ, ◌≡◌, refl, String, Option, [], ◌∷◌, str_eq, length, ◌++◌}
use ai_content_workflow.Run.{RunRow, Status}
use ai_content_workflow.Publish.Target.{ResolvedTarget, WpEnv, build_target_env}
use ai_content_workflow.Publish.Pin.{ResolvedPublishTarget}
use ai_content_workflow.Pipeline.StepNames.{StepName}
use ai_content_workflow.Pipeline.World.{
  World, PublishPayload, GhostPayload, wordpress, ghost, update_run,
}
use ai_content_workflow.Pipeline.Platform.{Platform}
use ai_content_workflow.Pipeline.Flow.{modify}
use ai_content_workflow.Pipeline.Strategy.{RunLoad}
use ai_content_workflow.Pipeline.Frames.{any_change, Steady, Steady-lift, Steady-step, steady_rules}
use ai_content_workflow.Pipeline.Publishing.{
  load_latest_draft_id, load_render_for_publish, load_hitl2_options, assert_pinned_target,
  wp_upsert, ghost_upsert, wp_published, ghost_published, publish_to_wordpress, publish_to_ghost,
  resolve_target, publish_to, publish,
}
use ai_content_workflow.Pipeline.Outcomes.{
  EndsIn, ends_after, HasStatus-update_run, ends_status, ends_if, ends_step, HasStatus,
}

module _ (p : Platform) where
  wp_upsert_Steady :
      (env : WpEnv) (payload : PublishPayload) → Steady any_change (wp_upsert p env payload)
  unfolding wp_upsert
  wp_upsert_Steady env payload = record {
    steady = λ w. (
      ((Steady-lift any_change (p.wp_upsert (length w.labels) env payload)).steady
          (record w { cms = w.cms ++ wordpress env payload ∷ [] })).0,
      tt,
    );
  }

  ghost_upsert_Steady :
      (auth_ref : Option String) (payload : GhostPayload)
      → Steady any_change (ghost_upsert p auth_ref payload)
  unfolding ghost_upsert
  ghost_upsert_Steady auth_ref payload = record {
    steady = λ w. (
      ((Steady-lift any_change (p.ghost_upsert (length w.labels) auth_ref payload)).steady
          (record w { cms = w.cms ++ ghost auth_ref payload ∷ [] })).0,
      tt,
    );
  }

  load_hitl2_options-Steady : (run_id : String) → Steady any_change (load_hitl2_options run_id)
  unfolding load_hitl2_options
  load_hitl2_options-Steady run_id = search steady_rules

  load_latest_draft_id-Steady : (run_id : String) → Steady any_change (load_latest_draft_id run_id)
  unfolding load_latest_draft_id
  load_latest_draft_id-Steady run_id = search steady_rules

  load_render_for_publish-Steady : (id : ℕ) → Steady any_change (load_render_for_publish id)
  unfolding load_render_for_publish
  load_render_for_publish-Steady id = search steady_rules

  assert_pinned_target-Steady :
      (hitl2 : RunRow) (actual : ResolvedPublishTarget)
      → Steady any_change (assert_pinned_target hitl2 actual)
  unfolding assert_pinned_target
  assert_pinned_target-Steady hitl2 actual = search steady_rules

  resolve_target-Steady : (run : RunLoad) → Steady any_change (resolve_target p run)
  unfolding resolve_target
  resolve_target-Steady run = search steady_rules

  stamp_published :
      (f : World → RunRow → RunRow)
      → ((w : World) (r : RunRow) → (f w r).status ≡ Status.published)
      → EndsIn (λ x. HasStatus Status.published) (modify (λ w. update_run (f w) w))
  stamp_published f h =
      ends_status (λ w. update_run (f w) w)
        (λ w. HasStatus-update_run Status.published (f w) (h w) w)

  wp_published-EndsIn :
      (result : ℕ × String)
      → EndsIn
          (λ x. HasStatus Status.published)
          (modify (λ w. update_run (wp_published p result w) w))
  unfolding wp_published
  wp_published-EndsIn result = stamp_published (wp_published p result) (λ w r. refl)

  ghost_published-EndsIn :
      (result : String × String)
      → EndsIn
          (λ x. HasStatus Status.published)
          (modify (λ w. update_run (ghost_published p result w) w))
  unfolding ghost_published
  ghost_published-EndsIn result = stamp_published (ghost_published p result) (λ w r. refl)

  publish_to_wordpress-EndsIn :
      (run_id : String) (run : RunLoad) (target : ResolvedTarget) (env : WpEnv)
      → EndsIn (λ x. HasStatus Status.published) (publish_to_wordpress p run_id run target env)
  unfolding publish_to_wordpress
  publish_to_wordpress-EndsIn run_id run target env =
      search
        (
          ends_after any_change,
          steady_rules,
          load_hitl2_options-Steady,
          load_latest_draft_id-Steady,
          load_render_for_publish-Steady,
          assert_pinned_target-Steady,
          wp_upsert_Steady,
          wp_published-EndsIn,
        )
        depth 20

  publish_to_ghost-EndsIn :
      (run_id : String) (run : RunLoad) (target : ResolvedTarget)
      → EndsIn (λ x. HasStatus Status.published) (publish_to_ghost p run_id run target)
  unfolding publish_to_ghost
  publish_to_ghost-EndsIn run_id run target =
      search
        (
          ends_after any_change,
          steady_rules,
          load_hitl2_options-Steady,
          load_latest_draft_id-Steady,
          load_render_for_publish-Steady,
          assert_pinned_target-Steady,
          ghost_upsert_Steady,
          ghost_published-EndsIn,
        )
        depth 20

  publish_to-EndsIn :
      (run_id : String) (run : RunLoad) (target : ResolvedTarget)
      → EndsIn (λ x. HasStatus Status.published) (publish_to p run_id run target)
  unfolding publish_to
  publish_to-EndsIn run_id run target =
      ends_if (str_eq target.kind "ghost")
        (ends_after any_change (Steady-lift any_change (p.has_ghost_creds target.auth_ref))
          λ _. ends_step p StepName.publish_ghost (publish_to_ghost-EndsIn run_id run target))
        (ends_after any_change (Steady-lift any_change (build_target_env p.env target))
          λ env. ends_step p StepName.publish (publish_to_wordpress-EndsIn run_id run target env))

  -- Publishing that is done leaves the run published.
  pub publish-EndsIn :
      (run_id : String) (run : RunLoad)
      → EndsIn (λ x. HasStatus Status.published) (publish p run_id run)
  unfolding publish
  publish-EndsIn run_id run =
      ends_after any_change
        (Steady-step any_change p StepName.resolve_publish_target (resolve_target-Steady run))
        λ target. publish_to-EndsIn run_id run target
