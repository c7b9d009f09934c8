-- ===== src/Pipeline/Publishing/Bounds.antt =====
-- The bounds of the publish step of workflows/production.ts: it makes at most one request to the CMS.
use ai_content_workflow.Prelude.{
  ℕ, ◌+◌, ◌*◌, String, Option, [], ◌∷◌, arith, str_eq, length, length-append, ◌++◌,
}
use ai_content_workflow.Run.{RunRow}
use ai_content_workflow.Publish.Target.{ResolvedTarget, WpEnv, build_target_env}
use ai_content_workflow.Publish.Pin.{ResolvedPublishTarget}
use ai_content_workflow.Pipeline.StepNames.{StepName}
use ai_content_workflow.Pipeline.World.{PublishPayload, GhostPayload, wordpress, ghost}
use ai_content_workflow.Pipeline.Platform.{Platform}
use ai_content_workflow.Pipeline.Flow.{Flow, modify, ◌>>=◌}
use ai_content_workflow.Pipeline.Strategy.{RunLoad}
use ai_content_workflow.Pipeline.Bounds.{
  Bounded, Quiet, Quiet-bind, Quiet-lift, keep_if, keep_bind, then_step, quiet_rules, keep_step,
  keep_lift, weaken,
}
use ai_content_workflow.Pipeline.Publishing.{
  load_latest_draft_id, load_render_for_publish, load_hitl2_options, void_approval,
  assert_pinned_target, stamp_article, wp_upsert, ghost_upsert, wp_published, ghost_published,
  publish_to_wordpress, publish_to_ghost, resolve_target, publish_to, publish,
}

module _ (limit : ℕ) where
  -- The one request may stand on either side of a bind.
  Quiet-before :
      {A B : Type 0} {m : Flow A} {f : A → Flow B}
      → Quiet limit 0 m
      → ((x : A) → Quiet limit 1 (f x))
      → Quiet limit 1 (m >>= f)
  Quiet-before = Quiet-bind limit 0 1

  Quiet-after :
      {A B : Type 0} {m : Flow A} {f : A → Flow B}
      → Quiet limit 1 m
      → ((x : A) → Quiet limit 0 (f x))
      → Quiet limit 1 (m >>= f)
  Quiet-after = Quiet-bind limit 1 0

  load_hitl2_options-Quiet : (run_id : String) → Quiet limit 0 (load_hitl2_options run_id)
  unfolding load_hitl2_options
  load_hitl2_options-Quiet run_id = search quiet_rules

  load_latest_draft_id-Quiet : (run_id : String) → Quiet limit 0 (load_latest_draft_id run_id)
  unfolding load_latest_draft_id
  load_latest_draft_id-Quiet run_id = search quiet_rules

  load_render_for_publish-Quiet : (id : ℕ) → Quiet limit 0 (load_render_for_publish id)
  unfolding load_render_for_publish
  load_render_for_publish-Quiet id = search quiet_rules

  assert_pinned_target-Quiet :
      (hitl2 : RunRow) (actual : ResolvedPublishTarget)
      → Quiet limit 0 (assert_pinned_target hitl2 actual)
  unfolding assert_pinned_target void_approval
  assert_pinned_target-Quiet hitl2 actual = search quiet_rules

  stamp_article-Quiet : (run : RunLoad) → Quiet limit 0 (modify (stamp_article run))
  unfolding stamp_article
  stamp_article-Quiet run n = record { sound = λ w below. ground arith }

  module _ (p : Platform) where
    wp_upsert_Quiet :
        (env : WpEnv) (payload : PublishPayload) → Quiet limit 1 (wp_upsert p env payload)
    unfolding wp_upsert
    wp_upsert_Quiet env payload n = record {
      sound = λ w below.
          let s =
            (Quiet-lift limit (p.wp_upsert (length w.labels) env payload) n).sound
              (record w { cms = w.cms ++ wordpress env payload ∷ [] }) below in
          (s.0, omega (arith, s.1, length-append w.cms (wordpress env payload ∷ [])), s.2);
    }

    ghost_upsert_Quiet :
        (auth_ref : Option String) (payload : GhostPayload)
        → Quiet limit 1 (ghost_upsert p auth_ref payload)
    unfolding ghost_upsert
    ghost_upsert_Quiet auth_ref payload n = record {
      sound = λ w below.
          let s =
            (Quiet-lift limit (p.ghost_upsert (length w.labels) auth_ref payload) n).sound
              (record w { cms = w.cms ++ ghost auth_ref payload ∷ [] }) below in
          (s.0, omega (arith, s.1, length-append w.cms (ghost auth_ref payload ∷ [])), s.2);
    }

    publish_to_wordpress-Quiet :
        (run_id : String) (run : RunLoad) (target : ResolvedTarget) (env : WpEnv)
        → Quiet limit 1 (publish_to_wordpress p run_id run target env)
    unfolding publish_to_wordpress wp_published
    publish_to_wordpress-Quiet run_id run target env =
        search
          (
            Quiet-before, Quiet-after, quiet_rules, load_hitl2_options-Quiet,
            load_latest_draft_id-Quiet, load_render_for_publish-Quiet, assert_pinned_target-Quiet,
            stamp_article-Quiet, wp_upsert_Quiet,
          )
          depth 20

    publish_to_ghost-Quiet :
        (run_id : String) (run : RunLoad) (target : ResolvedTarget)
        → Quiet limit 1 (publish_to_ghost p run_id run target)
    unfolding publish_to_ghost ghost_published
    publish_to_ghost-Quiet run_id run target =
        search
          (
            Quiet-before, Quiet-after, quiet_rules, load_hitl2_options-Quiet,
            load_latest_draft_id-Quiet, load_render_for_publish-Quiet, assert_pinned_target-Quiet,
            ghost_upsert_Quiet,
          )
          depth 20

    keep_publish_to :
        (run_id : String) (run : RunLoad) (target : ResolvedTarget)
        → Bounded limit 1 (103 + 60 * limit) (104 + 60 * limit) (publish_to p run_id run target)
    unfolding publish_to
    keep_publish_to run_id run target =
        keep_if limit (str_eq target.kind "ghost") 1 _ _
          (keep_bind limit 0 1 _ (103 + 60 * limit) _ (omega arith)
            (keep_lift limit (p.has_ghost_creds target.auth_ref) _ _ (omega arith))
            λ _.
              keep_step limit p StepName.publish_ghost 1 _ _ (omega arith) (omega arith)
                (publish_to_ghost-Quiet run_id run target))
          (keep_bind limit 0 1 _ (103 + 60 * limit) _ (omega arith)
            (keep_lift limit (build_target_env p.env target) _ _ (omega arith))
            λ env.
              keep_step limit p StepName.publish 1 _ _ (omega arith) (omega arith)
                (publish_to_wordpress-Quiet run_id run target env))

    -- Publishing makes one request at most.
    pub keep_publish :
        (run_id : String) (run : RunLoad)
        → Bounded limit 1 (102 + 60 * limit) (104 + 60 * limit) (publish p run_id run)
    unfolding publish resolve_target
    keep_publish run_id run =
        then_step limit p StepName.resolve_publish_target 0 1 _ _ (omega arith) (omega arith)
          (search quiet_rules)
          λ target.
            weaken limit 1 (103 + 60 * limit) _ _ _ (omega arith) (omega arith)
              (keep_publish_to run_id run target)
