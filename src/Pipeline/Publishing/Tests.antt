-- ===== src/Pipeline/Publishing/Tests.antt =====
-- The theorems on the approved target at a refresh of post 7.
use ai_content_workflow.Prelude.{◌≡◌, ◌⊎◌, refl, none, [], ◌∷◌, true, contains}
use ai_content_workflow.Run.{StartMode}
use ai_content_workflow.Publish.Failure.{Failure}
use ai_content_workflow.Publish.Pin.{ResolvedPublishTarget, mismatch_mark}
use ai_content_workflow.Pipeline.Flow.{done, threw}
use ai_content_workflow.Pipeline.Strategy.{RunLoad}
use ai_content_workflow.Pipeline.Publishing.{publish, assert_pinned_target}
use ai_content_workflow.Pipeline.Publishing.Pinning.{
  PinnedBy, publish-PinnedBy, Voided, Names, assert_pinned_target_lem,
}
use ai_content_workflow.Pipeline.Main.Examples.{demo_platform, posted, demo_row, demo_world}

abbrev refreshed : RunLoad
refreshed = record { row = demo_row StartMode.refresh; keyword_list = "k" ∷ [] }

publish-PinnedBy_example :
    PinnedBy
      (demo_row StartMode.refresh)
      (demo_world StartMode.refresh [])
      (publish (demo_platform 0 posted) "r1" refreshed (demo_world StartMode.refresh [])).1
publish-PinnedBy_example =
    publish-PinnedBy (demo_platform 0 posted) "r1" refreshed (demo_row StartMode.refresh)
      (demo_world StartMode.refresh []) refl refl

abbrev new_post : ResolvedPublishTarget
new_post = record { kind = "wordpress"; post_id = none; label = "" }

assert_pinned_target_lem_example :
    (Names (demo_row StartMode.refresh) new_post
      × (assert_pinned_target
            (demo_row StartMode.refresh)
            new_post
            (demo_world StartMode.refresh [])
          ≡ (done tt, demo_world StartMode.refresh [])))
    ⊎ ((Names (demo_row StartMode.refresh) new_post → ⊥)
        × ((e : Failure) × ((assert_pinned_target
                (demo_row StartMode.refresh)
                new_post
                (demo_world StartMode.refresh [])).0
              ≡ threw e)
            × (e.name ≡ "NonRetryableError")
            × (contains e.message mismatch_mark ≡ true)
            × Voided
                (assert_pinned_target
                  (demo_row StartMode.refresh)
                  new_post
                  (demo_world StartMode.refresh [])).1.run))
assert_pinned_target_lem_example =
    assert_pinned_target_lem (demo_row StartMode.refresh) new_post (demo_world StartMode.refresh [])
