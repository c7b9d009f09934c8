-- ===== src/Gates/Restart/Tests.antt =====
-- The theorems on restarts at a run that failed on a mismatch of its target.
use ai_content_workflow.Prelude.{◌≡◌, ◌⊎◌, refl, none, some, [], true, false}
use ai_content_workflow.Run.{RunRow, Status, StartMode, is_failed}
use ai_content_workflow.Publish.Failure.{Failure, ok}
use ai_content_workflow.Publish.Pin.{
  ResolvedPublishTarget, pin_mismatch_message, pinned_target_matches,
}
use ai_content_workflow.Pipeline.Publishing.{pin_of, assert_pinned_target}
use ai_content_workflow.Pipeline.Flow.{◌>>=◌}
use ai_content_workflow.Pipeline.World.{World}
use ai_content_workflow.Pipeline.Main.Examples.{demo_row, demo_world}
use ai_content_workflow.Gates.Instances.{Instances, refused}
use ai_content_workflow.Gates.Restart.{restart}
use ai_content_workflow.Gates.Restart.Recovery.{
  current_gate, restart-assert_pinned_target, restart_lem, Leaves,
}

-- The approval names a new post of WordPress without a label.
abbrev other_post : ResolvedPublishTarget
other_post = record { kind = "wordpress"; post_id = some "8"; label = "blog" }

abbrev mismatch : Failure
mismatch = record {
  name = "NonRetryableError";
  message = pin_mismatch_message (pin_of (demo_row StartMode.refresh)) other_post;
}

abbrev failed_row : RunRow
failed_row = record (demo_row StartMode.refresh) {
  status = Status.failed;
  error = some mismatch;
  hitl_2_iteration = 1;
}

abbrev failed_world : World
failed_world = record (demo_world StartMode.refresh []) { run = some failed_row }

abbrev instances : Instances
instances = record {
  send_hitl1 = λ id e. ok tt;
  send_hitl2 = λ id e. ok tt;
  create = λ id gate. ok tt;
  restart = λ id from. ok tt;
}

restart-assert_pinned_target_example :
    restart instances "r1" none failed_world
    ≡ restart instances "r1" (some (current_gate failed_row)) failed_world
unfolding assert_pinned_target pinned_target_matches ◌>>=◌
restart-assert_pinned_target_example =
    restart-assert_pinned_target instances "r1" (demo_row StartMode.refresh) failed_row other_post
      (demo_world StartMode.refresh []) failed_world mismatch refl refl refl refl

restart_lem_example :
    ((is_failed Status.failed ≡ false)
      × (restart instances "r1" none failed_world
          ≡ (refused 409 "only failed runs can be restarted", failed_world)))
    ⊎ ((is_failed Status.failed ≡ true)
        × Leaves instances "r1" failed_row (restart instances "r1" none failed_world))
restart_lem_example = restart_lem instances "r1" none failed_row failed_world refl
