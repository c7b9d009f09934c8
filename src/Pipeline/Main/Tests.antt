-- ===== src/Pipeline/Main/Tests.antt =====
-- The theorems on whole runs at concrete runs.
use ai_content_workflow.Prelude.{none, some, [], ◌∷◌, ◌≢◌, ◌≤◌, ◌+◌, refl, length, Distinct}
use ai_content_workflow.Run.{StartMode, Hitl2Decision}
use ai_content_workflow.Publish.Failure.{Failure}
use ai_content_workflow.Pipeline.World.{World}
use ai_content_workflow.Pipeline.Flow.{out_of_fuel}
use ai_content_workflow.Pipeline.Outcomes.{Settled}
use ai_content_workflow.Pipeline.Main.{run, at_hitl_2}
use ai_content_workflow.Pipeline.Main.Runs.{run-Distinct, run-cms, run-Ends, run-Settled}
use ai_content_workflow.Pipeline.Main.Examples.{demo_platform, posted, demo_world, decide, refused}
use ai_content_workflow.Publish.Failure.{err}

-- The reviewer asks for changes, then approves.
abbrev revised : World
revised =
    demo_world StartMode.refresh
      (decide Hitl2Decision.request_changes ∷ decide Hitl2Decision.approve ∷ [])

run-Distinct_example : Distinct (run (demo_platform 22 posted) "r1" none revised).1.labels
run-Distinct_example = run-Distinct (demo_platform 22 posted) "r1" none revised refl

run-cms_example : length (run (demo_platform 22 (err refused)) "r1" none revised).1.cms ≤ 0 + 1
run-cms_example = run-cms (demo_platform 22 (err refused)) "r1" none revised refl

run-Ends_example :
    (run
      (demo_platform 1000 posted)
      "r1"
      (some (at_hitl_2 (decide Hitl2Decision.request_changes) 2))
      revised).0
    ≢ out_of_fuel
run-Ends_example =
    run-Ends (demo_platform 1000 posted) "r1"
      (some (at_hitl_2 (decide Hitl2Decision.request_changes) 2)) revised refl

run-Settled_example : Settled revised (run (demo_platform 22 posted) "r1" none revised)
run-Settled_example = run-Settled (demo_platform 22 posted) "r1" none revised

-- A run whose row is gone.
abbrev lost : World
lost = record (demo_world StartMode.create []) { run = none }

abbrev not_found : Failure
not_found = record { name = "Error"; message = "run not found: r1" }
