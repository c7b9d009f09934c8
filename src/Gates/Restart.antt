-- ===== src/Gates/Restart.antt =====
-- POST /:id/restart of deploy/cloudflare-workers/src/routes/runs.ts, and routes/run_guards.ts.
pub mod Recovery
mod Tests
use ai_content_workflow.Prelude.{
  ℕ, String, Bool, true, false, ◌&&◌, Option, none, some, if◌then◌else◌, is_none, map_some, ◌<>◌,
  contains, to_decimal,
}
use ai_content_workflow.Run.{RunRow, Status, is_failed}
use ai_content_workflow.Publish.Failure.{Failure, Result, ok, err}
use ai_content_workflow.Pipeline.World.{World, update_run}
use ai_content_workflow.Gates.Instances.{
  Instances, RestartFrom, Response, accepted, rescued, refused,
}

pub data RestartGuard : Type 0 where
  ok_to_restart not_found not_failed : RestartGuard

-- Only a failed run may be restarted.
unfoldable pub restart_guard : Option RunRow → RestartGuard
restart_guard none = not_found
restart_guard (some r) = if is_failed r.status then ok_to_restart else not_failed

-- `SET status = 'pending', error = NULL`
claim_restart : RunRow → RunRow
claim_restart r = record r { status = Status.pending; error = none }

hand_back : String → RunRow → RunRow
hand_back message r = record r {
  status = Status.failed;
  error = some (record { name = "restart_error"; message = message });
}

-- The text that the route looks for, which is written out here a second time.
abbrev pub restart_mark : String
restart_mark = "publish target mismatch"

-- A failure by a mismatch of the target restarts from the gate of the round.
unfoldable pub restart_step : Option RestartFrom → RunRow → Option RestartFrom
unfolding contains to_decimal
restart_step (some from) r = some from
restart_step none r = elim r.error [
  | none ↦ none
  | some e ↦
      if contains e.message restart_mark
      then some (record { name = "gate-hitl2-" <> to_decimal r.hitl_2_iteration; count = none })
      else none
]

start_over : Instances → String → Failure → World → Response × World
unfolding hand_back
start_over env run_id e w = elim (env.create run_id none) [
  | ok done ↦ (rescued, w)
  | err e' ↦ (
    refused 502 ("failed to restart workflow: " <> e.message),
    update_run (hand_back e.message) w,
  )
]

-- The instance restarts, or without a step to restart from a new one is made, or the run is failed again.
do_restart : Instances → String → Option RestartFrom → World → Response × World
unfolding start_over hand_back
do_restart env run_id from w = elim (env.restart run_id from) [
  | ok done ↦ (accepted, w)
  | err e ↦ elim from [
    | none ↦ start_over env run_id e w
    | some step ↦ (
      refused 502 ("failed to restart workflow: " <> e.message),
      update_run (hand_back e.message) w,
    )
  ]
]

unfoldable pub restart : Instances → String → Option RestartFrom → World → Response × World
unfolding restart_guard claim_restart do_restart restart_step
restart env run_id from w = elim w.run [
  | none ↦ (refused 404 "run not found", w)
  | some r ↦ elim (restart_guard (some r)) [
    | ok_to_restart ↦ do_restart env run_id (restart_step from r) (update_run claim_restart w)
    | _ ↦ (refused 409 "only failed runs can be restarted", w)
  ]
]
