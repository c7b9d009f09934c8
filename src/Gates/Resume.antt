-- ===== src/Gates/Resume.antt =====
-- POST /:id/resume of deploy/cloudflare-workers/src/routes/runs.ts: the decision at the outline gate.
use ai_content_workflow.Prelude.{
  String, true, Option, none, some, str_eq, if◌then◌else◌, get_or_else, map_some, ◌<>◌,
}
use ai_content_workflow.Json.{Json, null}
use ai_content_workflow.Run.{RunRow, Hitl1Decision, Hitl1Payload, waits_at_hitl_1}
use ai_content_workflow.Publish.Failure.{ok, err}
use ai_content_workflow.Pipeline.World.{World, OutlineRow, update_run}
use ai_content_workflow.Pipeline.Main.{at_hitl_1}
use ai_content_workflow.Gates.Instances.{
  Instances, Response, accepted, rescued, refused, rescue_run_here,
}

pub record ResumeBody : Type 0 where
  pub decision : Option Hitl1Decision
  pub edited_outline : Option Json
  pub new_route : Option String
  pub notes : Option String

abbrev pub missing_instance : String → String
missing_instance message =
    "workflow instance for this run was not found on this deployment — the run was started on a different backend deployment (workflow state is account-local); retry from the site where the run was started, or restart the run here ("
    <> message <> ")"

abbrev pub resume_decision : ResumeBody → Hitl1Decision
resume_decision body = get_or_else body.decision Hitl1Decision.approve

-- `edited_outline ?? null`
abbrev non_null : Option Json → Option Json
non_null none = none
non_null (some null) = none
non_null (some v) = some v

abbrev pub hitl1_payload : ResumeBody → Hitl1Payload
hitl1_payload body = record {
  decision = resume_decision body;
  notes = body.notes;
  edited_outline = non_null body.edited_outline;
  new_route = body.new_route;
}

record_decision : ResumeBody → RunRow → RunRow
record_decision body r = record r {
  hitl_1_decision = some (resume_decision body);
  hitl_1_notes = body.notes;
}

-- The human edits of the outline, once the gate is claimed.
save_human_edits : ResumeBody → World → World
save_human_edits body w = elim body.edited_outline [
  | none ↦ w
  | some edited ↦ record w {
    outline =
        map_some {A = OutlineRow}
          (λ o. record o { edited_by_human = true; human_edits = some edited }) w.outline;
  }
]

save_route : ResumeBody → World → World
save_route body w = elim body.new_route [
  | none ↦ w
  | some route ↦
      if str_eq route "" then w else update_run (λ r. record r { chosen_route = some route }) w
]

resume_edits : ResumeBody → World → World
unfolding save_human_edits save_route
resume_edits body w = elim (resume_decision body) [
  | Hitl1Decision.edit_outline ↦ save_human_edits body w
  | Hitl1Decision.override_route ↦ save_route body w
  | _ ↦ w
]

-- The claim of the gate undone.
void_hitl1 : RunRow → RunRow
void_hitl1 r = record r { hitl_1_decision = none; hitl_1_notes = none }

-- What follows a claim: the event is sent, or the run is adopted, or the claim is undone.
deliver_hitl1 : Instances → String → ResumeBody → World → Response × World
unfolding rescue_run_here void_hitl1
deliver_hitl1 env run_id body w = elim (env.send_hitl1 run_id (hitl1_payload body)) [
  | ok done ↦ (accepted, w)
  | err e ↦
      if rescue_run_here env run_id (at_hitl_1 (hitl1_payload body))
      then (rescued, w)
      else (refused 409 (missing_instance e.message), update_run void_hitl1 w)
]

claim_hitl1 : Instances → String → ResumeBody → RunRow → World → Response × World
unfolding record_decision resume_edits deliver_hitl1
claim_hitl1 env run_id body row w =
    let claimed = resume_edits body (update_run (record_decision body) w) in
    if waits_at_hitl_1 row.status
    then deliver_hitl1 env run_id body claimed
    else (refused 409 "run is not awaiting a HITL_1 decision", w)

unfoldable pub resume : Instances → String → ResumeBody → World → Response × World
unfolding claim_hitl1
resume env run_id body w = elim w.run [
  | none ↦ (refused 404 "run not found", w)
  | some row ↦ claim_hitl1 env run_id body row w
]
