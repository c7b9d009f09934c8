-- ===== src/Gates/Decide.antt =====
-- POST /:id/hitl-2 of deploy/cloudflare-workers/src/routes/runs.ts: the decision at the second gate.
pub mod Claims
pub mod Agreement
pub mod Invariants
mod Tests
use ai_content_workflow.Prelude.{
  ℕ, ◌+◌, String, Bool, true, false, not, ◌&&◌, ◌||◌, Option, none, some, List, [], ◌∷◌,
  if◌then◌else◌, get_or_else, or_else, is_none, map_some, ◌<>◌, leb, ltb, ◌==◌, keep, length,
}
use ai_content_workflow.Json.{Json, null, num, str, arr, nil, cons, Items}
use ai_content_workflow.Run.{
  RunRow, Hitl2Decision, Hitl2Payload, waits_at_hitl_2, is_approve, is_request_changes,
}
use ai_content_workflow.Publish.Failure.{Failure, Result, ok, err}
use ai_content_workflow.Publish.Pin.{ResolvedPublishTarget}
use ai_content_workflow.Pipeline.World.{World, RenderRow, update_run}
use ai_content_workflow.Pipeline.Platform.{Platform}
use ai_content_workflow.Pipeline.Drafts.{latest_draft, find_render}
use ai_content_workflow.Pipeline.Main.{RescueGate, at_hitl_2}
use ai_content_workflow.Gates.Actor.{SessionIdentity, resolve_actor_identity}
use ai_content_workflow.Gates.Instances.{
  Instances, Response, accepted, rescued, refused, rescue_run_here,
}
use ai_content_workflow.Gates.Resume.{missing_instance}
use ai_content_workflow.Gates.Confirm.{
  Hitl2Body, Confirmation, confirmed, invalid_publish, target_mismatch, confirm,
}

abbrev pub max_iterations : ℕ
max_iterations = 3

abbrev pub hitl2_decision : Hitl2Body → Hitl2Decision
hitl2_decision body = get_or_else body.decision Hitl2Decision.approve

number_items : List ℕ → Json
number_items ns = arr (go ns)
  where
    go : List ℕ → Items
    go [] = nil
    go (n ∷ ns) = cons (num n) (go ns)

text_items : List String → Json
text_items ts = arr (go ts)
  where
    go : List String → Items
    go [] = nil
    go (t ∷ ts) = cons (str t) (go ts)

-- `x == null ? null : toJsonb(sql, x)`
or_null : {A : Type 0} → (A → Json) → Option A → Json
or_null f none = null
or_null f (some a) = f a

-- The columns that the conditional UPDATE writes.
unfoldable pub claim_hitl2 : ℕ → String → Hitl2Body → Option ResolvedPublishTarget → RunRow → RunRow
unfolding or_null number_items text_items
claim_hitl2 now editor_email body pin r = record r {
  hitl_2_decision = some (hitl2_decision body);
  hitl_2_notes = body.notes;
  hitl_2_comments = get_or_else body.comments (arr nil);
  hitl_2_iteration =
      if is_request_changes (hitl2_decision body)
      then r.hitl_2_iteration + 1
      else r.hitl_2_iteration;
  approved_at = if is_approve (hitl2_decision body) then some now else none;
  approved_by = if is_approve (hitl2_decision body) then some editor_email else none;
  wp_publish_status = body.wp_publish_status;
  wp_author_id = body.wp_author_id;
  wp_category_ids = or_null number_items body.wp_category_ids;
  wp_tag_ids = or_null number_items body.wp_tag_ids;
  wp_featured_media_id = body.wp_featured_media_id;
  wp_slug = body.wp_slug;
  wp_excerpt = body.wp_excerpt;
  wp_publish_at = body.wp_publish_at;
  ghost_author_ids = or_null text_items body.ghost_author_ids;
  ghost_tags = or_null text_items body.ghost_tags;
  feature_image_url = body.feature_image_url;
  approved_target_kind = map_some (λ (t : ResolvedPublishTarget). t.kind) pin;
  approved_post_id = elim pin [ none ↦ none | some t ↦ t.post_id ];
  approved_target_label = map_some (λ (t : ResolvedPublishTarget). t.label) pin;
}

-- The conditions of the UPDATE: the run waits at the gate, and changes are asked for below the cap.
unfoldable pub may_claim : Hitl2Decision → RunRow → Bool
may_claim decision r =
    waits_at_hitl_2 r.status
    && (not (is_request_changes decision) || ltb r.hitl_2_iteration max_iterations)

edit_render : Hitl2Body → ℕ → List RenderRow → List RenderRow
edit_render body id [] = []
edit_render body id (r ∷ rs) =
    let rest = edit_render body id rs in
    if r.draft_id == id
    then record r {
      html_body = get_or_else body.edited_html_body r.html_body;
      seo_title = get_or_else body.edited_seo_title r.seo_title;
      meta_description = get_or_else body.edited_meta_description r.meta_description;
    }
      ∷ rs
    else r ∷ rest

-- The inline edits of an approval go to the render of the rendered draft with the highest iteration.
pub save_edits : Hitl2Body → World → World
unfolding edit_render latest_draft find_render
save_edits body w =
    elim (latest_draft (keep (λ d. not (is_none (find_render d.draft_id w.renders))) w.drafts)) [
      | none ↦ w
      | some d ↦ record w { renders = edit_render body d.draft_id w.renders }
    ]

pub data Guard : Type 0 where
  claimed : ℕ → Guard
  not_claimed : ℕ → String → Guard
  -- The handler throws.
  failed : Failure → Guard

abbrev pub mismatch_detail : ResolvedPublishTarget → String
mismatch_detail expected =
    "publish target changed since the preview — re-run the publish preview and approve again (current target: "
    <> expected.kind
    <> " post "
    <> get_or_else expected.post_id "<new>"
    <> " on "
    <> expected.label
    <> ")"

module _ (p : Platform) where
  -- The pin of this decision, or why it is refused before the claim.
  unfoldable pub check_approval : Hitl2Body → RunRow → World → Result Confirmation
  unfolding confirm
  check_approval body row w =
      if is_approve (hitl2_decision body) && waits_at_hitl_2 row.status
      then confirm p (length w.labels) body row w
      else ok (confirmed none)

  pub claim : String → Hitl2Body → RunRow → Option ResolvedPublishTarget → World → Guard × World
  unfolding claim_hitl2 may_claim save_edits
  claim editor_email body row pin w =
      let stored = update_run (claim_hitl2 (p.now (length w.labels)) editor_email body pin) w in
      let edited = if is_approve (hitl2_decision body) then save_edits body stored else stored in
      if may_claim (hitl2_decision body) row
      then (claimed row.hitl_2_iteration, edited)
      else if is_request_changes (hitl2_decision body)
          && waits_at_hitl_2 row.status
          && leb max_iterations row.hitl_2_iteration
      then (not_claimed 409 "request_changes cap reached", w)
      else (not_claimed 409 "run is not awaiting a HITL_2 decision", w)

  pub guard_row : String → Hitl2Body → RunRow → World → Guard × World
  unfolding check_approval claim
  guard_row editor_email body row w = elim (check_approval body row w) [
    | err e ↦ (failed e, w)
    | ok (invalid_publish detail) ↦ (not_claimed 422 detail, w)
    | ok (target_mismatch expected) ↦ (not_claimed 409 (mismatch_detail expected), w)
    | ok (confirmed pin) ↦ claim editor_email body row pin w
  ]

  unfoldable pub hitl2_guard : String → Hitl2Body → World → Guard × World
  unfolding guard_row
  hitl2_guard editor_email body w = elim w.run [
    | none ↦ (not_claimed 404 "run not found", w)
    | some row ↦ guard_row editor_email body row w
  ]

-- The claim undone: the columns of the decision, and the counter as it was.
void_hitl2 : ℕ → RunRow → RunRow
void_hitl2 prior r = record r {
  hitl_2_decision = none;
  hitl_2_notes = none;
  hitl_2_iteration = prior;
  approved_at = none;
  approved_by = none;
  approved_target_kind = none;
  approved_post_id = none;
  approved_target_label = none;
}

-- What the event carries of the decision for the rounds of the workflow.
abbrev pub hitl2_payload : Hitl2Body → Hitl2Payload
hitl2_payload body = record {
  decision = hitl2_decision body;
  notes = body.notes;
  comments = some (get_or_else body.comments (arr nil));
}

deliver_hitl2 : Instances → String → Hitl2Body → ℕ → World → Result Response × World
unfolding rescue_run_here void_hitl2
deliver_hitl2 env run_id body prior w = elim (env.send_hitl2 run_id (hitl2_payload body)) [
  | ok done ↦ (ok accepted, w)
  | err e ↦
      if rescue_run_here env run_id (at_hitl_2 (hitl2_payload body) prior)
      then (ok rescued, w)
      else (ok (refused 409 (missing_instance e.message)), update_run (void_hitl2 prior) w)
]

answer : Instances → String → Hitl2Body → Guard × World → Result Response × World
unfolding deliver_hitl2
answer env run_id body (claimed prior, w) = deliver_hitl2 env run_id body prior w
answer env run_id body (not_claimed status detail, w) = (ok (refused status detail), w)
answer env run_id body (failed e, w) = (err e, w)

unfoldable pub decide :
    Platform → Instances → String → SessionIdentity → Hitl2Body → World → Result Response × World
unfolding hitl2_guard answer resolve_actor_identity
decide p env run_id session body w =
    answer env run_id body (hitl2_guard p (resolve_actor_identity session body.editor_email) body w)
