-- ===== src/Gates/Decide/Invariants.antt =====
-- What every decision at the second gate keeps (POST /:id/hitl-2 of
-- deploy/cloudflare-workers/src/routes/runs.ts): the cap on revisions, the status, the author.
use ai_content_workflow.Prelude.{
  ℕ, ◌+◌, ◌<◌, ◌≡◌, refl, sym, ap, subst, String, true, false, Option, none, some, if◌then◌else◌,
  inl, inr, ◌⊎◌, Bool-cases, length, arith, map_some,
}
use ai_content_workflow.Run.{RunRow, Hitl2Decision, waits_at_hitl_2, is_approve}
use ai_content_workflow.Publish.Failure.{Result, ok, err}
use ai_content_workflow.Publish.Pin.{ResolvedPublishTarget}
use ai_content_workflow.Pipeline.World.{World, update_run}
use ai_content_workflow.Pipeline.Platform.{Platform}
use ai_content_workflow.Gates.Actor.{SessionIdentity, resolve_actor_identity, non_empty}
use ai_content_workflow.Gates.Instances.{
  Instances, Response, accepted, rescued, refused, rescue_run_here,
}
use ai_content_workflow.Gates.Confirm.{
  Hitl2Body, Confirmation, confirmed, invalid_publish, target_mismatch,
}
use ai_content_workflow.Gates.Decide.{
  max_iterations, hitl2_payload, hitl2_decision, claim_hitl2, may_claim, save_edits, Guard, claimed,
  not_claimed, failed, mismatch_detail, check_approval, claim, guard_row, hitl2_guard, void_hitl2,
  deliver_hitl2, answer, decide,
}
use ai_content_workflow.Pipeline.Main.{at_hitl_2}
use ai_content_workflow.Gates.Resume.{missing_instance}
use ai_content_workflow.Gates.Decide.Claims.{claimed_row, claimed_lem, save_edits-run}

abbrev Unclaimed : Guard → Type 0
Unclaimed (claimed n) = ⊥
Unclaimed (not_claimed n d) = Unit
Unclaimed (failed e) = Unit

module _ (p : Platform) (editor_email : String) (body : Hitl2Body) (row : RunRow) where
  -- The row is as it was, or it is claimed.
  Guarded : World → Guard × World → Type 0
  Guarded w g =
      (Unclaimed g.0 × (g.1.run ≡ some row))
      ⊎ ((pin : Option ResolvedPublishTarget) × (may_claim (hitl2_decision body) row ≡ true)
          × (g.0 ≡ claimed row.hitl_2_iteration)
          × (g.1.run ≡ some (claimed_row p editor_email body row pin w)))

  claim-Guarded :
      (pin : Option ResolvedPublishTarget) (w : World)
      → w.run ≡ some row
      → Guarded w (claim p editor_email body row pin w)
  unfolding claim Guarded
  claim-Guarded pin w found = elim (Bool-cases (may_claim (hitl2_decision body) row)) [
    | inl may ↦ inr (pin, may, rw may refl, ground (arith, edits))
    | inr refusal ↦ inl (ground (arith, refusal, found), ground (arith, refusal, found))
  ]
    where
      edits :
          (save_edits body
            (update_run (claim_hitl2 (p.now (length w.labels)) editor_email body pin) w)).run
          ≡ map_some (claim_hitl2 (p.now (length w.labels)) editor_email body pin) w.run
      edits = save_edits-run body _

  guard_row-Guarded :
      (w : World) → w.run ≡ some row → Guarded w (guard_row p editor_email body row w)
  unfolding guard_row Guarded
  guard_row-Guarded w found = by_check (check_approval p body row w)
    where
      by_check :
          (c : Result Confirmation)
          → Guarded w (elim c [
            | err e ↦ (failed e, w)
            | ok (invalid_publish detail) ↦ (not_claimed 422 detail, w)
            | ok (target_mismatch expected) ↦ (not_claimed 409 (mismatch_detail expected), w)
            | ok (confirmed pin) ↦ claim p editor_email body row pin w
          ])
      by_check (err x) = inl (tt, found)
      by_check (ok (invalid_publish d)) = inl (tt, found)
      by_check (ok (target_mismatch t)) = inl (tt, found)
      by_check (ok (confirmed pin)) = claim-Guarded pin w found

  hitl2_guard-Guarded :
      (w : World) → w.run ≡ some row → Guarded w (hitl2_guard p editor_email body w)
  unfolding hitl2_guard
  hitl2_guard-Guarded w found =
      subst
        (λ o. Guarded w (elim o [
          | none ↦ (not_claimed 404 "run not found", w)
          | some r ↦ guard_row p editor_email body r w
        ]))
        (sym found) (guard_row-Guarded w found)

-- The decision reached the workflow.
Delivered : Result Response → Type 0
Delivered (ok accepted) = Unit
Delivered (ok rescued) = Unit
Delivered (ok (refused status detail)) = ⊥
Delivered (err e) = ⊥

-- The counter of revisions after a decision: it stays, or a delivered request for changes below the
-- cap has raised it by one.
pub Counted : Hitl2Decision → ℕ → ℕ → Result Response → Type 0
Counted decision before after answered =
    (after ≡ before)
    ⊎ ((decision ≡ Hitl2Decision.request_changes)
        × (before < max_iterations)
        × (after ≡ before + 1)
        × Delivered answered)

module _ (p : Platform) (env : Instances) (run_id editor_email : String) (body : Hitl2Body)
    (row : RunRow) where
  Kept : Result Response × World → Type 0
  Kept out =
      (r : RunRow) × (out.1.run ≡ some r)
      × (r.status ≡ row.status)
      × Counted (hitl2_decision body) row.hitl_2_iteration r.hitl_2_iteration out.0

  deliver_hitl2-Kept :
      (pin : Option ResolvedPublishTarget) (w v : World)
      → may_claim (hitl2_decision body) row ≡ true
      → v.run ≡ some (claimed_row p editor_email body row pin w)
      → Kept (deliver_hitl2 env run_id body row.hitl_2_iteration v)
  unfolding deliver_hitl2 Kept Counted Delivered claim_hitl2 may_claim void_hitl2
  deliver_hitl2-Kept pin w v may e = sent (env.send_hitl2 run_id (hitl2_payload body))
    where
      counted :
          (answered : Result Response)
          → Delivered answered
          → Counted
              (hitl2_decision body)
              row.hitl_2_iteration
              (claimed_row p editor_email body row pin w).hitl_2_iteration
              answered
      counted answered d = ground arith

      sent :
          (x : Result (Unit {0}))
          → Kept (elim x [
            | ok done ↦ (ok accepted, v)
            | err e ↦
                if rescue_run_here env run_id (at_hitl_2 (hitl2_payload body) row.hitl_2_iteration)
                then (ok rescued, v)
                else (
                  ok (refused 409 (missing_instance e.message)),
                  update_run (void_hitl2 row.hitl_2_iteration) v,
                )
          ])
      sent (ok x) = (claimed_row p editor_email body row pin w, e, refl, counted (ok accepted) tt)
      sent (err x) =
          elim (Bool-cases
            (rescue_run_here env run_id (at_hitl_2 (hitl2_payload body) row.hitl_2_iteration))) [
              | inl yes_here ↦
                  rw yes_here
                    (claimed_row p editor_email body row pin w, e, refl, counted (ok rescued) tt)
              | inr not_here ↦ rw not_here (
                void_hitl2 row.hitl_2_iteration (claimed_row p editor_email body row pin w),
                ap (map_some (void_hitl2 row.hitl_2_iteration)) e,
                refl,
                inl refl,
              )
            ]

  answer-Kept :
      (w : World) (g : Guard × World)
      → Guarded p editor_email body row w g
      → Kept (answer env run_id body g)
  unfolding answer Kept Counted Guarded
  answer-Kept w (claimed n, v) (inl h) = absurd h.0
  answer-Kept w (claimed n, v) (inr (pin, may, same, h)) =
      subst (λ k. Kept (deliver_hitl2 env run_id body k v)) (sym (claimed_same same))
        (deliver_hitl2-Kept pin w v may h)
    where
      claimed_same : claimed n ≡ claimed row.hitl_2_iteration → n ≡ row.hitl_2_iteration
      claimed_same e = cc
  answer-Kept w (not_claimed status detail, v) (inl h) = (row, h.1, refl, inl refl)
  answer-Kept w (not_claimed status detail, v) (inr (pin, may, same, h)) = absurd (cc)
  answer-Kept w (failed e, v) (inl h) = (row, h.1, refl, inl refl)
  answer-Kept w (failed e, v) (inr (pin, may, same, h)) = absurd (cc)

-- Whatever is decided and whatever the platform answers, the run keeps its status, and the counter of
-- revisions stays, or is raised by one for a request for changes that was delivered, never above the
-- cap. In particular a decision that is refused, or that could not be delivered, leaves the counter.
pub decide-Kept :
    (p : Platform) (env : Instances) (run_id : String) (session : SessionIdentity)
    (body : Hitl2Body) (row : RunRow) (w : World)
    → w.run ≡ some row
    → let out = decide p env run_id session body w in
      (r : RunRow) × (out.1.run ≡ some r)
      × (r.status ≡ row.status)
      × Counted (hitl2_decision body) row.hitl_2_iteration r.hitl_2_iteration out.0
unfolding decide Kept
decide-Kept p env run_id session body row w found =
    answer-Kept p env run_id (resolve_actor_identity session body.editor_email) body row w _
      (hitl2_guard-Guarded p (resolve_actor_identity session body.editor_email) body row w found)

claim_hitl2-status :
    (now : ℕ) (email : String) (body : Hitl2Body) (pin : Option ResolvedPublishTarget) (r : RunRow)
    → (claim_hitl2 now email body pin r).status ≡ r.status
unfolding claim_hitl2
claim_hitl2-status now email body pin r = refl

-- A claimed decision does not close the gate: a second decision, such as a rejection after an
-- approval, is claimed too.
pub hitl2_guard-open :
    (p : Platform) (email second_email : String) (body second : Hitl2Body) (row : RunRow)
    (w w' : World) (prior : ℕ)
    → w.run ≡ some row
    → hitl2_guard p email body w ≡ (claimed prior, w')
    → hitl2_decision second ≡ Hitl2Decision.reject
    → (n : ℕ) × ((hitl2_guard p second_email second w').0 ≡ claimed n)
unfolding may_claim hitl2_guard guard_row claim check_approval
hitl2_guard-open p email second_email body second row w w' prior found e rejects =
    let c = claimed_lem p email body row w w' prior found e in
    let g = hitl2_guard-Guarded p second_email second (claimed_row p email body row c.0 w) w' c.4 in
    reject_claims (claimed_row p email body row c.0 w) c.4
      (claim_hitl2-status (p.now (length w.labels)) email body c.0 row) (waits c.2)
  where
    waits : may_claim (hitl2_decision body) row ≡ true → waits_at_hitl_2 row.status ≡ true
    waits h = ground arith

    reject_claims :
        (r : RunRow)
        → w'.run ≡ some r
        → r.status ≡ row.status
        → waits_at_hitl_2 row.status ≡ true
        → (n : ℕ) × ((hitl2_guard p second_email second w').0 ≡ claimed n)
    reject_claims r again same wait = (r.hitl_2_iteration, ground arith)

-- The approver on record is the email of the session, whatever editor the client names; every other
-- decision leaves no approver and no time of approval.
pub hitl2_guard-approved_by :
    (p : Platform) (session : SessionIdentity) (email : String) (body : Hitl2Body) (row : RunRow)
    (w w' : World) (prior : ℕ)
    → non_empty session.user_email ≡ some email
    → w.run ≡ some row
    → hitl2_guard p (resolve_actor_identity session body.editor_email) body w ≡ (claimed prior, w')
    → (r : RunRow) × (w'.run ≡ some r)
      × (hitl2_decision body ≡ Hitl2Decision.approve → r.approved_by ≡ some email)
      × (is_approve (hitl2_decision body) ≡ false → (r.approved_by ≡ none) × (r.approved_at ≡ none))
unfolding resolve_actor_identity claim_hitl2
hitl2_guard-approved_by p session email body row w w' prior known found e =
    let c =
      claimed_lem p (resolve_actor_identity session body.editor_email) body row w w' prior found
        e in
    (
      claimed_row p (resolve_actor_identity session body.editor_email) body row c.0 w,
      c.4,
      (λ approves. ground arith),
      (λ other. rw other (refl, refl)),
    )
