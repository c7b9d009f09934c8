-- ===== src/Gates/Decide/Claims.antt =====
-- What a claimed decision at the second gate has written (POST /:id/hitl-2 of
-- deploy/cloudflare-workers/src/routes/runs.ts), and what a refused one leaves.
use ai_content_workflow.Prelude.{
  ℕ, ◌≡◌, refl, sym, ap, ◌∙◌, subst, String, true, Option, none, some, length, arith,
}
use ai_content_workflow.Run.{RunRow}
use ai_content_workflow.Publish.Failure.{Result, ok, err}
use ai_content_workflow.Publish.Pin.{ResolvedPublishTarget}
use ai_content_workflow.Pipeline.World.{World, update_run}
use ai_content_workflow.Pipeline.Platform.{Platform}
use ai_content_workflow.Gates.Confirm.{
  Hitl2Body, Confirmation, confirmed, invalid_publish, target_mismatch,
}
use ai_content_workflow.Gates.Decide.{
  hitl2_decision, claim_hitl2, may_claim, save_edits, claimed, not_claimed, failed, mismatch_detail,
  check_approval, claim, guard_row, hitl2_guard,
}

pub save_edits-run : (body : Hitl2Body) (w : World) → (save_edits body w).run ≡ w.run
unfolding save_edits
save_edits-run body w = ground arith

module _ (p : Platform) (editor_email : String) (body : Hitl2Body) (row : RunRow) where
  -- The row after a claim.
  abbrev pub claimed_row : Option ResolvedPublishTarget → World → RunRow
  claimed_row pin w = claim_hitl2 (p.now (length w.labels)) editor_email body pin row

  pub claim_lem :
      (pin : Option ResolvedPublishTarget) (w w' : World) (prior : ℕ)
      → w.run ≡ some row
      → claim p editor_email body row pin w ≡ (claimed prior, w')
      → (may_claim (hitl2_decision body) row ≡ true)
        × (prior ≡ row.hitl_2_iteration)
        × (w'.run ≡ some (claimed_row pin w))
  unfolding claim
  claim_lem pin w w' prior found e = ground (
    arith,
    save_edits-run body
        (update_run (claim_hitl2 (p.now (length w.labels)) editor_email body pin) w),
  )

  -- A claim comes from a check that passed, and the row is written with its pin.
  pub claimed_lem :
      (w w' : World) (prior : ℕ)
      → w.run ≡ some row
      → hitl2_guard p editor_email body w ≡ (claimed prior, w')
      → (pin : Option ResolvedPublishTarget) × (check_approval p body row w ≡ ok (confirmed pin))
        × (may_claim (hitl2_decision body) row ≡ true)
        × (prior ≡ row.hitl_2_iteration)
        × (w'.run ≡ some (claimed_row pin w))
  unfolding hitl2_guard guard_row
  claimed_lem w w' prior found e = by_check (check_approval p body row w) refl
    where
      at_row : guard_row p editor_email body row w ≡ (claimed prior, w')
      at_row =
          sym (
            ap
              (λ o. elim o [
                | none ↦ (not_claimed 404 "run not found", w)
                | some r ↦ guard_row p editor_email body r w
              ])
              found)
          ∙ e

      Goal : Type 0
      Goal =
          (pin : Option ResolvedPublishTarget) × (check_approval p body row w ≡ ok (confirmed pin))
          × (may_claim (hitl2_decision body) row ≡ true)
          × (prior ≡ row.hitl_2_iteration)
          × (w'.run ≡ some (claimed_row pin w))

      step :
          (c : Result Confirmation)
          → check_approval p body row w ≡ c
          → elim c [
            | err e ↦ (failed e, w)
            | ok (invalid_publish detail) ↦ (not_claimed 422 detail, w)
            | ok (target_mismatch expected) ↦ (not_claimed 409 (mismatch_detail expected), w)
            | ok (confirmed pin) ↦ claim p editor_email body row pin w
          ]
            ≡ (claimed prior, w')
      step c q =
          subst
            (λ c.
              elim c [
                | err e ↦ (failed e, w)
                | ok (invalid_publish detail) ↦ (not_claimed 422 detail, w)
                | ok (target_mismatch expected) ↦ (not_claimed 409 (mismatch_detail expected), w)
                | ok (confirmed pin) ↦ claim p editor_email body row pin w
              ]
              ≡ (claimed prior, w'))
            q at_row

      by_check : (c : Result Confirmation) → check_approval p body row w ≡ c → Goal
      by_check (err x) q = absurd (ground (arith, step (err x) q))
      by_check (ok (invalid_publish d)) q = absurd (ground (arith, step _ q))
      by_check (ok (target_mismatch t)) q = absurd (ground (arith, step _ q))
      by_check (ok (confirmed pin)) q =
          let c = claim_lem pin w w' prior found (step _ q) in (pin, q, c.0, c.1, c.2)
