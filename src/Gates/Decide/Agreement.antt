-- ===== src/Gates/Decide/Agreement.antt =====
-- The approval of a refresh (POST /:id/hitl-2 of deploy/cloudflare-workers/src/routes/runs.ts) and the
-- check of the publish step (publish and publishToGhost of
-- deploy/cloudflare-workers/src/workflows/production.ts) agree on the target.
use ai_content_workflow.Prelude.{
  ℕ, ◌≡◌, refl, sym, ap, subst, String, true, Option, some, List, if◌then◌else◌, str_eq, length,
  arith, get_or_else,
}
use ai_content_workflow.Run.{RunRow, Hitl2Decision, waits_at_hitl_2, is_refresh}
use ai_content_workflow.Publish.Failure.{Result, ok}
use ai_content_workflow.Publish.Pin.{
  ResolvedPublishTarget, pinned_target_matches, pinned_target_matches_iff,
}
use ai_content_workflow.Publish.Target.{ResolvedTarget, target_from_row}
use ai_content_workflow.Pipeline.World.{World}
use ai_content_workflow.Pipeline.Platform.{Platform}
use ai_content_workflow.Pipeline.Strategy.{RunLoad}
use ai_content_workflow.Pipeline.Publishing.{
  pin_of, wp_target, ghost_target, wp_base_post_id, ghost_base_post_id, wp_post_id, ghost_post_id,
  fetched_post_id, fetched_ghost_post_id,
}
use ai_content_workflow.Gates.Confirm.{
  Hitl2Body, confirmed, confirm, confirm_with, confirm_refresh, expected_target,
}
use ai_content_workflow.Gates.Decide.{
  hitl2_decision, claim_hitl2, may_claim, claimed, check_approval, hitl2_guard,
}
use ai_content_workflow.Gates.Decide.Claims.{claimed_row, claimed_lem}

-- The target of a voice, as both sides resolve it.
abbrev pub voice_target : Platform → World → RunRow → Result ResolvedTarget
voice_target p w row =
    target_from_row (p.target_row (length w.labels) row.persona)
      (get_or_else (p.env "WP_TARGET") "")

module _ (p : Platform) (body : Hitl2Body) (row : RunRow) (w : World)
    (target : ResolvedTarget) where
  -- A refresh is approved only with the target that was resolved as its pin.
  check_approval-pin :
      (pin : Option ResolvedPublishTarget)
      → hitl2_decision body ≡ Hitl2Decision.approve
      → is_refresh row.start_mode ≡ true
      → waits_at_hitl_2 row.status ≡ true
      → voice_target p w row ≡ ok target
      → check_approval p body row w ≡ ok (confirmed pin)
      → pin ≡ some (expected_target p target body row w)
  unfolding check_approval confirm confirm_with confirm_refresh
  check_approval-pin pin approves refreshes waits resolved e = ground arith

-- The target that the publish step asserts, by the dispatch on the kind.
pub publish_target : Platform → RunLoad → ResolvedTarget → World → RunRow → ResolvedPublishTarget
publish_target p run target w hitl2 =
    if str_eq target.kind "ghost"
    then ghost_target p run target (ghost_base_post_id p run w) hitl2
    else wp_target p run target (wp_base_post_id p run w) hitl2

module _ (p : Platform) (email : String) (body : Hitl2Body) (row : RunRow) (w : World)
    (target : ResolvedTarget) (ks : List String) where
  expected-publish_target :
      (pin : Option ResolvedPublishTarget)
      → is_refresh row.start_mode ≡ true
      → publish_target p
          (record { row = row; keyword_list = ks })
          target
          w
          (claimed_row p email body row pin w)
        ≡ expected_target p target body row w
  unfolding publish_target expected_target ghost_target wp_target ghost_base_post_id wp_base_post_id
      wp_post_id ghost_post_id claim_hitl2 fetched_post_id fetched_ghost_post_id
  expected-publish_target pin refreshes = rw refreshes refl

  pinned_by_claim :
      (t : ResolvedPublishTarget) (actual : ResolvedPublishTarget)
      → actual ≡ t
      → pinned_target_matches (pin_of (claimed_row p email body row (some t) w)) actual ≡ true
  unfolding claim_hitl2
  pinned_by_claim t actual e =
      (pinned_target_matches_iff (pin_of (claimed_row p email body row (some t) w)) actual).1 (
        ap (λ (x : ResolvedPublishTarget). some x.kind) (sym e),
        ap (λ (x : ResolvedPublishTarget). x.post_id) (sym e),
        ap (λ (x : ResolvedPublishTarget). some x.label) (sym e),
      )

  -- When an approval of a refresh is accepted, and the publish step reads the row as that decision wrote
  -- it, with the voice resolving to the same target and the same fetched article as at the decision, then
  -- the target that it resolves passes the check of the approved one.
  pub hitl2_guard-pinned :
      (w' : World) (prior : ℕ)
      → w.run ≡ some row
      → is_refresh row.start_mode ≡ true
      → hitl2_decision body ≡ Hitl2Decision.approve
      → voice_target p w row ≡ ok target
      → hitl2_guard p email body w ≡ (claimed prior, w')
      → (r : RunRow) × (w'.run ≡ some r)
        × (pinned_target_matches
              (pin_of r)
              (publish_target p (record { row = row; keyword_list = ks }) target w r)
            ≡ true)
  unfolding may_claim
  hitl2_guard-pinned w' prior found refreshes approves resolved e =
      let c = claimed_lem p email body row w w' prior found e in
      let waits = waits_of_may_claim c.2 in
      let pin = check_approval-pin p body row w target c.0 approves refreshes waits resolved c.1 in
      (
        claimed_row p email body row c.0 w,
        c.4,
        subst
            (λ pin.
              pinned_target_matches (pin_of (claimed_row p email body row pin w)) (
                publish_target p (record { row = row; keyword_list = ks }) target w
                  (claimed_row p email body row pin w))
              ≡ true)
            (sym pin)
            (pinned_by_claim (expected_target p target body row w) _
              (expected-publish_target (some (expected_target p target body row w)) refreshes)),
      )
    where
      waits_of_may_claim :
          may_claim (hitl2_decision body) row ≡ true → waits_at_hitl_2 row.status ≡ true
      waits_of_may_claim h = ground arith
