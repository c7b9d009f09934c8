-- ===== src/Gates/Restart/Recovery.antt =====
-- What a restart does (POST /:id/restart of deploy/cloudflare-workers/src/routes/runs.ts).
use ai_content_workflow.Prelude.{
  String, ◌≡◌, refl, sym, ◌∙◌, contains, ap, subst, true, false, Option, none, some, ◌⊎◌, inl, inr,
  Bool-cases, map_some, to_decimal, ◌<>◌, arith,
}
use ai_content_workflow.Run.{RunRow, Status, is_failed}
use ai_content_workflow.Publish.Failure.{Failure, Result, ok, err}
use ai_content_workflow.Publish.Pin.{ResolvedPublishTarget}
use ai_content_workflow.Pipeline.Flow.{Exit, threw}
use ai_content_workflow.Pipeline.Publishing.{assert_pinned_target}
use ai_content_workflow.Pipeline.Publishing.Pinning.{assert_pinned_target_lem}
use ai_content_workflow.Pipeline.World.{World, update_run}
use ai_content_workflow.Gates.Instances.{
  Instances, RestartFrom, Response, accepted, rescued, refused,
}
use ai_content_workflow.Gates.Restart.{
  restart_guard, claim_restart, hand_back, restart_mark, restart_step, start_over, do_restart,
  restart,
}

-- The gate of the round that the row counts.
abbrev pub current_gate : RunRow → RestartFrom
current_gate r = record { name = "gate-hitl2-" <> to_decimal r.hitl_2_iteration; count = none }

-- When the check of the publish target threw the error that a failed run has on its row, a plain restart
-- of the run does what a restart from the gate of the round that the row counts does, so that the
-- target is confirmed again.
pub restart-assert_pinned_target :
    (env : Instances) (run_id : String) (hitl2 row : RunRow) (actual : ResolvedPublishTarget)
    (v w : World) (e : Failure)
    → (assert_pinned_target hitl2 actual v).0 ≡ threw e
    → w.run ≡ some row
    → is_failed row.status ≡ true
    → row.error ≡ some e
    → restart env run_id none w ≡ restart env run_id (some (current_gate row)) w
unfolding restart restart_guard restart_step
restart-assert_pinned_target env run_id hitl2 row actual v w e thrown found failed kept =
    elim (assert_pinned_target_lem hitl2 actual v) [
      | inl (names, passed) ↦ absurd (cc (thrown, passed))
      | inr (differs, (e', thrown', named, marked, voided)) ↦
          let both : threw e' ≡ threw e = sym thrown' ∙ thrown in
          let same : e' ≡ e = ap (λ (x : Exit (Unit {0})). elim x [ threw y ↦ y | _ ↦ e ]) both in
          let has_mark : contains e.message restart_mark ≡ true =
            subst (λ (y : Failure). contains y.message restart_mark ≡ true) same marked in
          let from : restart_step none row ≡ some (current_gate row) =
            ground (arith, kept, has_mark) in
          ground (arith, failed, found, from)
    ]

-- How a restart leaves the row: pending without an error when the workflow took it, failed otherwise.
Restarted : Response → RunRow → Type 0
Restarted accepted r = (r.status ≡ Status.pending) × (r.error ≡ none)
Restarted rescued r = (r.status ≡ Status.pending) × (r.error ≡ none)
Restarted (refused status detail) r = r.status ≡ Status.failed

module _ (env : Instances) (run_id : String) (row : RunRow) where
  pub Leaves : Response × World → Type 0
  Leaves out = (r : RunRow) × (out.1.run ≡ some r) × Restarted out.0 r

  do_restart-Leaves :
      (from : Option RestartFrom) (w : World)
      → w.run ≡ some (claim_restart row)
      → Leaves (do_restart env run_id from w)
  unfolding do_restart start_over hand_back claim_restart Leaves Restarted
  do_restart-Leaves from w e = first (env.restart run_id from) from
    where
      failed_row : (message : String) → RunRow
      failed_row message = hand_back message (claim_restart row)

      handed :
          (message : String) → (update_run (hand_back message) w).run ≡ some (failed_row message)
      handed message = ap (map_some (hand_back message)) e

      again :
          (x : Failure) (y : Result (Unit {0}))
          → Leaves (elim y [
            | ok done ↦ (rescued, w)
            | err e' ↦ (
              refused 502 ("failed to restart workflow: " <> x.message),
              update_run (hand_back x.message) w,
            )
          ])
      again x (ok done) = (claim_restart row, e, (refl, refl))
      again x (err y) = (failed_row x.message, handed x.message, refl)

      first :
          (x : Result (Unit {0})) (step : Option RestartFrom)
          → Leaves (elim x [
            | ok done ↦ (accepted, w)
            | err x ↦ elim step [
              | none ↦ start_over env run_id x w
              | some s ↦ (
                refused 502 ("failed to restart workflow: " <> x.message),
                update_run (hand_back x.message) w,
              )
            ]
          ])
      first (ok done) step = (claim_restart row, e, (refl, refl))
      first (err x) none = again x (env.create run_id none)
      first (err x) (some s) = (failed_row x.message, handed x.message, refl)

-- Only a failed run is restarted: another run is refused and nothing changes. A failed run becomes
-- pending, without its error, when the workflow takes the restart, and is failed again when not.
pub restart_lem :
    (env : Instances) (run_id : String) (from : Option RestartFrom) (row : RunRow) (w : World)
    → w.run ≡ some row
    → ((is_failed row.status ≡ false)
        × (restart env run_id from w ≡ (refused 409 "only failed runs can be restarted", w)))
      ⊎ ((is_failed row.status ≡ true) × Leaves env run_id row (restart env run_id from w))
unfolding restart restart_guard Leaves
restart_lem env run_id from row w found = elim (Bool-cases (is_failed row.status)) [
  | inl failed ↦ inr (
    failed,
    subst (Leaves env run_id row) (taken failed) (
        do_restart-Leaves env run_id row (restart_step from row) (update_run claim_restart w)
          (ap (map_some claim_restart) found)),
  )
  | inr other ↦ inl (other, ground (arith, other, found))
]
  where
    taken :
        is_failed row.status ≡ true
        → do_restart env run_id (restart_step from row) (update_run claim_restart w)
          ≡ restart env run_id from w
    taken failed = ground (arith, failed, found)
