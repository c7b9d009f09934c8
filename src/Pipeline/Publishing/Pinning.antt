-- ===== src/Pipeline/Publishing/Pinning.antt =====
-- The publish step of workflows/production.ts and the target that the reviewer approved.
use ai_content_workflow.Prelude.{
  ℕ, ◌≡◌, refl, sym, subst, ◌∙◌, ◌⊎◌, ap, map_some, to_decimal, String, Bool, true, false, Option,
  none, some, [], ◌∷◌, arith, str_eq, if◌then◌else◌, length, inl, inr, ◌<>◌, Bool-cases, contains,
  ◌++◌,
}
use ai_content_workflow.Run.{RunRow, is_refresh}
use ai_content_workflow.Publish.Failure.{Failure, Result, ok, err}
use ai_content_workflow.Publish.Target.{ResolvedTarget, WpEnv, build_target_env}
use ai_content_workflow.Publish.Pin.{ResolvedPublishTarget, pinned_target_matches}
use ai_content_workflow.Pipeline.StepNames.{StepName}
use ai_content_workflow.Pipeline.World.{
  World, PublishPayload, GhostPayload, wordpress, ghost, update_run, log_label,
}
use ai_content_workflow.Pipeline.Platform.{Platform, Fault, before, after}
use ai_content_workflow.Pipeline.Flow.{
  Exit, done, threw, parked, out_of_fuel, Flow, pure, lift, modify, do_step, continue, interrupt,
  or_throw, ◌>>=◌, ◌>>◌,
}
use ai_content_workflow.Pipeline.Strategy.{RunLoad}
use ai_content_workflow.Pipeline.Frames.{
  untouched, same_cms, Steady, Steady-bind, Steady-lift, Steady-gets, Steady-modify, Steady-step,
  steady_rules,
}
use ai_content_workflow.Publish.Pin.{
  pin_mismatch_message, mismatch_mark, contains-pin_mismatch_message, pinned_target_matches_iff,
}
use ai_content_workflow.Pipeline.World.{CmsRequest}
use ai_content_workflow.Pipeline.Publishing.{
  pin_of, wp_base_post_id, wp_post_id, ghost_post_id, wp_target, ghost_target, ghost_base_post_id,
  wp_payload, ghost_payload, load_latest_draft_id, load_render_for_publish, load_hitl2_options,
  void_approval, assert_pinned_target, stamp_article, wp_upsert, ghost_upsert, wp_published,
  ghost_published, publish_to_wordpress, publish_to_ghost, resolve_target, publish_to, publish,
}

-- The request goes to the target that the row's approval names.
unfoldable pub Pinned : RunRow → CmsRequest → Type 0
Pinned row (wordpress env payload) =
    (row.approved_target_kind ≡ some "wordpress")
    × (row.approved_post_id ≡ map_some to_decimal payload.post_id)
Pinned row (ghost auth_ref payload) =
    (row.approved_target_kind ≡ some "ghost") × (row.approved_post_id ≡ payload.post_id)

-- Nothing was sent, or one request to the approved target.
abbrev pub PinnedBy : RunRow → World → World → Type 0
PinnedBy row w v = (v.cms ≡ w.cms) ⊎ ((q : CmsRequest) × (v.cms ≡ w.cms ++ q ∷ []) × Pinned row q)

-- A flow that sends its requests to the target that `row` approves, which is the row of the run.
record Pins {A : Type 0} (row : RunRow) (m : Flow A) : Type 0 where
  pins : (w : World) → w.run ≡ some row → PinnedBy row w (m w).1

module _ {A B : Type 0} (row : RunRow) where
  Pins-after :
      {m : Flow A} (f : A → Flow B)
      → Steady untouched m
      → ((x : A) → Pins row (f x))
      → Pins row (m >>= f)
  unfolding ◌>>=◌
  Pins-after {m} f hm hf = record { pins = λ w e. go w e (m w) (hm.steady w).1 }
    where
      moved : (w v u : World) → v.cms ≡ w.cms → PinnedBy row v u → PinnedBy row w u
      moved w v u e (inl h) = inl (h ∙ e)
      moved w v u e (inr (q, h, k)) = inr (q, h ∙ ap (λ xs. xs ++ q ∷ []) e, k)

      go :
          (w : World)
          → w.run ≡ some row
          → (out : Exit A × World) → (out.1.cms ≡ w.cms) × (out.1.run ≡ w.run)
          → PinnedBy row w (continue out.0 f out.1).1
      go w e (done x, v) h = moved w v (f x v).1 h.0 ((hf x).pins v (h.1 ∙ e))
      go w e (threw x, v) h = inl h.0
      go w e (parked, v) h = inl h.0
      go w e (out_of_fuel, v) h = inl h.0

  Pins-before :
      {m : Flow A} (f : A → Flow B)
      → Pins row m
      → ((x : A) → Steady same_cms (f x))
      → Pins row (m >>= f)
  unfolding ◌>>=◌
  Pins-before {m} f hm hf = record { pins = λ w e. go w (m w) (hm.pins w e) }
    where
      kept : (w v u : World) → u.cms ≡ v.cms → PinnedBy row w v → PinnedBy row w u
      kept w v u e (inl h) = inl (e ∙ h)
      kept w v u e (inr (q, h, k)) = inr (q, e ∙ h, k)

      go :
          (w : World) (out : Exit A × World)
          → PinnedBy row w out.1
          → PinnedBy row w (continue out.0 f out.1).1
      go w (done x, v) h = kept w v (f x v).1 ((hf x).steady v).1 h
      go w (threw x, v) h = h
      go w (parked, v) h = h
      go w (out_of_fuel, v) h = h

Pins-if :
    {A : Type 0} (row : RunRow) (b : Bool) {x y : Flow A}
    → Pins row x
    → Pins row y
    → Pins row (if b then x else y)
Pins-if row true hx hy = hx
Pins-if row false hx hy = hy

Pins-step :
    {A : Type 0} {body : Flow A} (row : RunRow) (p : Platform) (label : StepName)
    → Pins row body
    → Pins row (do_step p label body)
unfolding do_step interrupt
Pins-step {A} {body} row p label h = record { pins = λ w e. go w e (p.fault (length w.labels)) }
  where
    go :
        (w : World)
        → w.run ≡ some row
        → (fault : Option Fault) → PinnedBy row w (interrupt fault body (log_label label w)).1
    go w e none = h.pins (log_label label w) e
    go w e (some (before x)) = inl refl
    go w e (some (after x)) = h.pins (log_label label w) e

load_latest_draft_id-Steady : (run_id : String) → Steady untouched (load_latest_draft_id run_id)
unfolding load_latest_draft_id
load_latest_draft_id-Steady run_id = search steady_rules

load_render_for_publish-Steady : (id : ℕ) → Steady untouched (load_render_for_publish id)
unfolding load_render_for_publish
load_render_for_publish-Steady id = search steady_rules

stamp_article-Steady : (run : RunLoad) → Steady same_cms (modify (stamp_article run))
unfolding stamp_article
stamp_article-Steady run = record { steady = λ w. ground arith }

-- The options are read from the row as it stands.
Pins-load :
    {B : Type 0} (row : RunRow) (run_id : String) (f : RunRow → Flow B)
    → Pins row (f row)
    → Pins row (load_hitl2_options run_id >>= f)
unfolding load_hitl2_options ◌>>=◌
Pins-load row run_id f h = record {
  pins = λ w e.
      let found = λ (o : Option RunRow). or_throw o ("run not found: " <> run_id) w in
      subst (λ o. PinnedBy row w (continue (found o).0 f (found o).1).1) (sym e) (h.pins w e);
}

-- What follows the check of the target runs only when the approval names it.
Pins-checked :
    {B : Type 0} (row : RunRow) (refreshes : Bool) (actual : ResolvedPublishTarget) (k : Flow B)
    → refreshes ≡ true
    → (pinned_target_matches (pin_of row) actual ≡ true → Pins row k)
    → Pins row ((if refreshes then assert_pinned_target row actual else pure tt) >> k)
unfolding assert_pinned_target ◌>>=◌
Pins-checked row refreshes actual k refreshed h =
    rw refreshed (elim (Bool-cases (pinned_target_matches (pin_of row) actual)) [
      | inl same ↦ rw same (record { pins = (h same).pins })
      | inr other ↦ rw other (record { pins = λ w e. inl refl })
    ])

module _ (p : Platform) (row : RunRow) where
  wp_upsert_Pins :
      (env : WpEnv) (payload : PublishPayload)
      → Pinned row (wordpress env payload)
      → Pins row (wp_upsert p env payload)
  unfolding wp_upsert
  wp_upsert_Pins env payload h = record {
    pins = λ w e.
        inr (wordpress env payload, lift_cms (p.wp_upsert (length w.labels) env payload) _, h);
  }
    where
      lift_cms : (x : Result (ℕ × String)) (w : World) → (lift x w).1.cms ≡ w.cms
      lift_cms (ok a) w = refl
      lift_cms (err e) w = refl

  ghost_upsert_Pins :
      (auth_ref : Option String) (payload : GhostPayload)
      → Pinned row (ghost auth_ref payload)
      → Pins row (ghost_upsert p auth_ref payload)
  unfolding ghost_upsert
  ghost_upsert_Pins auth_ref payload h = record {
    pins = λ w e.
        inr (
          ghost auth_ref payload,
          lift_cms (p.ghost_upsert (length w.labels) auth_ref payload) _,
          h,
        );
  }
    where
      lift_cms : (x : Result (String × String)) (w : World) → (lift x w).1.cms ≡ w.cms
      lift_cms (ok a) w = refl
      lift_cms (err e) w = refl

  module _ (run_id : String) (run : RunLoad) (refreshes : is_refresh run.start_mode ≡ true) where
    publish_to_wordpress-Pins :
        (target : ResolvedTarget) (env : WpEnv)
        → Pins row (publish_to_wordpress p run_id run target env)
    unfolding publish_to_wordpress wp_payload wp_target Pinned
    publish_to_wordpress-Pins target env = Pins-load row run_id _ (
        Pins-after row _ (load_latest_draft_id-Steady run_id) λ id.
          Pins-after row _ (load_render_for_publish-Steady id) λ r.
            Pins-after row _ (Steady-gets untouched (wp_base_post_id p run)) λ base.
              let actual = wp_target p run target base row in
              Pins-checked row (is_refresh run.start_mode) actual _ refreshes λ same.
                let h = (pinned_target_matches_iff (pin_of row) actual).0 same in
                Pins-before row _
                  (wp_upsert_Pins env (wp_payload p (wp_post_id p run base row) row r) (h.0, h.1))
                  λ result. Steady-bind same_cms (stamp_article-Steady run) λ _.
                    Steady-modify same_cms (λ w. update_run (wp_published p result w) w)
                      (λ w. refl))

    publish_to_ghost-Pins :
        (target : ResolvedTarget) → Pins row (publish_to_ghost p run_id run target)
    unfolding publish_to_ghost ghost_payload ghost_target Pinned
    publish_to_ghost-Pins target = Pins-load row run_id _ (
        Pins-after row _ (load_latest_draft_id-Steady run_id) λ id.
          Pins-after row _ (load_render_for_publish-Steady id) λ r.
            Pins-after row _ (Steady-gets untouched (ghost_base_post_id p run)) λ base.
              let actual = ghost_target p run target base row in
              Pins-checked row (is_refresh run.start_mode) actual _ refreshes λ same.
                let h = (pinned_target_matches_iff (pin_of row) actual).0 same in
                Pins-before row _
                  (ghost_upsert_Pins target.auth_ref
                    (ghost_payload p (ghost_post_id p run base row) row r) (h.0, h.1))
                  λ result.
                    Steady-modify same_cms (λ w. update_run (ghost_published p result w) w)
                      (λ w. refl))

    publish_to-Pins : (target : ResolvedTarget) → Pins row (publish_to p run_id run target)
    unfolding publish_to
    publish_to-Pins target =
        Pins-if row (str_eq target.kind "ghost")
          (Pins-after row _ (Steady-lift untouched (p.has_ghost_creds target.auth_ref))
            λ _. Pins-step row p StepName.publish_ghost (publish_to_ghost-Pins target))
          (Pins-after row _ (Steady-lift untouched (build_target_env p.env target))
            λ env. Pins-step row p StepName.publish (publish_to_wordpress-Pins target env))

    resolve_target-Steady : Steady untouched (resolve_target p run)
    unfolding resolve_target
    resolve_target-Steady = search steady_rules

    publish-Pins : Pins row (publish p run_id run)
    unfolding publish
    publish-Pins =
        Pins-after row _
          (Steady-step untouched p StepName.resolve_publish_target resolve_target-Steady)
          publish_to-Pins

-- Publishing a refresh sends nothing, or one request, and then to the kind and the post that the row
-- had approved when the publishing began.
pub publish-PinnedBy :
    (p : Platform) (run_id : String) (run : RunLoad) (row : RunRow) (w : World)
    → is_refresh run.start_mode ≡ true
    → w.run ≡ some row
    → PinnedBy row w (publish p run_id run w).1
publish-PinnedBy p run_id run row w refreshes found =
    (publish-Pins p row run_id run refreshes).pins w found

-- The approval on the row is void: the decision and the approver are gone, and no target passes the check.
unfoldable pub Voided : Option RunRow → Type 0
Voided none = Unit
Voided (some r) =
    (r.hitl_2_decision ≡ none)
    × (r.approved_at ≡ none)
    × (r.approved_by ≡ none)
    × ((actual : ResolvedPublishTarget) → pinned_target_matches (pin_of r) actual ≡ false)

update_run-Voided : (w : World) → Voided (update_run void_approval w).run
unfolding Voided void_approval pinned_target_matches
update_run-Voided w = by_row w.run
  where
    by_row : (o : Option RunRow) → Voided (map_some void_approval o)
    by_row none = tt
    by_row (some r) = (refl, refl, refl, λ actual. refl)

-- The approval on the row names the kind, the post and the label of the target.
abbrev pub Names : RunRow → ResolvedPublishTarget → Type 0
Names row actual =
    (row.approved_target_kind ≡ some actual.kind)
    × (row.approved_post_id ≡ actual.post_id)
    × (row.approved_target_label ≡ some actual.label)

-- When the approval names the kind, the post and the label of the target, the check lets it through and
-- changes nothing; when it does not, an error is thrown that is not retried and whose message carries
-- the mark of a mismatch, and the row is left without the decision and its approver and with an
-- approval that no target passes.
pub assert_pinned_target_lem :
    (row : RunRow) (actual : ResolvedPublishTarget) (w : World)
    → (Names row actual × (assert_pinned_target row actual w ≡ (done tt, w)))
      ⊎ ((Names row actual → ⊥)
          × ((e : Failure) × ((assert_pinned_target row actual w).0 ≡ threw e)
              × (e.name ≡ "NonRetryableError")
              × (contains e.message mismatch_mark ≡ true)
              × Voided (assert_pinned_target row actual w).1.run))
unfolding assert_pinned_target ◌>>=◌
assert_pinned_target_lem row actual w =
    let same_iff = pinned_target_matches_iff (pin_of row) actual in
    elim (Bool-cases (pinned_target_matches (pin_of row) actual)) [
      | inl same ↦ rw same (inl (same_iff.0 same, refl))
      | inr other ↦
          let differs : Names row actual → ⊥ = λ h. absurd (cc (other, same_iff.1 h)) in
          rw other (
            inr (
              differs,
              (
                record {
                  name = "NonRetryableError";
                  message = pin_mismatch_message (pin_of row) actual;
                },
                refl,
                refl,
                contains-pin_mismatch_message (pin_of row) actual,
                update_run-Voided w,
              ),
            ))
    ]
