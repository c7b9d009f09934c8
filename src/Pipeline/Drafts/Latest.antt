-- ===== src/Pipeline/Drafts/Latest.antt =====
-- The draft that the publish step takes, and the one that the writer wrote last.
use ai_content_workflow.Prelude.{
  ℕ, ◌≤◌, ◌≡◌, refl, sym, subst, ◌↔◌, inl, inr, none, some, List, [], ◌∷◌, map, arith, ltb, ◌==◌,
  Bool-cases, Option-cases, length, In, All,
}
use ai_content_workflow.Pipeline.World.{DraftRow}
use ai_content_workflow.Pipeline.Platform.{WriterResult}
use ai_content_workflow.Pipeline.Drafts.{latest_draft, upsert_from, upsert_draft}
use ai_content_workflow.Pipeline.Drafts.Upsert.{
  iterations, In-All, All-mono, same_key, Written, upsert_from-Written, upsert_from-In,
  upsert_from-keys, All-append, IsKeyed, upsert_draft-IsKeyed,
}

-- The row with the highest iteration is one of the rows, and no row has a higher one.
latest_draft-In : (ds : List DraftRow) (l : DraftRow) → latest_draft ds ≡ some l → In l ds
unfolding latest_draft
latest_draft-In [] l e = absurd (cc)
latest_draft-In (d ∷ ds) l e = elim (Option-cases (latest_draft ds)) [
  | inl empty ↦ inl (ground arith)
  | inr (best, found) ↦ elim (Bool-cases (ltb d.iteration best.iteration)) [
    | inl older ↦ inr (latest_draft-In ds l (ground arith))
    | inr newest ↦ inl (ground arith)
  ]
]

latest_draft-All :
    (ds : List DraftRow) (l : DraftRow)
    → latest_draft ds ≡ some l
    → All (λ d. d.iteration ≤ l.iteration) ds
unfolding latest_draft
latest_draft-All [] l e = tt
latest_draft-All (d ∷ ds) l e = elim (Option-cases (latest_draft ds)) [
  | inl empty ↦ (ground arith, none_above ds empty)
  | inr (best, found) ↦ elim (Bool-cases (ltb d.iteration best.iteration)) [
    | inl older ↦ (ground arith, latest_draft-All ds l (ground arith))
    | inr newest ↦ (
      ground arith,
      All-mono (λ x. x.iteration ≤ best.iteration) (λ x. x.iteration ≤ l.iteration) ds
          (λ x h. ground arith) (latest_draft-All ds best found),
    )
  ]
]
  where
    none_above :
        (xs : List DraftRow) → latest_draft xs ≡ none → All (λ x. x.iteration ≤ l.iteration) xs
    none_above [] h = tt
    none_above (x ∷ xs) h = absurd (cc)

All-In : {A : Type 0} (P : A → Type 0) (xs : List A) → ((x : A) → In x xs → P x) → All P xs
All-In P [] h = tt
All-In P (x ∷ xs) h = (h x (inl refl), All-In P xs (λ y k. h y (inr k)))

All-map :
    (P : ℕ → Type 0) (key : DraftRow → ℕ) (ds : List DraftRow)
    → (All P (map key ds)) ↔ (All (λ d. P (key d)) ds)
All-map P key [] = ((λ h. h), (λ h. h))
All-map P key (d ∷ ds) =
    ((λ h. (h.0, (All-map P key ds).0 h.1)), (λ h. (h.0, (All-map P key ds).1 h.1)))

-- Rows that stay within an iteration do so after the upsert of that iteration.
upsert_draft-All :
    (iteration : ℕ) (out : WriterResult) (ds : List DraftRow)
    → All (λ d. d.iteration ≤ iteration) ds
    → All (λ d. d.iteration ≤ iteration) (upsert_draft iteration out ds).0
unfolding upsert_draft
upsert_draft-All iteration out ds h =
    (All-map (λ n. n ≤ iteration) iterations _).0
      (elim (upsert_from-keys (length ds) iteration out ds) [
        | inl kept ↦ subst (All (λ n. n ≤ iteration)) (sym kept.1) within
        | inr added ↦
            subst (All (λ n. n ≤ iteration)) (sym added.2)
              (All-append (λ n. n ≤ iteration) (map iterations ds) iteration within (omega arith))
      ])
  where
    within : All (λ n. n ≤ iteration) (map iterations ds)
    within = (All-map (λ n. n ≤ iteration) iterations ds).1 h

-- After the writer's upsert the draft that the publish step takes is the written one if and only if
-- no draft of the run has a higher iteration than the written one. A round of revision starts again
-- at iteration 0, so a run whose earlier round reached iteration 1 has such a draft.
pub upsert_draft-latest_draft :
    (iteration : ℕ) (out : WriterResult) (ds : List DraftRow) (l : DraftRow)
    → IsKeyed ds
    → latest_draft (upsert_draft iteration out ds).0 ≡ some l
    → (Written iteration out (upsert_draft iteration out ds).1 l)
      ↔ (All (λ d. d.iteration ≤ iteration) ds)
unfolding upsert_draft Written IsKeyed
upsert_draft-latest_draft iteration out ds l keyed found = (highest, written)
  where
    res : List DraftRow × ℕ
    res = upsert_from (length ds) iteration out ds

    r : (r : DraftRow) × In r res.0 × Written iteration out res.1 r
    r = upsert_from-Written (length ds) iteration out ds

    after : IsKeyed res.0
    after = upsert_draft-IsKeyed iteration out ds keyed

    highest : Written iteration out res.1 l → All (λ d. d.iteration ≤ iteration) ds
    highest w =
        All-In (λ d. d.iteration ≤ iteration) ds
          λ x h. elim (Bool-cases (x.iteration == iteration)) [
            | inl same ↦ ground arith
            | inr other ↦
                let below =
                  In-All (λ d. d.iteration ≤ l.iteration) x res.0 (latest_draft-All res.0 l found)
                    (upsert_from-In (length ds) iteration out ds x h (ground arith)) in
                omega (arith, below, w.1)
          ]

    written : All (λ d. d.iteration ≤ iteration) ds → Written iteration out res.1 l
    written h =
        let l_in = latest_draft-In res.0 l found in
        let upper =
          In-All (λ d. d.iteration ≤ iteration) l res.0 (upsert_draft-All iteration out ds h)
            l_in in
        let lower =
          In-All (λ d. d.iteration ≤ l.iteration) r.0 res.0 (latest_draft-All res.0 l found) r.1 in
        let same =
          same_key iterations r.0 l res.0 after.0 r.1 l_in (omega (arith, upper, lower, r.2.1)) in
        subst (Written iteration out res.1) same r.2
