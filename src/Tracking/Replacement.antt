-- ===== src/Tracking/Replacement.antt =====
-- What accepting and rejecting a replacement does: a deletion that an insertion follows.
use ai_content_workflow.Prelude.{
  ℕ, suc, ◌+◌, ◌≤◌, ◌<◌, ◌≡◌, refl, sym, ap, ◌∙◌, String, Bool, true, false, Option, none, some,
  List, [], ◌∷◌, ◌++◌, arith, length, ◌<>◌,
}
use text.Mathlib.TextLemmas.{nil-append, append_assoc as text_assoc}
use ai_content_workflow.Tracking.Parts.{
  DiffPart, join, part_at, map_join, is_added_at, is_removed_at, build_committed, build_working,
  CommitResult, paired_index, is_target, commit_part, dismiss_part, commit_hunk, dismiss_hunk,
}

part_at-append : (xs zs : List DiffPart) (k : ℕ) → part_at (length xs + k) (xs ++ zs) ≡ part_at k zs
unfolding part_at
part_at-append [] zs k = ap (λ (j : ℕ). part_at j zs) (omega arith)
part_at-append (x ∷ xs) zs k =
    let next : suc (length xs) + k ≡ suc (length xs + k) = omega arith in
    ap (λ (j : ℕ). part_at j (x ∷ (xs ++ zs))) next ∙ part_at-append xs zs k

module _ (f : Bool → DiffPart → String) where
  -- The parts that are no targets, whatever their indices.
  plainly : List DiffPart → String
  plainly = map_join (λ j p. f false p) 0

  map_join-no_target :
      (target : ℕ → Bool) (i k : ℕ) (parts : List DiffPart)
      → ((j : ℕ) → i ≤ j → j < i + length parts → target j ≡ false)
      → map_join (λ j p. f (target j) p) i parts ≡ map_join (λ j p. f false p) k parts
  unfolding map_join
  map_join-no_target target i k [] h = refl
  map_join-no_target target i k (p ∷ parts) h =
      let here : target i ≡ false = h i (omega arith) (omega arith) in
      cc (
        ap (λ (b : Bool). f b p) here,
        map_join-no_target target (suc i) (suc k) parts
            (λ j low high. h j (omega (arith, low)) (omega (arith, high))),
      )

  map_join-append :
      (g : ℕ → DiffPart → String) (i : ℕ) (xs zs : List DiffPart)
      → map_join g i (xs ++ zs) ≡ map_join g i xs <> map_join g (i + length xs) zs
  unfolding map_join
  map_join-append g i [] zs =
      let start : i ≡ i + 0 = omega arith in
      ap (λ (j : ℕ). map_join g j zs) start ∙ sym (nil-append (map_join g (i + 0) zs))
  map_join-append g i (x ∷ xs) zs =
      let next : suc i + length xs ≡ i + suc (length xs) = omega arith in
      ap (λ (t : String). g i x <> t) (map_join-append g (suc i) xs zs)
      ∙ sym (text_assoc (g i x) (map_join g (suc i) xs) (map_join g (suc i + length xs) zs))
      ∙ ap (λ (j : ℕ). (g i x <> map_join g (suc i) xs) <> map_join g j zs) next

  -- Two neighbours are the targets.
  map_join-targets :
      (target : ℕ → Bool) (xs : List DiffPart) (d i : DiffPart) (ys : List DiffPart)
      → target (length xs) ≡ true
      → target (suc (length xs)) ≡ true
      → ((j : ℕ) → j < length xs → target j ≡ false)
      → ((j : ℕ) → suc (length xs) < j → target j ≡ false)
      → map_join (λ j p. f (target j) p) 0 (xs ++ (d ∷ i ∷ ys))
        ≡ plainly xs <> (f true d <> (f true i <> plainly ys))
  unfolding map_join plainly
  map_join-targets target xs d i ys first second low high =
      let n : ℕ = length xs in
      let start : 0 + n ≡ n = omega arith in
      let front : map_join (λ j p. f (target j) p) 0 xs ≡ plainly xs =
        map_join-no_target target 0 0 xs (λ j l h. low j (omega (arith, h))) in
      let rest : map_join (λ j p. f (target j) p) (suc (suc n)) ys ≡ plainly ys =
        map_join-no_target target (suc (suc n)) 0 ys (λ j l h. high j (omega (arith, l))) in
      map_join-append (λ j p. f (target j) p) 0 xs (d ∷ i ∷ ys)
      ∙ ap
          (λ (j : ℕ).
            map_join (λ j p. f (target j) p) 0 xs
            <> map_join (λ j p. f (target j) p) j (d ∷ i ∷ ys))
          start
      ∙ cc (front, rest, ap (λ (b : Bool). f b d) first, ap (λ (b : Bool). f b i) second)

module _ (xs : List DiffPart) (d i : DiffPart) (ys : List DiffPart) where
  -- The diff with the two parts.
  abbrev pub around : List DiffPart
  around = xs ++ (d ∷ i ∷ ys)

  at_deletion : part_at (length xs) around ≡ some d
  unfolding part_at
  at_deletion =
      let start : length xs ≡ length xs + 0 = omega arith in
      ap (λ (k : ℕ). part_at k around) start ∙ part_at-append xs (d ∷ i ∷ ys) 0

  at_insertion : part_at (suc (length xs)) around ≡ some i
  unfolding part_at
  at_insertion =
      let next : suc (length xs) ≡ length xs + 1 = omega arith in
      ap (λ (k : ℕ). part_at k around) next ∙ part_at-append xs (d ∷ i ∷ ys) 1

  -- The baseline with the insertion in the place of the deletion, and the body as it was.
  abbrev pub taken : CommitResult
  taken = record {
    committed = build_committed xs <> (join i.value <> build_committed ys);
    working = build_working around;
  }

  -- The baseline as it was, and the body with the deletion in the place of the insertion.
  abbrev pub undone : CommitResult
  undone = record {
    committed = build_committed around;
    working = build_working xs <> (join d.value <> build_working ys);
  }

  module _ (only_removed : (d.is_removed ≡ true) × (d.is_added ≡ false))
      (only_added : (i.is_added ≡ true) × (i.is_removed ≡ false)) where
    removed_first : is_removed_at (length xs) around ≡ true
    removed_first =
        ap (λ (o : Option DiffPart). elim o [ none ↦ false | some p ↦ p.is_removed ]) at_deletion
        ∙ only_removed.0

    added_second : is_added_at (suc (length xs)) around ≡ true
    added_second =
        ap (λ (o : Option DiffPart). elim o [ none ↦ false | some p ↦ p.is_added ]) at_insertion
        ∙ only_added.0

    kept_first : is_added_at (length xs) around ≡ false
    kept_first =
        ap (λ (o : Option DiffPart). elim o [ none ↦ false | some p ↦ p.is_added ]) at_deletion
        ∙ only_removed.1

    pair_of_deletion : paired_index around (length xs) ≡ some (suc (length xs))
    unfolding paired_index
    pair_of_deletion = ground (arith, removed_first, kept_first, added_second)

    pair_of_insertion : paired_index around (suc (length xs)) ≡ some (length xs)
    unfolding paired_index
    pair_of_insertion = ground (arith, removed_first, added_second)

    -- Each of the two names both.
    IsPair : (ℕ → Bool) → Type 0
    IsPair target =
        (target (length xs) ≡ true)
        × (target (suc (length xs)) ≡ true)
        × ((j : ℕ) → j < length xs → target j ≡ false)
        × ((j : ℕ) → suc (length xs) < j → target j ≡ false)

    is_target-deletion : IsPair (is_target around (length xs))
    unfolding IsPair is_target
    is_target-deletion =
        rw pair_of_deletion
          (ground arith, ground arith, λ j h. ground (arith, h), λ j h. ground (arith, h))

    is_target-insertion : IsPair (is_target around (suc (length xs)))
    unfolding IsPair is_target
    is_target-insertion =
        rw pair_of_insertion
          (ground arith, ground arith, λ j h. ground (arith, h), λ j h. ground (arith, h))

    accepting : (index : ℕ) → IsPair (is_target around index) → commit_hunk around index ≡ taken
    unfolding IsPair commit_hunk build_committed plainly
    accepting index h =
        let split =
          map_join-targets commit_part (is_target around index) xs d i ys h.0 h.1 h.2 h.3 in
        let before_it : plainly commit_part xs
              <> (commit_part true d <> (commit_part true i <> plainly commit_part ys))
            ≡ taken.committed =
          rw (only_removed.1, only_added.0)
            (ap (λ (t : String). build_committed xs <> t)
              (nil-append (join i.value <> build_committed ys))) in
        ap (λ (t : String). record { committed = t; working = build_working around })
          (split ∙ before_it)

    dismissing : (index : ℕ) → IsPair (is_target around index) → dismiss_hunk around index ≡ undone
    unfolding IsPair dismiss_hunk build_working plainly
    dismissing index h =
        let split =
          map_join-targets dismiss_part (is_target around index) xs d i ys h.0 h.1 h.2 h.3 in
        let after_it : plainly dismiss_part xs
              <> (dismiss_part true d <> (dismiss_part true i <> plainly dismiss_part ys))
            ≡ undone.working =
          rw (only_removed.0, only_added.1)
            (ap (λ (t : String). build_working xs <> (join d.value <> t))
              (nil-append (build_working ys))) in
        ap (λ (t : String). record { committed = build_committed around; working = t })
          (split ∙ after_it)

    -- Accepting a deletion or the insertion that follows it puts the insertion in the place of the deletion
    -- in the baseline and keeps the body; rejecting either puts the deletion in the place of the
    -- insertion in the body and keeps the baseline. No other part of the diff is touched.
    pub replacement_lem :
        (commit_hunk around (length xs) ≡ taken)
        × (commit_hunk around (suc (length xs)) ≡ taken)
        × (dismiss_hunk around (length xs) ≡ undone)
        × (dismiss_hunk around (suc (length xs)) ≡ undone)
    replacement_lem = (
      accepting (length xs) is_target-deletion,
      accepting (suc (length xs)) is_target-insertion,
      dismissing (length xs) is_target-deletion,
      dismissing (suc (length xs)) is_target-insertion,
    )
