-- ===== src/Pipeline/Drafts/Upsert.antt =====
-- The upsert of drafts on (run_id, iteration), which keeps the keys of the drafts apart.
use ai_content_workflow.Prelude.{
  ℕ, suc, ◌≤◌, ◌<◌, ◌≡◌, ◌≢◌, refl, sym, ap, subst, ◌∙◌, ◌⊎◌, inl, inr, none, List, [], ◌∷◌, ◌++◌,
  map, arith, ◌==◌, Bool-cases, length, length-append, In, All, Distinct,
}
use ai_content_workflow.Pipeline.World.{DraftRow}
use ai_content_workflow.Pipeline.Platform.{WriterResult}
use ai_content_workflow.Pipeline.Drafts.{upsert_from, upsert_draft}

abbrev pub ids : DraftRow → ℕ
ids d = d.draft_id

abbrev pub iterations : DraftRow → ℕ
iterations d = d.iteration

module _ {A : Type 0} where
  pub In-All : (P : A → Type 0) (x : A) (xs : List A) → All P xs → In x xs → P x
  In-All P x [] h k = absurd k
  In-All P x (y ∷ ys) h (inl e) = subst P (sym e) h.0
  In-All P x (y ∷ ys) h (inr k) = In-All P x ys h.1 k

  pub All-mono : (P Q : A → Type 0) (xs : List A) → ((x : A) → P x → Q x) → All P xs → All Q xs
  All-mono P Q [] f h = tt
  All-mono P Q (x ∷ xs) f h = (f x h.0, All-mono P Q xs f h.1)

  other_key :
      (key : A → ℕ) (n : ℕ) (y : A) (us : List A)
      → All (λ m. n ≡ m → ⊥) (map key us)
      → In y us
      → n ≡ key y
      → ⊥
  other_key key n y [] h k q = absurd k
  other_key key n y (u ∷ us) h (inl e) q = h.0 (q ∙ ap key e)
  other_key key n y (u ∷ us) h (inr k) q = other_key key n y us h.1 k q

  -- Rows with different keys are told apart by them.
  pub same_key :
      (key : A → ℕ) (x y : A) (xs : List A)
      → Distinct (map key xs)
      → In x xs
      → In y xs
      → key x ≡ key y
      → x ≡ y
  same_key key x y [] d h k same = absurd h
  same_key key x y (z ∷ zs) d (inl e) (inl k) same = e ∙ sym k
  same_key key x y (z ∷ zs) d (inl e) (inr k) same =
      absurd (other_key key (key z) y zs d.0 k (sym (ap key e) ∙ same))
  same_key key x y (z ∷ zs) d (inr h) (inl k) same =
      absurd (other_key key (key z) x zs d.0 h (sym (ap key k) ∙ sym same))
  same_key key x y (z ∷ zs) d (inr h) (inr k) same = same_key key x y zs d.1 h k same

-- The row that the writer wrote.
unfoldable pub Written : ℕ → WriterResult → ℕ → DraftRow → Type 0
Written iteration out id r =
    (r.draft_id ≡ id)
    × (r.iteration ≡ iteration)
    × (r.markup_raw ≡ out.markup)
    × (r.final_markup ≡ none)

module _ (fresh iteration : ℕ) (out : WriterResult) where
  pub upsert_from-Written :
      (ds : List DraftRow)
      → let res = upsert_from fresh iteration out ds in
        (r : DraftRow) × In r res.0 × Written iteration out res.1 r
  unfolding upsert_from Written
  upsert_from-Written [] = (_, inl refl, (refl, refl, refl, refl))
  upsert_from-Written (d ∷ ds) = elim (Bool-cases (d.iteration == iteration)) [
    | inl same ↦ rw same (_, inl refl, (refl, ground arith, refl, refl))
    | inr other ↦ let rest = upsert_from-Written ds in rw other (rest.0, inr rest.1, rest.2)
  ]

  -- The rows of other iterations stay.
  pub upsert_from-In :
      (ds : List DraftRow) (x : DraftRow)
      → In x ds
      → x.iteration ≢ iteration
      → In x (upsert_from fresh iteration out ds).0
  unfolding upsert_from
  upsert_from-In [] x h other = absurd h
  upsert_from-In (d ∷ ds) x h other = elim (Bool-cases (d.iteration == iteration)) [
    | inl same ↦ rw same (elim h [ inl e ↦ absurd (other (ground arith)) | inr k ↦ inr k ])
    | inr different ↦
        rw different (elim h [ inl e ↦ inl e | inr k ↦ inr (upsert_from-In ds x k other) ])
  ]

  -- The keys stay, or those of a new row are added at the end.
  pub upsert_from-keys :
      (ds : List DraftRow)
      → let res = (upsert_from fresh iteration out ds).0 in
        ((map ids res ≡ map ids ds) × (map iterations res ≡ map iterations ds))
        ⊎ (All (λ n. n ≢ iteration) (map iterations ds)
            × (map ids res ≡ map ids ds ++ fresh ∷ [])
            × (map iterations res ≡ map iterations ds ++ iteration ∷ []))
  unfolding upsert_from
  upsert_from-keys [] = inr (tt, refl, refl)
  upsert_from-keys (d ∷ ds) = elim (Bool-cases (d.iteration == iteration)) [
    | inl same ↦ rw same (inl (refl, refl))
    | inr different ↦ rw different (elim (upsert_from-keys ds) [
      | inl kept ↦ inl (ap (λ xs. d.draft_id ∷ xs) kept.0, ap (λ xs. d.iteration ∷ xs) kept.1)
      | inr added ↦ inr (
        ((λ e. ground arith), added.0),
        ap (λ xs. d.draft_id ∷ xs) added.1,
        ap (λ xs. d.iteration ∷ xs) added.2,
      )
    ])
  ]

module _ {A : Type 0} where
  pub All-append : (P : A → Type 0) (xs : List A) (y : A) → All P xs → P y → All P (xs ++ y ∷ [])
  All-append P [] y h k = (k, tt)
  All-append P (x ∷ xs) y h k = (h.0, All-append P xs y h.1 k)

  Distinct-append :
      (xs : List A) (y : A) → Distinct xs → All (λ x. x ≢ y) xs → Distinct (xs ++ y ∷ [])
  Distinct-append [] y d h = (tt, tt)
  Distinct-append (x ∷ xs) y d h =
      (All-append (λ z. x ≡ z → ⊥) xs y d.0 h.0, Distinct-append xs y d.1 h.1)

-- The drafts of a run: no two rows have one iteration, or one id, and the next id is free.
unfoldable pub IsKeyed : List DraftRow → Type 0
IsKeyed ds =
    Distinct (map iterations ds) × Distinct (map ids ds) × All (λ n. n < length ds) (map ids ds)

upsert_from-length :
    (fresh iteration : ℕ) (out : WriterResult) (ds : List DraftRow)
    → length ds ≤ length (upsert_from fresh iteration out ds).0
unfolding upsert_from
upsert_from-length fresh iteration out [] = omega arith
upsert_from-length fresh iteration out (d ∷ ds) = elim (Bool-cases (d.iteration == iteration)) [
  | inl same ↦ rw same (omega arith)
  | inr different ↦ rw different (omega (arith, upsert_from-length fresh iteration out ds))
]

length-map : (f : DraftRow → ℕ) (ds : List DraftRow) → length (map f ds) ≡ length ds
length-map f [] = refl
length-map f (d ∷ ds) = ap suc (length-map f ds)

-- The upsert keeps the keys of the drafts apart: the pair of run and iteration stays unique, and so do
-- the ids.
pub upsert_draft-IsKeyed :
    (iteration : ℕ) (out : WriterResult) (ds : List DraftRow)
    → IsKeyed ds
    → IsKeyed (upsert_draft iteration out ds).0
unfolding upsert_draft IsKeyed
upsert_draft-IsKeyed iteration out ds (di, dd, below) =
    elim (upsert_from-keys (length ds) iteration out ds) [
      | inl kept ↦ (
        subst Distinct (sym kept.1) di,
        subst Distinct (sym kept.0) dd,
        subst (All (λ n. n < length (upsert_from (length ds) iteration out ds).0)) (sym kept.0)
            grown,
      )
      | inr added ↦ (
        subst Distinct (sym added.2) (Distinct-append (map iterations ds) iteration di added.0),
        subst Distinct (sym added.1) (
            Distinct-append (map ids ds) (length ds) dd (
              All-mono (λ n. n < length ds) (λ n. n ≢ length ds) (map ids ds)
                (λ n h. omega (arith, h)) below)),
        subst (All (λ n. n < length (upsert_from (length ds) iteration out ds).0)) (sym added.1) (
            All-append (λ n. n < length (upsert_from (length ds) iteration out ds).0) (map ids ds)
              (length ds) grown (longer added.1)),
      )
    ]
  where
    grown : All (λ n. n < length (upsert_from (length ds) iteration out ds).0) (map ids ds)
    grown =
        All-mono (λ n. n < length ds) (λ n. n < length (upsert_from (length ds) iteration out ds).0)
          (map ids ds) (λ n h. omega (arith, h, upsert_from-length (length ds) iteration out ds))
          below

    longer :
        map ids (upsert_from (length ds) iteration out ds).0 ≡ map ids ds ++ length ds ∷ []
        → length ds < length (upsert_from (length ds) iteration out ds).0
    longer e = omega (
      arith,
      ap length e,
      length-map ids (upsert_from (length ds) iteration out ds).0,
      length-append (map ids ds) (length ds ∷ []),
      length-map ids ds,
    )
