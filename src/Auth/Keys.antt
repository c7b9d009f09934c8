-- ===== src/Auth/Keys.antt =====
-- Users with their own ids and emails, and an update of one of them.
use ai_content_workflow.Prelude.{
  ◌≡◌, sym, ap, ◌∙◌, String, true, false, Option, none, some, List, [], ◌∷◌, inl, inr, arith, All,
  Bool-cases, str_eq, eq_iff, to_lower, Pairwise, All-map, All-zip,
}
use ai_content_workflow.Auth.Roles.{AdminEnv, is_admin_eligible_email}
use ai_content_workflow.Auth.Access.{AppUser}
use ai_content_workflow.Auth.Directory.{find_row, update_row}

-- Different ids, and emails that differ in more than the case of letters.
abbrev pub Apart : AppUser → AppUser → Type 0
Apart u v = (u.id ≡ v.id → ⊥) × (to_lower u.email ≡ to_lower v.email → ⊥)

-- An administrator has an email of an administrators' domain.
abbrev pub IsEligible : AdminEnv → AppUser → Type 0
IsEligible env u = u.role ≡ some "admin" → is_admin_eligible_email env (some u.email) ≡ true

abbrev pub IsTable : AdminEnv → List AppUser → Type 0
IsTable env users = Pairwise Apart users × All (IsEligible env) users

-- No other identity has the email.
abbrev pub IsClear : String → String → AppUser → Type 0
IsClear id email u = (u.id ≡ id → ⊥) → to_lower u.email ≡ to_lower email → ⊥

pub str_eq-false : (s t : String) → str_eq s t ≡ false → s ≡ t → ⊥
str_eq-false s t differs e = ground (arith, differs, (eq_iff s t).1 e)

-- What holds of each row holds after an update that keeps it.
pub All-update_row :
    (P Q : AppUser → Type 0) (id : String) (f : AppUser → AppUser) (users : List AppUser)
    → ((u : AppUser) → u.id ≡ id → P u → Q (f u))
    → ((u : AppUser) → (u.id ≡ id → ⊥) → P u → Q u)
    → All P users
    → All Q (update_row id f users)
unfolding update_row
All-update_row P Q id f [] own others h = tt
All-update_row P Q id f (u ∷ us) own others h =
    let rest = All-update_row P Q id f us own others h.1 in
    elim (Bool-cases (str_eq u.id id)) [
      | inl same ↦ rw (same, update_row) (own u ((eq_iff u.id id).0 same) h.0, rest)
      | inr differs ↦ rw (differs, update_row) (others u (str_eq-false u.id id differs) h.0, rest)
    ]

module _ (id email : String) (f : AppUser → AppUser) where
  -- Where `f` keeps the id and gives the email.
  module _ (same_id : (u : AppUser) → (f u).id ≡ u.id)
      (sets : (u : AppUser) → u.id ≡ id → to_lower (f u).email ≡ to_lower email) where
    pub Pairwise-update_row :
        (users : List AppUser)
        → Pairwise Apart users
        → All (IsClear id email) users
        → Pairwise Apart (update_row id f users)
    unfolding update_row
    Pairwise-update_row [] h clear = tt
    Pairwise-update_row (u ∷ us) h clear =
        let rest = Pairwise-update_row us h.1 clear.1 in
        let facts = All-zip (Apart u) (IsClear id email) us h.0 clear.1 in
        elim (Bool-cases (str_eq u.id id)) [
          | inl same ↦
              let own : u.id ≡ id = (eq_iff u.id id).0 same in
              rw (same, update_row)
                (
                  All-update_row (λ v. Apart u v × IsClear id email v) (Apart (f u)) id f us
                      (λ v own' k. absurd (k.0.0 (own ∙ sym own')))
                      (λ v differs k. (
                        (λ e. k.0.0 (sym (same_id u) ∙ e)),
                        (λ e. k.1 differs (sym e ∙ sets u own)),
                      ))
                      facts,
                  rest,
                )
          | inr differs ↦
              let not_own : u.id ≡ id → ⊥ = str_eq-false u.id id differs in
              rw (differs, update_row)
                (
                  All-update_row (λ v. Apart u v × IsClear id email v) (Apart u) id f us
                      (λ v own k.
                        ((λ e. k.0.0 (e ∙ same_id v)), (λ e. clear.0 not_own (e ∙ sets v own))))
                      (λ v other k. k.0) facts,
                  rest,
                )
        ]

-- An update that keeps ids and emails.
pub Pairwise-update_row_same :
    (id : String) (f : AppUser → AppUser)
    → ((u : AppUser) → (f u).id ≡ u.id)
    → ((u : AppUser) → (f u).email ≡ u.email)
    → (users : List AppUser) → Pairwise Apart users
    → Pairwise Apart (update_row id f users)
unfolding update_row
Pairwise-update_row_same id f same_id same [] h = tt
Pairwise-update_row_same id f same_id same (u ∷ us) h =
    let rest = Pairwise-update_row_same id f same_id same us h.1 in
    let later : (v : AppUser) → Apart u v → Apart u (f v) =
      λ v k. ((λ e. k.0 (e ∙ same_id v)), (λ e. k.1 (e ∙ ap to_lower (same v)))) in
    let kept : All (Apart u) (update_row id f us) =
      All-update_row (Apart u) (Apart u) id f us (λ v own k. later v k) (λ v other k. k) h.0 in
    elim (Bool-cases (str_eq u.id id)) [
      | inl own ↦
          rw (own, update_row)
            (
              All-map
                  (λ v k.
                    ((λ e. k.0 (sym (same_id u) ∙ e)), (λ e. k.1 (sym (ap to_lower (same u)) ∙ e))))
                  _ kept,
              rest,
            )
      | inr differs ↦ rw (differs, update_row) (kept, rest)
    ]

-- The row that is found is the only one with its id.
pub find_row-only :
    (id : String) (u : AppUser) (users : List AppUser)
    → Pairwise Apart users
    → find_row id users ≡ some u
    → All (λ v. v.id ≡ id → v ≡ u) users
unfolding find_row
find_row-only id u [] h found = tt
find_row-only id u (v ∷ vs) h found = elim (Bool-cases (str_eq v.id id)) [
  | inl own ↦
      let same : some v ≡ some u = rw (own, find_row) at found in
      let it : v ≡ u = ap (λ (o : Option AppUser). elim o [ none ↦ v | some w ↦ w ]) same in
      ((λ e. it), All-map (λ w apart e. absurd (apart.0 ((eq_iff v.id id).0 own ∙ sym e))) vs h.0)
  | inr differs ↦ (
    (λ e. absurd (str_eq-false v.id id differs e)),
    find_row-only id u vs h.1 (rw (differs, find_row) at found),
  )
]
