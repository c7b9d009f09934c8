-- ===== src/Auth/Table.antt =====
-- The statements on app_user keep its keys.
use ai_content_workflow.Prelude.{
  ◌≡◌, refl, sym, ap, ◌∙◌, String, Bool, true, false, not, ◌&&◌, Option, none, some, List, [], ◌∷◌,
  inl, inr, arith, All, All-keep, keep, Bool-cases, str_eq, eq_iff, to_lower, All-map, All-zip,
  All-append_one, Pairwise-append_one, All-of-keep, Pairwise-keep,
}
use ai_content_workflow.Auth.Roles.{AdminEnv, is_admin_eligible_email}
use ai_content_workflow.Auth.Access.{AppUser}
use ai_content_workflow.Auth.Directory.{
  find_row, update_row, delete_row, purge_email, upsert_row, has_row, same_email,
}
use ai_content_workflow.Auth.Keys.{
  Apart, IsEligible, IsTable, IsClear, str_eq-false, All-update_row, Pairwise-update_row,
  Pairwise-update_row_same, find_row-only,
}

module _ (env : AdminEnv) where
  pub IsTable-delete_row :
      (id : String) (users : List AppUser) → IsTable env users → IsTable env (delete_row id users)
  unfolding delete_row
  IsTable-delete_row id users h =
      (Pairwise-keep _ Apart users h.0, All-of-keep _ (IsEligible env) users h.1)

  pub IsTable-purge_email :
      (id email : String) (users : List AppUser)
      → IsTable env users
      → IsTable env (purge_email id email users)
        × All (IsClear id email) (purge_email id email users)
  unfolding purge_email
  IsTable-purge_email id email users h =
      let f : AppUser → Bool = λ u. not (same_email email u && not (str_eq u.id id)) in
      (
        (Pairwise-keep f Apart users h.0, All-of-keep f (IsEligible env) users h.1),
        All-map (λ u kept. clear u kept) (keep f users) (All-keep f users),
      )
    where
      clear :
          (u : AppUser)
          → not (same_email email u && not (str_eq u.id id)) ≡ true
          → IsClear id email u
      clear u kept other same = elim (Bool-cases (str_eq u.id id)) [
        | inl own ↦ other ((eq_iff u.id id).0 own)
        | inr differs ↦
            ground (arith, kept, differs, (eq_iff (to_lower u.email) (to_lower email)).1 same)
      ]

  -- An update of columns that are neither the id, nor the email, nor the role.
  pub IsTable-update_row :
      (id : String) (f : AppUser → AppUser)
      → ((u : AppUser) → (f u).id ≡ u.id)
      → ((u : AppUser) → (f u).email ≡ u.email)
      → ((u : AppUser) → (f u).role ≡ u.role)
      → (users : List AppUser) → IsTable env users
      → IsTable env (update_row id f users)
  IsTable-update_row id f same_id same_email same_role users h = (
    Pairwise-update_row_same id f same_id same_email users h.0,
    All-update_row (IsEligible env) (IsEligible env) id f users
        (λ u own k e.
          ap (λ (m : String). is_admin_eligible_email env (some m)) (same_email u)
          ∙ k (sym (same_role u) ∙ e))
        (λ u other k. k) h.1,
  )

  pub IsTable-update_role :
      (id role : String) (u : AppUser) (users : List AppUser)
      → find_row id users ≡ some u
      → (role ≡ "admin" → is_admin_eligible_email env (some u.email) ≡ true)
      → IsTable env users
      → IsTable env (update_row id (λ v. record v { role = some role }) users)
  IsTable-update_role id role u users found may h = (
    Pairwise-update_row_same id (λ v. record v { role = some role }) (λ v. refl) (λ v. refl) users
        h.0,
    All-update_row (λ v. IsEligible env v × (v.id ≡ id → v ≡ u)) (IsEligible env) id _ users
        (λ v own k e.
          ap (λ (w : AppUser). is_admin_eligible_email env (some w.email)) (k.1 own)
          ∙ may (ap (λ (o : Option String). elim o [ none ↦ role | some r ↦ r ]) e))
        (λ v other k. k.0)
        (All-zip (IsEligible env) (λ v. v.id ≡ id → v ≡ u) users h.1
          (find_row-only id u users h.0 found)),
  )

  has_row-false :
      (id : String) (users : List AppUser)
      → has_row id users ≡ false
      → All (λ u. u.id ≡ id → ⊥) users
  has_row-false id [] h = tt
  has_row-false id (u ∷ us) h =
      (str_eq-false u.id id (ground (arith, h)), has_row-false id us (ground (arith, h)))

  -- Where no other identity has the email.
  pub IsTable-upsert_row :
      (id email role : String) (users : List AppUser)
      → (role ≡ "admin" → is_admin_eligible_email env (some email) ≡ true)
      → IsTable env users
      → All (IsClear id email) users
      → IsTable env (upsert_row id email role users)
  unfolding upsert_row
  IsTable-upsert_row id email role users may h clear = elim (Bool-cases (has_row id users)) [
    | inl there ↦
        rw (there, upsert_row)
          (
            Pairwise-update_row id email _ (λ u. refl) (λ u own. refl) users h.0 clear,
            All-update_row (IsEligible env) (IsEligible env) id _ users (λ u own k e. may (asked e))
                (λ u other k. k) h.1,
          )
    | inr missing ↦
        rw (missing, upsert_row)
          (
            Pairwise-append_one Apart _ users h.0 (
                All-map (λ u k. (k.0, k.1 k.0)) users
                  (All-zip _ _ users (has_row-false id users missing) clear)),
            All-append_one (IsEligible env) _ users h.1 (λ e. may (asked e)),
          )
  ]
    where
      asked : some role ≡ some "admin" → role ≡ "admin"
      asked e = ap (λ (o : Option String). elim o [ none ↦ role | some r ↦ r ]) e
