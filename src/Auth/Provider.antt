-- ===== src/Auth/Provider.antt =====
-- The calls of GoTrue leave the table of users alone.
use ai_content_workflow.Prelude.{
  ℕ, zero, suc, ◌≡◌, refl, ◌∙◌, String, Option, List, inl, inr, Bool-cases, Option-cases, ltb,
  length,
}
use ai_content_workflow.Auth.Directory.{
  GotrueUser, GotrueRequest, GotrueBody, AdminState, get_users,
}
use ai_content_workflow.Auth.Gotrue.{
  GotrueResult, done, failed, broke, AdminServices, config_error, require_email, admin_fetch,
  read_users, call_gotrue, call_with, settle_page, find_address, create_user, delete_user,
  update_user, list_users, find_email, find_in_pages, find_user_by_email, per_page,
  find_user_max_pages,
}
use ai_content_workflow.Auth.Requests.{is_already_registered}
use ai_content_workflow.Auth.Admin.{adopt, create_or_adopt}

module _ (p : AdminServices) where
  call_with-users :
      {A : Type 0} (request : String → GotrueRequest) (read : GotrueBody → GotrueResult A)
      (argument : GotrueResult String) (s : AdminState)
      → (call_with p request read argument s).1.users ≡ s.users
  unfolding call_with admin_fetch
  call_with-users request read (failed e) s = refl
  call_with-users request read broke s = refl
  call_with-users request read (done value) s = refl

  call_gotrue-users :
      {A : Type 0} (argument : GotrueResult String) (request : String → GotrueRequest)
      (read : GotrueBody → GotrueResult A) (s : AdminState)
      → (call_gotrue p argument request read s).1.users ≡ s.users
  unfolding call_gotrue
  call_gotrue-users argument request read s =
      elim (Option-cases (config_error p.protocol_of p.gotrue)) [
        | inr (e, wrong) ↦ rw (wrong, call_gotrue) refl
        | inl right ↦ rw (right, call_gotrue) (call_with-users request read argument s)
      ]

  pub create_user-users :
      (email : String) (s : AdminState) → (create_user p email s).1.users ≡ s.users
  unfolding create_user
  create_user-users email s = call_gotrue-users _ _ _ s

  pub delete_user-users : (id : String) (s : AdminState) → (delete_user p id s).1.users ≡ s.users
  unfolding delete_user
  delete_user-users id s = call_gotrue-users _ _ _ s

  pub update_user-users :
      (id ban : String) (s : AdminState) → (update_user p id ban s).1.users ≡ s.users
  unfolding update_user
  update_user-users id ban s = call_gotrue-users _ _ _ s

  list_users-users : (page : ℕ) (s : AdminState) → (list_users p page per_page s).1.users ≡ s.users
  unfolding list_users
  list_users-users page s =
      call_gotrue-users (done "") (λ v. get_users page per_page) (read_users p) s

  settle_page-users :
      (email : String) (r : GotrueResult (List GotrueUser) × AdminState)
      (rest : AdminState → GotrueResult (Option GotrueUser) × AdminState)
      → ((t : AdminState) → (rest t).1.users ≡ t.users)
      → (settle_page p email r rest).1.users ≡ r.1.users
  unfolding settle_page
  settle_page-users email (failed e, s) rest h = refl
  settle_page-users email (broke, s) rest h = refl
  settle_page-users email (done users, s) rest h = elim (Option-cases (find_email email users)) [
    | inr (u, found) ↦ rw (found, settle_page) refl
    | inl absent ↦ elim (Bool-cases (ltb (length users) per_page)) [
      | inl last ↦ rw (absent, last, settle_page) refl
      | inr full ↦ rw (absent, full, settle_page) (h s)
    ]
  ]

  find_in_pages-users :
      (left page : ℕ) (email : String) (s : AdminState)
      → (find_in_pages p left page email s).1.users ≡ s.users
  unfolding find_in_pages
  find_in_pages-users zero page email s = refl
  find_in_pages-users (suc left) page email s =
      settle_page-users email (list_users p page per_page s) (find_in_pages p left (suc page) email)
        (find_in_pages-users left (suc page) email)
      ∙ list_users-users page s

  find_address-users :
      (address : GotrueResult String) (s : AdminState)
      → (find_address p address s).1.users ≡ s.users
  unfolding find_address
  find_address-users (failed e) s = refl
  find_address-users broke s = refl
  find_address-users (done valid) s = find_in_pages-users find_user_max_pages 1 _ s

  adopt-users :
      (email : String) (r : GotrueResult GotrueUser × AdminState)
      → (adopt p email r).1.users ≡ r.1.users
  unfolding adopt find_user_by_email
  adopt-users email (done u, s) = refl
  adopt-users email (broke, s) = refl
  adopt-users email (failed e, s) = elim (Bool-cases (is_already_registered e)) [
    | inl registered ↦ rw (registered, adopt) (find_address-users (require_email email) s)
    | inr refuses ↦ rw (refuses, adopt) refl
  ]

  pub create_or_adopt-users :
      (email : String) (s : AdminState) → (create_or_adopt p email s).1.users ≡ s.users
  unfolding create_or_adopt
  create_or_adopt-users email s =
      adopt-users email (create_user p email s) ∙ create_user-users email s
