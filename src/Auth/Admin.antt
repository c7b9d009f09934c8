-- ===== src/Auth/Admin.antt =====
-- deploy/cloudflare-workers/src/routes/admin.ts: the routes that change users. `none` is a request that
-- throws. The replies leave out the names and times that are shown.
use ai_content_workflow.Prelude.{
  Fallible, ◌>>=◌, ◌>>◌, pure, String, not, ◌&&◌, Option, none, some, List, [], ◌∷◌, str_eq, ◌==◌,
  if◌then◌else◌, get_or_else,
}
use ai_content_workflow.Auth.Roles.{admin}
use ai_content_workflow.Auth.Access.{
  AppUser, Session, unauthorized, forbidden, allowed, require_role,
}
use ai_content_workflow.Auth.Directory.{
  GotrueUser, AdminState, statement, find_row, update_row, delete_row, purge_email, upsert_row,
}
use ai_content_workflow.Auth.Gotrue.{
  GotrueError, GotrueResult, done, failed, broke, and_then, AdminServices, create_user, delete_user,
  update_user, find_user_by_email,
}
use ai_content_workflow.Auth.Requests.{
  Field, email_required, invalid_role, admin_domain_forbidden, self_demotion_forbidden,
  self_delete_forbidden, user_not_found, AdminReply, refused, gotrue_refused, user_created,
  user_updated, user_deleted, sessions_ended, access_denied, AdminRequest, post_users, put_role,
  post_disable, post_enable, delete_users, revoke_sessions, error_status, is_gotrue_error,
  is_already_registered, is_self, role_field, new_role, trimmed, may_be_admin,
}

module _ (p : AdminServices) where
  abbrev pub M : Type 0 → Type 0
  M A = Fallible AdminState A

  -- A result of GoTrue: its errors are replies, other exceptions go on.
  abbrev pub reply_with : {A : Type 0} → GotrueResult A → (A → M AdminReply) → M AdminReply
  reply_with (done a) k s = k a s
  reply_with (failed e) k s = (some (gotrue_refused (error_status e)), s)
  reply_with broke k s = (none, s)

  -- The identity that was found, or the error that there was.
  unfoldable pub found_or : GotrueError → Option GotrueUser → GotrueResult GotrueUser
  found_or e none = failed e
  found_or e (some u) = done u

  -- An identity that is registered under the email already is adopted.
  unfoldable pub adopt :
      String → GotrueResult GotrueUser × AdminState → GotrueResult GotrueUser × AdminState
  unfolding found_or is_already_registered find_user_by_email
  adopt email (done u, s) = (done u, s)
  adopt email (broke, s) = (broke, s)
  adopt email (failed e, s) =
      let r = find_user_by_email p email s in
      if is_already_registered e then (and_then r.0 (found_or e), r.1) else (failed e, s)

  unfoldable pub create_or_adopt : String → AdminState → GotrueResult GotrueUser × AdminState
  unfolding adopt create_user
  create_or_adopt email s = adopt email (create_user p email s)

  abbrev pub sql : (List AppUser → List AppUser) → M (Unit {0})
  sql f = statement p.statement_fails (λ s. record s { users = f s.users })

  -- The row that a statement returned.
  abbrev pub returned : String → M AppUser
  returned id s = (find_row id s.users, s)

  -- A statement that returns the row of an id, which is answered.
  abbrev pub write : String → (List AppUser → List AppUser) → (AppUser → AdminReply) → M AdminReply
  write id f reply = do sql f; row ← returned id; pure (reply row)

  unfoldable pub store_user : String → String → GotrueUser → M AdminReply
  unfolding purge_email upsert_row find_row statement
  store_user email role u = do
    let address = get_or_else u.email email
    sql (purge_email u.id address)
    write u.id (upsert_row u.id address role) user_created

  unfoldable pub post_user_route : Field → Field → M AdminReply
  unfolding new_role may_be_admin create_or_adopt store_user
  post_user_route email_field role s =
      let email = trimmed email_field in
      if str_eq email "" then (some (refused email_required), s) else elim (new_role role) [
        | none ↦ (some (refused invalid_role), s)
        | some role ↦
            if not (may_be_admin p role email)
            then (some (refused admin_domain_forbidden), s)
            else let r = create_or_adopt email s in reply_with r.0 (store_user email role) r.1
      ]

  unfoldable pub change_role : String → String → AppUser → M AdminReply
  unfolding may_be_admin update_row find_row statement
  change_role id role existing s =
      if not (may_be_admin p role existing.email)
      then (some (refused admin_domain_forbidden), s)
      else write id (update_row id (λ u. record u { role = some role })) user_updated s

  -- A route on a user that must be there.
  abbrev pub with_user : String → (AppUser → M AdminReply) → M AdminReply
  with_user id k s = elim (find_row id s.users) [
    | none ↦ (some (refused user_not_found), s)
    | some u ↦ k u s
  ]

  unfoldable pub put_role_route : Session → String → Field → M AdminReply
  unfolding role_field is_self change_role find_row
  put_role_route session id role s = elim (role_field role) [
    | none ↦ (some (refused invalid_role), s)
    | some role ↦
        if is_self session id && not (str_eq role "admin")
        then (some (refused self_demotion_forbidden), s)
        else with_user id (change_role id role) s
  ]

  -- A statement whose failure changes nothing that follows.
  unfoldable pub best_effort : M (Unit {0}) → AdminState → AdminState
  best_effort m s = (m s).1

  unfoldable pub revoke_auth_sessions : String → M (Unit {0})
  unfolding statement
  revoke_auth_sessions id = statement p.statement_fails (λ s. record s { ended = id ∷ s.ended })

  unfoldable pub store_status : String → String → M AdminReply
  unfolding update_row find_row statement
  store_status id status =
      write id (update_row id (λ u. record u { status = some status })) user_updated

  unfoldable pub disable_route : String → M AdminReply
  unfolding update_user store_status best_effort revoke_auth_sessions find_row
  disable_route id = with_user id (λ existing s.
      let r = update_user p id "876000h" s in
      reply_with r.0 (λ u t. store_status id "disabled" (best_effort (revoke_auth_sessions id) t))
        r.1)

  unfoldable pub enable_route : String → M AdminReply
  unfolding update_user store_status find_row
  enable_route id = with_user id (λ existing s.
      let r = update_user p id "none" s in reply_with r.0 (λ u. store_status id "active") r.1)

  -- A user that GoTrue no longer knows is deleted all the same.
  unfoldable pub tolerate : GotrueResult (Unit {0}) → GotrueResult (Unit {0})
  unfolding is_gotrue_error
  tolerate (done u) = done u
  tolerate (failed e) = if is_gotrue_error e.code && e.status == 404 then done tt else failed e
  tolerate broke = broke

  unfoldable pub delete_stored : String → M AdminReply
  unfolding delete_row statement
  delete_stored id = do sql (delete_row id); pure user_deleted

  unfoldable pub delete_route : Session → String → M AdminReply
  unfolding is_self delete_user tolerate delete_stored find_row
  delete_route session id s =
      if is_self session id
      then (some (refused self_delete_forbidden), s)
      else with_user id
          (λ existing t.
            let r = delete_user p id t in reply_with (tolerate r.0) (λ u. delete_stored id) r.1)
          s

  unfoldable pub revoke_route : String → M AdminReply
  unfolding revoke_auth_sessions update_row find_row statement
  revoke_route id = with_user id (λ existing. do
    revoke_auth_sessions id
    statement p.statement_fails (λ s. record s {
      users = update_row id (λ u. record u { sessions_revoked = some (p.now s) }) s.users;
    })
    pure sessions_ended)

  unfoldable pub handle : Session → AdminRequest → M AdminReply
  unfolding post_user_route put_role_route disable_route enable_route delete_route revoke_route
  handle session (post_users email role) = post_user_route email role
  handle session (put_role id role) = put_role_route session id role
  handle session (post_disable id) = disable_route id
  handle session (post_enable id) = enable_route id
  handle session (delete_users id) = delete_route session id
  handle session (revoke_sessions id) = revoke_route id

  -- requireRole("admin") stands before every route.
  unfoldable pub serve : Session → AdminRequest → M AdminReply
  unfolding handle require_role
  serve session request s = elim (require_role p.roles s.users admin session) [
    | allowed ↦ handle session request s
    | unauthorized ↦ (some (access_denied unauthorized), s)
    | forbidden ↦ (some (access_denied forbidden), s)
  ]

  unfoldable pub serve_all : List (Session × AdminRequest) → AdminState → AdminState
  unfolding serve
  serve_all [] s = s
  serve_all (r ∷ rest) s = serve_all rest (serve r.0 r.1 s).1
