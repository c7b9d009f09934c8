-- ===== src/Auth/Served.antt =====
-- The routes that change users keep the table.
use ai_content_workflow.Prelude.{
  Ends, Ends-state, pure, ◌&&◌, ◌>>=◌, ◌≡◌, refl, sym, ◌∙◌, subst, String, true, not, Option, some,
  List, [], ◌∷◌, inl, inr, arith, Bool-cases, Option-cases, str_eq, eq_iff, get_or_else,
}
use ai_content_workflow.Auth.Roles.{is_admin_eligible_email, admin}
use ai_content_workflow.Auth.Access.{
  AppUser, Session, Access, allowed, unauthorized, forbidden, require_role,
}
use ai_content_workflow.Auth.Directory.{
  AdminState, statement, GotrueUser, find_row, update_row, delete_row, purge_email, upsert_row,
}
use ai_content_workflow.Auth.Gotrue.{AdminServices, done, delete_user, update_user}
use ai_content_workflow.Auth.Requests.{
  Field, AdminReply, user_created, user_updated, user_deleted, sessions_ended, access_denied,
  AdminRequest, post_users, put_role, post_disable, post_enable, delete_users, revoke_sessions,
  new_role, role_field, trimmed, may_be_admin, is_self,
}
use ai_content_workflow.Auth.Admin.{
  M, create_or_adopt, store_user, post_user_route, change_role, put_role_route, best_effort,
  revoke_auth_sessions, store_status, disable_route, enable_route, tolerate, delete_stored,
  delete_route, revoke_route, handle, serve, serve_all, reply_with, write,
}
use ai_content_workflow.Auth.Table.{
  IsTable-delete_row, IsTable-purge_email, IsTable-update_row, IsTable-update_role,
  IsTable-upsert_row,
}
use ai_content_workflow.Auth.Keys.{IsTable}
use ai_content_workflow.Auth.Provider.{create_or_adopt-users, delete_user-users, update_user-users}
use ai_content_workflow.Auth.Contracts.{
  sent, Ends-statement, Ends-sql, Ends-write, Ends-with_user, Ends-reply_with,
}

-- An identity that GoTrue creates or finds under an email has one of the same standing.
abbrev pub OwnDomain : AdminServices → Type 0
OwnDomain p =
    (email : String) (u : GotrueUser) (s : AdminState)
    → (create_or_adopt p email s).0 ≡ done u
    → is_admin_eligible_email p.roles (some (get_or_else u.email email))
      ≡ is_admin_eligible_email p.roles (some email)

module _ (p : AdminServices) where
  abbrev K : AdminState → Type 0
  K s = IsTable p.roles s.users

  abbrev Keeps : Option AdminReply × AdminState → Type 0
  Keeps r = Ends (λ reply t. K t) K r

  K-same : (s t : AdminState) → t.users ≡ s.users → K s → K t
  K-same s t same h = subst (IsTable p.roles) (sym same) h

  store_user-Keeps :
      (email role : String) (u : GotrueUser) (s : AdminState)
      → (role ≡ "admin" → is_admin_eligible_email p.roles (some (get_or_else u.email email)) ≡ true)
      → K s
      → Keeps (store_user p email role u s)
  unfolding store_user
  store_user-Keeps email role u s may h =
      let address : String = get_or_else u.email email in
      let purged = IsTable-purge_email p.roles u.id address s.users h in
      let stored =
        IsTable-upsert_row p.roles u.id address role (purge_email u.id address s.users) may purged.0
          purged.1 in
      Ends-sql p (λ reply t. K t) K (purge_email u.id address)
        (λ v. write p u.id (upsert_row u.id address role) user_created) s h
        (Ends-write p (λ reply t. K t) K u.id (upsert_row u.id address role) user_created
          (record (sent s) { users = purge_email u.id address s.users }) purged.0 stored
          (λ row found. stored))

  may_be_admin_lem :
      (role email : String)
      → may_be_admin p role email ≡ true
      → role ≡ "admin"
      → is_admin_eligible_email p.roles (some email) ≡ true
  unfolding may_be_admin
  may_be_admin_lem role email may e = ground (arith, may, (eq_iff role "admin").1 e)

  post_user_route-Keeps :
      (email role : Field) (s : AdminState)
      → OwnDomain p
      → K s
      → Keeps (post_user_route p email role s)
  unfolding post_user_route
  post_user_route-Keeps email_field role_asked s own h =
      let email : String = trimmed email_field in
      elim (Bool-cases (str_eq email "")) [
        | inl empty ↦ rw (empty, post_user_route) h
        | inr given ↦ elim (Option-cases (new_role role_asked)) [
          | inl unknown ↦ rw (given, unknown, post_user_route) h
          | inr (role, asked) ↦ elim (Bool-cases (may_be_admin p role email)) [
            | inr forbids ↦ rw (given, asked, forbids, post_user_route) h
            | inl may ↦
                let r = create_or_adopt p email s in
                let after : K r.1 = K-same s r.1 (create_or_adopt-users p email s) h in
                rw (given, asked, may, post_user_route)
                  (Ends-reply_with p (λ reply t. K t) K r.0 (store_user p email role) r.1 after
                    (λ n. after)
                    (λ u answered.
                      store_user-Keeps email role u r.1
                        (λ e. own email u s answered ∙ may_be_admin_lem role email may e) after))
          ]
        ]
      ]

  change_role-Keeps :
      (id role : String) (u : AppUser) (s : AdminState)
      → find_row id s.users ≡ some u
      → K s
      → Keeps (change_role p id role u s)
  unfolding change_role
  change_role-Keeps id role u s found h = elim (Bool-cases (may_be_admin p role u.email)) [
    | inr forbids ↦ rw (forbids, change_role) h
    | inl may ↦
        let kept : K (record (sent s) {
          users = update_row id (λ v. record v { role = some role }) s.users;
        }) =
          IsTable-update_role p.roles id role u s.users found (may_be_admin_lem role u.email may)
            h in
        rw (may, change_role)
          (Ends-write p (λ reply t. K t) K id (update_row id (λ v. record v { role = some role }))
            user_updated s h kept (λ row again. kept))
  ]

  put_role_route-Keeps :
      (session : Session) (id : String) (role : Field) (s : AdminState)
      → K s
      → Keeps (put_role_route p session id role s)
  unfolding put_role_route
  put_role_route-Keeps session id asked s h = elim (Option-cases (role_field asked)) [
    | inl unknown ↦ rw (unknown, put_role_route) h
    | inr (role, known) ↦ elim (Bool-cases (is_self session id && not (str_eq role "admin"))) [
      | inl own ↦ rw (known, own, put_role_route) h
      | inr others ↦
          rw (known, others, put_role_route)
            (Ends-with_user p (λ reply t. K t) K id (change_role p id role) s h
              (λ u found. change_role-Keeps id role u s found h))
    ]
  ]

  store_status-Keeps :
      (id status : String) (s : AdminState) → K s → Keeps (store_status p id status s)
  unfolding store_status
  store_status-Keeps id status s h =
      let f : AppUser → AppUser = λ u. record u { status = some status } in
      let kept : K (record (sent s) { users = update_row id f s.users }) =
        IsTable-update_row p.roles id f (λ u. refl) (λ u. refl) (λ u. refl) s.users h in
      Ends-write p (λ reply t. K t) K id (update_row id f) user_updated s h kept (λ row found. kept)

  pub best_effort-users :
      (id : String) (s : AdminState) → (best_effort p (revoke_auth_sessions p id) s).users ≡ s.users
  unfolding best_effort revoke_auth_sessions statement
  best_effort-users id s = elim (Bool-cases (p.statement_fails s)) [
    | inl fails ↦ rw (fails, best_effort, revoke_auth_sessions, statement) refl
    | inr works ↦ rw (works, best_effort, revoke_auth_sessions, statement) refl
  ]

  disable_route-Keeps : (id : String) (s : AdminState) → K s → Keeps (disable_route p id s)
  unfolding disable_route
  disable_route-Keeps id s h =
      let r = update_user p id "876000h" s in
      let after : K r.1 = K-same s r.1 (update_user-users p id "876000h" s) h in
      let ended : AdminState = best_effort p (revoke_auth_sessions p id) r.1 in
      let store : Unit {0} → M p AdminReply =
        λ v t. store_status p id "disabled" (best_effort p (revoke_auth_sessions p id) t) in
      Ends-with_user p (λ reply t. K t) K id
        (λ u t.
          reply_with p (update_user p id "876000h" t).0 store (update_user p id "876000h" t).1)
        s h
        (λ u found.
          Ends-reply_with p (λ reply t. K t) K r.0 store r.1 after (λ n. after)
            (λ v answered.
              store_status-Keeps id "disabled" ended
                (K-same r.1 ended (best_effort-users id r.1) after)))

  enable_route-Keeps : (id : String) (s : AdminState) → K s → Keeps (enable_route p id s)
  unfolding enable_route
  enable_route-Keeps id s h =
      let r = update_user p id "none" s in
      let after : K r.1 = K-same s r.1 (update_user-users p id "none" s) h in
      let store : Unit {0} → M p AdminReply = λ v. store_status p id "active" in
      Ends-with_user p (λ reply t. K t) K id
        (λ u t. reply_with p (update_user p id "none" t).0 store (update_user p id "none" t).1) s h
        (λ u found.
          Ends-reply_with p (λ reply t. K t) K r.0 store r.1 after (λ n. after)
            (λ v answered. store_status-Keeps id "active" r.1 after))

  delete_route-Keeps :
      (session : Session) (id : String) (s : AdminState) → K s → Keeps (delete_route p session id s)
  unfolding delete_route delete_stored
  delete_route-Keeps session id s h = elim (Bool-cases (is_self session id)) [
    | inl own ↦ rw (own, delete_route) h
    | inr others ↦
        let r = delete_user p id s in
        let after : K r.1 = K-same s r.1 (delete_user-users p id s) h in
        let remove : Unit {0} → M p AdminReply = λ v. delete_stored p id in
        rw (others, delete_route)
          (Ends-with_user p (λ reply t. K t) K id
            (λ u t. reply_with p (tolerate p (delete_user p id t).0) remove (delete_user p id t).1)
            s h
            (λ u found.
              Ends-reply_with p (λ reply t. K t) K (tolerate p r.0) remove r.1 after (λ n. after)
                (λ v answered.
                  Ends-sql p (λ reply t. K t) K (delete_row id) (λ w. pure user_deleted) r.1 after
                    (IsTable-delete_row p.roles id r.1.users after))))
  ]

  revoke_route-Keeps : (id : String) (s : AdminState) → K s → Keeps (revoke_route p id s)
  unfolding revoke_route revoke_auth_sessions
  revoke_route-Keeps id s h =
      let end_all : AdminState → AdminState = λ t. record t { ended = id ∷ t.ended } in
      let stamp : AdminState → AdminState = λ t. record t {
        users = update_row id (λ u. record u { sessions_revoked = some (p.now t) }) t.users;
      } in
      let answer : Unit {0} → M p AdminReply = λ v. pure sessions_ended in
      let second : Unit {0} → M p AdminReply = λ v. statement p.statement_fails stamp >>= answer in
      Ends-with_user p (λ reply t. K t) K id (λ u. statement p.statement_fails end_all >>= second) s
        h
        (λ u found.
          Ends-statement p (λ reply t. K t) K end_all second s h
            (Ends-statement p (λ reply t. K t) K stamp answer (end_all (sent s)) h
              (IsTable-update_row p.roles id _ (λ v. refl) (λ v. refl) (λ v. refl) s.users h)))

  handle-Keeps :
      (session : Session) (request : AdminRequest) (s : AdminState)
      → OwnDomain p
      → K s
      → Keeps (handle p session request s)
  unfolding handle
  handle-Keeps session (post_users email role) s own h = post_user_route-Keeps email role s own h
  handle-Keeps session (put_role id role) s own h = put_role_route-Keeps session id role s h
  handle-Keeps session (post_disable id) s own h = disable_route-Keeps id s h
  handle-Keeps session (post_enable id) s own h = enable_route-Keeps id s h
  handle-Keeps session (delete_users id) s own h = delete_route-Keeps session id s h
  handle-Keeps session (revoke_sessions id) s own h = revoke_route-Keeps id s h

  serve-Keeps :
      (session : Session) (request : AdminRequest) (s : AdminState)
      → OwnDomain p
      → K s
      → Keeps (serve p session request s)
  unfolding serve
  serve-Keeps session request s own h = by_access (require_role p.roles s.users admin session)
    where
      by_access :
          (access : Access)
          → Keeps (elim access [
            | allowed ↦ handle p session request s
            | unauthorized ↦ (some (access_denied unauthorized), s)
            | forbidden ↦ (some (access_denied forbidden), s)
          ])
      by_access allowed = handle-Keeps session request s own h
      by_access unauthorized = h
      by_access forbidden = h

  -- Whatever is asked for, by whom, and whatever fails on the way, the table of users keeps its keys (ids
  -- differ, and emails differ in more than the case of letters) and every administrator in it has an email
  -- of an administrators' domain, when the identities of GoTrue have the domain that was asked for.
  pub serve_all-IsTable :
      (requests : List (Session × AdminRequest)) (s : AdminState)
      → OwnDomain p
      → IsTable p.roles s.users
      → IsTable p.roles (serve_all p requests s).users
  unfolding serve_all
  serve_all-IsTable [] s own h = h
  serve_all-IsTable (r ∷ rest) s own h =
      serve_all-IsTable rest (serve p r.0 r.1 s).1 own
        (Ends-state K (serve p r.0 r.1 s) (serve-Keeps r.0 r.1 s own h))
