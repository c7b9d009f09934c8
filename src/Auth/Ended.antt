-- ===== src/Auth/Ended.antt =====
-- A user that is disabled, or whose sessions are revoked, or that is deleted has no access any more.
use ai_content_workflow.Prelude.{
  Ends, pure, ◌>>=◌, ℕ, ◌<◌, ◌≡◌, refl, sym, ap, ◌∙◌, subst, String, true, false, not, ◌&&◌, Option,
  none, some, List, [], ◌∷◌, inl, inr, arith, Bool-cases, str_eq, same_text,
}
use ai_content_workflow.Auth.Roles.{
  Role, admin, is_bootstrap, is_admin_eligible_email, effective_role, AdminEnv,
}
use ai_content_workflow.Auth.Access.{
  AppUser, Session, Access, allowed, unauthorized, forbidden, require_role, load_role, find_user,
  find_by, stored_role, is_disabled, is_revoked, is_present,
}
use ai_content_workflow.Auth.Directory.{AdminState, statement, find_row, update_row}
use ai_content_workflow.Auth.Gotrue.{AdminServices, update_user}
use ai_content_workflow.Auth.Requests.{
  AdminReply, user_updated, sessions_ended, access_denied, post_disable, revoke_sessions,
  AdminRequest,
}
use ai_content_workflow.Auth.Admin.{
  M, best_effort, revoke_auth_sessions, store_status, disable_route, revoke_route, handle, serve,
  reply_with,
}
use ai_content_workflow.Auth.Provider.{update_user-users}
use ai_content_workflow.Auth.Served.{best_effort-users}
use ai_content_workflow.Auth.Contracts.{
  sent, Ends-statement, Ends-write, Ends-with_user, Ends-reply_with,
}

pub find_by-find_row :
    (id : String) (users : List AppUser)
    → find_by (λ u. same_text (some u.id) (some id)) users ≡ find_row id users
unfolding find_by find_row
find_by-find_row id [] = refl
find_by-find_row id (u ∷ us) = elim (Bool-cases (str_eq u.id id)) [
  | inl own ↦ rw (own, find_by, find_row) refl
  | inr differs ↦ rw (differs, find_by, find_row) (find_by-find_row id us)
]

find_row-update_row :
    (id : String) (f : AppUser → AppUser) (u : AppUser) (users : List AppUser)
    → ((v : AppUser) → (f v).id ≡ v.id)
    → find_row id users ≡ some u
    → find_row id (update_row id f users) ≡ some (f u)
unfolding find_row update_row
find_row-update_row id f u [] same_id found = absurd (cc found)
find_row-update_row id f u (v ∷ vs) same_id found = elim (Bool-cases (str_eq v.id id)) [
  | inl own ↦
      let same : some v ≡ some u = rw (own, find_row) at found in
      let still : str_eq (f v).id id ≡ true = ap (λ (t : String). str_eq t id) (same_id v) ∙ own in
      rw (own, update_row, still, find_row)
        (ap (λ (o : Option AppUser). elim o [ none ↦ none | some w ↦ some (f w) ]) same)
  | inr differs ↦
      rw (differs, update_row, find_row, differs)
        (find_row-update_row id f u vs same_id (rw (differs, find_row) at found))
]

module _ (env : AdminEnv) (target : Session) (id : String) where
  -- The role of a session that is not of a bootstrap administrator comes from its row.
  pub denied :
      (users : List AppUser) (required : Role)
      → (is_bootstrap env target.user_email && is_admin_eligible_email env target.user_email)
        ≡ false
      → stored_role target (find_user users target) ≡ none
      → require_role env users required target ≡ unauthorized
  unfolding require_role load_role effective_role
  denied users required ordinary nothing = ground (arith, ordinary, nothing)

  -- A session with an id is looked up by it first.
  find_user_by_id :
      (users : List AppUser) (u : AppUser)
      → target.user_id ≡ some id
      → str_eq id "" ≡ false
      → find_row id users ≡ some u
      → find_user users target ≡ some u
  unfolding find_user
  find_user_by_id users u own present found =
      let by_id : find_by (λ v. same_text (some v.id) target.user_id) users ≡ some u =
        ap (λ (o : Option String). find_by (λ v. same_text (some v.id) o) users) own
        ∙ find_by-find_row id users
        ∙ found in
      let there : is_present target.user_id ≡ true = ap is_present own ∙ ap not present in
      rw (there, by_id, find_user) refl

-- What holds of a reply holds of the reply that was given.
pub Ends-reply :
    (R : AdminReply → AdminState → Type 0) (r : Option AdminReply × AdminState) (reply : AdminReply)
    → Ends R (λ t. Unit {0}) r
    → r.0 ≡ some reply
    → R reply r.1
Ends-reply R (none, t) reply h e = absurd (cc e)
Ends-reply R (some given, t) reply h e =
    subst (λ (a : AdminReply). R a t)
      (ap (λ (o : Option AdminReply). elim o [ none ↦ reply | some a ↦ a ]) e) h

module _ (p : AdminServices) where
  -- A route that was entered stands behind a reply that is not a denial of access.
  pub serve-handle :
      (actor : Session) (request : AdminRequest) (s : AdminState) (reply : AdminReply)
      → ((access : Access) → reply ≡ access_denied access → ⊥)
      → (serve p actor request s).0 ≡ some reply
      → serve p actor request s ≡ handle p actor request s
  unfolding serve
  serve-handle actor request s reply entered e =
      by_access (require_role p.roles s.users admin actor) e
    where
      Served : Access → Option AdminReply × AdminState
      Served access = elim access [
        | allowed ↦ handle p actor request s
        | unauthorized ↦ (some (access_denied unauthorized), s)
        | forbidden ↦ (some (access_denied forbidden), s)
      ]

      given : (a : AdminReply) → some a ≡ some reply → reply ≡ a
      given a h = ap (λ (o : Option AdminReply). elim o [ none ↦ reply | some x ↦ x ]) (sym h)

      by_access :
          (access : Access)
          → (Served access).0 ≡ some reply
          → Served access ≡ handle p actor request s
      by_access allowed h = refl
      by_access unauthorized h =
          absurd (entered unauthorized (given (access_denied unauthorized) h))
      by_access forbidden h = absurd (entered forbidden (given (access_denied forbidden) h))

  -- A user that was disabled has no access with any token, unless as a bootstrap administrator.
  pub serve-disabled :
      (actor : Session) (id : String) (s : AdminState) (row : AppUser) (target : Session)
      (required : Role)
      → target.user_id ≡ some id
      → str_eq id "" ≡ false
      → (is_bootstrap p.roles target.user_email
          && is_admin_eligible_email p.roles target.user_email)
        ≡ false
      → (serve p actor (post_disable id) s).0 ≡ some (user_updated row)
      → require_role p.roles (serve p actor (post_disable id) s).1.users required target
        ≡ unauthorized
  unfolding handle disable_route store_status stored_role is_disabled
  serve-disabled actor id s row target required own present ordinary e =
      let entered =
        serve-handle actor (post_disable id) s (user_updated row) (λ access h. absurd (cc h)) e in
      let R : AdminReply → AdminState → Type 0 = λ reply t.
        (a : AppUser)
        → reply ≡ user_updated a
        → require_role p.roles t.users required target ≡ unauthorized in
      let Q : AdminState → Type 0 = λ t. Unit {0} in
      let r = update_user p id "876000h" s in
      let store : Unit {0} → M p AdminReply =
        λ v t. store_status p id "disabled" (best_effort p (revoke_auth_sessions p id) t) in
      let f : AppUser → AppUser = λ u. record u { status = some "disabled" } in
      let shut : (users : List AppUser) (u : AppUser)
          → find_row id users ≡ some u
          → require_role p.roles (update_row id f users) required target ≡ unauthorized =
        λ users u found. denied p.roles target id (update_row id f users) required ordinary (
          ap (stored_role target) (
            find_user_by_id p.roles target id (update_row id f users) (f u) own present
              (find_row-update_row id f u users (λ v. refl) found))) in
      let ended : AdminState = best_effort p (revoke_auth_sessions p id) r.1 in
      let same : ended.users ≡ s.users =
        best_effort-users p id r.1 ∙ update_user-users p id "876000h" s in
      let outcome : Ends R Q (handle p actor (post_disable id) s) =
        Ends-with_user p R Q id
          (λ u t.
            reply_with p (update_user p id "876000h" t).0 store (update_user p id "876000h" t).1)
          s (λ a h. absurd (cc h))
          (λ u found.
            Ends-reply_with p R Q r.0 store r.1 tt (λ n a h. absurd (cc h))
              (λ v done_it.
                Ends-write p R Q id (update_row id f) user_updated ended tt tt
                  (λ written again a h. shut ended.users u (ap (find_row id) same ∙ found)))) in
      let served = subst (Ends R Q) (sym entered) outcome in
      Ends-reply R (serve p actor (post_disable id) s) (user_updated row) served e row refl

  stored_role-revoked :
      (target : Session) (u : AppUser) (issued at : ℕ)
      → target.token_issued_at ≡ some issued
      → issued < at
      → stored_role target (some (record u { sessions_revoked = some at })) ≡ none
  unfolding stored_role is_revoked
  stored_role-revoked target u issued at token before = ground (arith, token, before)

  -- A user whose sessions were revoked has no access with a token that was issued before, unless as a
  -- bootstrap administrator.
  pub serve-revoked :
      (actor : Session) (id : String) (s : AdminState) (target : Session) (required : Role)
      (issued : ℕ)
      → target.user_id ≡ some id
      → str_eq id "" ≡ false
      → (is_bootstrap p.roles target.user_email
          && is_admin_eligible_email p.roles target.user_email)
        ≡ false
      → target.token_issued_at ≡ some issued
      → ((t : AdminState) → issued < p.now t)
      → (serve p actor (revoke_sessions id) s).0 ≡ some sessions_ended
      → require_role p.roles (serve p actor (revoke_sessions id) s).1.users required target
        ≡ unauthorized
  unfolding handle revoke_route revoke_auth_sessions
  serve-revoked actor id s target required issued own present ordinary token before e =
      let entered =
        serve-handle actor (revoke_sessions id) s sessions_ended (λ access h. absurd (cc h)) e in
      let R : AdminReply → AdminState → Type 0 = λ reply t.
        reply ≡ sessions_ended → require_role p.roles t.users required target ≡ unauthorized in
      let Q : AdminState → Type 0 = λ t. Unit {0} in
      let end_all : AdminState → AdminState = λ t. record t { ended = id ∷ t.ended } in
      let stamp : AdminState → AdminState = λ t. record t {
        users = update_row id (λ u. record u { sessions_revoked = some (p.now t) }) t.users;
      } in
      let answer : Unit {0} → M p AdminReply = λ v. pure sessions_ended in
      let second : Unit {0} → M p AdminReply = λ v. statement p.statement_fails stamp >>= answer in
      let now : ℕ = p.now (sent (end_all (sent s))) in
      let f : AppUser → AppUser = λ u. record u { sessions_revoked = some now } in
      let outcome : Ends R Q (handle p actor (revoke_sessions id) s) =
        Ends-with_user p R Q id (λ u. statement p.statement_fails end_all >>= second) s
          (λ h. absurd (cc h))
          (λ u found. Ends-statement p R Q end_all second s tt (
            Ends-statement p R Q stamp answer (end_all (sent s)) tt (λ h.
              denied p.roles target id (update_row id f s.users) required ordinary (
                ap (stored_role target) (
                  find_user_by_id p.roles target id (update_row id f s.users) (f u) own present
                    (find_row-update_row id f u s.users (λ v. refl) found))
                ∙ stored_role-revoked target u issued now token (before _))))) in
      Ends-reply R (serve p actor (revoke_sessions id) s) sessions_ended
        (subst (Ends R Q) (sym entered) outcome) e refl
