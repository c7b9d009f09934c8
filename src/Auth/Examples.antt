-- ===== src/Auth/Examples.antt =====
-- The theorems on the routes that change users, at one administrator.
use ai_content_workflow.Prelude.{
  ◌≡◌, refl, ap, sym, ◌∙◌, String, Bool, true, false, Option, none, some, List, [], ◌∷◌, inl, inr,
  arith, Bool-cases, get_or_else, keep, split, trim, to_lower,
}
use ai_content_workflow.Json.{Json, Fields, get_field}
use ai_content_workflow.Auth.Roles.{
  viewer, coerce_role, effective_role, is_bootstrap, is_admin_eligible_email, cap_role,
  role_meets_requirement,
}
use ai_content_workflow.Auth.Access.{
  AppUser, Session, find_user, find_by, stored_role, is_disabled, is_revoked, load_role,
  require_role, unauthorized,
}
use ai_content_workflow.Auth.Directory.{
  GotrueUser, GotrueRequest, post_user, put_user, delete_one, get_users, user_body, users_body,
  json_body, GotrueReply, answered, AdminState, statement, find_row, update_row, delete_row,
  purge_email, upsert_row,
}
use ai_content_workflow.Auth.Gotrue.{
  GotrueError, GotrueResult, done, failed, broke, AdminServices, config_error, require_email,
  require_non_empty, settle_reply, admin_fetch, call_with, call_gotrue, create_user, delete_user,
  update_user, find_user_by_email, find_address, find_in_pages, list_users, settle_page, find_email,
  extract_gotrue_message, read_user, and_then, given,
}
use ai_content_workflow.Auth.Requests.{
  text, post_users, put_role, post_disable, delete_users, revoke_sessions, is_already_registered,
  says_registered, is_gotrue_error, new_role, role_field, may_be_admin, is_self, AdminRequest,
}
use ai_content_workflow.Auth.Admin.{
  adopt, found_or, create_or_adopt, store_user, post_user_route, disable_route, delete_route,
  revoke_route, revoke_auth_sessions, best_effort, store_status, tolerate, delete_stored, handle,
  serve, serve_all,
}
use ai_content_workflow.Auth.Keys.{IsTable, str_eq-false}
use ai_content_workflow.Auth.Served.{OwnDomain, serve_all-IsTable}
use ai_content_workflow.Auth.Ended.{serve-disabled, serve-revoked}
use ai_content_workflow.Auth.Deleted.{serve-deleted}

abbrev new_user : GotrueUser
new_user = record { id = "u9"; email = none; email_confirmed_at = none; confirmed_at = none }

-- GoTrue creates every user that is asked for, and lists none.
abbrev creates : GotrueRequest → GotrueReply
creates (post_user email) = answered 200 (user_body new_user)
creates (put_user id ban) = answered 200 (json_body Json.null)
creates (delete_one id) = answered 200 (json_body Json.null)
creates (get_users page per_page) = answered 200 (users_body [])

abbrev services : AdminServices
services = record {
  gotrue = record { supabase_url = some "https://x.example"; service_role_key = some "key" };
  roles = record { bootstrap_admin_emails = none; admin_email_domains = some "desk.example" };
  protocol_of = λ url. some "https:";
  send = λ r s. creates r;
  now = λ s. 100;
  statement_fails = λ s. false;
}

abbrev row : String → String → String → AppUser
row id email role = record {
  id = id;
  email = email;
  role = some role;
  status = some "active";
  sessions_revoked = none;
}

abbrev start : AdminState
start = record {
  users = row "u1" "chief@desk.example" "admin" ∷ row "u2" "b@x.example" "author" ∷ [];
  ended = [];
  requests = [];
  statements = 0;
}

abbrev session_of : String → String → Session
session_of id email = record {
  user_id = some id;
  user_email = some email;
  token_issued_at = some 50;
}

abbrev chief : Session
chief = session_of "u1" "chief@desk.example"

abbrev writer : Session
writer = session_of "u2" "b@x.example"

start-IsTable : IsTable services.roles start.users
unfolding to_lower is_admin_eligible_email keep split trim
start-IsTable = (
  (
    ((str_eq-false "u1" "u2" refl, str_eq-false "chief@desk.example" "b@x.example" refl), tt),
    (tt, tt),
  ),
  (
    (λ e. refl),
    (
      (λ e.
          absurd
            (str_eq-false "author" "admin" refl (ap (λ (o : Option String). get_or_else o "") e))),
      tt,
    ),
  ),
)

email_of : GotrueResult GotrueUser → Option String
email_of (done u) = u.email
email_of (failed e) = none
email_of broke = none

is_done : GotrueResult GotrueUser → Bool
is_done (done u) = true
is_done (failed e) = false
is_done broke = false

-- No user is found.
find_address-done :
    (a : GotrueResult String) (e : GotrueError) (s : AdminState)
    → is_done (and_then (find_address services a s).0 (found_or services e)) ≡ false
unfolding is_done find_address find_in_pages list_users call_gotrue config_error call_with
    admin_fetch settle_reply settle_page find_email found_or trim
find_address-done (failed f) e s = refl
find_address-done broke e s = refl
find_address-done (done v) e s = refl

created-email :
    (email : String) (r : GotrueResult String) (s : AdminState)
    → email_of (adopt services email (call_with services post_user (read_user services) r s)).0
      ≡ none
unfolding email_of is_done adopt call_with admin_fetch settle_reply find_user_by_email
created-email email (done v) s = refl
created-email email broke s = refl
created-email email (failed e) s = elim (Bool-cases (is_already_registered e)) [
  | inr other ↦ rw (other, adopt, email_of) refl
  | inl registered ↦
      rw (registered, adopt) (no_email _ (find_address-done (require_email email) e s))
]
  where
    no_email : (r : GotrueResult GotrueUser) → is_done r ≡ false → email_of r ≡ none
    no_email (done u) h = absurd (cc h)
    no_email (failed f) h = refl
    no_email broke h = refl

services-OwnDomain : OwnDomain services
unfolding create_or_adopt create_user call_gotrue config_error trim email_of
services-OwnDomain email u s e =
    let no_email : u.email ≡ none =
      ap email_of (sym e) ∙ created-email email (require_email email) s in
    ap (λ (o : Option String). is_admin_eligible_email services.roles (some (get_or_else o email)))
      no_email

abbrev invited : String
invited = "c@desk.example"

-- The chief invites a reviewer and makes the writer one, the writer tries the same, the chief disables
-- the writer.
abbrev requests : List (Session × AdminRequest)
requests =
    (chief, post_users (text invited) (text "admin"))
    ∷ (chief, put_role "u2" (text "reviewer"))
    ∷ (writer, put_role "u2" (text "admin"))
    ∷ (chief, post_disable "u2")
    ∷ []

serve_all-IsTable_example : IsTable services.roles (serve_all services requests start).users
serve_all-IsTable_example =
    serve_all-IsTable services requests start services-OwnDomain start-IsTable

serve-disabled_example :
    require_role services.roles
      (serve services chief (post_disable "u2") start).1.users
      viewer
      writer
    ≡ unauthorized
unfolding serve handle require_role load_role find_user find_by stored_role is_disabled is_revoked
    effective_role is_bootstrap is_admin_eligible_email cap_role coerce_role role_meets_requirement
    to_lower trim keep split disable_route update_user call_gotrue config_error call_with
    require_non_empty admin_fetch settle_reply best_effort revoke_auth_sessions store_status
    statement find_row update_row
serve-disabled_example =
    serve-disabled services chief "u2" start
      (record (row "u2" "b@x.example" "author") { status = some "disabled" }) writer viewer refl
      refl refl refl

serve-revoked_example :
    require_role services.roles
      (serve services chief (revoke_sessions "u2") start).1.users
      viewer
      writer
    ≡ unauthorized
unfolding serve handle require_role load_role find_user find_by stored_role is_disabled is_revoked
    effective_role is_bootstrap is_admin_eligible_email cap_role coerce_role role_meets_requirement
    to_lower trim keep split revoke_route revoke_auth_sessions statement find_row update_row
serve-revoked_example =
    serve-revoked services chief "u2" start writer viewer 50 refl refl refl refl (λ t. omega arith)
      refl

serve-deleted_example :
    require_role services.roles
      (serve services chief (delete_users "u2") start).1.users
      viewer
      writer
    ≡ unauthorized
unfolding serve handle require_role load_role find_user find_by stored_role is_disabled is_revoked
    effective_role is_bootstrap is_admin_eligible_email cap_role coerce_role role_meets_requirement
    to_lower trim keep split delete_route is_self delete_user call_gotrue config_error call_with
    require_non_empty admin_fetch settle_reply tolerate delete_stored statement find_row delete_row
serve-deleted_example =
    serve-deleted services chief "u2" start (row "u2" "b@x.example" "author") writer viewer
      start-IsTable refl refl refl refl refl

-- GoTrue knows the chief already.
abbrev registered : GotrueRequest → GotrueReply
registered (post_user email) =
    answered 422
      (json_body (Json.obj (Fields.field "msg" (Json.str "already been registered") Fields.end)))
registered (put_user id ban) = answered 200 (json_body Json.null)
registered (delete_one id) = answered 200 (json_body Json.null)
registered (get_users page per_page) =
    answered 200
      (users_body (record new_user { id = "u1"; email = some "chief@desk.example" } ∷ []))

-- The guards against taking one's own role away do not cover adding oneself, or disabling oneself.
added_oneself :
    find_row "u1"
      (serve
        (record services { send = λ r s. registered r })
        chief
        (post_users (text "chief@desk.example") (text "viewer"))
        start).1.users
    ≡ some (row "u1" "chief@desk.example" "viewer")
unfolding serve handle require_role load_role find_user find_by stored_role is_disabled is_revoked
    effective_role is_bootstrap is_admin_eligible_email cap_role coerce_role role_meets_requirement
    to_lower trim keep split post_user_route new_role role_field may_be_admin create_or_adopt adopt
    create_user call_gotrue config_error call_with require_email require_non_empty admin_fetch
    settle_reply extract_gotrue_message given is_already_registered says_registered is_gotrue_error
    find_user_by_email find_address find_in_pages list_users settle_page find_email found_or
    store_user purge_email upsert_row update_row find_row statement get_field
added_oneself = refl
