-- ===== src/Auth/Requests.antt =====
-- The requests and replies of deploy/cloudflare-workers/src/routes/admin.ts, and its tests on them.
use ai_content_workflow.Prelude.{
  ℕ, suc, String, Bool, true, false, not, ◌&&◌, ◌||◌, Option, none, some, str_eq, ◌==◌,
  if◌then◌else◌, trim, to_lower, contains, starts_with, drop_text, zero,
}
use Prim.Native.Char.{code}
use ai_content_workflow.Auth.Roles.{is_role, is_admin_eligible_email}
use ai_content_workflow.Auth.Access.{AppUser, Session, Access}
use ai_content_workflow.Auth.Gotrue.{
  ErrorCode, not_configured, invalid_input, gotrue_error, network_error, GotrueError, AdminServices,
}

-- A field of a body: missing, or of another type, or a text.
pub data Field : Type 0 where
  missing other : Field
  text : String → Field

pub data Refusal : Type 0 where
  email_required invalid_role admin_domain_forbidden : Refusal
  self_demotion_forbidden self_delete_forbidden user_not_found : Refusal

pub data AdminReply : Type 0 where
  refused : Refusal → AdminReply
  gotrue_refused : ℕ → AdminReply
  user_created user_updated : AppUser → AdminReply
  user_deleted sessions_ended : AdminReply
  access_denied : Access → AdminReply

pub data AdminRequest : Type 0 where
  post_users : Field → Field → AdminRequest
  put_role : String → Field → AdminRequest
  post_disable post_enable delete_users revoke_sessions : String → AdminRequest

-- gotrueErrorResponse
unfoldable pub error_status : GotrueError → ℕ
error_status e = elim e.code [
  | not_configured ↦ 501
  | invalid_input ↦ 400
  | network_error ↦ 502
  | gotrue_error ↦ if e.status == 404 then 404 else 502
]

-- `exists` after `n` characters at most, in one line.
exists_within : ℕ → String → Bool
exists_within zero s = starts_with s "exists"
exists_within (suc n) String.[] = false
exists_within (suc n) (String.◌∷◌ c s) =
    let later = exists_within n s in
    starts_with (String.◌∷◌ c s) "exists" || (not (code c == 10 || code c == 13) && later)

email_exists : String → Bool
unfolding exists_within drop_text
email_exists String.[] = false
email_exists (String.◌∷◌ c s) =
    let rest = email_exists s in
    (starts_with (String.◌∷◌ c s) "email" && exists_within 2 (drop_text 5 (String.◌∷◌ c s))) || rest

-- /already (been )?registered|email.{0,2}exists/i
unfoldable pub says_registered : String → Bool
unfolding email_exists contains to_lower
says_registered message =
    let low = to_lower message in
    contains low "already registered" || contains low "already been registered" || email_exists low

unfoldable pub is_gotrue_error : ErrorCode → Bool
is_gotrue_error gotrue_error = true
is_gotrue_error _ = false

unfoldable pub is_already_registered : GotrueError → Bool
unfolding says_registered is_gotrue_error
is_already_registered e = is_gotrue_error e.code && (says_registered e.message || e.status == 422)

-- The session's own account.
unfoldable pub is_self : Session → String → Bool
is_self session id = elim session.user_id [
  | none ↦ false
  | some own ↦ not (str_eq own "") && str_eq own id
]

unfoldable pub role_field : Field → Option String
unfolding is_role
role_field missing = none
role_field other = none
role_field (text value) = if is_role value then some value else none

-- The role of a new user: the lowest, or the one that is asked for if it is one.
unfoldable pub new_role : Field → Option String
unfolding role_field
new_role missing = some "viewer"
new_role other = role_field other
new_role (text value) = role_field (text value)

abbrev pub trimmed : Field → String
trimmed missing = ""
trimmed other = ""
trimmed (text value) = trim value

unfoldable pub may_be_admin : AdminServices → String → String → Bool
may_be_admin p role email =
    not (str_eq role "admin") || is_admin_eligible_email p.roles (some email)
