-- ===== src/Auth/Gotrue.antt =====
-- deploy/cloudflare-workers/src/auth/gotrue-admin.ts: the calls of the identity provider. The requests
-- themselves and the parsing of the URL are parameters.
use ai_content_workflow.Prelude.{
  ℕ, zero, suc, String, Bool, true, false, not, ◌&&◌, ◌||◌, Option, none, some, List, [], ◌∷◌, ◌++◌,
  str_eq, ltb, leb, ◌==◌, length, if◌then◌else◌, or_else, get_or_else, trim, to_lower, split, ◌<>◌,
  to_decimal,
}
use Prim.Native.Char.{Char, code}
use ai_content_workflow.Json.{Json, Fields, get_field}
use ai_content_workflow.Auth.Roles.{AdminEnv}
use ai_content_workflow.Auth.Directory.{
  GotrueUser, GotrueRequest, post_user, put_user, delete_one, get_users, GotrueBody, user_body,
  users_body, json_body, GotrueReply, unreachable, answered, AdminState,
}

pub data ErrorCode : Type 0 where
  not_configured invalid_input gotrue_error network_error : ErrorCode

pub record GotrueError : Type 0 where
  pub code : ErrorCode
  pub message : String
  pub status : ℕ

-- `broke` stands for an exception of another kind.
pub data GotrueResult (A : Type 0) : Type 0 where
  done : A → GotrueResult A
  failed : GotrueError → GotrueResult A
  broke : GotrueResult A

abbrev pub and_then : {A B : Type 0} → GotrueResult A → (A → GotrueResult B) → GotrueResult B
and_then (done a) f = f a
and_then (failed e) f = failed e
and_then broke f = broke

pub record GotrueEnv : Type 0 where
  pub supabase_url : Option String
  pub service_role_key : Option String

pub record AdminServices : Type 0 where
  pub gotrue : GotrueEnv
  pub roles : AdminEnv
  pub protocol_of : String → Option String
  pub send : GotrueRequest → AdminState → GotrueReply
  pub now : AdminState → ℕ
  pub statement_fails : AdminState → Bool

abbrev pub admin_error : ErrorCode → String → ℕ → GotrueError
admin_error code message status = record { code = code; message = message; status = status }

-- Why there is no configuration.
unfoldable pub config_error : (String → Option String) → GotrueEnv → Option GotrueError
config_error protocol_of env =
    let url = trim (get_or_else env.supabase_url "") in
    let key = trim (get_or_else env.service_role_key "") in
    if str_eq url "" || str_eq key ""
    then some (
        admin_error not_configured
          "Supabase Auth is not configured (SUPABASE_URL / SUPABASE_SERVICE_ROLE_KEY unset)" 501)
    else elim (protocol_of url) [
      | none ↦ some (admin_error not_configured "SUPABASE_URL is not a valid URL" 501)
      | some protocol ↦
          if str_eq protocol "https:" || str_eq protocol "http:"
          then none
          else some (admin_error not_configured "SUPABASE_URL must be http(s)" 501)
    ]

unfoldable pub require_non_empty : String → String → GotrueResult String
require_non_empty value name =
    if str_eq (trim value) ""
    then failed (admin_error invalid_input (name <> " is required") 400)
    else done (trim value)

-- Neither white space nor `@`.
abbrev is_plain : Char → Bool
is_plain c =
    not (leb 9 (code c) && leb (code c) 13) && not (code c == 32 || code c == 160 || code c == 64)

all_plain : String → Bool
all_plain String.[] = true
all_plain (String.◌∷◌ c s) = is_plain c && all_plain s

-- A dot before the last character.
dot_inside : String → Bool
dot_inside String.[] = false
dot_inside (String.◌∷◌ c String.[]) = false
dot_inside (String.◌∷◌ c (String.◌∷◌ d s)) = code c == 46 || dot_inside (String.◌∷◌ d s)

is_domain : String → Bool
unfolding all_plain dot_inside
is_domain String.[] = false
is_domain (String.◌∷◌ c s) = is_plain c && all_plain s && dot_inside s

is_address : List String → Bool
unfolding all_plain is_domain
is_address (local ∷ domain ∷ []) = not (str_eq local "") && all_plain local && is_domain domain
is_address _ = false

-- /^[^\s@]+@[^\s@]+\.[^\s@]+$/
unfoldable pub require_email : String → GotrueResult String
unfolding require_non_empty is_address split
require_email value = elim (require_non_empty value "email") [
  | done email ↦
      if is_address (split b'@' email)
      then done email
      else failed (admin_error invalid_input "email is not a valid address" 400)
  | failed e ↦ failed e
  | broke ↦ broke
]

-- `obj[key]`, unless it is null or missing.
unfoldable pub given : String → Fields → Option Json
given key fs = elim (get_field key fs) [ none ↦ none | some Json.null ↦ none | some v ↦ some v ]

unfoldable pub extract_gotrue_message : GotrueBody → Option String
unfolding given
extract_gotrue_message (json_body (Json.obj fs)) =
    elim (or_else
      (or_else (or_else (given "msg" fs) (given "message" fs)) (given "error_description" fs))
      (given "error" fs)) [ some (Json.str s) ↦ if str_eq s "" then none else some s | _ ↦ none ]
extract_gotrue_message _ = none

unfoldable pub settle_reply : GotrueReply → GotrueResult GotrueBody
unfolding extract_gotrue_message to_decimal
settle_reply (unreachable detail) =
    failed (admin_error network_error ("GoTrue request failed: " <> detail) 502)
settle_reply (answered status body) =
    if leb 200 status && ltb status 300
    then done body
    else failed (
        admin_error gotrue_error
          (get_or_else (extract_gotrue_message body)
            ("GoTrue admin call failed (" <> to_decimal status <> ")"))
          status)

abbrev pub find_user_max_pages : ℕ
find_user_max_pages = 20

abbrev pub per_page : ℕ
per_page = 1000

unfoldable pub find_email : String → List GotrueUser → Option GotrueUser
find_email email [] = none
find_email email (u ∷ us) =
    let rest = find_email email us in
    if str_eq (to_lower (get_or_else u.email "")) email then some u else rest

module _ (p : AdminServices) where
  unfoldable pub admin_fetch : GotrueRequest → AdminState → GotrueResult GotrueBody × AdminState
  unfolding settle_reply
  admin_fetch request s =
      (settle_reply (p.send request s), record s { requests = s.requests ++ (request ∷ []) })

  -- A call whose argument is in order.
  unfoldable pub call_with :
      {A : Type 0}
      → (String → GotrueRequest)
      → (GotrueBody → GotrueResult A)
      → GotrueResult String
      → AdminState
      → GotrueResult A × AdminState
  unfolding admin_fetch
  call_with request read (failed e) s = (failed e, s)
  call_with request read broke s = (broke, s)
  call_with request read (done value) s =
      let r = admin_fetch (request value) s in (and_then r.0 read, r.1)

  -- A call with a configuration.
  unfoldable pub call_gotrue :
      {A : Type 0}
      → GotrueResult String
      → (String → GotrueRequest)
      → (GotrueBody → GotrueResult A)
      → AdminState
      → GotrueResult A × AdminState
  unfolding config_error call_with
  call_gotrue argument request read s = elim (config_error p.protocol_of p.gotrue) [
    | some e ↦ (failed e, s)
    | none ↦ call_with request read argument s
  ]

  -- `as GoTrueUser`: what is not a user breaks a later statement.
  abbrev pub read_user : GotrueBody → GotrueResult GotrueUser
  read_user (user_body u) = done u
  read_user _ = broke

  abbrev read_nothing : GotrueBody → GotrueResult (Unit {0})
  read_nothing body = done tt

  abbrev pub read_users : GotrueBody → GotrueResult (List GotrueUser)
  read_users (users_body us) = done us
  read_users _ = done []

  unfoldable pub create_user : String → AdminState → GotrueResult GotrueUser × AdminState
  unfolding call_gotrue require_email
  create_user email s = call_gotrue (require_email email) post_user read_user s

  unfoldable pub delete_user : String → AdminState → GotrueResult (Unit {0}) × AdminState
  unfolding call_gotrue require_non_empty
  delete_user id s = call_gotrue (require_non_empty id "user id") delete_one read_nothing s

  -- The user is banned for a time, or no longer.
  unfoldable pub update_user : String → String → AdminState → GotrueResult (Unit {0}) × AdminState
  unfolding call_gotrue require_non_empty
  update_user id ban s =
      call_gotrue (require_non_empty id "user id") (λ v. put_user v ban) read_nothing s

  unfoldable pub list_users : ℕ → ℕ → AdminState → GotrueResult (List GotrueUser) × AdminState
  unfolding call_gotrue
  list_users page per_page s = call_gotrue (done "") (λ v. get_users page per_page) read_users s

  -- What is done with a page; the pages after it are read only if they are needed.
  unfoldable pub settle_page :
      String
      → GotrueResult (List GotrueUser) × AdminState
      → (AdminState → GotrueResult (Option GotrueUser) × AdminState)
      → GotrueResult (Option GotrueUser) × AdminState
  unfolding find_email
  settle_page email (failed e, s) rest = (failed e, s)
  settle_page email (broke, s) rest = (broke, s)
  settle_page email (done users, s) rest = elim (find_email email users) [
    | some u ↦ (done (some u), s)
    | none ↦ if ltb (length users) per_page then (done none, s) else rest s
  ]

  -- The pages from `page` on, `left` of them at most.
  unfoldable pub find_in_pages :
      ℕ → ℕ → String → AdminState → GotrueResult (Option GotrueUser) × AdminState
  unfolding list_users settle_page
  find_in_pages zero page email s = (done none, s)
  find_in_pages (suc left) page email s =
      settle_page email (list_users page per_page s) (find_in_pages left (suc page) email)

  -- With the address that is in order.
  unfoldable pub find_address :
      GotrueResult String → AdminState → GotrueResult (Option GotrueUser) × AdminState
  unfolding find_in_pages
  find_address (failed e) s = (failed e, s)
  find_address broke s = (broke, s)
  find_address (done valid) s = find_in_pages find_user_max_pages 1 (to_lower valid) s

  unfoldable pub find_user_by_email :
      String → AdminState → GotrueResult (Option GotrueUser) × AdminState
  unfolding require_email find_address
  find_user_by_email email s = find_address (require_email email) s
