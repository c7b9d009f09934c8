-- ===== src/Auth/Directory.antt =====
-- The users that deploy/cloudflare-workers/src/routes/admin.ts manages: the table app_user, with the
-- statements on it, and what GoTrue was asked for. Of a row the columns that access depends on are kept,
-- not the name shown nor the times of change and sign-in.
use ai_content_workflow.Prelude.{
  Fallible, ℕ, suc, String, Bool, not, ◌&&◌, Option, none, some, List, [], ◌∷◌, ◌++◌, any, keep,
  str_eq, to_lower, if◌then◌else◌,
}
use ai_content_workflow.Json.{Json}
use ai_content_workflow.Auth.Access.{AppUser}

pub record GotrueUser : Type 0 where
  pub id : String
  pub email : Option String
  pub email_confirmed_at : Option String
  pub confirmed_at : Option String

pub data GotrueRequest : Type 0 where
  post_user : String → GotrueRequest
  put_user : String → String → GotrueRequest
  delete_one : String → GotrueRequest
  get_users : ℕ → ℕ → GotrueRequest

pub data GotrueBody : Type 0 where
  user_body : GotrueUser → GotrueBody
  users_body : List GotrueUser → GotrueBody
  json_body : Json → GotrueBody

-- A request fails before an answer, or is answered with a status.
pub data GotrueReply : Type 0 where
  unreachable : String → GotrueReply
  answered : ℕ → GotrueBody → GotrueReply

-- `statements` counts the statements that were sent to the database, `ended` are the users whose
-- sessions revoke_auth_sessions deleted.
pub record AdminState : Type 0 where
  pub users : List AppUser
  pub ended : List String
  pub requests : List GotrueRequest
  pub statements : ℕ

-- A statement that may fail, and changes nothing then.
module _ (fails : AdminState → Bool) where
  unfoldable pub statement : (AdminState → AdminState) → Fallible AdminState (Unit {0})
  statement f s =
      let sent = record s { statements = suc s.statements } in
      if fails s then (none, sent) else (some tt, f sent)

unfoldable pub find_row : String → List AppUser → Option AppUser
find_row id [] = none
find_row id (u ∷ us) = let rest = find_row id us in if str_eq u.id id then some u else rest

-- UPDATE … WHERE id = …
unfoldable pub update_row : String → (AppUser → AppUser) → List AppUser → List AppUser
update_row id f [] = []
update_row id f (u ∷ us) =
    let rest = update_row id f us in (if str_eq u.id id then f u else u) ∷ rest

-- DELETE … WHERE id = …
unfoldable pub delete_row : String → List AppUser → List AppUser
delete_row id users = keep (λ u. not (str_eq u.id id)) users

abbrev pub same_email : String → AppUser → Bool
same_email email u = str_eq (to_lower u.email) (to_lower email)

-- The row that another identity left behind under the email.
unfoldable pub purge_email : String → String → List AppUser → List AppUser
purge_email id email users = keep (λ u. not (same_email email u && not (str_eq u.id id))) users

abbrev pub has_row : String → List AppUser → Bool
has_row id users = any (λ u. str_eq u.id id) users

-- INSERT … ON CONFLICT (id) DO UPDATE
unfoldable pub upsert_row : String → String → String → List AppUser → List AppUser
unfolding update_row
upsert_row id email role users =
    let updated =
      update_row id (λ u. record u { email = email; role = some role; status = some "active" })
        users in
    if has_row id users
    then updated
    else users
      ++ (record {
        id = id;
        email = email;
        role = some role;
        status = some "active";
        sessions_revoked = none;
      }
          ∷ [])
