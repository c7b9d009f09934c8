-- ===== src/Auth/Access.antt =====
-- loadRole and requireRole of deploy/cloudflare-workers/src/auth/authz.ts. The table of users is a list;
-- times are numbers in one unit.
use ai_content_workflow.Prelude.{
  ℕ, String, ◌≡◌, ◌≤◌, ◌<◌, refl, ◌⊎◌, inl, inr, Bool, true, false, not, ◌&&◌, ◌||◌, Option, none,
  some, List, [], ◌∷◌, arith, str_eq, same_text, ltb, leb, if◌then◌else◌, Bool-cases, Option-cases,
}
use ai_content_workflow.Auth.Roles.{
  Role, admin, role_rank, AdminEnv, coerce_role, is_admin_eligible_email, is_bootstrap, cap_role,
  effective_role, role_meets_requirement,
}

pub record AppUser : Type 0 where
  pub id : String
  pub email : String
  pub role : Option String
  pub status : Option String
  pub sessions_revoked : Option ℕ

-- What the middleware knows of the caller.
pub record Session : Type 0 where
  pub user_id : Option String
  pub user_email : Option String
  pub token_issued_at : Option ℕ

abbrev pub is_present : Option String → Bool
is_present none = false
is_present (some s) = not (str_eq s "")

unfoldable pub find_by : (AppUser → Bool) → List AppUser → Option AppUser
find_by p [] = none
find_by p (u ∷ us) = if p u then some u else find_by p us

-- By the id first, then by the email.
unfoldable pub find_user : List AppUser → Session → Option AppUser
unfolding find_by
find_user users session =
    let by_email =
      if is_present session.user_email
      then find_by (λ u. same_text (some u.email) session.user_email) users
      else none in
    let by_id =
      if is_present session.user_id
      then find_by (λ u. same_text (some u.id) session.user_id) users
      else none in
    elim by_id [ some u ↦ some u | none ↦ by_email ]

unfoldable pub is_disabled : AppUser → Bool
is_disabled u = same_text u.status (some "disabled")

-- A token from before the revocation; a session without a token's time is exempt.
unfoldable pub is_revoked : Session → AppUser → Bool
is_revoked session u = elim u.sessions_revoked [
  | none ↦ false
  | some at ↦ elim session.token_issued_at [ none ↦ false | some issued ↦ ltb issued at ]
]

unfoldable pub stored_role : Session → Option AppUser → Option String
unfolding is_disabled is_revoked
stored_role session none = none
stored_role session (some u) = if is_disabled u || is_revoked session u then none else u.role

unfoldable pub load_role : AdminEnv → List AppUser → Session → Option Role
unfolding find_user stored_role
load_role env users session =
    if is_present session.user_id || is_present session.user_email
    then effective_role env (stored_role session (find_user users session)) session.user_email none
    else none

pub data Access : Type 0 where
  unauthorized forbidden allowed : Access

unfoldable pub require_role : AdminEnv → List AppUser → Role → Session → Access
unfolding load_role
require_role env users required session = elim (load_role env users session) [
  | none ↦ unauthorized
  | some role ↦ if role_meets_requirement role required then allowed else forbidden
]

-- Why a session has a role.
unfoldable pub Granted : AdminEnv → List AppUser → Session → Role → Type 0
Granted env users session role =
    ((is_bootstrap env session.user_email ≡ true)
      × (is_admin_eligible_email env session.user_email ≡ true)
      × (role ≡ admin))
    ⊎ ((u : AppUser) × (token : String) × (find_user users session ≡ some u)
        × (is_disabled u ≡ false)
        × (is_revoked session u ≡ false)
        × (u.role ≡ some token)
        × (role ≡ cap_role env session.user_email (coerce_role (some token))))

effective_role_cases :
    (env : AdminEnv) (stored email : Option String) (role : Role)
    → effective_role env stored email none ≡ some role
    → ((is_bootstrap env email ≡ true)
        × (is_admin_eligible_email env email ≡ true)
        × (role ≡ admin))
      ⊎ ((token : String) × (stored ≡ some token)
          × (role ≡ cap_role env email (coerce_role (some token))))
unfolding effective_role
effective_role_cases env none email role e = ground arith
effective_role_cases env (some token) email role e =
    elim (Bool-cases (is_bootstrap env email && is_admin_eligible_email env email)) [
      | inl both ↦ inl (ground arith, ground arith, ground arith)
      | inr neither ↦ inr (token, refl, ground arith)
    ]

stored_role_cases :
    (session : Session) (found : Option AppUser) (token : String)
    → stored_role session found ≡ some token
    → (u : AppUser) × (found ≡ some u)
      × (is_disabled u ≡ false)
      × (is_revoked session u ≡ false)
      × (u.role ≡ some token)
unfolding stored_role
stored_role_cases session none token e = absurd (ground arith)
stored_role_cases session (some u) token e = (u, refl, ground arith, ground arith, ground arith)

-- A role is granted only to a bootstrap administrator of an administrators' domain, or by the row of an
-- invited user that is not disabled and whose sessions were not revoked since the token was issued; it
-- is then the stored role, with the administrator capped by the domain.
pub load_role-Granted :
    (env : AdminEnv) (users : List AppUser) (session : Session) (role : Role)
    → load_role env users session ≡ some role
    → Granted env users session role
unfolding load_role Granted
load_role-Granted env users session role e =
    elim (effective_role_cases env (stored_role session (find_user users session))
      session.user_email role (ground arith)) [
        | inl bootstrap ↦ inl bootstrap
        | inr stored ↦
            let c = stored_role_cases session (find_user users session) stored.0 stored.1 in
            inr (c.0, stored.0, c.1, c.2, c.3, c.4, stored.2)
      ]

-- A route lets a session pass exactly when it has a role of the required rank at least; a session
-- without a role, even one that signed in, is unauthorized; one of a lower rank is forbidden.
require_role_lem :
    (env : AdminEnv) (users : List AppUser) (required : Role) (session : Session)
    → ((require_role env users required session ≡ unauthorized)
        × (load_role env users session ≡ none))
      ⊎ ((role : Role) × (load_role env users session ≡ some role)
          × (((role_rank required ≤ role_rank role)
                × (require_role env users required session ≡ allowed))
              ⊎ ((role_rank role < role_rank required)
                  × (require_role env users required session ≡ forbidden))))
unfolding require_role role_meets_requirement
require_role_lem env users required session = elim (Option-cases (load_role env users session)) [
  | inl missing ↦ inl (ground arith, missing)
  | inr (role, found) ↦ inr (
    role,
    found,
    elim (Bool-cases (leb (role_rank required) (role_rank role))) [
      | inl enough ↦ inl (ground (arith, enough), ground (arith, found, enough))
      | inr low ↦ inr (ground (arith, low), ground (arith, found, low))
    ],
  )
]

-- A session that passes a route passes every route that requires no higher rank.
pub require_role_mono :
    (env : AdminEnv) (users : List AppUser) (required lower : Role) (session : Session)
    → role_rank lower ≤ role_rank required
    → require_role env users required session ≡ allowed
    → require_role env users lower session ≡ allowed
require_role_mono env users required lower session h e =
    elim (require_role_lem env users required session) [
      | inl (denied, missing) ↦ absurd (ground arith)
      | inr (role, found, inl (enough, passed)) ↦ lower_passes role found (omega (arith, h, enough))
      | inr (role, found, inr (low, denied)) ↦ absurd (ground arith)
    ]
  where
    lower_passes :
        (role : Role)
        → load_role env users session ≡ some role
        → role_rank lower ≤ role_rank role
        → require_role env users lower session ≡ allowed
    lower_passes role found enough = elim (require_role_lem env users lower session) [
      | inl (denied, missing) ↦ absurd (ground arith)
      | inr (r, found', inl (enough', passed)) ↦ passed
      | inr (r, found', inr (low, denied)) ↦ absurd (ground arith)
    ]
