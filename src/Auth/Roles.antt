-- ===== src/Auth/Roles.antt =====
-- The roles of deploy/cloudflare-workers/src/auth/authz.ts and the role that a stored role and an email
-- confer.
use ai_content_workflow.Prelude.{
  ℕ, String, ◌≡◌, Bool, true, false, not, ◌&&◌, Option, none, some, List, [], ◌∷◌, map, arith,
  str_eq, leb, if◌then◌else◌, get_or_else, includes, keep, trim, to_lower, split, after_last,
}

pub data Role : Type 0 where
  viewer author reviewer admin : Role

abbrev pub role_rank : Role → ℕ
role_rank viewer = 0
role_rank author = 1
role_rank reviewer = 2
role_rank admin = 3

abbrev pub is_admin : Role → Bool
is_admin admin = true
is_admin _ = false

-- The variables of the environment that name administrators.
pub record AdminEnv : Type 0 where
  pub bootstrap_admin_emails : Option String
  pub admin_email_domains : Option String

-- The legacy token `editor` stands for the reviewer; an unknown role is the lowest.
unfoldable pub coerce_role : Option String → Role
coerce_role none = viewer
coerce_role (some value) =
    if str_eq value "viewer"
    then viewer
    else if str_eq value "author"
    then author
    else if str_eq value "reviewer"
    then reviewer
    else if str_eq value "admin"
    then admin
    else if str_eq value "editor"
    then reviewer
    else viewer

-- The tokens that may be assigned.
unfoldable pub is_role : String → Bool
is_role value = includes ("viewer" ∷ "author" ∷ "reviewer" ∷ "admin" ∷ []) value

-- Entries parted by commas, trimmed and lowered, without the blank ones.
entries : String → List String
unfolding split trim to_lower
entries raw = keep (λ e. not (str_eq e "")) (map (λ e. to_lower (trim e)) (split b',' raw))

bootstrap_admins : AdminEnv → List String
unfolding entries
bootstrap_admins env = entries (get_or_else env.bootstrap_admin_emails "")

admin_domains : AdminEnv → List String
unfolding entries
admin_domains env = entries (get_or_else env.admin_email_domains "bowtie.com.hk,bowtie.com.sg")

unfoldable pub is_admin_eligible_email : AdminEnv → Option String → Bool
unfolding after_last admin_domains
is_admin_eligible_email env none = false
is_admin_eligible_email env (some email) = elim (after_last b'@' email) [
  | none ↦ false
  | some rest ↦
      let domain = to_lower (trim rest) in
      not (str_eq domain "") && includes (admin_domains env) domain
]

unfoldable pub is_bootstrap : AdminEnv → Option String → Bool
unfolding bootstrap_admins
is_bootstrap env none = false
is_bootstrap env (some email) =
    not (str_eq (trim email) "") && includes (bootstrap_admins env) (to_lower (trim email))

-- An administrator with another email is capped.
unfoldable pub cap_role : AdminEnv → Option String → Role → Role
cap_role env email role =
    if is_admin role && not (is_admin_eligible_email env email) then reviewer else role

unfoldable pub effective_role : AdminEnv → Option String → Option String → Option Role → Option Role
effective_role env stored email floor =
    if is_bootstrap env email && is_admin_eligible_email env email
    then some admin
    else elim stored [
      | none ↦ floor
      | some role ↦ some (cap_role env email (coerce_role (some role)))
    ]

unfoldable pub role_meets_requirement : Role → Role → Bool
role_meets_requirement role required = leb (role_rank required) (role_rank role)

-- Only an email of an administrators' domain is ever given the role of administrator, by the stored role
-- or by the list of bootstrap administrators, unless the floor for users without a row gives it.
pub effective_role-admin :
    (env : AdminEnv) (stored email : Option String) (floor : Option Role)
    → (floor ≡ some admin → ⊥)
    → effective_role env stored email floor ≡ some admin
    → is_admin_eligible_email env email ≡ true
unfolding effective_role cap_role
effective_role-admin env stored email floor low e = ground arith
