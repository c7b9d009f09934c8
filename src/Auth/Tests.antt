-- ===== src/Auth/Tests.antt =====
-- The theorems on access at one invited author.
use ai_content_workflow.Prelude.{refl, none, some, List, [], ◌∷◌}
use ai_content_workflow.Auth.Roles.{
  author, AdminEnv, coerce_role, effective_role, is_bootstrap, cap_role,
}
use ai_content_workflow.Auth.Access.{
  AppUser, Session, find_user, is_disabled, is_revoked, load_role, Granted, load_role-Granted,
}

abbrev domains : AdminEnv
domains = record {
  bootstrap_admin_emails = some "chief@desk.example";
  admin_email_domains = some "desk.example";
}

abbrev invited : List AppUser
invited =
    record {
      id = "u1";
      email = "a@x.example";
      role = some "author";
      status = none;
      sessions_revoked = none;
    }
    ∷ []

abbrev session : Session
session = record { user_id = some "u1"; user_email = none; token_issued_at = none }

load_role-Granted_example : Granted domains invited session author
unfolding load_role find_user is_disabled is_revoked effective_role is_bootstrap cap_role
    coerce_role
load_role-Granted_example = load_role-Granted domains invited session author refl
