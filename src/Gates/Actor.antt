-- ===== src/Gates/Actor.antt =====
-- deploy/cloudflare-workers/src/routes/identity.ts: who is recorded as the author of an action.
use ai_content_workflow.Prelude.{
  String, Option, none, some, str_eq, trim, if◌then◌else◌, or_else, get_or_else, ◌≡◌, arith,
}

-- A text with more than white space.
unfoldable pub non_empty : Option String → Option String
non_empty none = none
non_empty (some s) = if str_eq (trim s) "" then none else some s

pub record SessionIdentity : Type 0 where
  pub user_email : Option String
  pub user_id : Option String

unfoldable pub resolve_actor_identity : SessionIdentity → Option String → String
unfolding non_empty
resolve_actor_identity session payload_email =
    get_or_else
      (or_else (or_else (non_empty session.user_email) (non_empty session.user_id))
        (non_empty payload_email))
      "unknown"

-- A session with an email or an id decides the author by itself: what the client says has no effect.
resolve_actor_identity-payload :
    (session : SessionIdentity) (claimed other : Option String)
    → (non_empty session.user_email ≡ none → non_empty session.user_id ≡ none → ⊥)
    → resolve_actor_identity session claimed ≡ resolve_actor_identity session other
unfolding resolve_actor_identity
resolve_actor_identity-payload session claimed other present = ground arith
