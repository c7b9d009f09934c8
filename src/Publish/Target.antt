-- ===== src/Publish/Target.antt =====
-- deploy/cloudflare-workers/src/publishers/wp_factory.ts. The environment is a function from names
-- to values; a voice's row of publish_targets is an argument.
use ai_content_workflow.Prelude.{
  String, ◌≡◌, Bool, true, false, not, ◌||◌, Option, none, some, List, [], ◌∷◌, arith, str_eq,
  includes, if◌then◌else◌, ◌<>◌,
}
use ai_content_workflow.Publish.Failure.{Result, ok, error, ◌>>=◌}

pub record PublishTargetRow : Type 0 where
  pub name : String
  pub kind : String
  pub auth_ref : Option String
  pub is_archived : Bool

pub record ResolvedTarget : Type 0 where
  pub auth_ref : Option String
  pub label : String
  pub is_default : Bool
  pub kind : String

abbrev supported_kinds : List String
supported_kinds = "wordpress" ∷ "ghost" ∷ []

unfoldable pub target_from_row : Option PublishTargetRow → String → Result ResolvedTarget
target_from_row none default_label =
    ok (record { auth_ref = none; label = default_label; is_default = true; kind = "wordpress" })
target_from_row (some row) default_label =
    if row.is_archived
    then error ("publish target '" <> row.name <> "' is archived and cannot be used")
    else if not (includes supported_kinds row.kind)
    then error ("unsupported publish target kind '" <> row.kind <> "'")
    else ok
        (record { auth_ref = row.auth_ref; label = row.name; is_default = false; kind = row.kind })

-- The credentials that the WordPress client reads.
pub record WpEnv : Type 0 where
  pub wp_base_url : Option String
  pub wp_username : Option String
  pub wp_app_password : Option String

abbrev Environment : Type 0
Environment = String → Option String

require_value : String → Option String → Result String
require_value key none = error ("publish target requires env var " <> key <> ", which is not set")
require_value key (some value) =
    if str_eq value ""
    then error ("publish target requires env var " <> key <> ", which is not set")
    else ok value

abbrev default_env : Environment → WpEnv
default_env env = record {
  wp_base_url = env "WP_BASE_URL";
  wp_username = env "WP_USERNAME";
  wp_app_password = env "WP_APP_PASSWORD";
}

-- The values of another target, by its prefix.
ref_env : Environment → String → Result WpEnv
unfolding require_value
ref_env env ref = do
  base_url ← require_value (ref <> "_BASE_URL") (env (ref <> "_BASE_URL"))
  username ← require_value (ref <> "_USERNAME") (env (ref <> "_USERNAME"))
  app_password ← require_value (ref <> "_APP_PASSWORD") (env (ref <> "_APP_PASSWORD"))
  ok (record {
    wp_base_url = some base_url;
    wp_username = some username;
    wp_app_password = some app_password;
  })

unfoldable pub build_target_env : Environment → ResolvedTarget → Result WpEnv
unfolding ref_env
build_target_env env target = elim target.auth_ref [
  | none ↦ ok (default_env env)
  | some ref ↦
      if target.is_default || not (str_eq target.kind "wordpress")
      then ok (default_env env)
      else ref_env env ref
]

-- A target that resolves is never archived, and its kind is one that the publishers support.
pub target_from_row_supported :
    (row : PublishTargetRow) (default_label : String) (target : ResolvedTarget)
    → target_from_row (some row) default_label ≡ ok target
    → (row.is_archived ≡ false) × (includes supported_kinds target.kind ≡ true)
unfolding target_from_row
target_from_row_supported row default_label target e = ground arith
