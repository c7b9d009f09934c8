-- ===== src/Publish/Pin.antt =====
-- deploy/cloudflare-workers/src/workflows/target_pin.ts
use ai_content_workflow.Prelude.{
  String, ◌≡◌, ◌↔◌, Bool, true, ◌&&◌, Option, none, some, arith, same_text, same_text_iff,
  get_or_else, ◌<>◌, contains, contains-append,
}

-- The pin columns of the run row.
pub record PersistedTargetPin : Type 0 where
  pub approved_target_kind : Option String
  pub approved_post_id : Option String
  pub approved_target_label : Option String

-- The target that a publish step resolved; no post id stands for a new post.
pub record ResolvedPublishTarget : Type 0 where
  pub kind : String
  pub post_id : Option String
  pub label : String

unfoldable pub pinned_target_matches : PersistedTargetPin → ResolvedPublishTarget → Bool
pinned_target_matches pin actual =
    same_text pin.approved_target_kind (some actual.kind)
    && same_text pin.approved_post_id actual.post_id
    && same_text pin.approved_target_label (some actual.label)

describe : PersistedTargetPin → Option String → String
describe pin none = "no pinned target on this approval"
describe pin (some kind) =
    "approved "
    <> kind
    <> " post "
    <> get_or_else pin.approved_post_id "<new>"
    <> " on "
    <> get_or_else pin.approved_target_label ""

abbrev pub mismatch_mark : String
mismatch_mark = "publish target mismatch"

unfoldable pub pin_mismatch_message : PersistedTargetPin → ResolvedPublishTarget → String
unfolding describe
pin_mismatch_message pin actual =
    mismatch_mark
    <> ": "
    <> describe pin pin.approved_target_kind
    <> ", but this publish resolved "
    <> actual.kind
    <> " post "
    <> get_or_else actual.post_id "<new>"
    <> " on "
    <> actual.label
    <> " — approval voided; re-run the publish preview and approve again"

-- A pin matches exactly when all its columns are those of the target: in particular a pin without a
-- kind matches no target.
pub pinned_target_matches_iff :
    (pin : PersistedTargetPin) (actual : ResolvedPublishTarget)
    → (pinned_target_matches pin actual ≡ true) ↔ (
        (pin.approved_target_kind ≡ some actual.kind)
        × (pin.approved_post_id ≡ actual.post_id)
        × (pin.approved_target_label ≡ some actual.label))
unfolding pinned_target_matches
pinned_target_matches_iff pin actual = ground (
  arith,
  same_text_iff pin.approved_target_kind (some actual.kind),
  same_text_iff pin.approved_post_id actual.post_id,
  same_text_iff pin.approved_target_label (some actual.label),
)

-- The message carries the mark that the restart route looks for.
pub contains-pin_mismatch_message :
    (pin : PersistedTargetPin) (actual : ResolvedPublishTarget)
    → contains (pin_mismatch_message pin actual) mismatch_mark ≡ true
unfolding pin_mismatch_message
contains-pin_mismatch_message pin actual = contains-append mismatch_mark _
