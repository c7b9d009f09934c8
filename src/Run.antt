-- ===== src/Run.antt =====
-- The row of content_tool.runs, as routes/runs.ts and workflows/production.ts read and write it:
-- its status, the decisions at the two gates, and the columns of the publish target. The statuses
-- are those of web/lib/types.ts.
use ai_content_workflow.Prelude.{ℕ, String, Bool, true, false, Option}
use ai_content_workflow.Json.{Json}
use ai_content_workflow.Publish.Failure.{Failure}

pub data Status : Type 0 where
  pending fetching strategy hitl_1 production hitl_2 publishing revising : Status
  persisted published failed cancelled rejected changes_requested : Status

pub data StartMode : Type 0 where
  refresh create : StartMode

pub data Hitl1Decision : Type 0 where
  approve edit_outline override_route cancel : Hitl1Decision

pub data Hitl2Decision : Type 0 where
  approve request_changes reject : Hitl2Decision

pub record Hitl1Payload : Type 0 where
  pub decision : Hitl1Decision
  pub notes : Option String
  pub edited_outline : Option Json
  pub new_route : Option String

pub record Hitl2Comment : Type 0 where
  pub anchor_text : String
  pub comment : String

pub record Hitl2Payload : Type 0 where
  pub decision : Hitl2Decision
  pub notes : Option String
  pub comments : Option Json

pub record RunRow : Type 0 where
  pub run_id : String
  pub status : Status
  pub error : Option Failure
  pub start_mode : StartMode
  pub mode : String
  pub topic : String
  pub keywords : Json
  pub persona : String
  pub topic_category : Option String
  pub target_audience : Option String
  pub edit_note : Option String
  pub acf_adv_id : ℕ
  pub acf_widget_id : ℕ
  pub today_date : String
  pub chosen_route : Option String
  pub article_url : Option String
  pub wp_pushed_post_id : Option ℕ
  pub wp_pushed_at : Option ℕ
  pub cms_post_id : Option String
  pub auto_accept_hitl1 : Bool
  pub hitl_1_decision : Option Hitl1Decision
  pub hitl_1_notes : Option String
  pub hitl_2_decision : Option Hitl2Decision
  pub hitl_2_notes : Option String
  pub hitl_2_comments : Json
  pub hitl_2_iteration : ℕ
  pub approved_at : Option ℕ
  pub approved_by : Option String
  pub approved_target_kind : Option String
  pub approved_post_id : Option String
  pub approved_target_label : Option String
  pub wp_publish_status : Option String
  pub wp_author_id : Option ℕ
  pub wp_category_ids : Json
  pub wp_tag_ids : Json
  pub wp_featured_media_id : Option ℕ
  pub wp_slug : Option String
  pub wp_excerpt : Option String
  pub wp_publish_at : Option String
  pub ghost_author_ids : Json
  pub ghost_tags : Json
  pub feature_image_url : Option String

abbrev pub is_refresh : StartMode → Bool
is_refresh StartMode.refresh = true
is_refresh StartMode.create = false

-- `status === "hitl_1"`, `"hitl_2"` and `"failed"`
abbrev pub waits_at_hitl_1 : Status → Bool
waits_at_hitl_1 Status.hitl_1 = true
waits_at_hitl_1 _ = false

abbrev pub waits_at_hitl_2 : Status → Bool
waits_at_hitl_2 Status.hitl_2 = true
waits_at_hitl_2 _ = false

abbrev pub is_failed : Status → Bool
is_failed Status.failed = true
is_failed _ = false

abbrev pub is_approve : Hitl2Decision → Bool
is_approve Hitl2Decision.approve = true
is_approve _ = false

abbrev pub is_request_changes : Hitl2Decision → Bool
is_request_changes Hitl2Decision.request_changes = true
is_request_changes _ = false
