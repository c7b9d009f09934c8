-- ===== src/Pipeline/World.antt =====
-- What one run of the workflow reads and writes: its rows of the database, its event stream, the
-- steps that were started, the requests to the CMS, and the decisions that wait for it.
use ai_content_workflow.Prelude.{ℕ, String, Bool, Option, List, ◌∷◌, map_some}
use ai_content_workflow.Json.{Json}
use ai_content_workflow.Run.{RunRow, Hitl1Payload, Hitl2Payload}
use ai_content_workflow.Publish.Target.{WpEnv}
use ai_content_workflow.Pipeline.StepNames.{StepName}

pub record Event : Type 0 where
  pub event : String
  pub run_id : String
  pub timestamp : ℕ
  pub payload : Json
  pub iteration : Option ℕ

pub record OutlineRow : Type 0 where
  pub payload : Json
  pub edited_by_human : Bool
  pub human_edits : Option Json

pub record FetchedRow : Type 0 where
  pub wp_post_id : Option ℕ
  pub cms_post_id : Option String
  pub markdown : String

-- `draft_id` stands for the random uuid: a number that no other draft has.
pub record DraftRow : Type 0 where
  pub draft_id : ℕ
  pub iteration : ℕ
  pub markup_raw : String
  pub final_markup : Option String
  pub citation_intents : Json
  pub grounding_chunks : Json

pub record RenderRow : Type 0 where
  pub draft_id : ℕ
  pub seo_title : String
  pub meta_description : String
  pub html_body : String
  pub schema_jsonld : Json
  pub excerpt_suggestion : Option String
  pub slug_suggestion : Option String

pub record AuditRow : Type 0 where
  pub draft_id : ℕ
  pub overall_pass : Bool
  pub llm_findings : Json
  pub deterministic_findings : Json

pub record CitationRow : Type 0 where
  pub draft_id : ℕ
  pub summary : Json
  pub was_displayed : Bool
  pub is_denied : Bool

-- The body of a request to WordPress (PublishPayload).
pub record PublishPayload : Type 0 where
  pub post_id : Option ℕ
  pub title : String
  pub content : String
  pub excerpt : String
  pub status : String
  pub slug : Option String
  pub categories : List ℕ
  pub tags : List ℕ
  pub author : Option ℕ
  pub featured_media : Option ℕ
  pub meta : Json
  pub template : String

-- The body of a request to Ghost.
pub record GhostPayload : Type 0 where
  pub post_id : Option String
  pub title : String
  pub html : String
  pub slug : Option String
  pub status : String
  pub excerpt : String
  pub author_ids : List String
  pub tags : List String
  pub feature_image : Option String
  pub meta_description : String
  pub code_injection_head : Option String
  pub published_at : Option String

pub data CmsRequest : Type 0 where
  wordpress : WpEnv → PublishPayload → CmsRequest
  ghost : Option String → GhostPayload → CmsRequest

pub record World : Type 0 where
  pub run : Option RunRow
  pub outline : Option OutlineRow
  pub gap : Option Json
  pub fetched : Option FetchedRow
  pub drafts : List DraftRow
  pub renders : List RenderRow
  pub audits : List AuditRow
  pub citations : List CitationRow
  pub persisted_urls : List String
  pub compliance : List String
  pub events : List Event
  pub labels : List StepName
  pub cms : List CmsRequest
  pub hitl1_events : List Hitl1Payload
  pub hitl2_events : List Hitl2Payload

-- `UPDATE content_tool.runs SET … WHERE run_id = …`
abbrev pub update_run : (RunRow → RunRow) → World → World
update_run f w = record w { run = map_some f w.run }

-- The started steps, newest first.
abbrev pub log_label : StepName → World → World
log_label label w = record w { labels = label ∷ w.labels }
