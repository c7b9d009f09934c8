-- ===== src/Pipeline/Platform.antt =====
-- What production.ts calls and this development does not model: the agents (agents/*.ts, which ask
-- Gemini), the CMS clients, the web platform, the voice's publish target, the clock, and the faults
-- of the infrastructure. Each answer may depend on the number of steps started so far, so that two
-- calls with one input may answer differently.
use ai_content_workflow.Prelude.{ℕ, String, Bool, Option, List}
use ai_content_workflow.Json.{Json}
use ai_content_workflow.Run.{StartMode}
use ai_content_workflow.Publish.Failure.{Failure, Result}
use ai_content_workflow.Publish.Slug.{Web}
use ai_content_workflow.Publish.Target.{PublishTargetRow, WpEnv}
use ai_content_workflow.Pipeline.World.{
  FetchedRow, RenderRow, CitationRow, PublishPayload, GhostPayload,
}

pub record OutlineInput : Type 0 where
  pub run_id : String
  pub start_mode : StartMode
  pub voice_slug : String
  pub topic : String
  pub keywords : List String
  pub target_audience : Option String
  pub acf_adv_id : ℕ
  pub acf_widget_id : ℕ
  pub edit_note : Option String
  pub today_date : String
  pub gap_analysis_payload : Option Json
  pub existing_markdown : Option String
  pub chosen_route : Option String

pub record FetchInput : Type 0 where
  pub run_id : String
  pub article_url : String
  pub cms_kind : String
  pub env : WpEnv

pub record FetchResult : Type 0 where
  pub row : FetchedRow
  pub source : String

pub record GapInput : Type 0 where
  pub run_id : String
  pub voice_slug : String
  pub topic : String
  pub keywords : List String
  pub article_url : String
  pub acf_adv_id : ℕ
  pub acf_widget_id : ℕ
  pub mode : String
  pub edit_note : Option String
  pub today_date : String

pub record GapResult : Type 0 where
  pub payload : Json
  pub chosen_route : String

pub record WriterInput : Type 0 where
  pub run_id : String
  pub topic : String
  pub keywords : List String
  pub article_url : Option String
  pub acf_adv_id : String
  pub acf_widget_id : String
  pub topic_category : Option String
  pub persona : String
  pub start_mode : StartMode
  pub chosen_route : Option String
  pub edit_note : Option String
  pub outline : Json
  pub refine_notes : Option (List Json)
  pub iteration : ℕ

pub record WriterResult : Type 0 where
  pub markup : String
  pub citation_intents : Json
  pub grounding_chunks : Json

pub record CitationsInput : Type 0 where
  pub draft_id : ℕ
  pub markup_raw : String
  pub grounding_chunks : List Json
  pub topic_category : Option String
  pub voice_slug : String

pub record CitationsResult : Type 0 where
  pub final_markup : String
  pub displayed_count : ℕ
  pub rows : List CitationRow

pub record AuditInput : Type 0 where
  pub run_id : String
  pub persona : String
  pub html_body : String
  pub citation_intents : List Json
  pub citations_summary : List Json
  pub schema_jsonld : Option (List Json)
  pub citations_denied_displayed : Bool
  pub adv_enabled : Bool
  pub widget_enabled : Bool
  pub edit_note : Option String
  pub today_date : String

pub record AuditResult : Type 0 where
  pub overall_pass : Bool
  pub llm_findings : List Json
  pub deterministic_findings : List Json

-- A step fails before its body has run, or after it (when its last answer is lost).
pub data Fault : Type 0 where
  before after : Failure → Fault

pub record Platform : Type 0 where
  pub web : Web
  pub env : String → Option String
  pub parse_json : String → Option Json
  pub now : ℕ → ℕ
  pub fault : ℕ → Option Fault
  pub target_row : ℕ → String → Option PublishTargetRow
  pub run_outline : ℕ → OutlineInput → Result Json
  pub run_fetch_article : ℕ → FetchInput → Result FetchResult
  pub run_gap_analysis : ℕ → GapInput → Result GapResult
  pub generate_draft : ℕ → WriterInput → Result WriterResult
  pub resolve_citations : ℕ → CitationsInput → Result CitationsResult
  pub render_html : ℕ → String → String → Result RenderRow
  pub judge_draft : ℕ → AuditInput → Result AuditResult
  pub build_meta : String → Option (List Json) → Json
  pub build_ghost_schema_head : Option (List Json) → Option String
  pub has_ghost_creds : Option String → Result (Unit {0})
  pub wp_upsert : ℕ → WpEnv → PublishPayload → Result (ℕ × String)
  pub ghost_upsert : ℕ → Option String → GhostPayload → Result (String × String)
  pub write_compliance_log : ℕ → Result (Unit {0})
