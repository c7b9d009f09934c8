-- ===== src/Pipeline/StepNames.antt =====
-- The names of the durable steps of workflows/production.ts. A name with a round and an iteration
-- is written there as a template, such as `writer-${round}-${iteration}`.
use ai_content_workflow.Prelude.{ℕ}

pub data StepName : Type 0 where
  load_run emit_rescued apply_hitl1 emit_completed_cancel : StepName
  status_strategy emit_outline_start outline emit_outline_done : StepName
  status_fetching emit_fetch_start fetch_article emit_fetch_done : StepName
  status_strategy_refresh emit_gap_start gap_analysis emit_gap_done : StepName
  emit_outline_start_refresh : StepName
  emit_hitl1_auto apply_hitl1_auto gate_hitl1 await_hitl1 : StepName
  status_production gate_hitl2 await_hitl2 status_revising : ℕ → StepName
  emit_writer_start writer emit_writer_done : ℕ → ℕ → StepName
  emit_citations_start resolve_citations emit_citations_done emit_citations_empty : ℕ → ℕ → StepName
  emit_render_start render emit_render_done : ℕ → ℕ → StepName
  emit_audit_start audit emit_audit_done : ℕ → ℕ → StepName
  status_publishing emit_publish_start emit_publish_done : ℕ → StepName
  resolve_publish_target publish publish_ghost compliance emit_completed_approve : StepName
  gate_rejected gate_changes_requested : StepName
  on_error_persist emit_graph_error : StepName
