-- ===== src/Pipeline/Production.antt =====
-- The inner loop of workflows/production.ts: writer, citations, render and audit, at most
-- `max_iterations` times.
pub mod Bounds
pub mod Steady
use ai_content_workflow.Prelude.{
  ℕ, zero, suc, ◌+◌, ◌-◌, String, Bool, true, false, not, ◌&&◌, ◌||◌, Option, none, some, List, [],
  ◌∷◌, ◌++◌, map, leb, ◌==◌, if◌then◌else◌, length, any, keep, ◌<>◌, to_decimal,
}
use ai_content_workflow.Json.{
  Json, null, bool, num, arr, obj, end, field, elements, to_object_array, to_object_array_or_null,
  to_grounding_chunks, wrap_findings,
}
use ai_content_workflow.Run.{Status}
use ai_content_workflow.Publish.Failure.{Result, ok, err}
use ai_content_workflow.Pipeline.StepNames.{StepName}
use ai_content_workflow.Pipeline.World.{World, DraftRow, RenderRow, AuditRow, CitationRow}
use ai_content_workflow.Pipeline.Platform.{Platform, WriterInput, WriterResult, AuditResult}
use ai_content_workflow.Pipeline.Flow.{
  done, out_of_fuel, Flow, pure, lift, gets, modify, ◌>>=◌, ◌>>◌, or_throw, do_step, status_step,
  emit_step,
}
use ai_content_workflow.Pipeline.Drafts.{
  latest_draft, upsert_draft, find_draft, find_render, set_final_markup, build_refine_notes,
}
use ai_content_workflow.Pipeline.Strategy.{RunLoad, no_payload, today}

abbrev pub max_iterations : ℕ
max_iterations = 2

module _ (p : Platform) where
  load_outline : String → World → Result Json
  load_outline run_id w = elim w.outline [
    | none ↦ err (record { name = "Error"; message = "outline not found for run " <> run_id })
    | some o ↦ ok (elim o.payload [ null ↦ obj end | v ↦ v ])
  ]

  writer_input : String → RunLoad → Json → Option (List Json) → ℕ → WriterInput
  writer_input run_id run outline refine_notes iteration = record {
    run_id = run_id;
    topic = run.topic;
    keywords = run.keyword_list;
    article_url = run.article_url;
    acf_adv_id = to_decimal run.acf_adv_id;
    acf_widget_id = to_decimal run.acf_widget_id;
    topic_category = run.topic_category;
    persona = run.persona;
    start_mode = run.start_mode;
    chosen_route = run.chosen_route;
    edit_note = run.edit_note;
    outline = outline;
    refine_notes = refine_notes;
    iteration = iteration;
  }

  save_draft : ℕ → WriterResult → Flow ℕ
  unfolding upsert_draft
  save_draft iteration out w =
      let (drafts, id) = upsert_draft iteration out w.drafts in
      (done id, record w { drafts = drafts })

  -- The writer's step: its draft is upserted on (run_id, iteration).
  run_writer : String → RunLoad → ℕ → Option (List Json) → Flow ℕ
  unfolding ◌>>=◌ load_outline writer_input save_draft
  run_writer run_id run iteration refine_notes = do
    tick ← gets (λ w. length w.labels)
    loaded ← gets (load_outline run_id)
    outline ← lift loaded
    out ← lift (p.generate_draft tick (writer_input run_id run outline refine_notes iteration))
    save_draft iteration out

  load_draft_markup : ℕ → Flow DraftRow
  unfolding ◌>>=◌ find_draft
  load_draft_markup id = do
    found ← gets (λ w. find_draft id w.drafts)
    or_throw found ("draft not found: " <> to_decimal id)

  has_chunks : ℕ → DraftRow → Bool
  unfolding elements
  has_chunks id d =
      not (d.draft_id == id)
      && elim d.grounding_chunks [ arr xs ↦ leb 1 (length (elements xs)) | _ ↦ false ]

  -- The chunks of the most recent other draft that has some.
  earlier_chunks : ℕ → List DraftRow → List Json
  unfolding has_chunks latest_draft to_grounding_chunks
  earlier_chunks id drafts = elim (latest_draft (keep (has_chunks id) drafts)) [
    | none ↦ []
    | some d ↦ to_grounding_chunks d.grounding_chunks
  ]

  -- The chunks of the draft, or those carried forward, with the mark that says which.
  choose_chunks : List Json → List Json → List Json × Bool
  choose_chunks (c ∷ cs) fallback = (c ∷ cs, false)
  choose_chunks [] (c ∷ cs) = (c ∷ cs, true)
  choose_chunks [] [] = ([], false)

  abbrev pub citations_payload : List Json → ℕ → Bool → Json
  citations_payload chunks displayed carried = obj (
      field "grounding_chunks" (num (length chunks))
        (field "displayed" (num displayed) (field "carried_forward" (bool carried) end)))

  -- The citations' step: what it reports, and how many citations are displayed.
  run_citations : RunLoad → ℕ → Flow (Json × ℕ)
  unfolding ◌>>=◌ load_draft_markup earlier_chunks choose_chunks set_final_markup
      to_grounding_chunks
  run_citations run id = do
    tick ← gets (λ w. length w.labels)
    draft ← load_draft_markup id
    fallback ← gets (λ w. earlier_chunks id w.drafts)
    let chosen = choose_chunks (to_grounding_chunks draft.grounding_chunks) fallback
    resolved ← lift (
        p.resolve_citations tick (record {
          draft_id = id;
          markup_raw = draft.markup_raw;
          grounding_chunks = chosen.0;
          topic_category = run.topic_category;
          voice_slug = run.persona;
        }))
    modify (λ w. record w {
      citations = w.citations ++ resolved.rows;
      drafts = set_final_markup id resolved.final_markup w.drafts;
    })
    pure (citations_payload chosen.0 resolved.displayed_count chosen.1, resolved.displayed_count)

  load_final_markup : ℕ → Flow String
  unfolding ◌>>=◌ find_draft
  load_final_markup id = do
    found ← gets (λ w. find_draft id w.drafts)
    or_throw (elim found [ none ↦ none | some d ↦ d.final_markup ])
        ("final_markup not set for draft " <> to_decimal id)

  -- DELETE then INSERT: one render for each draft.
  save_render : ℕ → RenderRow → World → World
  save_render id r w = record w {
    renders =
        keep (λ (old : RenderRow). not (old.draft_id == id)) w.renders
        ++ record r { draft_id = id } ∷ [];
  }

  run_render : RunLoad → ℕ → Flow (Unit {0})
  unfolding ◌>>=◌ load_final_markup save_render
  run_render run id = do
    tick ← gets (λ w. length w.labels)
    markup ← load_final_markup id
    r ← lift (p.render_html tick run.persona markup)
    modify (save_render id r)

  load_render : ℕ → Flow RenderRow
  unfolding ◌>>=◌ find_render
  load_render id = do
    found ← gets (λ w. find_render id w.renders)
    or_throw found ("render not found for draft " <> to_decimal id)

  any_denied_displayed : ℕ → List CitationRow → Bool
  any_denied_displayed id rows =
      any (λ (c : CitationRow). c.draft_id == id && c.was_displayed && c.is_denied) rows

  citations_summary : ℕ → List CitationRow → List Json
  citations_summary id rows =
      map (λ (c : CitationRow). c.summary) (keep (λ (c : CitationRow). c.draft_id == id) rows)

  save_audit : ℕ → AuditResult → World → World
  save_audit id a w = record w {
    audits =
        keep (λ (old : AuditRow). not (old.draft_id == id)) w.audits
        ++ record {
          draft_id = id;
          overall_pass = a.overall_pass;
          llm_findings = wrap_findings a.llm_findings;
          deterministic_findings = wrap_findings a.deterministic_findings;
        }
          ∷ [];
  }

  -- The audit's step: whether the draft passes.
  run_audit : String → RunLoad → ℕ → Flow Bool
  unfolding ◌>>=◌ load_render load_draft_markup any_denied_displayed citations_summary save_audit
  run_audit run_id run id = do
    tick ← gets (λ w. length w.labels)
    r ← load_render id
    draft ← load_draft_markup id
    rows ← gets (λ w. w.citations)
    a ← lift (
        p.judge_draft tick (record {
          run_id = run_id;
          persona = run.persona;
          html_body = r.html_body;
          citation_intents = to_object_array draft.citation_intents;
          citations_summary = citations_summary id rows;
          schema_jsonld = to_object_array_or_null r.schema_jsonld;
          citations_denied_displayed = any_denied_displayed id rows;
          adv_enabled = not (run.acf_adv_id == 0);
          widget_enabled = not (run.acf_widget_id == 0);
          edit_note = run.edit_note;
          today_date = today run;
        }))
    modify (save_audit id a)
    pure a.overall_pass

  emit_citations_outcome : String → ℕ → ℕ → Json × ℕ → Flow (Unit {0})
  unfolding ◌>>=◌
  emit_citations_outcome run_id round iteration outcome = do
    emit_step p (StepName.emit_citations_done round iteration) run_id
        "production.resolve_citations.done" outcome.0 (some iteration)
    if outcome.1 == 0
        then emit_step p (StepName.emit_citations_empty round iteration) run_id
            "production.resolve_citations.no_citations" outcome.0 (some iteration)
        else pure tt

  -- One pass of the loop: whether the audit passed.
  production_pass : String → RunLoad → ℕ → ℕ → Option (List Json) → Flow Bool
  unfolding ◌>>=◌ emit_citations_outcome
  production_pass run_id run round iteration refine_notes = do
    emit_step p (StepName.emit_writer_start round iteration) run_id "production.writer.start"
        no_payload (some iteration)
    id ← do_step p (StepName.writer round iteration) (run_writer run_id run iteration refine_notes)
    emit_step p (StepName.emit_writer_done round iteration) run_id "production.writer.done"
        no_payload (some iteration)
    emit_step p (StepName.emit_citations_start round iteration) run_id
        "production.resolve_citations.start" no_payload (some iteration)
    outcome ← do_step p (StepName.resolve_citations round iteration) (run_citations run id)
    emit_citations_outcome run_id round iteration outcome
    emit_step p (StepName.emit_render_start round iteration) run_id "production.render_html.start"
        no_payload (some iteration)
    do_step p (StepName.render round iteration) (run_render run id)
    emit_step p (StepName.emit_render_done round iteration) run_id "production.render_html.done"
        no_payload (some iteration)
    emit_step p (StepName.emit_audit_start round iteration) run_id "production.audit.start"
        no_payload (some iteration)
    overall_pass ← do_step p (StepName.audit round iteration) (run_audit run_id run id)
    emit_step p (StepName.emit_audit_done round iteration) run_id "production.audit.done" no_payload
        (some iteration)
    pure overall_pass

  -- The loop, on fuel: `max_iterations` rounds are enough.
  production_rounds : ℕ → String → RunLoad → ℕ → ℕ → Option (List Json) → Flow (Unit {0})
  unfolding ◌>>=◌
  production_rounds zero run_id run round iteration reviewer_notes w = (out_of_fuel, w)
  production_rounds (suc fuel) run_id run round iteration reviewer_notes w =
      (do
        refine_notes ←
            gets (build_refine_notes iteration (if iteration == 0 then reviewer_notes else none))
        overall_pass ← production_pass run_id run round iteration refine_notes
        let rest = production_rounds fuel run_id run round (iteration + 1) reviewer_notes
        if overall_pass || leb (max_iterations - 1) iteration then pure tt else rest)
        w

  pub run_production_loop : String → RunLoad → ℕ → Option (List Json) → Flow (Unit {0})
  unfolding ◌>>=◌ production_rounds
  run_production_loop run_id run round reviewer_notes = do
    status_step p (StepName.status_production round) Status.production
    production_rounds max_iterations run_id run round 0 reviewer_notes
