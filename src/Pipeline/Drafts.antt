-- ===== src/Pipeline/Drafts.antt =====
-- The drafts, renders and audits of a run (workflows/production.ts, agents/writer.ts), and the notes
-- that a rewrite is given.
pub mod Upsert
pub mod Latest
mod Tests
use ai_content_workflow.Prelude.{
  ℕ, String, Bool, true, false, not, Option, none, some, List, [], ◌∷◌, ◌++◌, str_eq, ltb, ◌==◌,
  if◌then◌else◌, get_or_else, is_none, length, keep,
}
use ai_content_workflow.Json.{Json, bool, str, obj, get_field, extract_findings}
use ai_content_workflow.Pipeline.World.{World, DraftRow, RenderRow, AuditRow}
use ai_content_workflow.Pipeline.Platform.{WriterResult}

-- The row with the highest iteration (`ORDER BY iteration DESC LIMIT 1`).
abbrev pub newer : DraftRow → Option DraftRow → DraftRow
newer d none = d
newer d (some best) = if ltb d.iteration best.iteration then best else d

unfoldable pub latest_draft : List DraftRow → Option DraftRow
latest_draft [] = none
latest_draft (d ∷ ds) = some (newer d (latest_draft ds))

-- The rewritten row of a conflict on (run_id, iteration) keeps its id; a new row gets a fresh one.
unfoldable pub upsert_from : ℕ → ℕ → WriterResult → List DraftRow → List DraftRow × ℕ
upsert_from fresh iteration out [] = (
  record {
    draft_id = fresh;
    iteration = iteration;
    markup_raw = out.markup;
    final_markup = none;
    citation_intents = out.citation_intents;
    grounding_chunks = out.grounding_chunks;
  }
      ∷ [],
  fresh,
)
upsert_from fresh iteration out (d ∷ ds) =
    let rest = upsert_from fresh iteration out ds in
    if d.iteration == iteration
    then (
      record d {
        markup_raw = out.markup;
        final_markup = none;
        citation_intents = out.citation_intents;
        grounding_chunks = out.grounding_chunks;
      }
          ∷ ds,
      d.draft_id,
    )
    else (d ∷ rest.0, rest.1)

-- The id of a new draft is the next number, where the code draws a random UUID.
unfoldable pub upsert_draft : ℕ → WriterResult → List DraftRow → List DraftRow × ℕ
unfolding upsert_from
upsert_draft iteration out drafts = upsert_from (length drafts) iteration out drafts

unfoldable pub find_draft : ℕ → List DraftRow → Option DraftRow
find_draft id [] = none
find_draft id (d ∷ ds) = if d.draft_id == id then some d else find_draft id ds

unfoldable pub find_render : ℕ → List RenderRow → Option RenderRow
find_render id [] = none
find_render id (r ∷ rs) = if r.draft_id == id then some r else find_render id rs

unfoldable pub find_audit : ℕ → List AuditRow → Option AuditRow
find_audit id [] = none
find_audit id (a ∷ rs) = if a.draft_id == id then some a else find_audit id rs

unfoldable pub set_final_markup : ℕ → String → List DraftRow → List DraftRow
set_final_markup id markup [] = []
set_final_markup id markup (d ∷ ds) =
    (if d.draft_id == id then record d { final_markup = some markup } else d)
    ∷ set_final_markup id markup ds

-- The audited draft with the highest iteration: drafts joined with their audits.
unfoldable pub latest_audit : List AuditRow → List DraftRow → Option AuditRow
unfolding latest_draft find_audit
latest_audit audits drafts =
    elim (latest_draft (keep (λ d. not (is_none (find_audit d.draft_id audits))) drafts)) [
      | none ↦ none
      | some d ↦ find_audit d.draft_id audits
    ]

-- `f.must_fix === true || f.severity === "high"`
unfoldable pub must_refine : Json → Bool
unfolding get_field
must_refine (obj fs) = elim (get_field "must_fix" fs) [
  | some (bool true) ↦ true
  | _ ↦ elim (get_field "severity" fs) [ some (str s) ↦ str_eq s "high" | _ ↦ false ]
]
must_refine _ = false

unfoldable pub latest_findings : World → List Json
unfolding latest_audit extract_findings
latest_findings w = elim (latest_audit w.audits w.drafts) [
  | none ↦ []
  | some a ↦ extract_findings a.llm_findings ++ extract_findings a.deterministic_findings
]

abbrev pub or_null : List Json → Option (List Json)
or_null [] = none
or_null (x ∷ xs) = some (x ∷ xs)

-- Prior findings that must be fixed, from the second iteration on, and the reviewer's notes.
unfoldable pub build_refine_notes : ℕ → Option (List Json) → World → Option (List Json)
unfolding must_refine latest_findings
build_refine_notes iteration reviewer_notes w = or_null (
    (if ltb 0 iteration then keep must_refine (latest_findings w) else [])
    ++ get_or_else reviewer_notes [])
