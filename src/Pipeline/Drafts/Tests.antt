-- ===== src/Pipeline/Drafts/Tests.antt =====
-- The theorems on drafts at concrete drafts: a first round reached iteration 1, and the round of
-- revision writes at iteration 0 again.
use ai_content_workflow.Prelude.{ℕ, String, ◌≤◌, ◌↔◌, refl, some, List, [], ◌∷◌, All, arith}
use ai_content_workflow.Json.{null}
use ai_content_workflow.Pipeline.World.{DraftRow}
use ai_content_workflow.Pipeline.Platform.{WriterResult}
use ai_content_workflow.Pipeline.Drafts.{latest_draft, upsert_draft, upsert_from}
use ai_content_workflow.Pipeline.Drafts.Upsert.{Written, IsKeyed}
use ai_content_workflow.Pipeline.Drafts.Latest.{upsert_draft-latest_draft}

abbrev old : ℕ → String → DraftRow
old k text = record {
  draft_id = k;
  iteration = k;
  markup_raw = text;
  final_markup = some text;
  citation_intents = null;
  grounding_chunks = null;
}

abbrev first_round : List DraftRow
first_round = old 0 "failed the audit" ∷ old 1 "passed" ∷ []

abbrev revision : WriterResult
revision = record { markup = "revised"; citation_intents = null; grounding_chunks = null }

first_round-IsKeyed : IsKeyed first_round
unfolding IsKeyed
first_round-IsKeyed = (
  (((λ e. omega (arith, e)), tt), (tt, tt)),
  (((λ e. omega (arith, e)), tt), (tt, tt)),
  (omega arith, (omega arith, tt)),
)

-- The draft of the first round is taken, not the revision.
upsert_draft-latest_draft_example :
    (Written 0 revision (upsert_draft 0 revision first_round).1 (old 1 "passed"))
    ↔ (All (λ d. d.iteration ≤ 0) first_round)
unfolding latest_draft upsert_draft upsert_from
upsert_draft-latest_draft_example =
    upsert_draft-latest_draft 0 revision first_round (old 1 "passed") first_round-IsKeyed refl
