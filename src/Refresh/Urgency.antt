-- ===== src/Refresh/Urgency.antt =====
-- Older articles with more findings are scored no lower and treated no less urgently.
use ai_content_workflow.Prelude.{
  ℕ, ◌≤◌, ◌≡◌, refl, Bool, true, false, Option, none, some, inl, inr, arith, Bool-cases,
}
use ai_content_workflow.Refresh.Scoring.{
  DeterministicResult, LlmFindings, ℤ, pos, negsuc, Action, refresh, monitor, ok, age_points,
  age_loss, llm_points, raw_points, to_hundredths, has_high, has_high_severity, choose_action,
  compute_staleness,
}

abbrev pub urgency : Action → ℕ
urgency ok = 0
urgency monitor = 1
urgency refresh = 2

infix 50 ◌≤ℤ◌
abbrev pub ◌≤ℤ◌ : ℤ → ℤ → Type 0
pos m ≤ℤ pos n = m ≤ n
pos m ≤ℤ negsuc n = ⊥
negsuc m ≤ℤ pos n = Unit
negsuc m ≤ℤ negsuc n = n ≤ m

-- At least as many findings of either severity.
abbrev pub NoFewer : DeterministicResult → DeterministicResult → Type 0
NoFewer det det' =
    (det.severity_high ≤ det'.severity_high) × (det.severity_medium ≤ det'.severity_medium)

abbrev pub NoFewerLlm : Option LlmFindings → Option LlmFindings → Type 0
NoFewerLlm none llm' = Unit
NoFewerLlm (some llm) none = ⊥
NoFewerLlm (some llm) (some llm') =
    (llm.severity_high ≤ llm'.severity_high) × (llm.severity_medium ≤ llm'.severity_medium)

age_mono : (a b : ℤ) → a ≤ℤ b → (age_points a ≤ age_points b) × (age_loss b ≤ age_loss a)
unfolding age_points age_loss
age_mono (pos m) (pos n) h = (ground (arith, h), omega arith)
age_mono (pos m) (negsuc n) h = elim h [ ]
age_mono (negsuc m) (pos n) h = (ground arith, omega arith)
age_mono (negsuc m) (negsuc n) h = (omega arith, omega (arith, h))

llm_mono :
    (a b : Option LlmFindings)
    → NoFewerLlm a b
    → (llm_points a ≤ llm_points b) × (has_high a ≡ true → has_high b ≡ true)
unfolding llm_points has_high
llm_mono none b h = (omega arith, λ e. absurd (cc e))
llm_mono (some a) none h = elim h [ ]
llm_mono (some a) (some b) h = (ground (arith, h.0, h.1), λ e. ground (arith, h.0, e))

to_hundredths_mono : (m n : ℕ) → m ≤ n → to_hundredths m ≤ to_hundredths n
unfolding to_hundredths
to_hundredths_mono m n h = ground (arith, h)

choose_action_mono :
    (m n : ℕ) (a b : Bool)
    → m ≤ n
    → (a ≡ true → b ≡ true)
    → urgency (choose_action m a) ≤ urgency (choose_action n b)
unfolding choose_action
choose_action_mono m n true b h i = ground (arith, h, i refl)
choose_action_mono m n false b h i = ground (arith, h)

to_hundredths_le : (n : ℕ) → to_hundredths n ≤ 1000
unfolding to_hundredths
to_hundredths_le n = ground arith

choose_action-high :
    (score : ℕ) (is_high : Bool) → is_high ≡ true → choose_action score is_high ≡ refresh
unfolding choose_action
choose_action-high score true h = ground arith
choose_action-high score false h = absurd (cc h)

has_high_severity_mono :
    (det det' : DeterministicResult) (llm llm' : Option LlmFindings)
    → NoFewer det det'
    → NoFewerLlm llm llm'
    → has_high_severity det llm ≡ true
    → has_high_severity det' llm' ≡ true
unfolding has_high_severity
has_high_severity_mono det det' llm llm' d l e = elim (Bool-cases (has_high llm)) [
  | inl by_llm ↦ ground (arith, (llm_mono llm llm' l).1 by_llm)
  | inr by_det ↦ ground (arith, e, by_det, d.0)
]

-- The score is at most ten points, neither it nor the urgency of the action falls when an article grows
-- older or has more findings, and a finding of high severity asks for a refresh.
pub compute_staleness_mono :
    (det det' : DeterministicResult) (llm llm' : Option LlmFindings) (age age' : ℤ)
    → NoFewer det det'
    → NoFewerLlm llm llm'
    → age ≤ℤ age'
    → ((compute_staleness det llm age).score ≤ 1000)
      × ((compute_staleness det llm age).score ≤ (compute_staleness det' llm' age').score)
      × (urgency (compute_staleness det llm age).action
          ≤ urgency (compute_staleness det' llm' age').action)
      × (has_high_severity det llm ≡ true → (compute_staleness det llm age).action ≡ refresh)
unfolding compute_staleness raw_points
compute_staleness_mono det det' llm llm' age age' d l a =
    let scores =
      to_hundredths_mono (raw_points det llm age) (raw_points det' llm' age')
        (omega (arith, d.0, d.1, llm_mono llm llm' l, age_mono age age' a)) in
    let highs : has_high_severity det llm ≡ true → has_high_severity det' llm' ≡ true =
      has_high_severity_mono det det' llm llm' d l in
    (
      to_hundredths_le (raw_points det llm age),
      scores,
      choose_action_mono _ _ _ _ scores highs,
      choose_action-high _ _,
    )
