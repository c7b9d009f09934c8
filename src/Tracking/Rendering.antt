-- ===== src/Tracking/Rendering.antt =====
-- What the inline rendering of a diff (buildInlineDiffHtml of web/lib/tracked-changes.ts) shows.
use ai_content_workflow.Prelude.{
  ℕ, zero, suc, ◌+◌, ◌<◌, ◌≡◌, refl, sym, ap, ◌∙◌, String, true, false, ◌&&◌, none, some, List, [],
  ◌∷◌, inl, inr, arith, All, Bool-cases, ◌==◌, ◌<>◌, if◌then◌else◌,
}
use text.Mathlib.TextLemmas.{nil-append, append-nil as text-nil}
use ai_content_workflow.Tracking.Parts.{
  DiffPart, join, part_at, map_join, working_side, build_working, render_part,
  build_inline_diff_html,
}
use ai_content_workflow.Tracking.Pieces.{
  IsDiff, Piece, html, body, flat, words, of_part, inserted_for, deleted_for, IsPure, of_part-empty,
  Shows, Shows-append, Shows-plain, Shows-cast,
}
use ai_content_workflow.Tracking.Inline.{render-inserted, render-deleted}

-- The words that a part adds, and those that it removes.
abbrev pub new_words : DiffPart → String
new_words p = if p.is_added then words p.value else ""

abbrev pub old_words : DiffPart → String
old_words p = if p.is_removed then words p.value else ""

-- A text of the part with an index; a part that is not there has none.
abbrev pub text_of : (DiffPart → String) → ℕ → List DiffPart → String
text_of f k parts = elim (part_at k parts) [ none ↦ "" | some p ↦ f p ]

render_part-Shows :
    (i : ℕ) (p : DiffPart)
    → (p.is_added && p.is_removed) ≡ false
    → Shows (render_part i p) (working_side p) (of_part i (new_words p)) (of_part i (old_words p))
unfolding render_part
render_part-Shows i p d =
    let empty : (k : ℕ) → "" ≡ of_part i "" k = λ k. sym (of_part-empty i k) in
    let start = λ (k : ℕ). ap (λ (s : String). of_part i s k) (nil-append (words p.value)) in
    elim (Bool-cases p.is_added) [
      | inl added ↦
          let there : p.is_removed ≡ false = ground (arith, added, d) in
          rw (added, there, render_part)
            (Shows-cast _ _ _ _ _ _ _ _ refl (nil-append (join p.value)) start empty
              (render-inserted i p.value [] tt))
      | inr kept ↦ elim (Bool-cases p.is_removed) [
        | inl removed ↦
            rw (kept, removed, render_part)
              (Shows-cast _ _ _ _ _ _ _ _ refl refl empty start (render-deleted i p.value [] tt))
        | inr same ↦
            rw (kept, same, render_part)
              (Shows-cast _ _ _ _ _ _ _ _ refl refl empty empty (Shows-plain (join p.value)))
      ]
    ]

map_join-Shows :
    (i : ℕ) (parts : List DiffPart)
    → IsDiff parts
    → Shows
        (map_join render_part i parts)
        (map_join (λ j p. working_side p) i parts)
        (λ k. map_join (λ j p. of_part j (new_words p) k) i parts)
        (λ k. map_join (λ j p. of_part j (old_words p) k) i parts)
unfolding map_join
map_join-Shows i [] d = ([], refl, refl, tt, (λ k. refl), (λ k. refl))
map_join-Shows i (p ∷ parts) d =
    Shows-append _ _ _ _ _ _ _ _ (render_part-Shows i p d.0) (map_join-Shows (suc i) parts d.1)

module _ (f : DiffPart → String) where
  map_join-of_part_before :
      (k i : ℕ) (parts : List DiffPart) → k < i → map_join (λ j p. of_part j (f p) k) i parts ≡ ""
  unfolding map_join
  map_join-of_part_before k i [] h = refl
  map_join-of_part_before k i (p ∷ parts) h =
      let other : (i == k) ≡ false = ground (arith, h) in
      rw other (
        ap (λ (s : String). "" <> s) (map_join-of_part_before k (suc i) parts (omega (arith, h)))
        ∙ nil-append "")

  map_join-of_part :
      (i m : ℕ) (parts : List DiffPart)
      → map_join (λ j p. of_part j (f p) (i + m)) i parts ≡ text_of f m parts
  unfolding map_join part_at
  map_join-of_part i m [] = refl
  map_join-of_part i zero (p ∷ parts) =
      let own : (i == i + 0) ≡ true = ground arith in
      rw own (
        ap (λ (s : String). f p <> s) (map_join-of_part_before (i + 0) (suc i) parts (omega arith))
        ∙ text-nil (f p))
  map_join-of_part i (suc m) (p ∷ parts) =
      let other : (i == i + suc m) ≡ false = ground arith in
      let next : i + suc m ≡ suc i + m = omega arith in
      rw other (
        nil-append _
        ∙ ap (λ (k : ℕ). map_join (λ j q. of_part j (f q) k) (suc i) parts) next
        ∙ map_join-of_part (suc i) m parts)

  all_parts :
      (k : ℕ) (parts : List DiffPart)
      → map_join (λ j p. of_part j (f p) k) 0 parts ≡ text_of f k parts
  all_parts k parts =
      let start : k ≡ 0 + k = omega arith in
      ap (λ (m : ℕ). map_join (λ j p. of_part j (f p) m) 0 parts) start ∙ map_join-of_part 0 k parts

-- Pieces that render the diff: those that insert for a part hold its new words, those that delete for it
-- its old words.
abbrev pub Renders : List DiffPart → String → Type 0
Renders parts out =
    (pieces : List Piece) × (out ≡ flat html pieces)
    × (build_working parts ≡ flat body pieces)
    × All IsPure pieces
    × ((k : ℕ) → text_of new_words k parts ≡ flat (inserted_for k) pieces)
    × ((k : ℕ) → text_of old_words k parts ≡ flat (deleted_for k) pieces)

-- The inline rendering of a diff is made of pieces: text and tags as they stand, and runs of inserted or
-- deleted tokens in a wrapper with the index of a part. No tag stands in a wrapper; for each index, the
-- insertions together hold the words of the part if it is added and nothing if not, and the deletions
-- likewise if it is removed; and without the wrappers and the deletions the rendering is the body.
pub build_inline_diff_html-Renders :
    (parts : List DiffPart) → IsDiff parts → Renders parts (build_inline_diff_html parts)
unfolding build_inline_diff_html build_working
build_inline_diff_html-Renders parts d =
    Shows-cast _ _ _ _ _ _ _ _ refl refl (λ k. all_parts new_words k parts)
      (λ k. all_parts old_words k parts) (map_join-Shows 0 parts d)
