-- ===== src/Tracking/Tests.antt =====
-- The theorems on tracked changes at a word that is replaced and a paragraph that is added.
use ai_content_workflow.Prelude.{◌≡◌, refl, String, Bool, true, false, List, [], ◌∷◌, ◌++◌}
use ai_content_workflow.Tracking.Parts.{
  DiffPart, part_at, paired_index, is_target, map_join, commit_hunk, dismiss_hunk,
  build_inline_diff_html,
}
use ai_content_workflow.Tracking.Rendering.{Renders, build_inline_diff_html-Renders}
use ai_content_workflow.Tracking.Replacement.{taken, undone, replacement_lem}

abbrev part : List String → Bool → Bool → DiffPart
part value is_added is_removed = record {
  value = value;
  is_added = is_added;
  is_removed = is_removed;
}

abbrev before_it : List DiffPart
before_it = part ("<p>" ∷ "a" ∷ []) false false ∷ []

abbrev after_it : List DiffPart
after_it = part ("</p>" ∷ []) false false ∷ part ("<p>" ∷ "new" ∷ "</p>" ∷ []) true false ∷ []

abbrev red : DiffPart
red = part ("red" ∷ []) false true

abbrev blue : DiffPart
blue = part ("blue" ∷ []) true false

abbrev replaced : List DiffPart
replaced = before_it ++ (red ∷ blue ∷ after_it)

-- The deletion takes the insertion beside it along.
commits_pair : (commit_hunk replaced 1).committed ≡ "<p>ablue</p>"
unfolding commit_hunk is_target paired_index part_at map_join
commits_pair = refl

replacement_lem_example :
    (commit_hunk replaced 1 ≡ taken before_it red blue after_it)
    × (commit_hunk replaced 2 ≡ taken before_it red blue after_it)
    × (dismiss_hunk replaced 1 ≡ undone before_it red blue after_it)
    × (dismiss_hunk replaced 2 ≡ undone before_it red blue after_it)
replacement_lem_example = replacement_lem before_it red blue after_it (refl, refl) (refl, refl)

build_inline_diff_html-Renders_example : Renders replaced (build_inline_diff_html replaced)
build_inline_diff_html-Renders_example =
    build_inline_diff_html-Renders replaced (refl, (refl, (refl, (refl, (refl, tt)))))
