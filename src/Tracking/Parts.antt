-- ===== src/Tracking/Parts.antt =====
-- web/lib/tracked-changes.ts from the parts of a diff on: commitHunk, dismissHunk, commitAll, dismissAll
-- and buildInlineDiffHtml. The parts themselves, which jsdiff and the FAQ's tokens give, are arguments.
use ai_content_workflow.Prelude.{
  ℕ, zero, suc, String, Bool, true, false, not, ◌&&◌, ◌||◌, Option, none, some, List, [], ◌∷◌,
  str_eq, ◌==◌, if◌then◌else◌, ◌<>◌, to_decimal,
}
use Prim.Native.Char.{code}

pub record DiffPart : Type 0 where
  pub value : List String
  pub is_added : Bool
  pub is_removed : Bool

-- `tokens.join("")`
abbrev pub join : List String → String
join [] = ""
join (t ∷ ts) = t <> join ts

-- `parts[index]`
unfoldable pub part_at : ℕ → List DiffPart → Option DiffPart
part_at index [] = none
part_at zero (p ∷ parts) = some p
part_at (suc index) (p ∷ parts) = part_at index parts

-- `parts.map(f).join("")` from an index on
unfoldable pub map_join : (ℕ → DiffPart → String) → ℕ → List DiffPart → String
map_join f i [] = ""
map_join f i (p ∷ parts) = f i p <> map_join f (suc i) parts

abbrev pub committed_side : DiffPart → String
committed_side p = if p.is_added then "" else join p.value

abbrev pub working_side : DiffPart → String
working_side p = if p.is_removed then "" else join p.value

unfoldable pub build_committed : List DiffPart → String
unfolding map_join
build_committed parts = map_join (λ i p. committed_side p) 0 parts

unfoldable pub build_working : List DiffPart → String
unfolding map_join
build_working parts = map_join (λ i p. working_side p) 0 parts

pub record CommitResult : Type 0 where
  pub committed : String
  pub working : String

abbrev pub is_added_at : ℕ → List DiffPart → Bool
is_added_at i parts = elim (part_at i parts) [ none ↦ false | some p ↦ p.is_added ]

abbrev pub is_removed_at : ℕ → List DiffPart → Bool
is_removed_at i parts = elim (part_at i parts) [ none ↦ false | some p ↦ p.is_removed ]

-- A test of the part before; there is none before the first.
abbrev pub before : (ℕ → List DiffPart → Bool) → ℕ → List DiffPart → Option ℕ
before test zero parts = none
before test (suc i) parts = if test i parts then some i else none

abbrev pub after : (ℕ → List DiffPart → Bool) → ℕ → List DiffPart → Option ℕ
after test i parts = if test (suc i) parts then some (suc i) else none

abbrev pub first_of : Option ℕ → Option ℕ → Option ℕ
first_of (some i) other = some i
first_of none other = other

-- The other half of a replacement.
unfoldable pub paired_index : List DiffPart → ℕ → Option ℕ
unfolding part_at
paired_index parts index =
    if is_added_at index parts
    then first_of (before is_removed_at index parts) (after is_removed_at index parts)
    else if is_removed_at index parts
    then first_of (after is_added_at index parts) (before is_added_at index parts)
    else none

abbrev pub is_index : Option ℕ → ℕ → Bool
is_index none i = false
is_index (some j) i = j == i

-- `targetSet(parts, index).has(i)`
unfoldable pub is_target : List DiffPart → ℕ → ℕ → Bool
unfolding paired_index
is_target parts index i = index == i || is_index (paired_index parts index) i

abbrev pub commit_part : Bool → DiffPart → String
commit_part target p =
    if target then (if p.is_added then join p.value else "") else committed_side p

abbrev pub dismiss_part : Bool → DiffPart → String
dismiss_part target p =
    if target then (if p.is_removed then join p.value else "") else working_side p

unfoldable pub commit_hunk : List DiffPart → ℕ → CommitResult
unfolding is_target map_join build_working
commit_hunk parts index = record {
  committed = map_join (λ i p. commit_part (is_target parts index i) p) 0 parts;
  working = build_working parts;
}

unfoldable pub dismiss_hunk : List DiffPart → ℕ → CommitResult
unfolding is_target map_join build_committed
dismiss_hunk parts index = record {
  committed = build_committed parts;
  working = map_join (λ i p. dismiss_part (is_target parts index i) p) 0 parts;
}

unfoldable pub commit_all : List DiffPart → CommitResult
unfolding build_working
commit_all parts = record { committed = build_working parts; working = build_working parts }

unfoldable pub dismiss_all : List DiffPart → CommitResult
unfolding build_committed
dismiss_all parts = record { committed = build_committed parts; working = build_committed parts }

-- The first `>` is the last character.
ends_tag : String → Bool
ends_tag String.[] = false
ends_tag (String.◌∷◌ c s) = let rest = ends_tag s in if code c == 62 then str_eq s "" else rest

-- /^<[^>]*>$/
unfoldable pub is_tag : String → Bool
unfolding ends_tag
is_tag String.[] = false
is_tag (String.◌∷◌ c s) = code c == 60 && ends_tag s

abbrev pub ins_open : ℕ → String
ins_open i =
    "<ins data-tc=\"add\" data-tc-i=\""
    <> to_decimal i
    <> "\" tabindex=\"0\" role=\"button\" aria-haspopup=\"true\" aria-label=\"Inserted text — activate to accept or reject\">"

abbrev pub del_open : ℕ → String
del_open i =
    "<del data-tc=\"del\" data-tc-i=\""
    <> to_decimal i
    <> "\" tabindex=\"0\" role=\"button\" aria-haspopup=\"true\" aria-label=\"Deleted text — activate to accept or reject\">"

-- flush()
unfoldable pub wrap : String → String → String → String
wrap opening closing buffer = if str_eq buffer "" then "" else opening <> (buffer <> closing)

-- The tokens of a part that is added or removed, with the text that waits in the buffer.
unfoldable pub render_tokens : Bool → String → String → List String → String → String
unfolding wrap is_tag
render_tokens is_added opening closing [] buffer = wrap opening closing buffer
render_tokens is_added opening closing (t ∷ ts) buffer =
    let flushed = render_tokens is_added opening closing ts "" in
    let longer = render_tokens is_added opening closing ts (buffer <> t) in
    if is_tag t
    then wrap opening closing buffer <> ((if is_added then t else "") <> flushed)
    else longer

unfoldable pub render_part : ℕ → DiffPart → String
unfolding render_tokens to_decimal
render_part i p =
    if not p.is_added && not p.is_removed
    then join p.value
    else if p.is_added
    then render_tokens true (ins_open i) "</ins>" p.value ""
    else render_tokens false (del_open i) "</del>" p.value ""

unfoldable pub build_inline_diff_html : List DiffPart → String
unfolding map_join render_part
build_inline_diff_html parts = map_join render_part 0 parts
