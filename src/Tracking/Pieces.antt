-- ===== src/Tracking/Pieces.antt =====
-- The pieces of the inline rendering of a diff.
use ai_content_workflow.Prelude.{
  ℕ, if◌then◌else◌, ◌==◌, ◌≡◌, refl, sym, ap, ◌∙◌, String, false, ◌&&◌, List, [], ◌∷◌, ◌++◌, inl,
  inr, All, Bool-cases, ◌<>◌,
}
use text.Mathlib.TextLemmas.{nil-append, append-nil as text-nil, append_assoc as text_assoc}
use ai_content_workflow.Tracking.Parts.{DiffPart, join, ins_open, del_open, is_tag}

-- No part is both added and removed.
abbrev pub IsDiff : List DiffPart → Type 0
IsDiff = All (λ p. (p.is_added && p.is_removed) ≡ false)

-- A piece of the rendering: text or a tag as it stands, or a run of tokens in a wrapper with the index of
-- its part.
pub data Piece : Type 0 where
  plain : String → Piece
  inserted deleted : ℕ → List String → Piece

abbrev pub html : Piece → String
html (plain t) = t
html (inserted i ts) = ins_open i <> (join ts <> "</ins>")
html (deleted i ts) = del_open i <> (join ts <> "</del>")

-- What is left without the wrappers and the deletions.
abbrev pub body : Piece → String
body (plain t) = t
body (inserted i ts) = join ts
body (deleted i ts) = ""

abbrev pub flat : (Piece → String) → List Piece → String
flat f [] = ""
flat f (x ∷ xs) = f x <> flat f xs

abbrev pub NoTags : List String → Type 0
NoTags = All (λ t. is_tag t ≡ false)

-- The text without its tags.
unfoldable pub words : List String → String
unfolding is_tag
words [] = ""
words (t ∷ ts) = let rest = words ts in if is_tag t then rest else t <> rest

-- A text that belongs to the part with the index `i`, as the part `k` sees it.
abbrev pub of_part : ℕ → String → ℕ → String
of_part i s k = if i == k then s else ""

-- What a piece inserts for the part `k`, and what it deletes for it.
abbrev pub inserted_for : ℕ → Piece → String
inserted_for k (inserted i ts) = of_part i (join ts) k
inserted_for k _ = ""

abbrev pub deleted_for : ℕ → Piece → String
deleted_for k (deleted i ts) = of_part i (join ts) k
deleted_for k _ = ""

-- No tag stands in a wrapper.
abbrev pub IsPure : Piece → Type 0
IsPure (plain t) = Unit
IsPure (inserted i ts) = NoTags ts
IsPure (deleted i ts) = NoTags ts

pub join-append_one : (ts : List String) (t : String) → join (ts ++ (t ∷ [])) ≡ join ts <> t
join-append_one [] t = text-nil t ∙ sym (nil-append t)
join-append_one (s ∷ ts) t =
    ap (λ (v : String). s <> v) (join-append_one ts t) ∙ sym (text_assoc s (join ts) t)

flat-append : (f : Piece → String) (xs ys : List Piece) → flat f (xs ++ ys) ≡ flat f xs <> flat f ys
flat-append f [] ys = sym (nil-append (flat f ys))
flat-append f (x ∷ xs) ys =
    ap (λ (v : String). f x <> v) (flat-append f xs ys)
    ∙ sym (text_assoc (f x) (flat f xs) (flat f ys))

All-append : (xs ys : List Piece) → All IsPure xs → All IsPure ys → All IsPure (xs ++ ys)
All-append [] ys h g = g
All-append (x ∷ xs) ys h g = (h.0, All-append xs ys h.1 g)

pub of_part-append :
    (i k : ℕ) (s t : String) → of_part i s k <> of_part i t k ≡ of_part i (s <> t) k
of_part-append i k s t = elim (Bool-cases (i == k)) [
  | inl own ↦ rw own refl
  | inr other ↦ rw other (nil-append "")
]

pub of_part-empty : (i k : ℕ) → of_part i "" k ≡ ""
of_part-empty i k = elim (Bool-cases (i == k)) [ inl own ↦ rw own refl | inr other ↦ rw other refl ]

-- Pieces that render `out`, stand for `text`, and insert and delete these texts for each part.
abbrev pub Shows : String → String → (ℕ → String) → (ℕ → String) → Type 0
Shows out text ins del =
    (pieces : List Piece) × (out ≡ flat html pieces)
    × (text ≡ flat body pieces)
    × All IsPure pieces
    × ((k : ℕ) → ins k ≡ flat (inserted_for k) pieces)
    × ((k : ℕ) → del k ≡ flat (deleted_for k) pieces)

abbrev pub nothing : ℕ → String
nothing k = ""

pub Shows-append :
    (out text out' text' : String) (ins del ins' del' : ℕ → String)
    → Shows out text ins del
    → Shows out' text' ins' del'
    → Shows (out <> out') (text <> text') (λ k. ins k <> ins' k) (λ k. del k <> del' k)
Shows-append out text out' text' ins del ins' del' (xs, h, b, c, i, d) (ys, h', b', c', i', d') = (
  xs ++ ys,
  cc (h, h', flat-append html xs ys),
  cc (b, b', flat-append body xs ys),
  All-append xs ys c c',
  (λ k. cc (i k, i' k, flat-append (inserted_for k) xs ys)),
  (λ k. cc (d k, d' k, flat-append (deleted_for k) xs ys)),
)

pub Shows-plain : (t : String) → Shows t t nothing nothing
Shows-plain t = (
  plain t ∷ [],
  sym (text-nil t),
  sym (text-nil t),
  (tt, tt),
  (λ k. sym (nil-append "")),
  (λ k. sym (nil-append "")),
)

pub Shows-cast :
    (out text out' text' : String) (ins del ins' del' : ℕ → String)
    → out ≡ out'
    → text ≡ text'
    → ((k : ℕ) → ins k ≡ ins' k)
    → ((k : ℕ) → del k ≡ del' k)
    → Shows out text ins del
    → Shows out' text' ins' del'
Shows-cast out text out' text' ins del ins' del' e f g r (pieces, h, b, c, i, d) =
    (pieces, sym e ∙ h, sym f ∙ b, c, (λ k. sym (g k) ∙ i k), (λ k. sym (r k) ∙ d k))
