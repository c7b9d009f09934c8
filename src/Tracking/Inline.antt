-- ===== src/Tracking/Inline.antt =====
-- The runs of tokens that the inline rendering of a diff wraps.
use ai_content_workflow.Prelude.{
  ℕ, ◌≡◌, refl, sym, ap, ◌∙◌, String, true, false, List, [], ◌∷◌, ◌++◌, inl, inr, All-append_one,
  Bool-cases, str_eq, eq_iff, ◌<>◌,
}
use text.Mathlib.TextLemmas.{nil-append, append-nil as text-nil, append_assoc as text_assoc}
use ai_content_workflow.Tracking.Parts.{join, ins_open, del_open, is_tag, wrap, render_tokens}
use ai_content_workflow.Tracking.Pieces.{
  inserted, deleted, words, of_part, NoTags, join-append_one, of_part-append, of_part-empty, Shows,
  nothing, Shows-append, Shows-plain, Shows-cast,
}

no_text : "" <> ("" <> "") ≡ ""
no_text = nil-append ("" <> "") ∙ nil-append ""

module _ (i : ℕ) where
  wrap-inserted :
      (ts : List String)
      → NoTags ts
      → Shows (wrap (ins_open i) "</ins>" (join ts)) (join ts) (of_part i (join ts)) nothing
  unfolding wrap
  wrap-inserted ts pure_ones = elim (Bool-cases (str_eq (join ts) "")) [
    | inl empty ↦
        let none_there : join ts ≡ "" = (eq_iff (join ts) "").0 empty in
        rw (empty, wrap)
          (
            [],
            refl,
            none_there,
            tt,
            (λ k. ap (λ (s : String). of_part i s k) none_there ∙ of_part-empty i k),
            (λ k. refl),
          )
    | inr some_text ↦
        rw (some_text, wrap)
          (
            inserted i ts ∷ [],
            sym (text-nil _),
            sym (text-nil (join ts)),
            (pure_ones, tt),
            (λ k. sym (text-nil (of_part i (join ts) k))),
            (λ k. sym (nil-append "")),
          )
  ]

  wrap-deleted :
      (ts : List String)
      → NoTags ts
      → Shows (wrap (del_open i) "</del>" (join ts)) "" nothing (of_part i (join ts))
  unfolding wrap
  wrap-deleted ts pure_ones = elim (Bool-cases (str_eq (join ts) "")) [
    | inl empty ↦
        let none_there : join ts ≡ "" = (eq_iff (join ts) "").0 empty in
        rw (empty, wrap)
          (
            [],
            refl,
            refl,
            tt,
            (λ k. refl),
            (λ k. ap (λ (s : String). of_part i s k) none_there ∙ of_part-empty i k),
          )
    | inr some_text ↦
        rw (some_text, wrap)
          (
            deleted i ts ∷ [],
            sym (text-nil _),
            refl,
            (pure_ones, tt),
            (λ k. sym (nil-append "")),
            (λ k. sym (text-nil (of_part i (join ts) k))),
          )
  ]

  -- The buffer, a tag that adds nothing, and what follows.
  of_part-flushed :
      (b r : String) (k : ℕ) → of_part i b k <> ("" <> of_part i ("" <> r) k) ≡ of_part i (b <> r) k
  of_part-flushed b r k =
      ap (λ (x : String). of_part i b k <> x)
        (nil-append (of_part i ("" <> r) k) ∙ ap (λ (s : String). of_part i s k) (nil-append r))
      ∙ of_part-append i k b r

  longer :
      (buffer : List String) (t rest : String)
      → join (buffer ++ (t ∷ [])) <> rest ≡ join buffer <> (t <> rest)
  longer buffer t rest =
      ap (λ (b : String). b <> rest) (join-append_one buffer t) ∙ text_assoc (join buffer) t rest

  -- The tokens of an insertion, with those in the buffer.
  pub render-inserted :
      (ts buffer : List String)
      → NoTags buffer
      → Shows
          (render_tokens true (ins_open i) "</ins>" ts (join buffer))
          (join buffer <> join ts)
          (of_part i (join buffer <> words ts))
          nothing
  unfolding render_tokens words
  render-inserted [] buffer pure_ones =
      let ended : join buffer ≡ join buffer <> "" = sym (text-nil (join buffer)) in
      Shows-cast _ _ _ _ _ _ _ _ refl ended (λ k. ap (λ (s : String). of_part i s k) ended)
        (λ k. refl) (wrap-inserted buffer pure_ones)
  render-inserted (t ∷ ts) buffer pure_ones = elim (Bool-cases (is_tag t)) [
    | inl tag ↦
        rw (tag, render_tokens, words)
          (Shows-cast _ _ _ _ _ _ _ _ refl
            (ap (λ (x : String). join buffer <> (t <> x)) (nil-append (join ts)))
            (of_part-flushed (join buffer) (words ts)) (λ k. no_text)
            (Shows-append _ _ _ _ _ _ _ _ (wrap-inserted buffer pure_ones)
              (Shows-append _ _ _ _ _ _ _ _ (Shows-plain t) (render-inserted ts [] tt))))
    | inr word ↦
        rw (word, render_tokens, words)
          (Shows-cast _ _ _ _ _ _ _ _
            (ap (λ (b : String). render_tokens true (ins_open i) "</ins>" ts b)
              (join-append_one buffer t))
            (longer buffer t (join ts))
            (λ k. ap (λ (s : String). of_part i s k) (longer buffer t (words ts))) (λ k. refl)
            (render-inserted ts (buffer ++ (t ∷ []))
              (All-append_one (λ u. is_tag u ≡ false) t buffer pure_ones word)))
  ]

  -- The tokens of a deletion.
  pub render-deleted :
      (ts buffer : List String)
      → NoTags buffer
      → Shows
          (render_tokens false (del_open i) "</del>" ts (join buffer))
          ""
          nothing
          (of_part i (join buffer <> words ts))
  unfolding render_tokens words
  render-deleted [] buffer pure_ones =
      Shows-cast _ _ _ _ _ _ _ _ refl refl (λ k. refl)
        (λ k. ap (λ (s : String). of_part i s k) (sym (text-nil (join buffer))))
        (wrap-deleted buffer pure_ones)
  render-deleted (t ∷ ts) buffer pure_ones = elim (Bool-cases (is_tag t)) [
    | inl tag ↦
        let dropped : Shows "" "" nothing nothing =
          ([], refl, refl, tt, (λ k. refl), (λ k. refl)) in
        rw (tag, render_tokens, words)
          (Shows-cast _ _ _ _ _ _ _ _ refl no_text (λ k. no_text)
            (of_part-flushed (join buffer) (words ts))
            (Shows-append _ _ _ _ _ _ _ _ (wrap-deleted buffer pure_ones)
              (Shows-append _ _ _ _ _ _ _ _ dropped (render-deleted ts [] tt))))
    | inr word ↦
        rw (word, render_tokens, words)
          (Shows-cast _ _ _ _ _ _ _ _
            (ap (λ (b : String). render_tokens false (del_open i) "</del>" ts b)
              (join-append_one buffer t))
            refl (λ k. refl) (λ k. ap (λ (s : String). of_part i s k) (longer buffer t (words ts)))
            (render-deleted ts (buffer ++ (t ∷ []))
              (All-append_one (λ u. is_tag u ≡ false) t buffer pure_ones word)))
  ]
