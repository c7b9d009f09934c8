-- ===== src/Refresh/Places.antt =====
-- What the selection of articles looks at.
use ai_content_workflow.Prelude.{
  ℕ, zero, suc, ◌≡◌, refl, ap, ◌∙◌, String, Bool, false, not, ◌&&◌, ◌||◌, Option, none, some, List,
  [], ◌∷◌, inl, inr, Bool-cases, str_eq, keep, take, leb, ltb, includes, any, same_text,
  Option-cases,
}
use ai_content_workflow.Refresh.Store.{ArticleRow, schedule, schedule_row}
use ai_content_workflow.Refresh.Tick.{ids_of}
use ai_content_workflow.Refresh.Select.{
  RunOf, is_in_flight, SelectDueOptions, select_due_articles, is_selected, is_due, is_dismissed,
  is_driven, insert_due, order_by_due,
}

-- The rows agree on what the selection looks at.
abbrev pub SamePlace : ArticleRow → ArticleRow → Type 0
SamePlace a b =
    (a.article_id ≡ b.article_id)
    × (a.next_scan_due_at ≡ b.next_scan_due_at)
    × (a.dismissed_until ≡ b.dismissed_until)

abbrev pub SameQueue : List ArticleRow → List ArticleRow → Type 0
SameQueue [] [] = Unit
SameQueue [] (b ∷ bs) = ⊥
SameQueue (a ∷ rest) [] = ⊥
SameQueue (a ∷ rest) (b ∷ bs) = SamePlace a b × SameQueue rest bs

pub SameQueue-refl : (rows : List ArticleRow) → SameQueue rows rows
SameQueue-refl [] = tt
SameQueue-refl (a ∷ rows) = ((refl, refl, refl), SameQueue-refl rows)

pub SameQueue-trans :
    (xs ys zs : List ArticleRow) → SameQueue xs ys → SameQueue ys zs → SameQueue xs zs
SameQueue-trans [] [] [] h g = tt
SameQueue-trans [] [] (z ∷ zs) h g = elim g [ ]
SameQueue-trans [] (y ∷ ys) zs h g = elim h [ ]
SameQueue-trans (x ∷ xs) [] zs h g = elim h [ ]
SameQueue-trans (x ∷ xs) (y ∷ ys) [] h g = elim g [ ]
SameQueue-trans (x ∷ xs) (y ∷ ys) (z ∷ zs) h g =
    ((h.0.0 ∙ g.0.0, h.0.1 ∙ g.0.1, h.0.2 ∙ g.0.2), SameQueue-trans xs ys zs h.1 g.1)

pub SameQueue-schedule :
    (id : String) (wp_post_id : Option ℕ) (now : ℕ) (rows : List ArticleRow)
    → SameQueue rows (schedule id none wp_post_id now rows)
unfolding schedule schedule_row
SameQueue-schedule id wp_post_id now [] = tt
SameQueue-schedule id wp_post_id now (a ∷ rows) =
    (same_place a, SameQueue-schedule id wp_post_id now rows)
  where
    same_place : (b : ArticleRow) → SamePlace b (schedule_row id none wp_post_id now b)
    same_place b = elim (Bool-cases (str_eq b.article_id id)) [
      | inl own ↦ rw (own, schedule_row) (refl, refl, refl)
      | inr other ↦ rw (other, schedule_row) (refl, refl, refl)
    ]

SameQueue-keep :
    (f : ArticleRow → Bool)
    → ((a b : ArticleRow) → SamePlace a b → f a ≡ f b)
    → (xs ys : List ArticleRow) → SameQueue xs ys
    → SameQueue (keep f xs) (keep f ys)
unfolding keep
SameQueue-keep f respects [] [] h = tt
SameQueue-keep f respects [] (y ∷ ys) h = elim h [ ]
SameQueue-keep f respects (x ∷ xs) [] h = elim h [ ]
SameQueue-keep f respects (x ∷ xs) (y ∷ ys) h =
    let rest = SameQueue-keep f respects xs ys h.1 in
    elim (Bool-cases (f y)) [
      | inl kept ↦ rw (respects x y h.0 ∙ kept, kept, keep) (h.0, rest)
      | inr dropped ↦ rw (respects x y h.0 ∙ dropped, dropped, keep) rest
    ]

SameQueue-insert_due :
    (a b : ArticleRow) (xs ys : List ArticleRow)
    → SamePlace a b
    → SameQueue xs ys
    → SameQueue (insert_due a xs) (insert_due b ys)
unfolding insert_due
SameQueue-insert_due a b [] [] p h = (p, tt)
SameQueue-insert_due a b [] (y ∷ ys) p h = elim h [ ]
SameQueue-insert_due a b (x ∷ xs) [] p h = elim h [ ]
SameQueue-insert_due a b (x ∷ xs) (y ∷ ys) p h =
    let rest = SameQueue-insert_due a b xs ys p h.1 in
    let same : leb a.next_scan_due_at x.next_scan_due_at
        ≡ leb b.next_scan_due_at y.next_scan_due_at =
      cc (p.1, h.0.1) in
    elim (Bool-cases (leb b.next_scan_due_at y.next_scan_due_at)) [
      | inl first ↦ rw (same ∙ first, first, insert_due) (p, h)
      | inr later ↦ rw (same ∙ later, later, insert_due) (h.0, rest)
    ]

SameQueue-order_by_due :
    (xs ys : List ArticleRow) → SameQueue xs ys → SameQueue (order_by_due xs) (order_by_due ys)
unfolding order_by_due
SameQueue-order_by_due [] [] h = tt
SameQueue-order_by_due [] (y ∷ ys) h = elim h [ ]
SameQueue-order_by_due (x ∷ xs) [] h = elim h [ ]
SameQueue-order_by_due (x ∷ xs) (y ∷ ys) h =
    SameQueue-insert_due x y (order_by_due xs) (order_by_due ys) h.0
      (SameQueue-order_by_due xs ys h.1)

SameQueue-take :
    (n : ℕ) (xs ys : List ArticleRow) → SameQueue xs ys → SameQueue (take n xs) (take n ys)
SameQueue-take zero xs ys h = tt
SameQueue-take (suc n) [] [] h = tt
SameQueue-take (suc n) [] (y ∷ ys) h = elim h [ ]
SameQueue-take (suc n) (x ∷ xs) [] h = elim h [ ]
SameQueue-take (suc n) (x ∷ xs) (y ∷ ys) h = (h.0, SameQueue-take n xs ys h.1)

is_due-SamePlace : (now : ℕ) (a b : ArticleRow) → SamePlace a b → is_due now a ≡ is_due now b
unfolding is_due
is_due-SamePlace now a b h = cc (h.1)

is_dismissed-SamePlace :
    (now : ℕ) (a b : ArticleRow) → SamePlace a b → is_dismissed now a ≡ is_dismissed now b
unfolding is_dismissed
is_dismissed-SamePlace now a b h =
    ap (λ (d : Option ℕ). elim d [ none ↦ false | some at ↦ not (ltb at now) ]) h.2

is_driven-SamePlace :
    (runs : List RunOf) (a b : ArticleRow) → SamePlace a b → is_driven runs a ≡ is_driven runs b
unfolding is_driven
is_driven-SamePlace runs a b h =
    ap (λ (id : String). any (λ r. same_text r.article_id (some id) && is_in_flight r.status) runs)
      h.0

-- The selection looks at nothing else.
pub select_due_articles-SameQueue :
    (runs : List RunOf) (now : ℕ) (opts : SelectDueOptions) (xs ys : List ArticleRow)
    → SameQueue xs ys
    → SameQueue (select_due_articles runs now opts xs) (select_due_articles runs now opts ys)
unfolding select_due_articles is_selected
select_due_articles-SameQueue runs now opts xs ys h = elim (Option-cases opts.article_ids) [
  | inl all ↦
      rw (all, select_due_articles)
        (SameQueue-take opts.limit _ _ (
          SameQueue-order_by_due _ _ (
            SameQueue-keep (is_selected runs now)
              (λ a b s. cc (
                is_due-SamePlace now a b s,
                is_dismissed-SamePlace now a b s,
                is_driven-SamePlace runs a b s,
              ))
              xs ys h)))
  | inr (ids, asked) ↦
      rw (asked, select_due_articles)
        (SameQueue-order_by_due _ _ (
          SameQueue-keep (λ a. includes ids a.article_id && (opts.force || is_due now a))
            (λ a b s. cc (s.0, is_due-SamePlace now a b s)) xs ys h))
]

pub ids_of-SameQueue : (xs ys : List ArticleRow) → SameQueue xs ys → ids_of xs ≡ ids_of ys
unfolding ids_of
ids_of-SameQueue [] [] h = refl
ids_of-SameQueue [] (y ∷ ys) h = elim h [ ]
ids_of-SameQueue (x ∷ xs) [] h = elim h [ ]
ids_of-SameQueue (x ∷ xs) (y ∷ ys) h = cc (h.0.0, ids_of-SameQueue xs ys h.1)
