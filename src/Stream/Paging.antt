-- ===== src/Stream/Paging.antt =====
-- Reads of the log, page by page.
use ai_content_workflow.Prelude.{
  ℕ, String, ◌≤◌, ◌<◌, ◌≡◌, refl, sym, ap, ◌∙◌, subst, ◌⊎◌, ◌↔◌, inl, inr, true, false, Option,
  none, some, arith, ltb, Bool-cases, str_eq, eq_iff,
}
use ai_content_workflow.Stream.Rows.{EventLogRow, LogLevel, info, thinking, gate, error}
use ai_content_workflow.Stream.Reading.{
  Finite, LogQuery, same_level, is_positive, clamp_limit, is_after, is_wanted, max_log_limit,
}

-- A read gives at most 10000 rows, and at least one is asked for, unless the limit lies between 0 and 1:
-- then none is.
pub clamp_limit_lem :
    (limit : Finite)
    → (clamp_limit (some limit) ≤ max_log_limit)
      × ((1 ≤ clamp_limit (some limit))
          ⊎ ((limit.negative ≡ false)
              × (limit.whole ≡ 0)
              × (limit.fractional ≡ true)
              × (clamp_limit (some limit) ≡ 0)))
unfolding clamp_limit is_positive
clamp_limit_lem limit = elim (Bool-cases limit.negative) [
  | inl below ↦ (ground (arith, below), inl (ground (arith, below)))
  | inr above ↦ elim (Bool-cases (ltb 0 limit.whole)) [
    | inl big ↦ (ground (arith, above, big), inl (ground (arith, above, big)))
    | inr small ↦ elim (Bool-cases limit.fractional) [
      | inl part ↦ (
        ground (arith, above, small, part),
        inr (above, ground (arith, small), part, ground (arith, above, small, part)),
      )
      | inr whole ↦ (ground (arith, above, small, whole), inl (ground (arith, above, small, whole)))
    ]
  ]
]

same_level-eq : (a b : LogLevel) → same_level a b ≡ true → a ≡ b
unfolding same_level
same_level-eq info info h = refl
same_level-eq info thinking h = absurd (cc h)
same_level-eq info gate h = absurd (cc h)
same_level-eq info error h = absurd (cc h)
same_level-eq thinking info h = absurd (cc h)
same_level-eq thinking thinking h = refl
same_level-eq thinking gate h = absurd (cc h)
same_level-eq thinking error h = absurd (cc h)
same_level-eq gate info h = absurd (cc h)
same_level-eq gate thinking h = absurd (cc h)
same_level-eq gate gate h = refl
same_level-eq gate error h = absurd (cc h)
same_level-eq error info h = absurd (cc h)
same_level-eq error thinking h = absurd (cc h)
same_level-eq error gate h = absurd (cc h)
same_level-eq error error h = refl

same_level_refl : (a : LogLevel) → same_level a a ≡ true
unfolding same_level
same_level_refl info = refl
same_level_refl thinking = refl
same_level_refl gate = refl
same_level_refl error = refl

-- A query for the rows after a number, where one is given, of a level, where one is given.
abbrev pub query_of : Option ℕ → Option Finite → Option LogLevel → LogQuery
query_of since limit level = record {
  since_seq = elim since [
    | none ↦ none
    | some k ↦ some (record { negative = false; whole = k; fractional = false })
  ];
  limit = limit;
  level = level;
}

-- The rows that a query asks for.
abbrev pub Wants : String → Option ℕ → Option LogLevel → EventLogRow → Type 0
Wants id since level r =
    (r.stream_id ≡ id)
    × ((k : ℕ) → since ≡ some k → k < r.seq)
    × ((l : LogLevel) → level ≡ some l → r.level ≡ l)

module _ (id : String) (since : Option ℕ) (limit : Option Finite) (level : Option LogLevel) where
  after_lem :
      (r : EventLogRow)
      → (is_after (query_of since limit level).since_seq r.seq ≡ true)
        ↔ ((k : ℕ) → since ≡ some k → k < r.seq)
  unfolding is_after
  after_lem r = go since
    where
      go :
          (o : Option ℕ)
          → (is_after (query_of o limit level).since_seq r.seq ≡ true)
            ↔ ((k : ℕ) → o ≡ some k → k < r.seq)
      go none = ((λ h k e. absurd (cc e)), λ h. refl)
      go (some j) = (
        (λ h k e.
            let below : j < r.seq = ground (arith, h) in
            let same : j ≡ k = ap (λ (o : Option ℕ). elim o [ none ↦ j | some n ↦ n ]) e in
            omega (arith, below, same)),
        λ h. let below : j < r.seq = h j refl in ground (arith, below),
      )

  level_lem :
      (r : EventLogRow)
      → ((elim level [ none ↦ true | some l ↦ same_level r.level l ]) ≡ true)
        ↔ ((l : LogLevel) → level ≡ some l → r.level ≡ l)
  level_lem r = go level
    where
      go :
          (o : Option LogLevel)
          → ((elim o [ none ↦ true | some l ↦ same_level r.level l ]) ≡ true)
            ↔ ((l : LogLevel) → o ≡ some l → r.level ≡ l)
      go none = ((λ h l e. absurd (cc e)), λ h. refl)
      go (some m) = (
        (λ h l e.
            same_level-eq r.level m h
            ∙ ap (λ (o : Option LogLevel). elim o [ none ↦ m | some n ↦ n ]) e),
        λ h. subst (λ (x : LogLevel). same_level x m ≡ true) (sym (h m refl)) (same_level_refl m),
      )

  pub is_wanted_iff :
      (r : EventLogRow)
      → (is_wanted id (query_of since limit level) r ≡ true) ↔ Wants id since level r
  unfolding is_wanted
  is_wanted_iff r = (
    (λ h. (
      (eq_iff r.stream_id id).0 (ground (arith, h)),
      (after_lem r).0 (ground (arith, h)),
      (level_lem r).0 (ground (arith, h)),
    )),
    λ h.
        let own : str_eq r.stream_id id ≡ true = (eq_iff r.stream_id id).1 h.0 in
        let later = (after_lem r).1 h.1 in
        let fits = (level_lem r).1 h.2 in ground (arith, own, later, fits),
  )
