-- ===== src/WordPress/Once.antt =====
-- A create is never published twice.
use ai_content_workflow.Prelude.{
  ℕ, zero, suc, ◌+◌, ◌≤◌, ◌≡◌, refl, String, inl, inr, Option, none, some, arith, str_eq,
  Bool-cases, Option-cases,
}
use ai_content_workflow.Json.{Json}
use ai_content_workflow.Pipeline.World.{PublishPayload}
use ai_content_workflow.WordPress.Responses.{
  PublishOutcome, success, conflict, wp_reject, retriable, ReadbackResult, found, not_found,
  unknown, read_back,
}
use ai_content_workflow.WordPress.Upsert.{
  Site, Published, Gate, attempt_publish, gate_slug, no_slug, gate_create_retry, after_gate,
  after_attempt, go_on, upsert_loop, upsert,
}

-- `posts` counts the posts of the site with the slug of the payload. A request adds one at most, a query
-- none, and a query that lists no post with the slug is right.
module _ {S : Type 0} (site : Site S) (quote : Option String → String)
    (parse : String → Option Json) (p : PublishPayload) (posts : S → ℕ)
    (send_adds : (s : S) → posts (site.send p s).1 ≤ 1 + posts s)
    (query_keeps : (slug : String) (s : S) → posts (site.query slug s).1 ≡ posts s)
    (query_right : (slug : String) (s : S)
      → p.slug ≡ some slug
      → read_back quote parse (site.query slug s).0 ≡ not_found
      → posts s ≡ 0) where
  -- The next attempt adds a post at most to a site that has none.
  abbrev IsSafe : (String → S → Published × S) → Type 0
  IsSafe next = (failure : String) (s : S) → posts s ≡ 0 → posts (next failure s).1 ≤ 1

  abbrev gated : (String → S → Published × S) → String → Gate × S → Published × S
  gated next failure g = after_gate site quote parse next failure g.0 g.1

  after_slug :
      (next : String → S → Published × S) (slug failure : String) (s : S) (n : ℕ)
      → IsSafe next
      → p.slug ≡ some slug
      → posts s ≤ 1 + n
      → posts (gated next failure (gate_slug site quote parse slug failure s)).1 ≤ 1 + n
  unfolding gate_slug after_gate
  after_slug next slug failure s n safe named few =
      by_result (read_back quote parse (site.query slug s).0) refl
    where
      kept : posts (site.query slug s).1 ≤ 1 + n
      kept = omega (arith, query_keeps slug s, few)

      by_result :
          (r : ReadbackResult)
          → read_back quote parse (site.query slug s).0 ≡ r
          → posts (gated next failure (gate_slug site quote parse slug failure s)).1 ≤ 1 + n
      by_result (found post) e = rw (e, gate_slug, after_gate) kept
      by_result unknown e = rw (e, gate_slug, after_gate) kept
      by_result not_found e =
          let fresh : posts (next failure (site.query slug s).1).1 ≤ 1 =
            safe failure (site.query slug s).1
              (omega (arith, query_keeps slug s, query_right slug s named e)) in
          rw (e, gate_slug, after_gate) (omega (arith, fresh))

  after_create :
      (next : String → S → Published × S) (failure : String) (s : S) (n : ℕ)
      → IsSafe next
      → posts s ≤ 1 + n
      → posts (gated next failure (gate_create_retry site quote parse p failure s)).1 ≤ 1 + n
  unfolding gate_create_retry after_gate no_slug
  after_create next failure s n safe few = elim (Option-cases p.slug) [
    | inl missing ↦ rw (missing, gate_create_retry, after_gate, no_slug) few
    | inr (slug, named) ↦ elim (Bool-cases (str_eq slug "")) [
      | inl empty ↦ rw (named, empty, gate_create_retry, after_gate, no_slug) few
      | inr full ↦
          rw (named, full, gate_create_retry) (after_slug next slug failure s n safe named few)
    ]
  ]

  after_outcome :
      (next : String → S → Published × S) (outcome : PublishOutcome) (s : S) (n : ℕ)
      → p.post_id ≡ none
      → IsSafe next
      → posts s ≤ 1 + n
      → posts (after_attempt site quote parse p next outcome s).1 ≤ 1 + n
  unfolding after_attempt
  after_outcome next (success result) s n create safe few = few
  after_outcome next (conflict message) s n create safe few = few
  after_outcome next (wp_reject message) s n create safe few = few
  after_outcome next (retriable message) s n create safe few =
      rw (create, after_attempt) (after_create next message s n safe few)

  go_on-IsSafe :
      (max n : ℕ) (next : String → S → Published × S)
      → ((failure : String) (s : S) → posts (next failure s).1 ≤ 1 + posts s)
      → IsSafe (go_on site quote parse max n next)
  unfolding go_on
  go_on-IsSafe max zero next adds failure s empty = omega (arith, empty)
  go_on-IsSafe max (suc n) next adds failure s empty = omega (arith, adds failure s, empty)

  upsert_loop-posts :
      (max n : ℕ) (last : String) (s : S)
      → p.post_id ≡ none
      → posts (upsert_loop site quote parse max n p last s).1 ≤ 1 + posts s
  unfolding upsert_loop attempt_publish
  upsert_loop-posts max zero last s create = omega arith
  upsert_loop-posts max (suc n) last s create =
      after_outcome (go_on site quote parse max n (upsert_loop site quote parse max n p)) _
        (site.send p s).1 (posts s) create
        (go_on-IsSafe max n (upsert_loop site quote parse max n p)
          (λ failure t. upsert_loop-posts max n failure t create))
        (send_adds s)

  -- An upsert that creates a post adds at most one post to those of its slug, whatever requests fail and
  -- however many attempts are made.
  pub upsert-posts :
      (max : ℕ) (s : S) → p.post_id ≡ none → posts (upsert site quote parse max p s).1 ≤ 1 + posts s
  unfolding upsert
  upsert-posts max s create = upsert_loop-posts max max "no attempt was made" s create
