-- ===== src/WordPress/Upsert.antt =====
-- upsert, gateCreateRetry and attemptPublish of wordpress/client.ts. The site that answers is a parameter:
-- its state with what it does on a publish request and on a query of a slug. The wait between two
-- attempts changes nothing and is left out.
use ai_content_workflow.Prelude.{
  ℕ, zero, suc, String, ◌<>◌, Option, none, some, str_eq, if◌then◌else◌, is_none, to_decimal,
}
use ai_content_workflow.Json.{Json}
use ai_content_workflow.Pipeline.World.{PublishPayload}
use ai_content_workflow.WordPress.Responses.{
  Reply, transport_error, answered, PublishResult, PublishOutcome, success, conflict, wp_reject,
  retriable, found, not_found, unknown, classify_response, read_back,
}

pub record Site (S : Type 0) : Type 0 where
  pub send : PublishPayload → S → Reply × S
  pub query : String → S → Reply × S

abbrev pub default_max_attempts : ℕ
default_max_attempts = 3

-- What upsert returns or throws.
pub data Published : Type 0 where
  done : PublishResult → Published
  conflict_error wordpress_error : String → Published

pub data Gate : Type 0 where
  landed : PublishResult → Gate
  retry : Gate
  stop : String → Gate

module _ {S : Type 0} (site : Site S) (quote : Option String → String)
    (parse : String → Option Json) where
  classify : Reply → PublishOutcome
  unfolding classify_response
  classify (transport_error message) = retriable ("transport_error: " <> message)
  classify (answered resp) = classify_response quote parse resp

  unfoldable pub attempt_publish : PublishPayload → S → PublishOutcome × S
  unfolding classify
  attempt_publish p s = let sent = site.send p s in (classify sent.0, sent.1)

  unfoldable pub gate_slug : String → String → S → Gate × S
  unfolding read_back
  gate_slug slug failure s =
      let asked = site.query slug s in
      elim (read_back quote parse asked.0) [
        | found post ↦ (landed post, asked.1)
        | not_found ↦ (retry, asked.1)
        | unknown ↦ (
          stop (
              "WP create failed and the slug read-back was inconclusive (read-back blocked); "
              <> "not retrying to avoid a duplicate post. Last failure: " <> failure),
          asked.1,
        )
      ]

  unfoldable pub no_slug : String → Gate
  no_slug failure = stop (
      "WP create failed and could not be retried: read-back was impossible "
      <> "because no slug was supplied (cannot prove a duplicate was not created). "
      <> "Last failure: " <> failure)

  unfoldable pub gate_create_retry : PublishPayload → String → S → Gate × S
  unfolding gate_slug no_slug
  gate_create_retry p failure s = elim p.slug [
    | none ↦ (no_slug failure, s)
    | some slug ↦ if str_eq slug "" then (no_slug failure, s) else gate_slug slug failure s
  ]

  -- What follows the read-back; `next` is the next attempt.
  unfoldable pub after_gate : (String → S → Published × S) → String → Gate → S → Published × S
  after_gate next failure (landed post) s = (done post, s)
  after_gate next failure (stop why) s = (wordpress_error why, s)
  after_gate next failure retry s = next failure s

  unfoldable pub after_attempt :
      PublishPayload → (String → S → Published × S) → PublishOutcome → S → Published × S
  unfolding gate_create_retry after_gate
  after_attempt p next (success result) s = (done result, s)
  after_attempt p next (conflict message) s = (conflict_error message, s)
  after_attempt p next (wp_reject message) s = (wordpress_error message, s)
  after_attempt p next (retriable message) s =
      if is_none p.post_id
      then (let gated = gate_create_retry p message s in after_gate next message gated.0 gated.1)
      else next message s

  -- An attempt that was the last one gives up.
  unfoldable pub go_on : ℕ → ℕ → (String → S → Published × S) → String → S → Published × S
  go_on max zero next failure s = (
    wordpress_error ("WP publish failed after " <> to_decimal max <> " attempts: " <> failure),
    s,
  )
  go_on max (suc n) next failure s = next failure s

  -- The loop with `n` attempts left of `max`.
  unfoldable pub upsert_loop : ℕ → ℕ → PublishPayload → String → S → Published × S
  unfolding attempt_publish after_attempt go_on
  upsert_loop max zero p last s = (wordpress_error ("WP publish failed: " <> last), s)
  upsert_loop max (suc n) p last s =
      let sent = attempt_publish p s in
      after_attempt p (go_on max n (upsert_loop max n p)) sent.0 sent.1

  unfoldable pub upsert : ℕ → PublishPayload → S → Published × S
  unfolding upsert_loop
  upsert max p s = upsert_loop max max p "no attempt was made" s
