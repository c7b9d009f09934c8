-- ===== src/WordPress/Tests.antt =====
-- The theorem on upserts at a site that keeps the slugs of its posts and whose first answer is lost.
use ai_content_workflow.Prelude.{
  ℕ, zero, suc, ◌+◌, ◌≤◌, ◌≡◌, refl, String, [], to_lower, str_eq, if◌then◌else◌, Option, none,
  some, arith,
}
use ai_content_workflow.Json.{Json, null, arr, obj, end, nil, cons}
use ai_content_workflow.Pipeline.World.{PublishPayload}
use ai_content_workflow.WordPress.Responses.{
  Reply, transport_error, answered, read_back, not_found, is_json_body,
}
use ai_content_workflow.WordPress.Upsert.{Site, upsert}
use ai_content_workflow.WordPress.Once.{upsert-posts}

abbrev payload : PublishPayload
payload = record {
  post_id = none;
  title = "t";
  content = "c";
  excerpt = "";
  status = "draft";
  slug = some "s";
  categories = [];
  tags = [];
  author = none;
  featured_media = none;
  meta = null;
  template = "";
}

-- The body stands for a list of no post, or of one.
abbrev body : ℕ → String
body zero = "[]"
body (suc n) = "[{}]"

abbrev listing : String → Reply
listing text = answered (record {
  status = 200;
  content_type = some "application/json";
  x_cache = none;
  text = text;
  length = 2;
})

abbrev parse : String → Option Json
parse s = if str_eq s "[]" then some (arr nil) else some (arr (cons (obj end) nil))

-- The state counts the posts; the answer to a request is always lost.
abbrev site : Site ℕ
site = record {
  send = λ p n. (transport_error "timeout", 1 + n);
  query = λ slug n. (listing (body n), n);
}

query_right :
    (slug : String) (n : ℕ)
    → payload.slug ≡ some slug
    → read_back (λ o. "") parse (site.query slug n).0 ≡ not_found
    → n ≡ 0
unfolding read_back is_json_body to_lower
query_right slug zero named e = refl
query_right slug (suc n) named e = absurd (cc e)

upsert-posts_example : (upsert site (λ o. "") parse 3 payload 0).1 ≤ 1 + 0
upsert-posts_example =
    upsert-posts site (λ o. "") parse payload (λ n. n) (λ n. omega arith) (λ slug n. refl)
      query_right 3 0 refl
