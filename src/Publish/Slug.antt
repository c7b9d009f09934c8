-- ===== src/Publish/Slug.antt =====
-- deploy/cloudflare-workers/src/util/url_slug.ts. `new URL(u).pathname` and `decodeURIComponent`
-- belong to the web platform: parameters that answer `none` where they throw.
use ai_content_workflow.Prelude.{
  String, ◌≡◌, Bool, not, ◌&&◌, Option, none, some, arith, str_eq, same_text, contains, trim, split,
  head?, get_last?, keep, get_or_else, is_none, if◌then◌else◌,
}

pub record Web : Type 0 where
  pub pathname : String → Option String
  pub decode_uri_component : String → Option String

module _ (web : Web) where
  decode_slug_segment : String → String
  decode_slug_segment s = get_or_else (web.decode_uri_component s) s

  -- The part before the first `?` or `#`.
  before_query : String → String
  before_query url = get_or_else (head? (split b'#' (get_or_else (head? (split b'?' url)) ""))) ""

  last_segment : String → Option String
  last_segment path = elim (get_last? (keep (λ s. not (str_eq s "")) (split b'/' path))) [
    | none ↦ none
    | some last ↦ web.decode_uri_component last
  ]

  unfoldable pub slug_from_url : Option String → Option String
  unfolding before_query last_segment
  slug_from_url none = none
  slug_from_url (some url) =
      if str_eq url ""
      then none
      else if contains url "://"
      then (elim (web.pathname url) [ none ↦ none | some path ↦ last_segment path ])
      else last_segment (before_query url)

  -- `is_blank` is the test `=== ""`, which no WordPress id passes.
  unfoldable pub resolve_post_id_for_slug {ℓ} :
      {T : Type ℓ} → (T → Bool) → Option T → Option String → Option String → Option T
  unfolding decode_slug_segment
  resolve_post_id_for_slug is_blank none existing_url new_slug_raw = none
  resolve_post_id_for_slug is_blank (some id) existing_url new_slug_raw =
      let new_slug = decode_slug_segment (trim (get_or_else new_slug_raw "")) in
      let existing_slug = slug_from_url existing_url in
      if not (is_blank id)
        && not (is_none existing_slug)
        && not (str_eq new_slug "")
        && not (same_text (some new_slug) existing_slug)
      then none
      else some id

  -- An id that comes out is the id that went in: a post is updated or a new one is made, and no
  -- other post is ever addressed.
  pub resolve_post_id_for_slug_same {ℓ} :
      {T : Type ℓ} (is_blank : T → Bool) (existing : Option T) (url slug : Option String) (id : T)
      → resolve_post_id_for_slug is_blank existing url slug ≡ some id
      → existing ≡ some id
  unfolding resolve_post_id_for_slug
  resolve_post_id_for_slug_same is_blank none url slug id e = e
  resolve_post_id_for_slug_same is_blank (some i) url slug id e = ground arith
