-- ===== src/WordPress/Responses.antt =====
-- What an answer of WordPress means (classifyResponse and findPostBySlug of wordpress/client.ts). The
-- headers that are read are fields of the answer; `parse` is JSON.parse, `none` where it throws, and
-- `quote` is JSON.stringify of a header.
use ai_content_workflow.Prelude.{
  ℕ, String, ◌<>◌, Bool, ◌&&◌, Option, none, some, str_eq, leb, ltb, ◌==◌, if◌then◌else◌,
  get_or_else, starts_with, to_lower, to_decimal, take_text,
}
use ai_content_workflow.Json.{Json, str, arr, obj, nil, cons, get_field, is_object}

pub record HttpResponse : Type 0 where
  pub status : ℕ
  pub content_type : Option String
  pub x_cache : Option String
  pub text : String
  -- the length of the text in units of UTF-16
  pub length : ℕ

-- A request that fails in transport has a message.
pub data Reply : Type 0 where
  transport_error : String → Reply
  answered : HttpResponse → Reply

-- The fields are cast, not checked: any of them may be missing.
pub record PublishResult : Type 0 where
  pub id : Option Json
  pub link : Option Json
  pub status : Option Json
  pub modified_gmt : Option Json
  pub slug : Option Json

pub data PublishOutcome : Type 0 where
  success : PublishResult → PublishOutcome
  conflict wp_reject retriable : String → PublishOutcome

pub data ReadbackResult : Type 0 where
  found : PublishResult → ReadbackResult
  not_found unknown : ReadbackResult

field_of : String → Json → Option Json
unfolding get_field
field_of key (obj fs) = get_field key fs
field_of key _ = none

to_publish_result : Json → PublishResult
unfolding field_of
to_publish_result v = record {
  id = field_of "id" v;
  link = field_of "link" v;
  status = field_of "status" v;
  modified_gmt = field_of "modified_gmt" v;
  slug = field_of "slug" v;
}

unfoldable pub is_json_body : HttpResponse → Bool
is_json_body resp =
    starts_with (to_lower (get_or_else resp.content_type "")) "application/json"
    && ltb 0 resp.length

abbrev or_text : String → String → String
or_text s t = if str_eq s "" then t else s

wp_message : Json → String → String
unfolding field_of
wp_message v text = elim (field_of "message" v) [ some (str s) ↦ s | _ ↦ take_text 500 text ]

module _ (quote : Option String → String) (parse : String → Option Json) where
  non_json_diagnosis : HttpResponse → String
  non_json_diagnosis resp =
      "WP REST returned non-JSON response ("
      <> to_decimal resp.status
      <> " "
      <> or_text (get_or_else resp.content_type "") "no content-type"
      <> ", "
      <> to_decimal resp.length
      <> " bytes, x-cache="
      <> quote resp.x_cache
      <> ") — likely a CloudFront/origin outage."

  classify_parsed : HttpResponse → Json → PublishOutcome
  unfolding to_publish_result wp_message
  classify_parsed resp v =
      if leb 200 resp.status && ltb resp.status 300
      then success (to_publish_result v)
      else if leb 400 resp.status && ltb resp.status 500
      then wp_reject (to_decimal resp.status <> ": " <> wp_message v resp.text)
      else retriable (to_decimal resp.status <> ": " <> take_text 500 resp.text)

  unfoldable pub classify_response : HttpResponse → PublishOutcome
  unfolding is_json_body non_json_diagnosis classify_parsed
  classify_response resp =
      if resp.status == 412
      then conflict (or_text (take_text 500 resp.text) "412 conflict")
      else if is_json_body resp
      then elim (parse resp.text) [
        | none ↦ retriable (non_json_diagnosis resp)
        | some v ↦
            if is_object v then classify_parsed resp v else retriable (non_json_diagnosis resp)
      ]
      else retriable (non_json_diagnosis resp)

  -- A first entry that is null, at which the code throws, is read as one without fields.
  first_post : Json → ReadbackResult
  unfolding to_publish_result
  first_post (arr nil) = not_found
  first_post (arr (cons v rest)) = found (to_publish_result v)
  first_post _ = unknown

  unfoldable pub read_back : Reply → ReadbackResult
  unfolding is_json_body first_post
  read_back (transport_error message) = unknown
  read_back (answered resp) =
      if leb 200 resp.status && ltb resp.status 300 && is_json_body resp
      then elim (parse resp.text) [ none ↦ unknown | some v ↦ first_post v ]
      else unknown
