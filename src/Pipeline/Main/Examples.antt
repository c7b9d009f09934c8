-- ===== src/Pipeline/Main/Examples.antt =====
-- Concrete runs for the tests: an article, its reviewers, and a platform whose services answer.
use ai_content_workflow.Prelude.{ℕ, String, false, none, some, List, [], ◌∷◌, ◌<>◌, to_decimal, leb}
use ai_content_workflow.Json.{null, str, arr, obj, nil, cons, end}
use ai_content_workflow.Run.{
  RunRow, Status, StartMode, Hitl1Decision, Hitl2Decision, Hitl1Payload, Hitl2Payload,
}
use ai_content_workflow.Publish.Failure.{Failure, Result, ok}
use ai_content_workflow.Pipeline.World.{World}
use ai_content_workflow.Pipeline.Platform.{Platform}

abbrev pub refused : Failure
refused = record { name = "Error"; message = "the CMS refused" }

-- The services answer; the audits before step `passes` fail, and the CMS answers as `cms` says.
abbrev pub demo_platform : ℕ → Result (ℕ × String) → Platform
demo_platform passes cms = record {
  web = record { pathname = λ u. none; decode_uri_component = λ s. some s };
  env = λ key. none;
  parse_json = λ s. none;
  now = λ n. n;
  fault = λ n. none;
  target_row = λ n voice. none;
  run_outline = λ n input. ok (obj end);
  run_fetch_article = λ n input. ok (record {
    row = record { wp_post_id = some 7; cms_post_id = none; markdown = "old" };
    source = "wordpress";
  });
  run_gap_analysis = λ n input. ok (record { payload = obj end; chosen_route = "full_rewrite" });
  generate_draft = λ n input. ok (record {
    markup = "draft of step " <> to_decimal n;
    citation_intents = arr nil;
    grounding_chunks = arr nil;
  });
  resolve_citations =
      λ n input. ok (record { final_markup = input.markup_raw; displayed_count = 0; rows = [] });
  render_html = λ n voice markup. ok (record {
    draft_id = 0;
    seo_title = "title";
    meta_description = "meta";
    html_body = markup;
    schema_jsonld = null;
    excerpt_suggestion = none;
    slug_suggestion = none;
  });
  judge_draft = λ n input.
      ok (record { overall_pass = leb passes n; llm_findings = []; deterministic_findings = [] });
  build_meta = λ description schema. str description;
  build_ghost_schema_head = λ schema. none;
  has_ghost_creds = λ ref. ok tt;
  wp_upsert = λ n env payload. cms;
  ghost_upsert = λ n ref payload. ok ("ghost-1", "https://blog.example/a");
  write_compliance_log = λ n. ok tt;
}

abbrev pub posted : Result (ℕ × String)
posted = ok (7, "https://example.org/a")

abbrev pub demo_row : StartMode → RunRow
demo_row mode = record {
  run_id = "r1";
  status = Status.pending;
  error = none;
  start_mode = mode;
  mode = "auto";
  topic = "topic";
  keywords = arr (cons (str "k") nil);
  persona = "voice";
  topic_category = none;
  target_audience = none;
  edit_note = none;
  acf_adv_id = 0;
  acf_widget_id = 0;
  today_date = "2026-01-01";
  chosen_route = none;
  article_url = some "https://example.org/a";
  wp_pushed_post_id = none;
  wp_pushed_at = none;
  cms_post_id = none;
  auto_accept_hitl1 = false;
  hitl_1_decision = none;
  hitl_1_notes = none;
  hitl_2_decision = none;
  hitl_2_notes = none;
  hitl_2_comments = null;
  hitl_2_iteration = 0;
  approved_at = some 1;
  approved_by = some "chief";
  approved_target_kind = some "wordpress";
  approved_post_id = some "7";
  approved_target_label = some "";
  wp_publish_status = none;
  wp_author_id = none;
  wp_category_ids = null;
  wp_tag_ids = null;
  wp_featured_media_id = none;
  wp_slug = none;
  wp_excerpt = none;
  wp_publish_at = none;
  ghost_author_ids = null;
  ghost_tags = null;
  feature_image_url = none;
}

abbrev pub approve_outline : Hitl1Payload
approve_outline = record {
  decision = Hitl1Decision.approve;
  notes = none;
  edited_outline = none;
  new_route = none;
}

abbrev pub decide : Hitl2Decision → Hitl2Payload
decide d = record { decision = d; notes = none; comments = none }

abbrev pub demo_world : StartMode → List Hitl2Payload → World
demo_world mode decisions = record {
  run = some (demo_row mode);
  outline = none;
  gap = none;
  fetched = none;
  drafts = [];
  renders = [];
  audits = [];
  citations = [];
  persisted_urls = [];
  compliance = [];
  events = [];
  labels = [];
  cms = [];
  hitl1_events = approve_outline ∷ [];
  hitl2_events = decisions;
}
