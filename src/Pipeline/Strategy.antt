-- ===== src/Pipeline/Strategy.antt =====
-- The strategy part of workflows/production.ts: loading the run, the outline of a new article, the
-- preamble of a refresh, and the decision at the outline gate.
pub mod Bounds
pub mod Steady
use ai_content_workflow.Prelude.{
  String, Bool, true, false, ◌||◌, Option, none, some, List, str_eq, if◌then◌else◌, get_or_else,
  is_none, map_some, length, ◌<>◌, take_text,
}
use ai_content_workflow.Json.{Json, null, bool, num, str, obj, end, field, to_string_array}
use ai_content_workflow.Run.{RunRow, Status, StartMode, Hitl1Decision, Hitl1Payload}
use ai_content_workflow.Publish.Target.{target_from_row, build_target_env}
use ai_content_workflow.Pipeline.StepNames.{StepName}
use ai_content_workflow.Pipeline.World.{World, OutlineRow, update_run}
use ai_content_workflow.Pipeline.Platform.{Platform, OutlineInput, FetchResult}
use ai_content_workflow.Pipeline.Flow.{
  done, Flow, pure, lift, throw_error, gets, modify, ◌>>=◌, ◌>>◌, or_throw, do_step, status_step,
  emit_step,
}

-- The run as the workflow carries it: its row, the keywords normalised (RunLoadRow).
pub record RunLoad : Type 0 where
  pub row : RunRow
  pub open row use *
  pub keyword_list : List String

abbrev pub no_payload : Json
no_payload = obj end

-- `content_tool.outlines` is upserted on run_id; a human edit stays marked.
save_outline : Json → World → World
save_outline payload w = record w {
  outline = some (elim w.outline [
    | none ↦ record { payload = payload; edited_by_human = false; human_edits = none }
    | some old ↦ record old { payload = payload }
  ]);
}

-- `mode === "small_refresh" || mode === "full_rewrite" ? mode : "auto"`
unfoldable pub normalize_gap_mode : String → String
normalize_gap_mode mode =
    if str_eq mode "small_refresh" || str_eq mode "full_rewrite" then mode else "auto"

-- A text payload of a legacy row is parsed once more; what does not parse is kept as it is.
unfoldable pub pg_json : (String → Option Json) → Json → Json
pg_json parse (str s) = get_or_else (parse s) (str s)
pg_json parse v = v

-- `run.today_date.slice(0, 10)`
abbrev pub today : RunLoad → String
today run = take_text 10 run.today_date

module _ (p : Platform) where
  unfoldable pub load_run : String → Flow RunLoad
  unfolding ◌>>=◌
  load_run run_id = do
    found ← gets (λ w. w.run)
    row ← or_throw found ("run not found: " <> run_id)
    pure (record { row = row; keyword_list = to_string_array p.parse_json row.keywords })

  -- The call of the outline agent, which writes the outline row when it succeeds.
  run_outline : OutlineInput → Flow (Unit {0})
  unfolding ◌>>=◌ save_outline
  run_outline input = do
    tick ← gets (λ w. length w.labels)
    payload ← lift (p.run_outline tick input)
    modify (save_outline payload)

  outline_input : String → RunLoad → OutlineInput
  outline_input run_id run = record {
    run_id = run_id;
    start_mode = StartMode.create;
    voice_slug = run.persona;
    topic = run.topic;
    keywords = run.keyword_list;
    target_audience = run.target_audience;
    acf_adv_id = run.acf_adv_id;
    acf_widget_id = run.acf_widget_id;
    edit_note = run.edit_note;
    today_date = today run;
    gap_analysis_payload = none;
    existing_markdown = none;
    chosen_route = none;
  }

  -- `pgJson(payload) ?? {}`
  gap_payload : Option Json → Json
  unfolding pg_json
  gap_payload none = obj end
  gap_payload (some v) = elim (pg_json p.parse_json v) [ null ↦ obj end | parsed ↦ parsed ]

  -- The payload of the gap analysis and the route that it chose.
  load_gap_payload : Flow (Json × String)
  unfolding gap_payload
  load_gap_payload w = (
    done (
      gap_payload w.gap,
      elim w.run [ none ↦ "small_refresh" | some r ↦ get_or_else r.chosen_route "small_refresh" ],
    ),
    w,
  )

  -- Reads the article that is refreshed from the CMS of the voice.
  fetch_article : String → RunLoad → String → Flow FetchResult
  unfolding ◌>>=◌
  fetch_article run_id run article_url = do
    tick ← gets (λ w. length w.labels)
    target ←
        lift (target_from_row (p.target_row tick run.persona) (get_or_else (p.env "WP_TARGET") ""))
    fetch_env ← lift (build_target_env p.env target)
    let is_ghost = str_eq target.kind "ghost"
    if is_ghost then lift (p.has_ghost_creds target.auth_ref) else pure tt
    fetched ← lift (
        p.run_fetch_article tick (record {
          run_id = run_id;
          article_url = article_url;
          cms_kind = if is_ghost then "ghost" else "wordpress";
          env = fetch_env;
        }))
    modify (λ w. record w { fetched = some fetched.row })
    pure fetched

  -- The gap analysis writes its row and the chosen route.
  analyse_gap : String → RunLoad → String → Flow (Unit {0})
  unfolding ◌>>=◌
  analyse_gap run_id run article_url = do
    tick ← gets (λ w. length w.labels)
    gap ← lift (
        p.run_gap_analysis tick (record {
          run_id = run_id;
          voice_slug = run.persona;
          topic = run.topic;
          keywords = run.keyword_list;
          article_url = article_url;
          acf_adv_id = run.acf_adv_id;
          acf_widget_id = run.acf_widget_id;
          mode = normalize_gap_mode run.mode;
          edit_note = run.edit_note;
          today_date = today run;
        }))
    modify (λ w. record w { gap = some gap.payload })
    modify (update_run (λ r. record r { chosen_route = some gap.chosen_route }))

  refresh_outline : String → RunLoad → String → Flow String
  unfolding ◌>>=◌ load_gap_payload run_outline outline_input
  refresh_outline run_id run markdown = do
    gap ← load_gap_payload
    run_outline (record (outline_input run_id run) {
      start_mode = StartMode.refresh;
      gap_analysis_payload = some gap.0;
      existing_markdown = some markdown;
      chosen_route = some gap.1;
    })
    pure gap.1

  fetch_payload : FetchResult → Json
  fetch_payload fetched = obj (
      field "source" (str fetched.source) (
        field "wpPostId" (elim fetched.row.wp_post_id [ none ↦ null | some id ↦ num id ])
          (field "externalSource" (bool (is_none fetched.row.wp_post_id)) end)))

  refresh_steps : String → RunLoad → String → Flow RunLoad
  unfolding ◌>>=◌
  refresh_steps run_id run article_url = do
    status_step p StepName.status_fetching Status.fetching
    emit_step p StepName.emit_fetch_start run_id "strategy.fetch_article.start" no_payload none
    fetched ← do_step p StepName.fetch_article (fetch_article run_id run article_url)
    emit_step p StepName.emit_fetch_done run_id "strategy.fetch_article.done"
        (fetch_payload fetched) none
    status_step p StepName.status_strategy_refresh Status.strategy
    emit_step p StepName.emit_gap_start run_id "strategy.gap_analysis.start" no_payload none
    do_step p StepName.gap_analysis (analyse_gap run_id run article_url)
    emit_step p StepName.emit_gap_done run_id "strategy.gap_analysis.done" no_payload none
    emit_step p StepName.emit_outline_start_refresh run_id "strategy.outline.start" no_payload none
    chosen_route ← do_step p StepName.outline (refresh_outline run_id run fetched.row.markdown)
    pure (record run { row = record run.row { chosen_route = some chosen_route } })

  pub run_refresh_strategy : String → RunLoad → Flow RunLoad
  unfolding refresh_steps
  run_refresh_strategy run_id run = elim run.article_url [
    | none ↦ throw_error ("refresh run " <> run_id <> " has no article_url")
    | some article_url ↦
        if str_eq article_url ""
        then throw_error ("refresh run " <> run_id <> " has no article_url")
        else refresh_steps run_id run article_url
  ]

  pub run_create_strategy : String → RunLoad → Flow RunLoad
  unfolding ◌>>=◌
  run_create_strategy run_id run = do
    status_step p StepName.status_strategy Status.strategy
    emit_step p StepName.emit_outline_start run_id "strategy.outline.start" no_payload none
    do_step p StepName.outline (run_outline (outline_input run_id run))
    pure run

-- `payload.edited_outline` replaces the outline and is recorded as the human edit.
edit_outline : Option Json → World → World
edit_outline none w = w
edit_outline (some edited) w = record w {
  outline =
      map_some {A = OutlineRow}
        (λ o. record o { payload = edited; edited_by_human = true; human_edits = some edited })
        w.outline;
}

override_route : Option String → World → World
override_route none w = w
override_route (some route) w =
    if str_eq route "" then w else update_run (λ r. record r { chosen_route = some route }) w

apply_edits : Hitl1Payload → World → World
unfolding edit_outline override_route
apply_edits payload w = elim payload.decision [
  | Hitl1Decision.edit_outline ↦ edit_outline payload.edited_outline w
  | Hitl1Decision.override_route ↦ override_route payload.new_route w
  | _ ↦ w
]

record_hitl1 : Hitl1Payload → World → World
record_hitl1 payload =
    update_run
      (λ r. record r { hitl_1_decision = some payload.decision; hitl_1_notes = payload.notes })

-- The decision at the outline gate; `true` when the run was cancelled.
unfoldable pub apply_hitl1 : Hitl1Payload → Flow Bool
unfolding record_hitl1 apply_edits
apply_hitl1 payload w = elim payload.decision [
  | Hitl1Decision.cancel ↦ (
    done true,
    record_hitl1 payload (update_run (λ r. record r { status = Status.changes_requested }) w),
  )
  | _ ↦ (done false, record_hitl1 payload (apply_edits payload w))
]
