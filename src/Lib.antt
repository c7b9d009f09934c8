-- ===== src/Lib.antt =====
-- The content workflow: an article is planned, written, audited, reviewed by people at two gates, and
-- published to WordPress or Ghost. The code is the Cloudflare worker of deploy/cloudflare-workers,
-- with the tracked changes of the web application.
--
-- Parts and files:
--
-- - Prelude (Prelude/Tests, Prelude/Lists, Prelude/Pairs, Prelude/Text, Prelude/Programs): names of the
--   libraries, Boolean tests, lists over the native numbers, operations on texts, and programs on a state
--   that may fail.
-- - Json: JSON values and the helpers at the end of deploy/cloudflare-workers/src/workflows/production.ts
--   (toStringArray, toObjectArray, extractFindings, ...).
-- - Run: the row of content_tool.runs with its statuses and decisions (production.ts, web/lib/types.ts).
-- - Publish: the pure parts of publishing. Publish/Guards is util/publish_guards.ts and
--   wordpress/publish_status.ts, Publish/Pin is workflows/target_pin.ts, Publish/Slug is
--   util/url_slug.ts, Publish/Target is publishers/wp_factory.ts, Publish/Failure a thrown error.
-- - Pipeline: one run of ProductionWorkflow (workflows/production.ts). Pipeline/StepNames are the labels
--   of its durable steps, Pipeline/World the rows, events, labels and requests, Pipeline/Platform what
--   is called and not modelled, Pipeline/Flow the code as state passing with statusStep, emitStep,
--   gateStep and waitForEvent. Pipeline/Strategy is load-run, runRefreshStrategy, the outline and
--   applyHitl1; Pipeline/Drafts the drafts and buildRefineNotes (and upsertDraft of agents/writer.ts);
--   Pipeline/Production is runProductionLoop; Pipeline/Publishing is publish, publishToGhost and
--   assertPinnedTarget; Pipeline/Main is runPipeline and run.
-- - Gates: the routes that decide (routes/runs.ts). Gates/Resume is POST /:id/resume, Gates/Confirm and
--   Gates/Decide POST /:id/hitl-2, Gates/Restart POST /:id/restart with routes/run_guards.ts,
--   Gates/Actor is routes/identity.ts, Gates/Instances is rescueRunHere.
-- - Auth: auth/authz.ts. Auth/Roles are the roles and effectiveRole, Auth/Access is loadRole (the table of
--   users is a list; the cache on the context is left out) and requireRole. The administration of users:
--   Auth/Directory is the table app_user with its statements, Auth/Gotrue auth/gotrue-admin.ts down to the
--   HTTP requests, Auth/Requests and Auth/Admin routes/admin.ts behind requireRole. A statement may fail
--   anywhere. The list of users and the audit log are left out.
-- - Stream: the events of a run. Stream/Rows is db/event-log.ts, Stream/Reading its read API, Stream/Hub the
--   durable object RunStream (run-stream.ts), Stream/Steps the order in which its steps may come: an
--   alarm's snapshot, its insertion and the appends in between are steps of their own. An append is one
--   step: that the get and the put of persist may overlap with those of another append is not modelled,
--   nor are the eviction of the object during an insertion and failures of its storage.
-- - WordPress: the upsert of wordpress/client.ts. WordPress/Responses says what an answer means,
--   WordPress/Upsert is the loop of attempts with the read-back before a create is sent again. The site is
--   a parameter; a request that lands after the read-back is outside of it.
-- - Refresh: the scan for articles that grew stale. Refresh/Scoring is computeStaleness with the schedule
--   (refresh/evaluator.ts, refresh/inventory.ts, config/refresh.ts), Refresh/Store the tables and the queries,
--   which may fail at any statement, Refresh/Scan scanArticle, Refresh/Select selectDueArticles,
--   Refresh/Tick scanTick (all of refresh/scanner.ts) and the run of workflows/refresh_scan.ts in chunks,
--   whose articles come one after the other where the code scans them with Promise.all,
--   Refresh/Route POST /scan/:articleId of routes/refresh.ts. The checks of the HTML are a parameter.
-- - Tracking: web/lib/tracked-changes.ts. Tracking/Parts are the decisions on the parts of a diff (commitHunk,
--   dismissHunk, commitAll, dismissAll) and buildInlineDiffHtml. How the parts are made (tokens, sanitizer,
--   jsdiff) is not modelled. Tracking/Pieces and Tracking/Rendering say what the rendering is made of.
--
-- How they interact: the routes write a decision on the row of the run and send it to the workflow
-- instance, or adopt the run with the decision injected (RescueGate); the workflow reads the row again
-- at its publish step. Both resolve the publish target, the route to confirm it and the workflow to
-- check it, so the pin on the row is their contract. The administration of users writes the table by which
-- requireRole decides, and stands behind it itself. A refresh that the scan asks for starts a run, and an
-- article that a run drives is not scanned.
--
-- The logics of the workflow: Pipeline/Bounds counts steps and requests and forbids running out of
-- fuel, Pipeline/Frames says what a flow leaves alone, Pipeline/Outcomes how it ends. Each component has
-- its lemmas for them in child modules of those names.
--
-- Fuel: the production loop runs on max_iterations = 2 (MAX_ITERATIONS), which its own test makes
-- enough; the rounds of review run on max_hitl2_rounds + 1 = 4 (MAX_HITL2_ROUNDS), enough wherever an
-- adopted run starts; the chunks of a tick run on the number of its articles, and each takes one at least;
-- findUserByEmail reads its 20 pages (FIND_USER_MAX_PAGES) at most.
-- Every step of a run is run once: the retries of the platform and its replay of cached steps
-- are not modelled, but a step may fail before its body or after it (Fault), and an answer of a service
-- may depend on the number of steps so far. In the world of a run a request to a CMS is one call of
-- upsert of its client; the attempts inside that call are those of WordPress/Upsert. The id of a new
-- draft is the next number, where upsertDraft draws a UUID. Columns of JSON are read as values, as
-- extractFindings does; toStringArray also takes the text of one.
--
-- What is not modelled: the agents and their prompts, the HTTP clients but for the upsert to WordPress and
-- the calls of GoTrue, logging and traces, the validation of request bodies, the SQL itself (an UPDATE is
-- a function on the row, and the columns are those that the code reads or writes), the timeout of a year
-- at a gate, the Python backend, and the web application but for its tracked changes. White space is that
-- of ASCII with the no-break space, lower case that of ASCII letters. Numbers in JSON are natural numbers.
pub mod Prelude
pub mod Json
pub mod Publish
pub mod Run
pub mod Pipeline
pub mod Gates
pub mod Auth
pub mod Stream
pub mod WordPress
pub mod Refresh
pub mod Tracking
