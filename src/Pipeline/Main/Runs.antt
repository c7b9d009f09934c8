-- ===== src/Pipeline/Main/Runs.antt =====
-- Whole runs of workflows/production.ts: no step is started twice, the CMS is asked once at most, and
-- the bounds on the rounds are bounds on the work.
use ai_content_workflow.Prelude.{
  ℕ, ◌+◌, ◌*◌, ◌≤◌, ◌≡◌, ◌≢◌, Distinct, subst, sym, String, Option, none, some, [], arith, length,
}
use ai_content_workflow.Json.{Json}
use ai_content_workflow.Run.{Status}
use ai_content_workflow.Publish.Failure.{Failure, err}
use ai_content_workflow.Pipeline.StepNames.{StepName}
use ai_content_workflow.Pipeline.World.{World, update_run}
use ai_content_workflow.Pipeline.Platform.{Platform}
use ai_content_workflow.Pipeline.Flow.{
  Exit, done, threw, parked, out_of_fuel, modify, emit_step, do_step,
}
use ai_content_workflow.Pipeline.Bounds.{Below, Sound, Ends, Distinct-Below}
use ai_content_workflow.Pipeline.Main.{RescueGate, run, max_hitl2_rounds}
use ai_content_workflow.Pipeline.Main.Bounds.{first_round, keep_run}
use ai_content_workflow.Json.{str, obj, field, end}
use ai_content_workflow.Pipeline.Frames.{
  any_change, Steady, Steady-bind, Steady-lift, Steady-modify, Steady-step, Steady-emit_step, Parks,
}
use ai_content_workflow.Pipeline.Outcomes.{Settled, EndsIn, DoneIn, ends_after}
use ai_content_workflow.Pipeline.Main.{run_pipeline, catch_failure, fail_run}
use ai_content_workflow.Pipeline.Main.Outcomes.{run_pipeline-Settles}

abbrev round_limit : Option RescueGate → ℕ
round_limit rescue = first_round rescue + max_hitl2_rounds

module _ (p : Platform) (run_id : String) (rescue : Option RescueGate) (w : World)
    (fresh : w.labels ≡ []) where
  Sound-run : Sound (round_limit rescue) 1 (109 + 60 * round_limit rescue) w (run p run_id rescue w)
  Sound-run =
      (keep_run (round_limit rescue) p run_id rescue (omega arith) (omega arith)).sound w
        (subst (Below (round_limit rescue) 0) (sym fresh) tt)

  -- In a run that has started no step yet, whatever the agents, the CMS and the reviewers answer and
  -- wherever the run is adopted, no step is started twice.
  pub run-Distinct : Distinct (run p run_id rescue w).1.labels
  run-Distinct = Distinct-Below (round_limit rescue) _ _ Sound-run.0

  -- Where the platform does not retry a step, a run that has started no step yet calls the upsert of a
  -- CMS client at most once, in all the rounds and on every way of failing.
  pub run-cms : length (run p run_id rescue w).1.cms ≤ length w.cms + 1
  run-cms = Sound-run.1

  -- In a run that has started no step yet, the loops end by themselves: the fuel of the rounds and of
  -- the passes is enough.
  pub run-Ends : (run p run_id rescue w).0 ≢ out_of_fuel
  run-Ends e = subst Ends e Sound-run.2

module _ (p : Platform) (run_id : String) where
  fail_run-Settled : (e : Failure) (u w : World) → Settled u (fail_run p run_id e w)
  unfolding fail_run
  fail_run-Settled e u w = go (fail_run p run_id e w) (never_parks.steady w).0 (never_done.ends w)
    where
      persist : World → World
      persist = update_run (λ r. record r { status = Status.failed; error = some e })

      message : Json
      message = obj (field "message" (str e.message) end)

      persisted : Steady any_change (do_step p StepName.on_error_persist (modify persist))
      persisted =
          Steady-step any_change p StepName.on_error_persist
            (Steady-modify any_change persist (λ v. tt))

      emitted :
          Steady any_change
            (emit_step p StepName.emit_graph_error run_id "graph.error" message none)
      emitted =
          Steady-emit_step any_change p StepName.emit_graph_error run_id "graph.error" message none

      never_parks : Steady any_change (fail_run p run_id e)
      never_parks =
          Steady-bind any_change persisted
            λ _. Steady-bind any_change emitted λ _. Steady-lift any_change (err e)

      never_done : EndsIn (λ x row. ⊥) (fail_run p run_id e)
      never_done =
          ends_after any_change persisted
            λ _. ends_after any_change emitted λ _. record { ends = λ v. tt }

      go :
          (out : Exit (Unit {0}) × World)
          → (Parks out.0 → ⊥)
          → DoneIn (λ x row. ⊥) out.0 out.1
          → Settled u out
      go (done a, v) h k = absurd k
      go (threw x, v) h k = tt
      go (parked, v) h k = absurd (h tt)
      go (out_of_fuel, v) h k = tt

  catch_failure-Settled :
      (u : World) (out : Exit (Unit {0}) × World)
      → Settled u out
      → Settled u (catch_failure p run_id out.0 out.1)
  unfolding catch_failure
  catch_failure-Settled u (done a, v) h = h
  catch_failure-Settled u (threw e, v) h = fail_run-Settled e u v
  catch_failure-Settled u (parked, v) h = h
  catch_failure-Settled u (out_of_fuel, v) h = h

  -- A run that ends without a throw has published the article, and its row says so; or it was turned
  -- down, its row says `rejected` or `changes_requested`, and nothing was sent to the CMS. A run that
  -- parks shows the gate that it waits at, and nothing was sent to the CMS.
  pub run-Settled : (rescue : Option RescueGate) (w : World) → Settled w (run p run_id rescue w)
  unfolding run
  run-Settled rescue w =
      catch_failure-Settled w (run_pipeline p run_id rescue w)
        ((run_pipeline-Settles p run_id rescue).settles w)
