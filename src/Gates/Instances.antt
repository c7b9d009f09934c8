-- ===== src/Gates/Instances.antt =====
-- The workflow instances that the routes call, and the adoption of a run by this deployment
-- (rescueRunHere of deploy/cloudflare-workers/src/routes/runs.ts). The instances belong to the platform:
-- each call answers or throws.
use ai_content_workflow.Prelude.{
  ℕ, String, Bool, true, false, ◌&&◌, ◌||◌, not, Option, some, to_lower, contains, starts_with,
  ◌==◌,
}
use ai_content_workflow.Run.{Hitl1Payload, Hitl2Payload}
use ai_content_workflow.Publish.Failure.{Result, ok, err}
use ai_content_workflow.Pipeline.Main.{RescueGate}
use Prim.Native.Char.{code}

pub record RestartFrom : Type 0 where
  pub name : String
  pub count : Option ℕ

-- `env.PRODUCTION`; the event of a decision and the start of an instance, or what they throw.
pub record Instances : Type 0 where
  pub send_hitl1 : String → Hitl1Payload → Result (Unit {0})
  pub send_hitl2 : String → Hitl2Payload → Result (Unit {0})
  pub create : String → Option RescueGate → Result (Unit {0})
  pub restart : String → Option RestartFrom → Result (Unit {0})

-- `/already.?exist/` at the start of a text
already_exist_here : String → Bool
already_exist_here s = starts_with s "alreadyexist" || one_between s
  where
    one_between : String → Bool
    one_between
          (String.◌∷◌ a (
            String.◌∷◌ b (
              String.◌∷◌ c
                (String.◌∷◌ d (String.◌∷◌ e (String.◌∷◌ f (String.◌∷◌ g (String.◌∷◌ x rest)))))))) =
        starts_with s "already" && not (code x == 10) && starts_with rest "exist"
    one_between _ = false

already_exist : String → Bool
unfolding already_exist_here
already_exist String.[] = false
already_exist (String.◌∷◌ c s) = already_exist_here (String.◌∷◌ c s) || already_exist s

-- `/already.?exist|duplicate/i`
unfoldable pub is_duplicate : String → Bool
unfolding already_exist to_lower contains
is_duplicate message = let m = to_lower message in already_exist m || contains m "duplicate"

unfoldable pub rescue_run_here : Instances → String → RescueGate → Bool
rescue_run_here env run_id rescue = elim (env.create run_id (some rescue)) [
  | ok done ↦ true
  | err e ↦ is_duplicate e.message
]

-- What a route answers: with 200, or with a status and a detail.
pub data Response : Type 0 where
  accepted rescued : Response
  refused : ℕ → String → Response
