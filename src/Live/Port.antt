-- ===== src/Live/Port.antt =====
-- agent/executors/live.py as the executor of agent/pipeline.py.
use downtime_aware_recovery.Common.{
  ◌≡◌, refl, true, false, Bool, String, Option, none, some, not, if◌then◌else◌, nat_eq,
}
use downtime_aware_recovery.Models.Enums.{ActionOutcome, same_action, retry}
use downtime_aware_recovery.Models.Json.{Json}
use downtime_aware_recovery.Models.Verdict.{Verdict, ActionResult, is_executable}
use downtime_aware_recovery.Store.{Env, World}
use downtime_aware_recovery.Store.Exec.{Exec, err, raise, Error}
use downtime_aware_recovery.Pipeline.Acts.{IsHandled, IsPort}
use downtime_aware_recovery.Live.{
  Gateway, Posted, response, timeout, network_error, Response, live_execute, on_posted, on_response,
  on_created, on_bad_request, on_described, on_other, finish, lost, is_object, bad_request_data,
  is_created, is_duplicate,
}

-- The run leaves the tables alone and answers in one of the ways that the pipeline handles.
pub record IsQuiet (m : Exec ActionResult) : Type 0 where
  pub same_cases : (w : World) → (m w).1.cases ≡ w.cases
  pub same_events : (w : World) → (m w).1.events ≡ w.events
  pub same_actions : (w : World) → (m w).1.actions ≡ w.actions
  pub handled : (w : World) → IsHandled (m w).0

either-IsQuiet :
    (b : Bool) {m n : Exec ActionResult} → IsQuiet m → IsQuiet n → IsQuiet (if b then m else n)
either-IsQuiet true q r = q
either-IsQuiet false q r = r

module _ (env : Env) (gateway : Gateway) (v : Verdict) where
  finish-IsQuiet :
      (o : ActionOutcome) (replayed : Bool) (detail : String)
      → IsQuiet (finish env v o replayed detail)
  unfolding finish
  finish-IsQuiet o replayed detail = record {
    same_cases = λ w. refl;
    same_events = λ w. refl;
    same_actions = λ w. refl;
    handled = λ w. tt;
  }

  lost-IsQuiet : (e : String) → IsQuiet (lost e)
  unfolding lost
  lost-IsQuiet e = record {
    same_cases = λ w. refl;
    same_events = λ w. refl;
    same_actions = λ w. refl;
    handled = λ w. tt;
  }

  on_created-IsQuiet :
      (r : Response) (json : Option Json) → IsQuiet (on_created env gateway v r json)
  unfolding on_created
  on_created-IsQuiet r none = lost-IsQuiet (gateway.broken r)
  on_created-IsQuiet r (some body) =
      either-IsQuiet (is_object body) (finish-IsQuiet _ _ _) (lost-IsQuiet (gateway.broken r))

  on_described-IsQuiet :
      (r : Response) (body : Json) (described : Option String)
      → IsQuiet (on_described env gateway v r body described)
  unfolding on_described
  on_described-IsQuiet r body none = lost-IsQuiet (gateway.broken r)
  on_described-IsQuiet r body (some e) =
      either-IsQuiet (is_duplicate e) (finish-IsQuiet _ _ _) (finish-IsQuiet _ _ _)

  on_bad_request-IsQuiet :
      (r : Response) (body : Option Json) → IsQuiet (on_bad_request env gateway v r body)
  unfolding on_bad_request
  on_bad_request-IsQuiet r none = lost-IsQuiet (gateway.broken r)
  on_bad_request-IsQuiet r (some body) = on_described-IsQuiet r body _

  raise-IsQuiet : (e : Error) → IsHandled (err e) → IsQuiet (raise e)
  raise-IsQuiet e h = record {
    same_cases = λ w. refl;
    same_events = λ w. refl;
    same_actions = λ w. refl;
    handled = λ w. h;
  }

  on_posted-IsQuiet : (p : Posted) → IsQuiet (on_posted env gateway v p)
  unfolding on_posted on_response on_other
  on_posted-IsQuiet (response r) =
      either-IsQuiet (is_created r.status) (on_created-IsQuiet r r.json) (
        either-IsQuiet (nat_eq r.status 400) (on_bad_request-IsQuiet r (bad_request_data r))
          (raise-IsQuiet _ tt))
  on_posted-IsQuiet (timeout e) = raise-IsQuiet _ tt
  on_posted-IsQuiet (network_error e) = lost-IsQuiet e

  live_execute-IsQuiet : IsQuiet (live_execute env gateway v)
  unfolding live_execute
  live_execute-IsQuiet =
      either-IsQuiet (not (is_executable v)) (raise-IsQuiet _ tt) (
        either-IsQuiet (not (same_action v.action retry)) (raise-IsQuiet _ tt)
          (on_posted-IsQuiet _))

-- Whatever the HTTP client gives for the posts, the live executor leaves the cases and the events
-- alone, and answers with a result, a refusal or an uncertain outcome: no other exception leaves it.
pub live_execute-IsPort : (env : Env) (gateway : Gateway) → IsPort (live_execute env gateway)
live_execute-IsPort env gateway = record {
  same_cases = λ v w. (live_execute-IsQuiet env gateway v).same_cases w;
  same_events = λ v w. (live_execute-IsQuiet env gateway v).same_events w;
  handled = λ v w. (live_execute-IsQuiet env gateway v).handled w;
}
