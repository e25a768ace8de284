-- ===== src/Tests/LiveRuns.antt =====
-- agent/executors/live.py against a concrete gateway, and the attempt budget of agent/pipeline.py.
use downtime_aware_recovery.Common.{◌≡◌, refl, zero, suc, some, true, false, [], ◌∷◌, arith}
use downtime_aware_recovery.Live.{
  Gateway, Response, response, live_execute, live_result, is_created, on_posted, send, on_response,
  on_created, finish,
}
use downtime_aware_recovery.Live.Port.{live_execute-IsPort}
use downtime_aware_recovery.Live.Claims.{fresh_success-IsCreated, last_post, status_of}
use downtime_aware_recovery.Models.Json.{str, dict}
use downtime_aware_recovery.Models.Verdict.{ActionResult, is_executable}
use downtime_aware_recovery.Models.Enums.{retry, succeeded}
use downtime_aware_recovery.Pipeline.Acts.{IsPort}
use downtime_aware_recovery.Pipeline.Book.{Book, Returns}
use downtime_aware_recovery.Pipeline.Cap.{cap_never_breached, Within, method_cap}
use downtime_aware_recovery.Pipeline.Process.{process_case}
use downtime_aware_recovery.Simulated.{execute}
use downtime_aware_recovery.Simulated.Port.{execute-IsPort}
use downtime_aware_recovery.Policy.{enabled}
use downtime_aware_recovery.State.{is_allowed}
use downtime_aware_recovery.Store.Cases.{find_case}
use downtime_aware_recovery.Tests.Data.{
  env, injected, diagnosis, rules, treated_row, world, retry_verdict,
}

abbrev created : Response
created = record {
  status = 200;
  content_type = some "application/json";
  json = some (dict (("id", str "plink_1") ∷ ("short_url", str "https://rzp.io/1") ∷ []));
  text = "";
}

-- A gateway that answers 429 at first.
abbrev busy : Response
busy = record created { status = 429 }

abbrev gateway : Gateway
gateway = record {
  post = λ payload k. elim k [ zero ↦ response busy | suc _ ↦ response created ];
  shown = λ v. "None";
  broken = λ r. "";
}

live_execute-IsPort_example : IsPort (live_execute env gateway)
live_execute-IsPort_example = live_execute-IsPort env gateway

abbrev link_result : ActionResult
link_result =
    live_result env retry_verdict succeeded 1000000 false
      "Razorpay Payment Link: plink_1 (https://rzp.io/1)"

fresh_success-IsCreated_example :
    (is_executable retry_verdict ≡ true)
    × (retry_verdict.action ≡ retry)
    × (is_created (status_of (last_post env gateway retry_verdict)) ≡ true)
unfolding live_execute send on_posted on_response on_created finish
fresh_success-IsCreated_example =
    fresh_success-IsCreated env gateway retry_verdict world link_result refl refl refl

row_booked : Book "c1" treated_row 0 world
unfolding find_case
row_booked = record { found = refl; counted = refl; can_replay = tt }

cap_never_breached_example :
    Returns
      (λ _. Within "c1" (method_cap rules treated_row.method))
      (process_case env rules diagnosis (execute env injected) "c1" world)
unfolding is_allowed enabled
cap_never_breached_example =
    cap_never_breached env "c1" rules diagnosis (execute env injected) (execute-IsPort env injected)
      refl treated_row 0 world refl (unfold method_cap in omega arith) row_booked
