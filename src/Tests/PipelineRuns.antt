-- ===== src/Tests/PipelineRuns.antt =====
-- The executor of agent/executors/simulated.py and `process_case` of agent/pipeline.py on concrete
-- inputs.
use downtime_aware_recovery.Common.{◌≡◌, refl, [], true, false, ◌∷◌, none, inl}
use downtime_aware_recovery.Pipeline.Dispatch.{ExecutorPort}
use downtime_aware_recovery.Store.Cases.{find_case, new_row}
use downtime_aware_recovery.Store.Keeps.{Keeps}
use downtime_aware_recovery.Store.{World}
use downtime_aware_recovery.Models.Verdict.{
  ActionResult, verdict_key, idempotency_key, is_executable, decimal,
}
use downtime_aware_recovery.Simulated.{
  execute, sim_result, executed_row, find_action, put_action, attempt, draw, by_existing,
}
use downtime_aware_recovery.Pipeline.Acts.{IsPort}
use downtime_aware_recovery.Simulated.Steps.{Effect, OnlyActions, execute-Effect}
use downtime_aware_recovery.State.{is_allowed}
use downtime_aware_recovery.Contracts.Retry.{build_retry_input, retry_input, input_key}
use downtime_aware_recovery.Tests.Data.{
  ready_world, retry_verdict, env, holdout_row, treated_row, rules, injected, world, diagnosis,
  digest64, hdfc, timeout_error, in_outage, view,
}
use downtime_aware_recovery.Store.Exec.{err, value_error, ok, ◌>>◌}
use downtime_aware_recovery.Pipeline.Book.{Book, Returns}
use downtime_aware_recovery.Pipeline.Process.{process_case}
use downtime_aware_recovery.Pipeline.Endings.{Settled}
use downtime_aware_recovery.Simulated.Port.{execute-IsPort, execute-Keeps}
use downtime_aware_recovery.Models.Enums.{upi, succeeded, executing, treated}
use downtime_aware_recovery.Pipeline.Holdout.{holdout_never_executed}
use downtime_aware_recovery.Pipeline.Growth.{process_case-Keeps}
use downtime_aware_recovery.Pipeline.Settles.{process_case_settles}
use downtime_aware_recovery.Models.Json.{nothing_more}
use downtime_aware_recovery.Simulated.Redelivery.{redelivery_replays}
use downtime_aware_recovery.Models.Payment.{PaymentFailure}
use downtime_aware_recovery.Triage.{clean_reasons, ambiguous_reasons, triage}
use downtime_aware_recovery.Policy.Evaluate.{evaluate}
use downtime_aware_recovery.Pipeline.Stages.{proposal_of, ingest}
use downtime_aware_recovery.Pipeline.FailClosed.{hopeless_never_retried}
use downtime_aware_recovery.Pipeline.Ingested.{Fresh, ingested_settles}
use downtime_aware_recovery.Policy.{Rules}
use downtime_aware_recovery.Ledger.{assign_cohort, draw_of}

execute-Effect_example :
    Effect retry_verdict
      (verdict_key env.sha256 retry_verdict)
      ready_world
      (execute env injected retry_verdict ready_world)
    × OnlyActions ready_world (execute env injected retry_verdict ready_world).1
execute-Effect_example = execute-Effect env injected retry_verdict ready_world

-- What the first delivery of the verdict leaves.
abbrev delivered : World
delivered = record ready_world {
  actions =
      executed_row (retry_input retry_verdict "o1" upi 50000 60000000) digest64 true 1000001 ∷ [];
  reads = 2;
}

abbrev first_result : ActionResult
first_result =
    sim_result (retry_input retry_verdict "o1" upi 50000 60000000) digest64 true 1000001 false
      nothing_more

redelivery_replays_example :
    (again : ActionResult) × (execute env injected retry_verdict delivered
      ≡ (ok again, record delivered { reads = 3 }))
    × (again.replayed ≡ true)
    × (again.outcome ≡ succeeded)
    × (again.idempotency_key ≡ digest64)
unfolding execute find_case build_retry_input find_action put_action attempt draw by_existing
    verdict_key input_key idempotency_key
redelivery_replays_example =
    redelivery_replays env injected retry_verdict ready_world delivered {r = first_result}
      {w' = delivered} {row = record treated_row { state = executing }}
      {i = retry_input retry_verdict "o1" upi 50000 60000000} refl refl refl refl

execute-IsPort_example : IsPort (execute env injected)
execute-IsPort_example = execute-IsPort env injected

process_case-Keeps_example :
    Keeps env (process_case env rules diagnosis (execute env injected) "c1")
process_case-Keeps_example =
    process_case-Keeps env (execute env injected) (execute-Keeps env injected) rules diagnosis "c1"

treated_booked : Book "c1" treated_row 0 world
unfolding find_case
treated_booked = record { found = refl; counted = refl; can_replay = tt }

process_case_settles_example :
    Returns
      (Settled "c1" treated_row 0)
      (process_case env rules diagnosis (execute env injected) "c1" world)
unfolding is_allowed
process_case_settles_example =
    process_case_settles env "c1" rules diagnosis (execute env injected)
      (execute-IsPort env injected) treated_row 0 world refl treated_booked

holdout_booked : Book "c2" holdout_row 0 world
unfolding find_case
holdout_booked = record { found = refl; counted = refl; can_replay = tt }

-- An executor that must not be called: it loses the cases.
abbrev forbidden : ExecutorPort
forbidden v w = (err value_error, record w { cases = [] })

holdout_never_executed_example :
    process_case env rules diagnosis (execute env injected) "c2" world
    ≡ process_case env rules diagnosis forbidden "c2" world
unfolding is_allowed
holdout_never_executed_example =
    holdout_never_executed env rules diagnosis "c2" (execute env injected) forbidden holdout_row 0
      world refl refl holdout_booked

-- A payment that failed for a reason that no table lists.
abbrev odd_failure : PaymentFailure
odd_failure = record {
  case_id = "c1";
  customer_id = "u1";
  order_id = "o1";
  created_at = 0;
  method = upi;
  instrument = hdfc;
  amount_paise = 50000;
  is_recurring = false;
  mandate_id = none;
  attempt_no = 1;
  error = record timeout_error { reason = "never_seen_before" };
}

hopeless_never_retried_example :
    is_executable (
      evaluate env.sha256
        (proposal_of diagnosis (triage "never_seen_before") odd_failure 0 in_outage)
        view
        rules
        0
        in_outage
        none)
    ≡ false
unfolding clean_reasons ambiguous_reasons
hopeless_never_retried_example =
    hopeless_never_retried env.sha256 diagnosis odd_failure 0 view rules 0 in_outage none
      (inl (refl, refl))

-- The next case: it is treated, since nothing is held out.
abbrev open_rules : Rules
open_rules = record rules { holdout_fraction = 0 }

abbrev new_failure : PaymentFailure
new_failure = record odd_failure { case_id = "c3"; error = timeout_error }

new_failure-Fresh : Fresh "c3" world
unfolding find_case
new_failure-Fresh = record { absent = refl; no_results = refl; can_replay = tt }

ingested_settles_example : Returns (Settled "c3" (new_row new_failure treated) 0) (
    (ingest env new_failure 7 open_rules 5
        >> process_case env open_rules diagnosis (execute env injected) "c3")
      world)
unfolding assign_cohort draw_of decimal
ingested_settles_example =
    ingested_settles env new_failure 7 open_rules 5 diagnosis (execute env injected)
      (execute-IsPort env injected) treated world refl new_failure-Fresh
