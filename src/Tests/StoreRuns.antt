-- ===== src/Tests/StoreRuns.antt =====
-- The database of agent/db.py, the transitions of agent/state.py and the log of agent/audit.py on
-- concrete inputs.
use downtime_aware_recovery.Common.{
  ◌≡◌, refl, ◌⊎◌, arith, List, some, none, true, nat_eq, map, [], ◌∷◌, false, String,
}
use downtime_aware_recovery.Store.Exec.{Result, ok, err, concurrent_modification}
use downtime_aware_recovery.Store.Cases.{find_case, write_state, no_sets, transition}
use downtime_aware_recovery.Store.{World, EventRow, Env}
use downtime_aware_recovery.Audit.{verify_chain, append, event_names, new_event}
use downtime_aware_recovery.Models.Enums.{abandoned, diagnosed, retry, succeeded, sim}
use downtime_aware_recovery.Audit.Replay.{verify_counters, Replayed, replay}
use downtime_aware_recovery.Store.Writers.{Transitions, transition-Transitions, stale_write_refused}
use downtime_aware_recovery.Tests.Data.{env, world, treated_row, digest64}
use downtime_aware_recovery.Audit.Tamper.{Collision, GenesisPreimage, contents, head_hash_commits}
use downtime_aware_recovery.Models.Json.{dict, nothing_more, Json, get, str}
use downtime_aware_recovery.Audit.Counting.{
  count_results, verify_counters-count, HaveDumps, replay_never_recovers,
}
use downtime_aware_recovery.Audit.Chain.{append-verify_chain}
use downtime_aware_recovery.Models.Verdict.{dump_result, ActionResult}

transition-Transitions_example :
    Transitions "c1" diagnosed no_sets world
      (some treated_row)
      (transition "c1" diagnosed no_sets world)
unfolding find_case
transition-Transitions_example = transition-Transitions "c1" diagnosed no_sets world

-- What the first of two racing writers leaves.
abbrev first_write : Result Unit × World
first_write = write_state "c1" 0 diagnosed no_sets world

stale_write_refused_example :
    (first_write.0 ≡ ok tt)
    × (write_state "c1" 0 abandoned no_sets first_write.1
        ≡ (err (concurrent_modification "c1"), first_write.1))
unfolding find_case
stale_write_refused_example =
    stale_write_refused "c1" diagnosed abandoned no_sets no_sets world {r = treated_row} refl

append-verify_chain_example :
    (verify_chain env (append env none "policy" "POLICY_VERDICT" (dict []) 3 world).1.events ≡ true)
    × ((append env none "policy" "POLICY_VERDICT" (dict []) 3 world).1.events
        ≡ new_event env none "policy" "POLICY_VERDICT" (dict []) 3 [] ∷ [])
unfolding verify_chain event_names
append-verify_chain_example =
    append-verify_chain env none "policy" "POLICY_VERDICT" (dict []) 3 world refl

-- Two logs that differ in the actor of their event, under canonical texts that show the actor and one
-- digest for all texts: their events collide.
abbrev actor_text : Json → String
actor_text j = elim (get "actor" j) [ some (str a) ↦ a | _ ↦ "{}" ]

abbrev showing : Env
showing = record env { dumps = actor_text }

abbrev log_by : String → List EventRow
log_by actor = (append showing (some "c1") actor "ACTION_RESULT" (dict []) 2 world).1.events

head_hash_commits_example :
    Collision showing (log_by "executor") (log_by "intruder")
    ⊎ GenesisPreimage showing (log_by "executor")
    ⊎ (map (contents showing) (log_by "executor") ≡ map (contents showing) (log_by "intruder"))
unfolding verify_chain append new_event event_names
head_hash_commits_example =
    head_hash_commits showing (λ s. refl) (log_by "executor") (log_by "intruder") (omega arith) refl
      refl refl

-- A log of one result, a success, with the payload that the pipeline writes.
abbrev success : ActionResult
success = record {
  case_id = "c1";
  action = retry;
  idempotency_key = digest64;
  outcome = succeeded;
  executed_at = 5;
  mode = sim;
  replayed = false;
  detail = nothing_more;
}

abbrev one_success : List EventRow
one_success = new_event env (some "c1") "executor" "ACTION_RESULT" (dump_result success) 5 [] ∷ []

one_success-HaveDumps : HaveDumps one_success
unfolding new_event
one_success-HaveDumps = (λ h. (success, refl), tt)

replay_never_recovers_example :
    (s : Replayed) × (replay "c1" one_success ≡ ok s) × (s.recovered ≡ false)
unfolding new_event
replay_never_recovers_example =
    replay_never_recovers "c1" one_success (refl, tt) one_success-HaveDumps

verify_counters-count_example :
    verify_counters "c1" world ≡ (ok (nat_eq 0 (count_results "c1" [])), world)
unfolding find_case
verify_counters-count_example = verify_counters-count "c1" world {r = treated_row} refl tt
