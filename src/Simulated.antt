-- ===== src/Simulated.antt =====
-- agent/executors/simulated.py: `SimulatedExecutor.execute`.
pub mod Steps
pub mod Redelivery
pub mod Port
use downtime_aware_recovery.Common.{
  ℕ, suc, String, Bool, true, false, Option, none, some, List, [], ◌∷◌, ◌++◌, ◌==◌, ltb,
  if◌then◌else◌, or_default,
}
use downtime_aware_recovery.Models.Enums.{retry, ActionOutcome, succeeded, failed, sim}
use downtime_aware_recovery.Models.Payment.{Time}
use downtime_aware_recovery.Models.Json.{
  Message, nothing_more, idempotent_replay, case_named, in_flight, timed_out,
}
use downtime_aware_recovery.Models.Verdict.{Verdict, ActionResult}
use downtime_aware_recovery.Contracts.Codes.{unknown_case, duplicate_in_flight, execution_timeout}
use downtime_aware_recovery.Contracts.Retry.{
  RetryInput, input_key, build_retry_input, check_executable_state,
}
use downtime_aware_recovery.Store.{CaseRow, ActionRow, World, Env}
use downtime_aware_recovery.Store.Exec.{
  Result, ok, err, Exec, ◌>>=◌, ◌>>◌, pure, raise, gets, or_raise, raise_if, modify, now, refused,
  uncertain, lift,
}
use downtime_aware_recovery.Store.Cases.{find_case}

-- What is injected: the hidden response model (a probability in millionths), what the random source
-- gives at its n-th use, and the simulation of timeouts.
pub record Injected : Type 0 where
  pub outcome_fn : Verdict → ℕ
  pub random_at : ℕ → ℕ
  pub timeout_fn : Option (Verdict → Bool)

-- `self._timeout_fn and self._timeout_fn(verdict)`.
abbrev pub times_out : Option (Verdict → Bool) → Verdict → Bool
times_out none v = false
times_out (some f) v = f v

-- `self._rng.random() < self._outcome_fn(verdict)`.
unfoldable pub draw : Injected → Verdict → Exec Bool
draw inj v w =
    (ok (ltb (inj.random_at w.reads) (inj.outcome_fn v)), record w { reads = suc w.reads })

-- `SELECT … FROM actions WHERE idempotency_key = ?`.
unfoldable pub find_action : String → List ActionRow → Option ActionRow
find_action k [] = none
find_action k (a ∷ as') = if k == a.idempotency_key then some a else find_action k as'

remove_action : String → List ActionRow → List ActionRow
remove_action k [] = []
remove_action k (a ∷ as') =
    let rest = remove_action k as' in if k == a.idempotency_key then rest else a ∷ rest

-- `INSERT OR REPLACE INTO actions`.
unfoldable pub put_action : ActionRow → List ActionRow → List ActionRow
unfolding remove_action
put_action a rows = remove_action a.idempotency_key rows ++ a ∷ []

abbrev pub outcome_of : Bool → ActionOutcome
outcome_of true = succeeded
outcome_of false = failed

-- The result of an action; `replayed` marks an idempotent no-op.
abbrev pub sim_result : RetryInput → String → Bool → Time → Bool → Message → ActionResult
sim_result input key success at replayed detail = record {
  case_id = input.case_id;
  action = retry;
  idempotency_key = key;
  outcome = outcome_of success;
  executed_at = at;
  mode = sim;
  replayed = replayed;
  detail = detail;
}

abbrev pub executed_row : RetryInput → String → Bool → Time → ActionRow
executed_row input key success at = record {
  idempotency_key = key;
  case_id = input.case_id;
  action = retry;
  scheduled_at = input.execute_at;
  executed_at = some at;
  succeeded = some success;
  mode = sim;
  detail = nothing_more;
}

-- Step 3: a completed duplicate. `bool(NULL)` is false.
unfoldable pub replay_action : Env → RetryInput → String → Option Bool → Exec ActionResult
replay_action env input key success = do
  at ← now env
  pure (sim_result input key (or_default false success) at true idempotent_replay)

-- Steps 5 and on: no row with this key.
unfoldable pub attempt :
    Env → Injected → Verdict → CaseRow → RetryInput → String → Exec ActionResult
unfolding draw
attempt env inj v row input key = do
  lift (check_executable_state row.state)
  raise_if (times_out inj.timeout_fn v) (uncertain execution_timeout timed_out key)
  success ← draw inj v
  at ← now env
  modify (λ w. record w { actions = put_action (executed_row input key success at) w.actions })
  pure (sim_result input key success at false nothing_more)

-- Steps 3 to 5, by what stands in the table under the key.
unfoldable pub by_existing :
    Env → Injected → Verdict → CaseRow → RetryInput → String → Option ActionRow → Exec ActionResult
by_existing env inj v row input key none = attempt env inj v row input key
by_existing env inj v row input key (some a) = elim a.executed_at [
  | some t ↦ replay_action env input key a.succeeded
  | none ↦ raise (refused duplicate_in_flight in_flight)
]

unfoldable pub execute : Env → Injected → Verdict → Exec ActionResult
execute env inj v = do
  cases ← gets (λ w. w.cases)
  row ← or_raise (find_case v.case_id cases) (refused unknown_case (case_named v.case_id))
  input ← lift (build_retry_input v row.order_id row.method row.amount_paise)
  actions ← gets (λ w. w.actions)
  by_existing env inj v row input (input_key env.sha256 input)
      (find_action (input_key env.sha256 input) actions)
