-- ===== src/Contracts/Retry.antt =====
-- agent/executors/contracts.py: the validated input of a retry and the check of the case state.
use downtime_aware_recovery.Common.{
  ℕ, String, Bool, not, ◌&&◌, ◌||◌, Option, none, some, ◌==◌, ltb, leb, if◌then◌else◌,
}
use downtime_aware_recovery.Models.Enums.{
  Method, CaseState, retry, scheduled, executing, same_action, same_state,
}
use downtime_aware_recovery.Models.Payment.{Time}
use downtime_aware_recovery.Models.Json.{
  bad_decision, bad_action, execute_at_required, not_valid, state_not_executable,
}
use downtime_aware_recovery.Models.Verdict.{Verdict, is_executable, idempotency_key}
use downtime_aware_recovery.Contracts.Codes.{
  not_authorized, action_mismatch, invalid_params, illegal_state,
}
use downtime_aware_recovery.Store.Exec.{Result, ok, err, refused}

pub record RetryInput : Type 0 where
  pub case_id : String
  pub attempt_no : ℕ
  pub execute_at : Time
  pub order_id : String
  pub method : Method
  pub amount_paise : ℕ

-- The field constraints of `RetryInput`, which pydantic checks.
abbrev pub is_valid_input : RetryInput → Bool
is_valid_input i =
    not (i.case_id == "") && leb 1 i.attempt_no && not (i.order_id == "") && ltb 0 i.amount_paise

-- `RetryInput.idempotency_key`.
unfoldable pub input_key : (String → String) → RetryInput → String
input_key sha256 i = idempotency_key sha256 i.case_id retry i.attempt_no

abbrev pub retry_input : Verdict → String → Method → ℕ → Time → RetryInput
retry_input v order_id method amount_paise at = record {
  case_id = v.case_id;
  attempt_no = v.attempt_no;
  execute_at = at;
  order_id = order_id;
  method = method;
  amount_paise = amount_paise;
}

abbrev validated : RetryInput → Result RetryInput
validated i = if is_valid_input i then ok i else err (refused invalid_params not_valid)

abbrev timed : Verdict → String → Method → ℕ → Option Time → Result RetryInput
timed v order_id method amount_paise none = err (refused invalid_params execute_at_required)
timed v order_id method amount_paise (some at) =
    validated (retry_input v order_id method amount_paise at)

unfoldable pub build_retry_input : Verdict → String → Method → ℕ → Result RetryInput
build_retry_input v order_id method amount_paise =
    if not (is_executable v)
    then err (refused not_authorized bad_decision)
    else if not (same_action v.action retry)
    then err (refused action_mismatch (bad_action v.action))
    else timed v order_id method amount_paise v.execute_at

-- Membership in `EXECUTABLE_CASE_STATES`.
abbrev pub is_executable_state : CaseState → Bool
is_executable_state s = same_state s scheduled || same_state s executing

abbrev pub check_executable_state : CaseState → Result (Unit {0})
check_executable_state s =
    if not (is_executable_state s) then err (refused illegal_state state_not_executable) else ok tt
