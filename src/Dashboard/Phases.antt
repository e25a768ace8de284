-- ===== src/Dashboard/Phases.antt =====
-- agent/dashboard.py: the phases of `get_transaction_detail`, one function for each.
use downtime_aware_recovery.Common.{
  ◌∷◌, [], none, some, String, Bool, Option, List, ◌&&◌, ◌||◌, true, false, if◌then◌else◌, is_some,
  length, ◌+◌, ◌++◌, not, map,
}
use downtime_aware_recovery.Models.Json.{
  Json, null, bool, int, real, str, message, arr, nil, dict, optional, truthy, is_set, array,
}
use downtime_aware_recovery.Store.Exec.{Result, ok}
use downtime_aware_recovery.Store.{ActionRow, CaseRow, EventRow}
use downtime_aware_recovery.Models.Enums.{
  CaseState, cohort_value, state_value, mode_value, recovered, failed_attempt, method_value,
  quarantined, abandoned, holdout_closed, detected, diagnosed, scheduled, executing,
}
use downtime_aware_recovery.Logger.{Redactor, sanitize_data}
use downtime_aware_recovery.Dashboard.Trace.{TimelineEvent}
use downtime_aware_recovery.Dashboard.Transactions.{
  get_default, percent, get_null, or_else, error_json, instrument_json,
}
use downtime_aware_recovery.Audit.Replay.{is_text}
use downtime_aware_recovery.Metrics.{last_event, says}
use downtime_aware_recovery.Dashboard.{rupees}

-- `events_by_type.get(t, {})`: the sanitized payload of the last event of a type.
abbrev pub empty_object : Json
empty_object = dict []

unfoldable pub payload_for : Redactor → String → List EventRow → String → Json
payload_for r id events event_type = elim (last_event id event_type events) [
  | none ↦ empty_object
  | some e ↦ sanitize_data r none e.payload
]

unfoldable pub phase_event : Redactor → CaseRow → Json
phase_event r c =
    let error = sanitize_data r none (error_json c.error) in
    dict (
      ("case_id", str c.case_id)
      ∷ ("order_id", str c.order_id)
      ∷ ("customer_id", str c.customer_id)
      ∷ ("created_at", int c.created_at)
      ∷ ("method", str (method_value c.method))
      ∷ ("instrument", sanitize_data r none (instrument_json c.instrument))
      ∷ ("amount_paise", int c.amount_paise)
      ∷ ("amount_rupees", real (rupees c.amount_paise))
      ∷ ("is_recurring", bool c.is_recurring)
      ∷ ("mandate_id", optional str c.mandate_id)
      ∷ ("error_code", get_default "code" (str "UNKNOWN") error)
      ∷ ("error_source", get_default "source" (str "unknown") error)
      ∷ ("error_step", get_default "step" (str "unknown") error)
      ∷ ("error_reason", get_default "reason" (str "unknown") error)
      ∷ ("error_description", get_default "description" (str "") error)
      ∷ [])

unfoldable pub phase_context : CaseRow → Json → Json → Json
phase_context c triage cohort = dict (
    ("cohort", str (cohort_value c.cohort))
    ∷ ("seed", get_null "seed" cohort)
    ∷ ("attempt_no", int (c.attempts + 1))
    ∷ ("prior_failures_count", int c.attempts)
    ∷ ("is_recurring", bool c.is_recurring)
    ∷ ("triage_matched", get_default "matched" (str "unknown") triage)
    ∷ ("triage_is_ambiguous", get_default "is_ambiguous" (bool false) triage)
    ∷ ("triage_recoverability", get_default "recoverability" (str "UNKNOWN") triage)
    ∷ [])

-- `round(x * 100, 1) if x is not None else None`.
unfoldable pub percent_or_null : Json → Result Json
percent_or_null null = ok null
percent_or_null x = percent x

unfoldable pub phase_diagnosis : Json → Json → Json → Json
phase_diagnosis diagnosis triage confidence_pct = dict (
    (
      "recoverability",
      get_default "recoverability" (get_default "recoverability" (str "UNKNOWN") triage) diagnosis,
    )
    ∷ ("confidence", get_null "confidence" diagnosis)
    ∷ ("confidence_pct", confidence_pct)
    ∷ ("fallback_tier", get_default "fallback_tier" (int 0) diagnosis)
    ∷ ("rationale", get_default "rationale" (str "No rationale recorded") diagnosis)
    ∷ ("is_ambiguous", get_default "is_ambiguous" (bool false) triage)
    ∷ [])

unfoldable pub phase_evidence : Json → Json
phase_evidence diagnosis = dict (
    ("cited_fields", get_default "evidence" (arr nil) diagnosis)
    ∷ ("risks", get_default "risks" (arr nil) diagnosis)
    ∷ ("missing_information", get_default "missing_information" (arr nil) diagnosis)
    ∷ ("is_grounded", bool (is_set "evidence" diagnosis))
    ∷ [])

unfoldable pub phase_proposal : Json → Json → Json
phase_proposal diagnosis success_pct =
    let outcome = get_default "expected_outcome" empty_object diagnosis in
    dict (
      ("proposed_action", get_default "proposed_action" (str "STOP") diagnosis)
      ∷ ("proposed_delay_minutes", get_default "proposed_delay_minutes" (int 0) diagnosis)
      ∷ ("expected_success_probability", get_null "probability_of_success" outcome)
      ∷ ("expected_success_probability_pct", success_pct)
      ∷ ("expected_horizon_minutes", get_default "horizon_minutes" (int 0) outcome)
      ∷ [])

-- `decision_val in ("ALLOW", "DEFER") and policy_payload.get("action") != "STOP"`.
unfoldable pub shows_executable : Json → Bool
shows_executable policy =
    let decision = get_default "decision" (str "DENY") policy in
    (is_text "ALLOW" decision || is_text "DEFER" decision) && not (says "action" "STOP" policy)

unfoldable pub phase_policy : Json → Json
phase_policy policy =
    let decision = get_default "decision" (str "DENY") policy in
    dict (
      ("policy_decision", decision)
      ∷ ("decision", decision)
      ∷ ("authorized_action", get_default "action" (str "STOP") policy)
      ∷ ("action", get_default "action" (str "STOP") policy)
      ∷ ("fired_rules", get_default "fired_rules" (arr nil) policy)
      ∷ ("reason", get_default "reason" (str "No reason provided") policy)
      ∷ ("policy_version", get_default "rules_version" (int 2) policy)
      ∷ ("rules_version", get_default "rules_version" (int 2) policy)
      ∷ ("execute_at", get_null "execute_at" policy)
      ∷ ("is_executable", bool (shows_executable policy))
      ∷ [])

-- The payloads of the events of execution.
pub record Execution : Type 0 where
  pub refusal : Json
  pub uncertain : Json
  pub result : Json
  pub dispatched : Json

unfoldable pub execution_of : Redactor → String → List EventRow → Execution
execution_of r id events = record {
  refusal = payload_for r id events "ACTION_REFUSED";
  uncertain = payload_for r id events "ACTION_UNCERTAIN";
  result = payload_for r id events "ACTION_RESULT";
  dispatched = payload_for r id events "ACTION_DISPATCHED";
}

-- The columns of the action, or what stands in for them without an action.
unfoldable pub action_columns : Execution → Option ActionRow → List (String × Json)
action_columns x none =
    (
      "idempotency_key",
      or_else (get_null "idempotency_key" x.uncertain) (get_null "idempotency_key" x.result),
    )
    ∷ ("execution_mode", str "sim")
    ∷ ("scheduled_at", get_null "execute_at" x.dispatched)
    ∷ ("executed_at", or_else (get_null "executed_at" x.result) null)
    ∷ []
action_columns x (some a) =
    ("idempotency_key", str a.idempotency_key)
    ∷ ("execution_mode", str (mode_value a.mode))
    ∷ ("scheduled_at", int a.scheduled_at)
    ∷ ("executed_at", optional int a.executed_at)
    ∷ []

unfoldable pub phase_execution : Execution → Option ActionRow → Json
phase_execution x action =
    let dispatched =
      truthy x.dispatched || is_some action || truthy x.refusal || truthy x.uncertain in
    dict (
      ("is_dispatched", bool dispatched) ∷ action_columns x action
      ++ ("replayed", bool (is_set "replayed" x.result)) ∷ [])

-- `outcome_status` and `succeeded`.
unfoldable pub outcome_status : CaseState → Json → String × Json
outcome_status recovered uncertain = ("SUCCEEDED", bool true)
outcome_status failed_attempt uncertain = ("FAILED", bool false)
outcome_status quarantined uncertain =
    (if truthy uncertain then "UNCERTAIN" else "QUARANTINED_FOR_REVIEW", null)
outcome_status abandoned uncertain = ("BLOCKED_BY_POLICY", null)
outcome_status holdout_closed uncertain = ("BLOCKED_BY_POLICY", null)
outcome_status detected uncertain = (state_value detected, null)
outcome_status diagnosed uncertain = (state_value diagnosed, null)
outcome_status scheduled uncertain = (state_value scheduled, null)
outcome_status executing uncertain = (state_value executing, null)

unfoldable pub phase_outcome : CaseRow → Execution → Json
phase_outcome c x = dict (
    ("final_state", str (state_value c.state))
    ∷ ("outcome_status", str (outcome_status c.state x.uncertain).0)
    ∷ ("succeeded", (outcome_status c.state x.uncertain).1)
    ∷ ("abandon_reason", optional message c.abandon_reason)
    ∷ (
      "error_code",
      or_else (or_else (get_null "code" x.refusal) (get_null "code" x.uncertain)) null,
    )
    ∷ (
      "error_detail",
      or_else (or_else (get_null "detail" x.refusal) (get_null "detail" x.uncertain)) null,
    )
    ∷ ("retryable", get_null "retryable" x.refusal)
    ∷ [])

unfoldable pub event_json : TimelineEvent → Json
event_json e = dict (
    ("seq", int e.seq)
    ∷ ("actor", str e.actor)
    ∷ ("event_type", str e.event_type)
    ∷ ("timestamp", int e.timestamp)
    ∷ ("hash", str e.hash)
    ∷ ("prev_hash", str e.prev_hash)
    ∷ ("payload", e.payload)
    ∷ [])

unfoldable pub phase_audit : Bool → Json → List TimelineEvent → Json
phase_audit chain_valid decision_record shown = dict (
    ("chain_valid", bool chain_valid)
    ∷ ("chain_verified", bool chain_valid)
    ∷ ("total_events", int (length shown))
    ∷ ("decision_record", decision_record)
    ∷ ("timeline", array (map event_json shown))
    ∷ [])
