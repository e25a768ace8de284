-- ===== src/Pipeline/Dispatch.antt =====
-- agent/pipeline.py: what `process_case` does with a verdict.
use downtime_aware_recovery.Common.{
  String, Bool, true, false, ◌&&◌, Option, none, some, [], ◌∷◌, elem, if◌then◌else◌,
}
use downtime_aware_recovery.Models.Enums.{
  Cohort, CaseState, scheduled, executing, failed_attempt, recovered, abandoned, holdout_closed,
  quarantined, is_review, is_holdout, same_state, state_value, decision_value, action_value,
  Recoverability,
}
use downtime_aware_recovery.Models.Payment.{Time}
use downtime_aware_recovery.Models.Json.{
  Json, Message, bool, int, str, message, dict, optional, action_refused, execution_uncertain,
}
use downtime_aware_recovery.Models.Proposal.{DiagnosisProposal, dump_proposal}
use downtime_aware_recovery.Models.Verdict.{
  CaseView, Verdict, ActionResult, DecisionRecord, is_executable, result_succeeded, dump_result,
  dump_record,
}
use downtime_aware_recovery.Contracts.Codes.{
  ActionErrorCode, UncertaintyCode, error_code_value, uncertainty_value, retryable,
}
use downtime_aware_recovery.Triage.{TriageResult}
use downtime_aware_recovery.Store.{Env}
use downtime_aware_recovery.Store.Exec.{
  Result, ok, err, refused, uncertain, Exec, ◌>>=◌, ◌>>◌, pure, raise, now, new_id,
}
use downtime_aware_recovery.Store.Cases.{Sets, no_sets, transition}
use downtime_aware_recovery.Pipeline.Stages.{log, moved_to}

-- agent/executors/port.py: `ExecutorPort`.
abbrev pub ExecutorPort : Type 0
ExecutorPort = Verdict → Exec ActionResult

pub record DecisionTrace : Type 0 where
  pub case_id : String
  pub cohort : Cohort
  pub triage_class : Recoverability
  pub triage_ambiguous : Bool
  pub diagnosis : DiagnosisProposal
  pub verdict : Verdict
  pub action_succeeded : Option Bool
  pub final_state : CaseState

-- `exec_res` in `_finalize`.
unfoldable pub execution_result : DecisionTrace → Option String
execution_result t = elim t.action_succeeded [
  | some true ↦ some "SUCCESS"
  | some false ↦ some "FAILED"
  | none ↦
      if same_state t.final_state quarantined && is_executable t.verdict
      then some "UNCERTAIN_OR_REFUSED"
      else none
]

unfoldable pub record_of : DecisionTrace → String → Time → DecisionRecord
record_of t event_id at = record {
  event_id = event_id;
  transaction_id = t.case_id;
  timestamp = at;
  actor = "pipeline";
  ai_proposal = dump_proposal t.diagnosis;
  policy_decision = decision_value t.verdict.decision;
  execution_result = execution_result t;
  reason = t.verdict.reason;
  policy_version = t.verdict.rules_version;
}

-- `_finalize`.
unfoldable pub finalize : Env → String → DecisionTrace → Exec DecisionTrace
finalize env id t = do
  event_id ← new_id env
  at ← now env
  ts ← now env
  log env id "pipeline" "DECISION_RECORDED" (dump_record (record_of t event_id at)) ts
  pure t

-- The payload of a STATE_TRANSITION event with a reason.
abbrev pub moved_because : CaseState → Message → Json
moved_because s reason = dict (("to", str (state_value s)) ∷ ("reason", message reason) ∷ [])

-- What the stages before have found out about the case.
pub record Findings : Type 0 where
  pub triage : TriageResult
  pub diagnosis : DiagnosisProposal
  pub view : CaseView
  pub verdict : Verdict

abbrev pub findings_of : TriageResult → DiagnosisProposal → CaseView → Verdict → Findings
findings_of t p view v = record { triage = t; diagnosis = p; view = view; verdict = v }

abbrev pub trace_of : String → Findings → Option Bool → CaseState → DecisionTrace
trace_of id f success final = record {
  case_id = id;
  cohort = f.view.cohort;
  triage_class = f.triage.recoverability;
  triage_ambiguous = f.triage.is_ambiguous;
  diagnosis = f.diagnosis;
  verdict = f.verdict;
  action_succeeded = success;
  final_state = final;
}

-- The state in which a case without an executable verdict ends.
unfoldable pub closing_state : CaseView → Verdict → CaseState
closing_state view v =
    if is_review v.decision
    then quarantined
    else if is_holdout view.cohort && elem "HOLDOUT_GUARD" v.fired_rules
    then holdout_closed
    else abandoned

abbrev pub abandon_because : CaseState → Message → Sets
abandon_because s reason = record {
  increment_attempt = false;
  abandon_reason = if same_state s abandoned then some reason else none;
  last_attempt_at = none;
}

unfoldable pub close_case : Env → String → Findings → Time → Exec DecisionTrace
close_case env id f ts = do
  let final = closing_state f.view f.verdict
  transition id final (abandon_because final f.verdict.reason)
  log env id "pipeline" "STATE_TRANSITION" (moved_because final f.verdict.reason) ts
  finalize env id (trace_of id f none final)

abbrev pub refusal_payload : ActionErrorCode → Message → Json
refusal_payload code detail = dict (
    ("code", str (error_code_value code))
    ∷ ("detail", message detail)
    ∷ ("retryable", bool (retryable code))
    ∷ [])

-- The handler of `ActionRefused`.
unfoldable pub on_refused : Env → String → Findings → ActionErrorCode → Message → Exec DecisionTrace
on_refused env id f code detail = do
  let landing = if retryable code then scheduled else quarantined
  at ← now env
  log env id "executor" "ACTION_REFUSED" (refusal_payload code detail) at
  transition id landing no_sets
  ts ← now env
  log env id "pipeline" "STATE_TRANSITION" (moved_because landing (action_refused code)) ts
  finalize env id (trace_of id f none landing)

abbrev pub uncertainty_payload : UncertaintyCode → Message → String → Json
uncertainty_payload code detail key = dict (
    ("code", str (uncertainty_value code))
    ∷ ("detail", message detail)
    ∷ ("idempotency_key", str key)
    ∷ [])

-- The handler of `ExecutionUncertain`.
unfoldable pub on_uncertain :
    Env → String → Findings → UncertaintyCode → Message → String → Exec DecisionTrace
on_uncertain env id f code detail key = do
  at ← now env
  log env id "executor" "ACTION_UNCERTAIN" (uncertainty_payload code detail key) at
  transition id quarantined no_sets
  ts ← now env
  log env id "pipeline" "STATE_TRANSITION" (moved_because quarantined (execution_uncertain code)) ts
  finalize env id (trace_of id f none quarantined)

-- What the transition after a result writes besides the state.
abbrev pub ran_at : Time → Sets
ran_at at = record { increment_attempt = true; abandon_reason = none; last_attempt_at = some at }

-- What follows a result of the executor.
unfoldable pub on_result : Env → String → Findings → ActionResult → Exec DecisionTrace
on_result env id f r = do
  at ← now env
  log env id "executor" "ACTION_RESULT" (dump_result r) at
  let final = if result_succeeded r then recovered else failed_attempt
  attempt_at ← now env
  transition id final (ran_at attempt_at)
  ts ← now env
  log env id "pipeline" "STATE_TRANSITION" (moved_to final) ts
  finalize env id (trace_of id f (some (result_succeeded r)) final)

-- The `try` around the executor: what each outcome leads to; any other exception goes through.
unfoldable pub after_execution : Env → String → Findings → Result ActionResult → Exec DecisionTrace
after_execution env id f (ok r) = on_result env id f r
after_execution env id f (err (refused code detail)) = on_refused env id f code detail
after_execution env id f (err (uncertain code detail key)) = on_uncertain env id f code detail key
after_execution env id f (err e) = raise e

-- `try: executor.execute(verdict)`.
abbrev pub catching : {A B : Type 0} → Exec A → (Result A → Exec B) → Exec B
catching m k w = let (r, w') = m w in k r w'

abbrev pub dispatch_payload : Verdict → Json
dispatch_payload v =
    dict (("action", str (action_value v.action)) ∷ ("execute_at", optional int v.execute_at) ∷ [])

-- An executable verdict.
unfoldable pub dispatch : Env → ExecutorPort → String → Findings → Time → Exec DecisionTrace
dispatch env executor id f ts = do
  transition id scheduled no_sets
  log env id "pipeline" "STATE_TRANSITION" (moved_to scheduled) ts
  log env id "scheduler" "ACTION_DISPATCHED" (dispatch_payload f.verdict) ts
  transition id executing no_sets
  catching (executor f.verdict) (after_execution env id f)
