-- ===== src/Dashboard/Detail.antt =====
-- agent/dashboard.py: `get_transaction_detail`.
use downtime_aware_recovery.Common.{◌∷◌, [], String, Option, List}
use downtime_aware_recovery.Store.Exec.{Exec, ◌>>=◌, pure, gets, lift, or_raise, key_error}
use downtime_aware_recovery.Store.{Env, CaseRow, ActionRow, EventRow, Columns}
use downtime_aware_recovery.Models.Json.{Json, dict, str}
use downtime_aware_recovery.Logger.{Redactor}
use downtime_aware_recovery.Dashboard.Transactions.{get_null, get_default, last_scheduled}
use downtime_aware_recovery.Store.Cases.{find_case}
use downtime_aware_recovery.Dashboard.Phases.{
  empty_object, payload_for, execution_of, percent_or_null, phase_event, phase_context,
  phase_diagnosis, phase_evidence, phase_proposal, phase_policy, phase_execution, phase_outcome,
  phase_audit,
}
use downtime_aware_recovery.Audit.{verify_chain}
use downtime_aware_recovery.Dashboard.Trace.{timeline}

-- The phases, before they are put together.
pub record Phases : Type 0 where
  pub event : Json
  pub context : Json
  pub diagnosis : Json
  pub evidence : Json
  pub proposal : Json
  pub policy : Json
  pub execution : Json
  pub outcome : Json
  pub audit : Json

-- The ninefold journey, with its second names.
unfoldable pub phases_dict : Phases → Json
phases_dict p = dict (
    ("event", p.event)
    ∷ ("context", p.context)
    ∷ ("diagnosis", p.diagnosis)
    ∷ ("ai_diagnosis", p.diagnosis)
    ∷ ("evidence", p.evidence)
    ∷ ("proposal", p.proposal)
    ∷ ("proposed_action", p.proposal)
    ∷ ("policy_result", p.policy)
    ∷ ("policy_verdict", p.policy)
    ∷ ("execution", p.execution)
    ∷ ("outcome", p.outcome)
    ∷ ("audit_trail", p.audit)
    ∷ [])

unfoldable pub detail_dict : String → Phases → Json
detail_dict id p = dict (
    ("case_id", str id)
    ∷ ("phases", phases_dict p)
    ∷ ("event", p.event)
    ∷ ("context", p.context)
    ∷ ("ai_diagnosis", p.diagnosis)
    ∷ ("evidence", p.evidence)
    ∷ ("proposed_action", p.proposal)
    ∷ ("policy_result", p.policy)
    ∷ ("execution", p.execution)
    ∷ ("outcome", p.outcome)
    ∷ ("audit_trail", p.audit)
    ∷ [])

-- The phases of a case, from its row, its action and the log.
unfoldable pub phases_of :
    Env → Redactor → CaseRow → Option ActionRow → List EventRow → String → Json → Json → Phases
phases_of env r c action events id confidence_pct success_pct =
    let payload = payload_for r id events in
    let x = execution_of r id events in
    record {
      event = phase_event r c;
      context = phase_context c (payload "TRIAGE_RESULT") (payload "COHORT_ASSIGNED");
      diagnosis =
          phase_diagnosis (payload "DIAGNOSIS_RETURNED") (payload "TRIAGE_RESULT") confidence_pct;
      evidence = phase_evidence (payload "DIAGNOSIS_RETURNED");
      proposal = phase_proposal (payload "DIAGNOSIS_RETURNED") success_pct;
      policy = phase_policy (payload "POLICY_VERDICT");
      execution = phase_execution x action;
      outcome = phase_outcome c x;
      audit =
          phase_audit (verify_chain env events) (payload "DECISION_RECORDED")
            (timeline r id 1 events);
    }

-- The probability that the proposal expects.
unfoldable pub expected_success : Json → Json
expected_success diagnosis =
    get_null "probability_of_success" (get_default "expected_outcome" empty_object diagnosis)

unfoldable pub get_transaction_detail : Columns → Env → Redactor → String → Exec Json
get_transaction_detail columns env r id = do
  rows ← gets (λ w. w.cases)
  c ← or_raise (find_case id rows) (key_error id)
  events ← gets (λ w. w.events)
  action ← gets (λ w. last_scheduled columns id w.actions)
  let diagnosis = payload_for r id events "DIAGNOSIS_RETURNED"
  confidence_pct ← lift (percent_or_null (get_null "confidence" diagnosis))
  success_pct ← lift (percent_or_null (expected_success diagnosis))
  pure (detail_dict id (phases_of env r c action events id confidence_pct success_pct))
