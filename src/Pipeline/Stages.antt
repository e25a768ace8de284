-- ===== src/Pipeline/Stages.antt =====
-- agent/pipeline.py: `ingest`, and the parts of `process_case` before the verdict is acted upon.
use downtime_aware_recovery.Common.{
  ℕ, String, Bool, ◌&&◌, none, some, List, [], ◌∷◌, ◌==◌, is_some, if◌then◌else◌,
}
use Prim.Native.String.{◌++◌ as join}
use downtime_aware_recovery.Models.Enums.{
  Cohort, Method, CaseState, Recoverability, diagnosed, retry, stop, unknown, is_terminal_class,
  same_state, method_value, cohort_value, state_value,
}
use downtime_aware_recovery.Models.Payment.{Time, ErrorObj, PaymentFailure, DowntimeContext}
use downtime_aware_recovery.Models.Json.{Json, int, str, dict}
use downtime_aware_recovery.Models.Proposal.{DiagnosisProposal}
use downtime_aware_recovery.Models.Verdict.{CaseView, Verdict, dump_verdict}
use downtime_aware_recovery.Triage.{TriageResult, clean}
use downtime_aware_recovery.Store.{CaseRow, ActionRow, Env}
use downtime_aware_recovery.Store.Exec.{Exec, ◌>>=◌, ◌>>◌, pure, gets, lift}
use downtime_aware_recovery.Store.Cases.{create_case, get_case, transition, no_sets}
use downtime_aware_recovery.Audit.{append}
use downtime_aware_recovery.Ledger.{assign_cohort}
use downtime_aware_recovery.Policy.{Rules}
use downtime_aware_recovery.Policy.Evaluate.{evaluate}

-- `append`, on a case.
abbrev pub log : Env → String → String → String → Json → Time → Exec String
log env id actor event_type payload ts = append env (some id) actor event_type payload ts

abbrev pub signal_payload : PaymentFailure → Json
signal_payload pf = dict (
    ("order_id", str pf.order_id)
    ∷ ("method", str (method_value pf.method))
    ∷ ("attempt_no", int pf.attempt_no)
    ∷ [])

abbrev pub cohort_payload : Cohort → ℕ → Json
cohort_payload cohort seed = dict (("cohort", str (cohort_value cohort)) ∷ ("seed", int seed) ∷ [])

-- The part of `ingest` behind the assignment.
unfoldable pub record_ingest : Env → PaymentFailure → ℕ → Time → Cohort → Exec Cohort
record_ingest env pf seed ts cohort = do
  create_case pf cohort
  log env pf.case_id "ingest" "SIGNAL_RECEIVED" (signal_payload pf) ts
  log env pf.case_id "ledger" "COHORT_ASSIGNED" (cohort_payload cohort seed) ts
  pure cohort

unfoldable pub ingest : Env → PaymentFailure → ℕ → Rules → Time → Exec Cohort
ingest env pf seed rules ts = do
  cohort ← lift (assign_cohort env pf.case_id seed rules.holdout_fraction)
  record_ingest env pf seed ts cohort

-- agent/diagnosis/port.py: `DiagnosisInput`, with its default for the contact count.
pub record DiagnosisInput : Type 0 where
  pub method : Method
  pub error : ErrorObj
  pub amount_paise : ℕ
  pub attempt_no : ℕ
  pub prior_failures : ℕ
  pub downtime : DowntimeContext
  pub contact_count_7d : ℕ
  pub is_recurring : Bool

-- agent/diagnosis/port.py: `DiagnosisPort`, a pure function.
abbrev pub DiagnosisPort : Type 0
DiagnosisPort = DiagnosisInput → DiagnosisProposal

unfoldable pub input_of : PaymentFailure → ℕ → DowntimeContext → DiagnosisInput
input_of pf attempts downtime = record {
  method = pf.method;
  error = pf.error;
  amount_paise = pf.amount_paise;
  attempt_no = pf.attempt_no;
  prior_failures = attempts;
  downtime = downtime;
  contact_count_7d = 0;
  is_recurring = pf.is_recurring;
}

abbrev pub reason_evidence : String → List String
reason_evidence reason = join "error.reason=" reason ∷ []

-- A definite class that the rules resolved on their own.
unfoldable pub clean_proposal : Recoverability → String → DiagnosisProposal
clean_proposal class reason = record {
  recoverability = class;
  confidence = 1000000;
  evidence = reason_evidence reason;
  proposed_action = if is_terminal_class class then stop else retry;
  proposed_delay_minutes = some 15;
  expected_outcome = record { probability_of_success = 500000; horizon_minutes = 15 };
  risks = [];
  missing_information = [];
  rationale = "triage: clean taxonomy match";
  fallback_tier = 0;
}

-- A combination that nothing knows.
unfoldable pub unseen_proposal : String → DiagnosisProposal
unseen_proposal reason = record {
  recoverability = unknown;
  confidence = 0;
  evidence = reason_evidence reason;
  proposed_action = stop;
  proposed_delay_minutes = some 0;
  expected_outcome = record { probability_of_success = 0; horizon_minutes = 0 };
  risks = [];
  missing_information = [];
  rationale = "triage: unseen combination — failing closed";
  fallback_tier = 0;
}

-- `tr.matched == "clean"`.
abbrev proposal_by_match : TriageResult → String → DiagnosisProposal
proposal_by_match t reason = elim t.matched [
  | clean ↦ clean_proposal t.recoverability reason
  | _ ↦ unseen_proposal reason
]

unfoldable pub proposal_of :
    DiagnosisPort → TriageResult → PaymentFailure → ℕ → DowntimeContext → DiagnosisProposal
proposal_of port t pf attempts downtime =
    if t.is_ambiguous
    then port (input_of pf attempts downtime)
    else proposal_by_match t pf.error.reason

-- The payload of a STATE_TRANSITION event without a reason.
abbrev pub moved_to : CaseState → Json
moved_to s = dict (("to", str (state_value s)) ∷ [])

-- The transition to DIAGNOSED with its event.
unfoldable pub mark_diagnosed : Env → String → Time → Exec Unit
mark_diagnosed env id ts = do
  transition id diagnosed no_sets
  log env id "pipeline" "STATE_TRANSITION" (moved_to diagnosed) ts
  pure tt

-- The guard before it.
unfoldable pub to_diagnosed : Env → String → Time → Exec Unit
to_diagnosed env id ts = do
  row ← get_case id
  if same_state row.state diagnosed then pure tt else mark_diagnosed env id ts

-- `executed_keys`.
unfoldable pub executed_keys : String → List ActionRow → List String
executed_keys id [] = []
executed_keys id (a ∷ as') =
    let rest = executed_keys id as' in
    if id == a.case_id && is_some a.executed_at then a.idempotency_key ∷ rest else rest

unfoldable pub view_of : CaseRow → PaymentFailure → List String → CaseView
view_of row pf keys = record {
  case_id = row.case_id;
  cohort = row.cohort;
  attempts = row.attempts;
  method = pf.method;
  instrument = pf.instrument;
  amount_paise = pf.amount_paise;
  is_recurring = pf.is_recurring;
  state = row.state;
  executed_action_keys = keys;
}

-- From the row to the logged verdict.
unfoldable pub judge :
    Env
    → Rules
    → String
    → PaymentFailure
    → DiagnosisProposal
    → DowntimeContext
    → Time
    → Exec (CaseView × Verdict)
judge env rules id pf proposal downtime ts = do
  row ← get_case id
  keys ← gets (λ w. executed_keys id w.actions)
  let view = view_of row pf keys
  let v = evaluate env.sha256 proposal view rules ts downtime none
  log env id "policy" "POLICY_VERDICT" (dump_verdict v) ts
  pure (view, v)
