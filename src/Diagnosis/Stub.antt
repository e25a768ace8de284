-- ===== src/Diagnosis/Stub.antt =====
-- The deterministic diagnosis ports: `StubDiagnosis` and `AdversarialDiagnosis`
-- (agent/diagnosis/stub.py) and `BaselineDiagnosis` (agent/diagnosis/baseline.py).
use Prim.Native.String.{◌++◌ as join}
use downtime_aware_recovery.Common.{
  ℕ, String, Bool, true, false, ◌&&◌, ltb, some, none, List, [], ◌∷◌, lookup, ◌==◌, if◌then◌else◌,
}
use downtime_aware_recovery.Models.Enums.{
  Method, card, Action, retry, stop, Recoverability, transient_infra, customer_fixable,
  instrument_invalid, terminal, method_value, low_sample_confidence,
}
use downtime_aware_recovery.Models.Proposal.{DiagnosisProposal}
use downtime_aware_recovery.Models.Verdict.{decimal}
use downtime_aware_recovery.Pipeline.Stages.{DiagnosisInput, DiagnosisPort, reason_evidence}
use downtime_aware_recovery.Triage.{clean_reasons}

-- A proposal as the branches of the stub fill it in: the horizon is the delay.
abbrev stub_proposal :
    Recoverability → ℕ → List String → Action → ℕ → ℕ → String → DiagnosisProposal
stub_proposal class confidence evidence action delay probability rationale = record {
  recoverability = class;
  confidence = confidence;
  evidence = evidence;
  proposed_action = action;
  proposed_delay_minutes = some delay;
  expected_outcome = record { probability_of_success = probability; horizon_minutes = delay };
  risks = [];
  missing_information = [];
  rationale = rationale;
  fallback_tier = 0;
}

-- `guess in (Recoverability.TERMINAL, Recoverability.INSTRUMENT_INVALID)`.
abbrev pub is_hopeless_class : Recoverability → Bool
is_hopeless_class terminal = true
is_hopeless_class instrument_invalid = true
is_hopeless_class _ = false

abbrev pub is_stop : Action → Bool
is_stop stop = true
is_stop _ = false

-- 1. A reason that the taxonomy lists.
unfoldable pub stub_listed : DiagnosisInput → Recoverability → DiagnosisProposal
stub_listed inp guess =
    let action = if is_hopeless_class guess then stop else retry in
    let delay = if inp.downtime.active then 60 else 15 in
    let prob = if is_stop action then 0 else if inp.downtime.active then 750000 else 550000 in
    stub_proposal guess 850000 (reason_evidence inp.error.reason) action delay prob
      "stub: deterministic clean classification"

-- 2. An outage.
unfoldable pub stub_outage : DiagnosisInput → DiagnosisProposal
stub_outage inp =
    stub_proposal transient_infra 850000
      (join "error.reason=" inp.error.reason ∷ "downtime.active=True" ∷ []) retry 60 750000
      "stub: diagnosed as transient infrastructure failure during active provider downtime"

abbrev pub is_card : Method → Bool
is_card card = true
is_card _ = false

-- 3. A recurring payment.
unfoldable pub stub_recurring : DiagnosisInput → DiagnosisProposal
stub_recurring inp =
    if is_card inp.method
    then stub_proposal instrument_invalid 800000
        (join "error.reason=" inp.error.reason
          ∷ "is_recurring=True"
          ∷ join "method=" (method_value inp.method)
          ∷ [])
        stop 0 0 "stub: recurring card auto-debit failure; instrument invalid or blocked"
    else stub_proposal terminal 850000
        (join "error.reason=" inp.error.reason ∷ "is_recurring=True" ∷ []) stop 0 0
        "stub: recurring mandate terminal refusal without user intervention"

-- 4. A high amount.
unfoldable pub stub_high_amount : DiagnosisInput → DiagnosisProposal
stub_high_amount inp =
    stub_proposal terminal 850000
      (join "error.reason=" inp.error.reason ∷ join "amount_paise=" (decimal inp.amount_paise) ∷ [])
      stop 0 0 "stub: high-value transaction exceeded hard account limit"

-- 5. The reasons that a customer may put right, and all others.
unfoldable pub stub_interactive : DiagnosisInput → DiagnosisProposal
stub_interactive inp =
    if inp.error.reason == "authentication_failed"
    then stub_proposal customer_fixable 800000 (reason_evidence inp.error.reason) retry 15 650000
        "stub: authentication failure; customer OTP mistype or session drop"
    else if inp.error.reason == "collect_request_expired"
    then stub_proposal customer_fixable 750000
        (join "error.reason=" inp.error.reason ∷ join "method=" (method_value inp.method) ∷ [])
        retry 15 550000 "stub: collect request expired without response; customer retryable"
    else stub_proposal transient_infra 700000 (reason_evidence inp.error.reason) retry 15 500000
        "stub: transient payment failure; proceed with scheduled retry"

-- The branches for a reason that the taxonomy does not list.
abbrev pub unlisted_diagnosis : DiagnosisInput → DiagnosisProposal
unlisted_diagnosis inp =
    if inp.downtime.active
    then stub_outage inp
    else if inp.is_recurring
    then stub_recurring inp
    else if ltb 1000000 inp.amount_paise && inp.error.reason == "transaction_limit_exceeded"
    then stub_high_amount inp
    else stub_interactive inp

-- `StubDiagnosis.diagnose`.
unfoldable pub stub_diagnosis : DiagnosisPort
stub_diagnosis inp = elim (lookup inp.error.reason clean_reasons) [
  | some guess ↦ stub_listed inp guess
  | none ↦ unlisted_diagnosis inp
]

-- `AdversarialDiagnosis.diagnose`.
unfoldable pub adversarial_diagnosis : DiagnosisPort
adversarial_diagnosis inp =
    stub_proposal transient_infra 1000000 ("adversarial" ∷ []) retry 0 1000000
      "adversarial fixture: always retry, always confident"

-- `BaselineDiagnosis.diagnose`, with `FIXED_DELAY_MINUTES`.
unfoldable pub baseline_diagnosis : DiagnosisPort
baseline_diagnosis inp =
    record (stub_proposal transient_infra 500000 [] retry 60 500000
      "baseline: fixed retry, no diagnosis performed") {
        risks =
            record {
              category = low_sample_confidence;
              note = "baseline arm: no case-specific reasoning performed";
            }
            ∷ [];
      }
