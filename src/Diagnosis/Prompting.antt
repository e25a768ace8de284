-- ===== src/Diagnosis/Prompting.antt =====
-- agent/diagnosis/prompting.py: the prompt, the validation of a reply and the fallbacks, with the
-- model that they fall back to, `UnknownDiagnosis` of agent/diagnosis/stub.py. What `json.loads` and
-- the types of `DiagnosisProposal` make of a text is a parameter; the bounds of its fields
-- (agent/models.py) are checked here.
use Prim.Native.String.{◌++◌ as join, count}
use downtime_aware_recovery.Common.{
  ℕ, String, Bool, true, false, ◌&&◌, not, leb, Option, none, some, List, [], ◌∷◌, lookup, elem,
  all, is_empty, if◌then◌else◌,
}
use downtime_aware_recovery.Models.Enums.{
  Action, Recoverability, retry, stop, recovery_link, unknown, is_terminal_class, same_action,
  ambiguous_signal, low_sample_confidence, method_value, MissingInfoCategory,
}
use downtime_aware_recovery.Models.Json.{Json, bool, int, str, dict, optional}
use downtime_aware_recovery.Models.Proposal.{DiagnosisProposal, RiskFlag}
use downtime_aware_recovery.Pipeline.Stages.{DiagnosisInput}
use downtime_aware_recovery.Triage.{clean_reasons}
use downtime_aware_recovery.Diagnosis.Fence.{strip_code_fence}
use downtime_aware_recovery.Text.{take, has_text}

-- The payload of `build_prompt`; its text is what `json.dumps` makes of it.
unfoldable pub prompt_payload : DiagnosisInput → Json
prompt_payload inp = dict (
    ("method", str (method_value inp.method))
    ∷ (
      "error",
      dict (
          ("source", str inp.error.source)
          ∷ ("step", str inp.error.step)
          ∷ ("reason", str inp.error.reason)
          ∷ []),
    )
    ∷ ("amount_paise", int inp.amount_paise)
    ∷ ("attempt_no", int inp.attempt_no)
    ∷ ("prior_failures", int inp.prior_failures)
    ∷ ("is_recurring", bool inp.is_recurring)
    ∷ (
      "downtime",
      dict (
          ("active", bool inp.downtime.active)
          ∷ ("severity", optional str inp.downtime.severity)
          ∷ ("scheduled", optional bool inp.downtime.scheduled)
          ∷ ("expected_end", optional int inp.downtime.expected_end)
          ∷ ("instrument_match", bool inp.downtime.instrument_match)
          ∷ []),
    )
    ∷ ("contact_count_7d", int inp.contact_count_7d)
    ∷ [])

-- `evidence_fields`, which are the same for every input.
unfoldable pub evidence_fields : List String
evidence_fields =
    "method" ∷ "error.source" ∷ "error.step" ∷ "error.reason" ∷ "amount_paise" ∷ "attempt_no"
    ∷ "prior_failures" ∷ "is_recurring" ∷ "downtime.active" ∷ "downtime.severity"
    ∷ "downtime.scheduled" ∷ "downtime.expected_end" ∷ "downtime.instrument_match"
    ∷ "contact_count_7d" ∷ []

-- `MIN_CONFIDENCE_REQUIRING_EVIDENCE` and `MAX_CONFIDENCE_WITH_MISSING_INFO`, in millionths.
abbrev pub min_confidence_requiring_evidence : ℕ
min_confidence_requiring_evidence = 700000

abbrev pub max_confidence_with_missing_info : ℕ
max_confidence_with_missing_info = 850000

-- Membership in `SUPPORTED_ACTIONS`.
abbrev pub is_supported : Action → Bool
is_supported retry = true
is_supported stop = true
is_supported recovery_link = false

-- The bounds of the fields. A negative number is refused too, and is none of the model.
unfoldable pub note_fits : RiskFlag → Bool
note_fits r = leb (count r.note) 140

unfoldable pub in_bounds : DiagnosisProposal → Bool
in_bounds p =
    leb p.confidence 1000000
    && leb p.expected_outcome.probability_of_success 1000000
    && all note_fits p.risks
    && leb (count p.rationale) 280
    && leb p.fallback_tier 3

-- Why a reply is not accepted.
pub data Rejection : Type 0 where
  undecodable out_of_bounds : Rejection
  unresolvable_evidence : List String → Rejection
  unsupported_action : Action → Rejection
  confident_without_evidence : ℕ → Rejection
  certain_with_missing_info : ℕ → List MissingInfoCategory → Rejection
  terminal_retry : Rejection

pub data Validation : Type 0 where
  accepted : DiagnosisProposal → Validation
  rejected : Rejection → Validation

-- `unresolvable`.
unfoldable pub unresolvable : List String → List String → List String
unresolvable fields [] = []
unresolvable fields (e ∷ es) =
    let rest = unresolvable fields es in if elem e fields then rest else e ∷ rest

-- The checks of `validate`, in their order.
unfoldable pub check : List String → DiagnosisProposal → Validation
check fields p =
    if not (in_bounds p)
    then rejected out_of_bounds
    else if not (is_empty (unresolvable fields p.evidence))
    then rejected (unresolvable_evidence (unresolvable fields p.evidence))
    else if not (is_supported p.proposed_action)
    then rejected (unsupported_action p.proposed_action)
    else if leb min_confidence_requiring_evidence p.confidence && is_empty p.evidence
    then rejected (confident_without_evidence p.confidence)
    else if leb max_confidence_with_missing_info p.confidence
        && not (is_empty p.missing_information)
    then rejected (certain_with_missing_info p.confidence p.missing_information)
    else if is_terminal_class p.recoverability && same_action p.proposed_action retry
    then rejected terminal_retry
    else accepted p

unfoldable pub validate : (String → Option DiagnosisProposal) → String → List String → Validation
validate decode raw fields = elim (decode (strip_code_fence raw)) [
  | none ↦ rejected undecodable
  | some p ↦ check fields p
]

-- `f" ({last_error})" if last_error else ""`.
abbrev pub error_note : Option String → String
error_note none = ""
error_note (some e) = if has_text e then join " (" (join e ")") else ""

abbrev pub taxonomy_note : RiskFlag
taxonomy_note = record {
  category = low_sample_confidence;
  note = "model unavailable; taxonomy prior used, no case-specific reasoning";
}

-- What `tier2_fallback` builds from the class that the table lists.
unfoldable pub prior_proposal : Recoverability → Option String → DiagnosisProposal
prior_proposal prior last_error = record {
  recoverability = prior;
  confidence = 300000;
  evidence = [];
  proposed_action = if is_terminal_class prior then stop else retry;
  proposed_delay_minutes = some 60;
  expected_outcome = record { probability_of_success = 300000; horizon_minutes = 60 };
  risks = taxonomy_note ∷ [];
  missing_information = [];
  rationale =
      take 280 (
        join "tier-2 fallback: model output invalid, using taxonomy prior" (error_note last_error));
  fallback_tier = 2;
}

unfoldable pub tier2_fallback : DiagnosisInput → Option String → Option DiagnosisProposal
tier2_fallback inp last_error = elim (lookup inp.error.reason clean_reasons) [
  | none ↦ none
  | some prior ↦ some (prior_proposal prior last_error)
]

-- agent/diagnosis/stub.py: `UnknownDiagnosis`.
abbrev pub unknown_diagnosis : DiagnosisInput → DiagnosisProposal
unknown_diagnosis inp = record {
  recoverability = unknown;
  confidence = 0;
  evidence = [];
  proposed_action = stop;
  proposed_delay_minutes = none;
  expected_outcome = record { probability_of_success = 0; horizon_minutes = 0 };
  risks =
      record {
        category = ambiguous_signal;
        note = "reason/context combination not in the known taxonomy";
      }
      ∷ [];
  missing_information = [];
  rationale = "stub: unrecognised combination";
  fallback_tier = 3;
}

-- The rationale of `tier3_fallback`.
unfoldable pub noted : String → Option String → String
noted rationale none = rationale
noted rationale (some e) =
    if has_text e then take 280 (join rationale (join " (" (join e ")"))) else rationale

unfoldable pub tier3_fallback : DiagnosisInput → Option String → DiagnosisProposal
tier3_fallback inp last_error = record (unknown_diagnosis inp) {
  fallback_tier = 3;
  rationale = noted (unknown_diagnosis inp).rationale last_error;
}
