-- ===== src/Tests/DiagnosisRuns.antt =====
-- The diagnosis of agent/diagnosis on concrete replies.
use downtime_aware_recovery.Common.{◌≡◌, refl, ◌↔◌, none, some, false, String, Option, [], ◌∷◌}
use Prim.Native.String.{◌++◌ as join}
use downtime_aware_recovery.Diagnosis.Fence.{strip_code_fence, strip_code_fence-fenced, fenced}
use downtime_aware_recovery.Diagnosis.Soundness.{IsSound, validate_iff}
use downtime_aware_recovery.Diagnosis.Ladder.{diagnose-IsSound}
use downtime_aware_recovery.Diagnosis.Unanswered.{unanswered_never_retried}
use downtime_aware_recovery.Diagnosis.Prompting.{validate, evidence_fields, accepted}
use downtime_aware_recovery.Diagnosis.Models.{Provider, raised, replied, diagnose, ask_model}
use downtime_aware_recovery.Text.{strip, after_line, is_space, lstrip, rstrip}
use downtime_aware_recovery.Models.Proposal.{DiagnosisProposal}
use downtime_aware_recovery.Models.Enums.{upi}
use downtime_aware_recovery.Models.Verdict.{is_executable}
use downtime_aware_recovery.Models.Payment.{ErrorObj, PaymentFailure}
use downtime_aware_recovery.Pipeline.Stages.{DiagnosisInput, proposal_of}
use downtime_aware_recovery.Policy.Evaluate.{evaluate}
use downtime_aware_recovery.Triage.{triage, clean_reasons, ambiguous_reasons}
use downtime_aware_recovery.Tests.Data.{proposal, in_outage, env, view, rules, hdfc}

abbrev vague_error : ErrorObj
vague_error = record {
  code = "BAD_REQUEST_ERROR";
  source = "bank";
  step = "payment_authorization";
  reason = "payment_failed";
  description = "";
}

abbrev vague_failure : PaymentFailure
vague_failure = record {
  case_id = "c1";
  customer_id = "u1";
  order_id = "o1";
  created_at = 0;
  method = upi;
  instrument = hdfc;
  amount_paise = 50000;
  is_recurring = false;
  mandate_id = none;
  attempt_no = 1;
  error = vague_error;
}

abbrev vague_input : DiagnosisInput
vague_input = record {
  method = upi;
  error = vague_error;
  amount_paise = 50000;
  attempt_no = 1;
  prior_failures = 0;
  downtime = in_outage;
  contact_count_7d = 0;
  is_recurring = false;
}

-- A provider whose model cannot be reached, and one whose model answers in a code fence.
abbrev unreachable : Provider
unreachable = record {
  dumps = λ j. "{}";
  decode = λ s. none;
  describe = λ why. "ValueError: rejected";
  call = λ s p. raised "APIConnectionError" "Connection error.";
}

abbrev sound_proposal : DiagnosisProposal
sound_proposal = record proposal { evidence = "error.reason" ∷ [] }

-- Decodes one text, to one proposal.
abbrev decode_one : String → Option DiagnosisProposal
decode_one s = some sound_proposal

abbrev answering : Provider
answering = record unreachable { decode = decode_one; call = λ s p. replied "```json\n{}\n```" }

strip_code_fence-fenced_example :
    strip_code_fence (join " " (join (fenced "json" "{}") "\n")) ≡ "{}"
unfolding strip after_line is_space lstrip rstrip
strip_code_fence-fenced_example = strip_code_fence-fenced " " "json" "{}" "\n" refl refl refl refl

validate_iff_example :
    (validate decode_one "```json\n{}\n```" evidence_fields ≡ accepted sound_proposal) ↔ (
      (decode_one (strip_code_fence "```json\n{}\n```") ≡ some sound_proposal)
      × IsSound evidence_fields sound_proposal)
validate_iff_example = validate_iff decode_one "```json\n{}\n```" evidence_fields sound_proposal

diagnose-IsSound_example : IsSound evidence_fields (diagnose answering vague_input)
diagnose-IsSound_example = diagnose-IsSound answering vague_input

unanswered_never_retried_example :
    is_executable (
      evaluate env.sha256
        (proposal_of (diagnose unreachable) (triage "payment_failed") vague_failure 0 in_outage)
        view
        rules
        0
        in_outage
        none)
    ≡ false
unfolding triage ask_model clean_reasons ambiguous_reasons
unanswered_never_retried_example =
    unanswered_never_retried unreachable vague_failure 0 in_outage
      "APIConnectionError: Connection error." "APIConnectionError: Connection error." refl refl refl
      env.sha256 view rules 0 none
