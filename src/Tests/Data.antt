-- ===== src/Tests/Data.antt =====
-- Concrete inputs: a case, rules, a proposal, an outage, and an executor.
use downtime_aware_recovery.Common.{true, String, false, some, ◌+◌, ◌∷◌, none, []}
use downtime_aware_recovery.Store.{Columns, CaseRow, Env, World}
use downtime_aware_recovery.Policy.{Params, Rules, Rule, no_params}
use downtime_aware_recovery.Models.Payment.{DowntimeContext, Instrument, DowntimeWindow, ErrorObj}
use downtime_aware_recovery.Models.Proposal.{DiagnosisProposal}
use downtime_aware_recovery.Models.Verdict.{CaseView, Verdict}
use downtime_aware_recovery.Simulated.{Injected}
use downtime_aware_recovery.Pipeline.Stages.{DiagnosisPort}
use downtime_aware_recovery.Models.Enums.{
  treated, holdout, executing, upi, transient_infra, allow, retry, diagnosed, detected,
}
use downtime_aware_recovery.Models.Json.{proceed}

-- A digest of 64 characters; the properties do not need a good one.
abbrev pub digest64 : String
digest64 = "aaaaaaaaaaaaaaaaaaaaaaaaaaaaaaaaaaaaaaaaaaaaaaaaaaaaaaaaaaaaaaaa"

-- The texts of the times: all rows are from one time.
abbrev pub columns : Columns
columns = record {
  created_at = λ id. "2026-01-01T00:00:00+00:00";
  scheduled_at = λ key. "2026-01-01T00:05:00+00:00";
}

abbrev pub env : Env
env = record {
  sha256 = λ s. digest64;
  dumps = λ j. "{}";
  now_at = λ n. 1000000 + n;
  uuid_at = λ n. "id";
}

abbrev pub hdfc : Instrument
hdfc = record { bank = some "HDFC"; network = none; card_type = none; vpa_handle = none }

abbrev pub timeout_error : ErrorObj
timeout_error = record {
  code = "GATEWAY_ERROR";
  source = "gateway";
  step = "payment_authorization";
  reason = "gateway_timeout";
  description = "";
}

abbrev pub treated_row : CaseRow
treated_row = record {
  case_id = "c1";
  customer_id = "u1";
  order_id = "o1";
  created_at = 0;
  method = upi;
  instrument = hdfc;
  amount_paise = 50000;
  is_recurring = false;
  mandate_id = none;
  error = timeout_error;
  cohort = treated;
  state = detected;
  attempts = 0;
  last_attempt_at = none;
  abandon_reason = none;
  version = 0;
}

abbrev pub holdout_row : CaseRow
holdout_row = record treated_row { case_id = "c2"; cohort = holdout }

abbrev pub outage : DowntimeWindow
outage = record {
  id = "d1";
  method = upi;
  instrument = hdfc;
  begin = 0;
  end = some 9000000000;
  status = "started";
  scheduled = false;
  severity = "high";
  flow = none;
}

abbrev pub world : World
world = record {
  cases = treated_row ∷ holdout_row ∷ [];
  actions = [];
  events = [];
  windows = outage ∷ [];
  reads = 0;
}

abbrev pub rule : Params → Rule
rule p = record { enabled = true; verified = true; params = p }

abbrev pub rules : Rules
rules = record {
  version = 3;
  kill_switch = false;
  holdout_fraction = 100000;
  by_id =
      ("REQUIRED_STATE", rule (record no_params { actionable_states = some ("DIAGNOSED" ∷ []) }))
      ∷ ("SUPPORTED_ACTION", rule (record no_params { supported = some ("RETRY" ∷ "STOP" ∷ []) }))
      ∷ (
        "TERMINAL_CLASS",
        rule (record no_params { deny_classes = some ("TERMINAL" ∷ "UNKNOWN" ∷ []) }),
      )
      ∷ ("ATTEMPT_CAP", rule (record no_params { default_cap = some 3 }))
      ∷ (
        "EV_FLOOR",
        rule
            (record no_params { action_cost_paise = some 200; assumed_success_rate = some 300000 }),
      )
      ∷ ("DOWNTIME_DEFER", rule no_params)
      ∷ ("CONFIDENCE_FLOOR", rule (record no_params { min_calibrated_confidence = some 600000 }))
      ∷ [];
}

abbrev pub proposal : DiagnosisProposal
proposal = record {
  recoverability = transient_infra;
  confidence = 900000;
  evidence = "error.reason=gateway_timeout" ∷ [];
  proposed_action = retry;
  proposed_delay_minutes = some 20;
  expected_outcome = record { probability_of_success = 500000; horizon_minutes = 60 };
  risks = [];
  missing_information = [];
  rationale = "outage";
  fallback_tier = 0;
}

abbrev pub view : CaseView
view = record {
  case_id = "c1";
  cohort = treated;
  attempts = 1;
  method = upi;
  instrument = hdfc;
  amount_paise = 50000;
  is_recurring = false;
  state = diagnosed;
  executed_action_keys = [];
}

abbrev pub in_outage : DowntimeContext
in_outage = record {
  active = true;
  severity = some "high";
  scheduled = some false;
  instrument_match = true;
  expected_end = some 9000000000;
  window_id = some "d1";
}

abbrev pub diagnosis : DiagnosisPort
diagnosis input = proposal

-- An executor whose actions always succeed.
abbrev pub injected : Injected
injected = record { outcome_fn = λ v. 1000000; random_at = λ n. 0; timeout_fn = none }

abbrev pub retry_verdict : Verdict
retry_verdict = record {
  case_id = "c1";
  decision = allow;
  action = retry;
  attempt_no = 1;
  execute_at = some 60000000;
  fired_rules = [];
  reason = proceed;
  rules_version = 3;
  decided_at = 0;
}

abbrev pub ready_world : World
ready_world = record world { cases = record treated_row { state = executing } ∷ [] }
