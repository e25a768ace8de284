-- ===== src/Policy/Gates.antt =====
-- agent/policy/engine.py: the gates of `evaluate`, one function for each early return, in their order.
use downtime_aware_recovery.Common.{
  ℕ, ◌+◌, ◌*◌, String, not, ◌&&◌, Option, none, some, List, [], ◌∷◌, elem, lookup, ltb, leb,
  or_default, is_empty, if◌then◌else◌,
}
use downtime_aware_recovery.Models.Enums.{
  Decision, deny, review, stop, method_value, state_value, action_value, class_value, same_action,
  is_holdout,
}
use downtime_aware_recovery.Models.Json.{
  Message, state_not_actionable, action_not_implemented, kill_switch_engaged,
  holdout_never_acted_upon, class_not_recoverable, attempt_cap_reached, already_executed,
  model_proposed_stop, value_below_cost, confidence_below_floor,
}
use downtime_aware_recovery.Models.Proposal.{DiagnosisProposal}
use downtime_aware_recovery.Models.Verdict.{CaseView, idempotency_key}
use downtime_aware_recovery.Policy.{Rules, enabled, params}

-- What an early return gives to `verdict`; its action is always STOP.
pub record Refusal : Type 0 where
  pub decision : Decision
  pub fired : List String
  pub reason : Message

abbrev pub denied : String → Message → Option Refusal
denied rule reason = some (record { decision = deny; fired = rule ∷ []; reason = reason })

unfoldable pub actionable : Rules → List String
actionable rules = or_default [] (params rules "REQUIRED_STATE").actionable_states

unfoldable pub required_state : Rules → CaseView → Option Refusal
required_state rules c =
    if enabled rules "REQUIRED_STATE" && not (elem (state_value c.state) (actionable rules))
    then denied "REQUIRED_STATE" (state_not_actionable c.state)
    else none

unfoldable pub supported_actions : Rules → List String
supported_actions rules = or_default [] (params rules "SUPPORTED_ACTION").supported

unfoldable pub supported_action : Rules → DiagnosisProposal → Option Refusal
supported_action rules p =
    if enabled rules "SUPPORTED_ACTION"
      && not (elem (action_value p.proposed_action) (supported_actions rules))
    then denied "SUPPORTED_ACTION" (action_not_implemented p.proposed_action)
    else none

unfoldable pub kill_switch_gate : Rules → Option Refusal
kill_switch_gate rules =
    if rules.kill_switch then denied "KILL_SWITCH" kill_switch_engaged else none

unfoldable pub holdout_guard : CaseView → Option Refusal
holdout_guard c =
    if is_holdout c.cohort then denied "HOLDOUT_GUARD" holdout_never_acted_upon else none

unfoldable pub denied_classes : Rules → List String
denied_classes rules = or_default [] (params rules "TERMINAL_CLASS").deny_classes

unfoldable pub terminal_class : Rules → DiagnosisProposal → Option Refusal
terminal_class rules p =
    if enabled rules "TERMINAL_CLASS" && elem (class_value p.recoverability) (denied_classes rules)
    then denied "TERMINAL_CLASS" (class_not_recoverable p.recoverability)
    else none

-- `_cap_for`.
unfoldable pub cap_for : Rules → CaseView → ℕ
cap_for rules c =
    let p = params rules "ATTEMPT_CAP" in
    or_default (or_default 3 p.default_cap)
      (lookup (method_value c.method) (or_default [] p.by_method))

unfoldable pub attempt_cap : Rules → CaseView → Option Refusal
attempt_cap rules c =
    if enabled rules "ATTEMPT_CAP" && leb (cap_for rules c) c.attempts
    then denied "ATTEMPT_CAP" (attempt_cap_reached (cap_for rules c))
    else none

-- The test for an empty set of keys only saves the computation of the key.
unfoldable pub duplicate_action :
    (String → String) → Rules → DiagnosisProposal → CaseView → Option Refusal
duplicate_action sha256 rules p c =
    if enabled rules "DUPLICATE_ACTION"
      && not (is_empty c.executed_action_keys)
      && elem (idempotency_key sha256 c.case_id p.proposed_action (c.attempts + 1))
          c.executed_action_keys
    then denied "DUPLICATE_ACTION" (already_executed (c.attempts + 1))
    else none

-- No rule fires here.
unfoldable pub proposed_stop : DiagnosisProposal → Option Refusal
proposed_stop p =
    if same_action p.proposed_action stop
    then some (record { decision = deny; fired = []; reason = model_proposed_stop })
    else none

unfoldable pub action_cost : Rules → ℕ
action_cost rules = or_default 0 (params rules "EV_FLOOR").action_cost_paise

unfoldable pub assumed_rate : Rules → ℕ
assumed_rate rules = or_default 0 (params rules "EV_FLOOR").assumed_success_rate

-- `p_assumed * amount - cost <= 0`, with the rate in millionths.
unfoldable pub ev_floor : Rules → CaseView → Option Refusal
ev_floor rules c =
    if enabled rules "EV_FLOOR"
      && leb (assumed_rate rules * c.amount_paise) (action_cost rules * 1000000)
    then denied "EV_FLOOR"
        (value_below_cost (assumed_rate rules) c.amount_paise (action_cost rules))
    else none

unfoldable pub confidence_min : Rules → ℕ
confidence_min rules = or_default 0 (params rules "CONFIDENCE_FLOOR").min_calibrated_confidence

unfoldable pub confidence_floor : Rules → DiagnosisProposal → Option ℕ → Option Refusal
confidence_floor rules p calibrated =
    let confidence = or_default p.confidence calibrated in
    if enabled rules "CONFIDENCE_FLOOR" && ltb confidence (confidence_min rules)
    then some (record {
      decision = review;
      fired = "CONFIDENCE_FLOOR" ∷ [];
      reason = confidence_below_floor confidence (confidence_min rules);
    })
    else none
