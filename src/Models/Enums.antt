-- ===== src/Models/Enums.antt =====
-- The enumerations of agent/models.py and their values.
use downtime_aware_recovery.Common.{ℕ, String, Bool, nat_eq, ◌≡◌, arith}

pub data Method : Type 0 where
  card netbanking upi emandate : Method

pub data Recoverability : Type 0 where
  transient_infra customer_fixable instrument_invalid terminal unknown : Recoverability

pub data Action : Type 0 where
  retry recovery_link stop : Action

pub data Decision : Type 0 where
  allow deny review : Decision

pub data Cohort : Type 0 where
  treated holdout : Cohort

pub data CaseState : Type 0 where
  detected diagnosed scheduled executing failed_attempt : CaseState
  recovered abandoned holdout_closed quarantined : CaseState

pub data RiskCategory : Type 0 where
  stale_signal customer_fatigue amount_sensitivity low_sample_confidence : RiskCategory
  compliance_boundary ambiguous_signal other_risk : RiskCategory

pub data MissingInfoCategory : Type 0 where
  customer_contact_history prior_method_success_rate : MissingInfoCategory
  downtime_confirmation account_standing merchant_risk_profile other_info : MissingInfoCategory

pub data ExecutionMode : Type 0 where
  sim live shadow : ExecutionMode

pub data ActionOutcome : Type 0 where
  succeeded failed : ActionOutcome

abbrev pub method_value : Method → String
method_value card = "card"
method_value netbanking = "netbanking"
method_value upi = "upi"
method_value emandate = "emandate"

abbrev pub class_value : Recoverability → String
class_value transient_infra = "TRANSIENT_INFRA"
class_value customer_fixable = "CUSTOMER_FIXABLE"
class_value instrument_invalid = "INSTRUMENT_INVALID"
class_value terminal = "TERMINAL"
class_value unknown = "UNKNOWN"

abbrev pub action_value : Action → String
action_value retry = "RETRY"
action_value recovery_link = "RECOVERY_LINK"
action_value stop = "STOP"

abbrev pub decision_value : Decision → String
decision_value allow = "ALLOW"
decision_value deny = "DENY"
decision_value review = "REVIEW"

abbrev pub cohort_value : Cohort → String
cohort_value treated = "TREATED"
cohort_value holdout = "HOLDOUT"

abbrev pub state_value : CaseState → String
state_value detected = "DETECTED"
state_value diagnosed = "DIAGNOSED"
state_value scheduled = "SCHEDULED"
state_value executing = "EXECUTING"
state_value failed_attempt = "FAILED_ATTEMPT"
state_value recovered = "RECOVERED"
state_value abandoned = "ABANDONED"
state_value holdout_closed = "HOLDOUT_CLOSED"
state_value quarantined = "QUARANTINED"

abbrev pub risk_value : RiskCategory → String
risk_value stale_signal = "STALE_SIGNAL"
risk_value customer_fatigue = "CUSTOMER_FATIGUE"
risk_value amount_sensitivity = "AMOUNT_SENSITIVITY"
risk_value low_sample_confidence = "LOW_SAMPLE_CONFIDENCE"
risk_value compliance_boundary = "COMPLIANCE_BOUNDARY"
risk_value ambiguous_signal = "AMBIGUOUS_SIGNAL"
risk_value other_risk = "OTHER"

abbrev pub missing_value : MissingInfoCategory → String
missing_value customer_contact_history = "CUSTOMER_CONTACT_HISTORY"
missing_value prior_method_success_rate = "PRIOR_METHOD_SUCCESS_RATE"
missing_value downtime_confirmation = "DOWNTIME_CONFIRMATION"
missing_value account_standing = "ACCOUNT_STANDING"
missing_value merchant_risk_profile = "MERCHANT_RISK_PROFILE"
missing_value other_info = "OTHER"

abbrev pub mode_value : ExecutionMode → String
mode_value sim = "SIM"
mode_value live = "LIVE"
mode_value shadow = "SHADOW"

abbrev pub outcome_value : ActionOutcome → String
outcome_value succeeded = "SUCCEEDED"
outcome_value failed = "FAILED"

-- `a is b` on members of one enumeration, by their position in the class.
abbrev pub action_index : Action → ℕ
action_index retry = 0
action_index recovery_link = 1
action_index stop = 2

abbrev pub state_index : CaseState → ℕ
state_index detected = 0
state_index diagnosed = 1
state_index scheduled = 2
state_index executing = 3
state_index failed_attempt = 4
state_index recovered = 5
state_index abandoned = 6
state_index holdout_closed = 7
state_index quarantined = 8

abbrev pub method_index : Method → ℕ
method_index card = 0
method_index netbanking = 1
method_index upi = 2
method_index emandate = 3

abbrev pub same_action : Action → Action → Bool
same_action a b = nat_eq (action_index a) (action_index b)

abbrev pub same_state : CaseState → CaseState → Bool
same_state a b = nat_eq (state_index a) (state_index b)

-- The test on states tells states apart.
pub same_state-eq : (a b : CaseState) → same_state a b ≡ Bool.true → a ≡ b
same_state-eq a b h = ground arith

pub same_state_refl : (a : CaseState) → same_state a a ≡ Bool.true
same_state_refl a = ground arith

abbrev pub is_holdout : Cohort → Bool
is_holdout treated = Bool.false
is_holdout holdout = Bool.true

abbrev pub is_allow : Decision → Bool
is_allow allow = Bool.true
is_allow _ = Bool.false

abbrev pub is_review : Decision → Bool
is_review review = Bool.true
is_review _ = Bool.false

abbrev pub is_terminal_class : Recoverability → Bool
is_terminal_class terminal = Bool.true
is_terminal_class _ = Bool.false

abbrev pub is_succeeded : ActionOutcome → Bool
is_succeeded succeeded = Bool.true
is_succeeded failed = Bool.false
