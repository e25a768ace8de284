-- ===== src/Policy.antt =====
-- agent/policy/engine.py: the rules as they are loaded from agent/policy/rules.yaml. A float of
-- [0, 1] is a number of millionths; the YAML parser is not modelled, what it returns is `RawRules`.
pub mod Gates
pub mod Evaluate
pub mod Authorized
pub mod Timing
use mathlib.Core.List.{reverse}
use downtime_aware_recovery.Common.{
  ℕ, String, Bool, false, Option, none, some, List, [], ◌∷◌, lookup, or_default,
}

-- The `params` of a rule: one optional value for each key that `evaluate` reads.
pub record Params : Type 0 where
  pub actionable_states : Option (List String)
  pub supported : Option (List String)
  pub deny_classes : Option (List String)
  pub default_cap : Option ℕ
  pub by_method : Option (List (String × ℕ))
  pub action_cost_paise : Option ℕ
  pub assumed_success_rate : Option ℕ
  pub min_calibrated_confidence : Option ℕ
  pub jitter_seconds : Option ℕ
  pub unknown_end_backoff_minutes : Option ℕ
  pub min_delay_minutes : Option ℕ
  pub max_delay_minutes : Option ℕ

-- `{}`.
abbrev pub no_params : Params
no_params = record {
  actionable_states = none;
  supported = none;
  deny_classes = none;
  default_cap = none;
  by_method = none;
  action_cost_paise = none;
  assumed_success_rate = none;
  min_calibrated_confidence = none;
  jitter_seconds = none;
  unknown_end_backoff_minutes = none;
  min_delay_minutes = none;
  max_delay_minutes = none;
}

-- An entry of `rules`; a missing `enabled` is false, a missing `params` empty.
pub record Rule : Type 0 where
  pub enabled : Bool
  pub verified : Bool
  pub params : Params

pub record RawRules : Type 0 where
  pub version : ℕ
  pub kill_switch : Bool
  pub holdout_fraction : ℕ
  pub rules : List (String × Rule)

pub record Rules : Type 0 where
  pub version : ℕ
  pub kill_switch : Bool
  pub holdout_fraction : ℕ
  pub by_id : List (String × Rule)

-- `load_rules`. Of two rules with one id the dictionary keeps the later one.
unfoldable pub load_rules : RawRules → Option Bool → Rules
load_rules raw kill_switch = record {
  version = raw.version;
  kill_switch = or_default raw.kill_switch kill_switch;
  holdout_fraction = raw.holdout_fraction;
  by_id = reverse raw.rules;
}

abbrev rule_enabled : Option Rule → Bool
rule_enabled none = false
rule_enabled (some r) = r.enabled

-- `Rules.enabled`.
unfoldable pub enabled : Rules → String → Bool
enabled rules id = rule_enabled (lookup id rules.by_id)

abbrev rule_params : Option Rule → Params
rule_params none = no_params
rule_params (some r) = r.params

-- `Rules.params`.
unfoldable pub params : Rules → String → Params
params rules id = rule_params (lookup id rules.by_id)
