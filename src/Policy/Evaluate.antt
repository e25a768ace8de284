-- ===== src/Policy/Evaluate.antt =====
-- agent/policy/engine.py: `evaluate`.
use downtime_aware_recovery.Common.{
  ℕ, ◌+◌, String, Bool, ◌&&◌, Option, none, some, List, [], ◌∷◌, min, max, ltb, or_default,
  if◌then◌else◌,
}
use downtime_aware_recovery.Models.Enums.{Decision, Action, allow, retry, stop}
use downtime_aware_recovery.Models.Json.{Message, proceed, deferred_past_end, unknown_end_backoff}
use downtime_aware_recovery.Models.Payment.{Time, DowntimeContext, seconds, minutes}
use downtime_aware_recovery.Models.Proposal.{DiagnosisProposal}
use downtime_aware_recovery.Models.Verdict.{CaseView, Verdict}
use downtime_aware_recovery.Policy.{Rules, enabled, params}
use downtime_aware_recovery.Policy.Gates.{
  Refusal, required_state, supported_action, kill_switch_gate, holdout_guard, terminal_class,
  attempt_cap, duplicate_action, proposed_stop, ev_floor, confidence_floor,
}

infixr 20 ◌or_else◌
abbrev pub ◌or_else◌ : Option Refusal → Option Refusal → Option Refusal
some r or_else s = some r
none or_else s = s

-- The early returns of `evaluate`: the first gate that refuses.
unfoldable pub refusal :
    (String → String) → DiagnosisProposal → CaseView → Rules → Option ℕ → Option Refusal
refusal sha256 p c rules calibrated =
    required_state rules c
    or_else supported_action rules p
    or_else kill_switch_gate rules
    or_else holdout_guard c
    or_else terminal_class rules p
    or_else attempt_cap rules c
    or_else duplicate_action sha256 rules p c
    or_else proposed_stop p
    or_else ev_floor rules c
    or_else confidence_floor rules p calibrated

unfoldable pub min_delay : Rules → ℕ
min_delay rules = or_default 15 (params rules "DOWNTIME_DEFER").min_delay_minutes

unfoldable pub max_delay : Rules → ℕ
max_delay rules = or_default 10080 (params rules "DOWNTIME_DEFER").max_delay_minutes

-- `delay`, clamped.
unfoldable pub clamped_delay : Rules → DiagnosisProposal → ℕ
clamped_delay rules p =
    min (max (or_default 0 p.proposed_delay_minutes) (min_delay rules)) (max_delay rules)

-- `candidate` and `candidate_reason`.
unfoldable pub candidate : Rules → Time → DowntimeContext → Time × Message
candidate rules now downtime = elim downtime.expected_end [
  | some end ↦ (
    end + seconds (or_default 300 (params rules "DOWNTIME_DEFER").jitter_seconds),
    deferred_past_end,
  )
  | none ↦ (
    now + minutes (or_default 90 (params rules "DOWNTIME_DEFER").unknown_end_backoff_minutes),
    unknown_end_backoff,
  )
]

-- The test under which the downtime may push the schedule.
unfoldable pub defers : Rules → DowntimeContext → Bool
defers rules downtime =
    enabled rules "DOWNTIME_DEFER" && downtime.active && downtime.instrument_match

pub record Schedule : Type 0 where
  pub at : Time
  pub reason : Message
  pub fired : List String

-- The part of `evaluate` behind the gates.
unfoldable pub schedule : DiagnosisProposal → Rules → Time → DowntimeContext → Schedule
schedule p rules now downtime =
    let base = now + minutes (clamped_delay rules p) in
    let (at, reason) = candidate rules now downtime in
    if defers rules downtime && ltb base at
    then record { at = at; reason = reason; fired = "DOWNTIME_DEFER" ∷ [] }
    else record { at = base; reason = proceed; fired = [] }

-- The local function `verdict`.
unfoldable pub verdict :
    CaseView → Rules → Time → Decision → Action → Message → Option Time → List String → Verdict
verdict c rules now decision action reason at fired = record {
  case_id = c.case_id;
  decision = decision;
  action = action;
  attempt_no = c.attempts + 1;
  execute_at = at;
  fired_rules = fired;
  reason = reason;
  rules_version = rules.version;
  decided_at = now;
}

-- The returns of `evaluate`: what the first refusing gate says, or the schedule.
unfoldable pub settle : CaseView → Rules → Time → Schedule → Option Refusal → Verdict
unfolding verdict
settle c rules now s (some r) = verdict c rules now r.decision stop r.reason none r.fired
settle c rules now s none = verdict c rules now allow retry s.reason (some s.at) s.fired

unfoldable pub evaluate :
    (String → String)
    → DiagnosisProposal
    → CaseView
    → Rules
    → Time
    → DowntimeContext
    → Option ℕ
    → Verdict
evaluate sha256 p c rules now downtime calibrated =
    settle c rules now (schedule p rules now downtime) (refusal sha256 p c rules calibrated)
