-- ===== src/Policy/Timing.antt =====
-- The verdict of `evaluate` (agent/policy/engine.py): when it lets an action run, what it binds, and
-- what it does not read.
use downtime_aware_recovery.Common.{
  if◌then◌else◌, ℕ, ◌+◌, ◌≤◌, ◌<◌, String, ◌≡◌, ◌↔◌, ◌⊎◌, inl, inr, refl, true, false, Option, none,
  some, [], ◌∷◌, arith, max, or_default, Option-cases,
}
use downtime_aware_recovery.Models.Enums.{retry, stop}
use downtime_aware_recovery.Models.Payment.{Time, DowntimeContext, minutes}
use downtime_aware_recovery.Models.Proposal.{DiagnosisProposal}
use downtime_aware_recovery.Models.Verdict.{CaseView, Verdict, is_executable}
use downtime_aware_recovery.Policy.{Rules}
use downtime_aware_recovery.Policy.Gates.{
  supported_action, terminal_class, duplicate_action, proposed_stop, confidence_floor,
}
use downtime_aware_recovery.Policy.Evaluate.{
  refusal, min_delay, max_delay, clamped_delay, candidate, defers, schedule, settle, evaluate,
}

module _ (sha256 : String → String) (p : DiagnosisProposal) (c : CaseView) (rules : Rules)
    (now : Time) (downtime : DowntimeContext) (calibrated : Option ℕ) where
  abbrev decided : Verdict
  decided = evaluate sha256 p c rules now downtime calibrated

  -- What is bound on every branch: the case, the attempt after those that were made, the version of
  -- the rules and the time. Only RETRY is ever authorized, with a time, and what is not authorized
  -- is STOP without one.
  evaluate_binds :
      let v = evaluate sha256 p c rules now downtime calibrated in
      (v.case_id ≡ c.case_id)
      × (v.attempt_no ≡ c.attempts + 1)
      × (v.rules_version ≡ rules.version)
      × (v.decided_at ≡ now)
      × (((is_executable v ≡ true)
            × (v.action ≡ retry)
            × (v.execute_at ≡ some (schedule p rules now downtime).at))
          ⊎ ((is_executable v ≡ false) × (v.action ≡ stop) × (v.execute_at ≡ none)))
  unfolding evaluate settle
  evaluate_binds = elim (Option-cases (refusal sha256 p c rules calibrated)) [
    | inl e ↦ rw e (refl, refl, refl, refl, inl (refl, refl, refl))
    | inr (r, e) ↦ rw e (refl, refl, refl, refl, inr (ground arith, refl, refl))
  ]

-- The delay of an action is at least the least delay of the rules, and at most the greatest one
-- unless an outage pushes it; a delay that the model asks for is clamped between the two. During an
-- outage of the instrument the action does not run before the candidate time, and the rule is
-- recorded as fired exactly when it moved the time.
pub schedule_bounds :
    (p : DiagnosisProposal) (rules : Rules) (now : Time) (downtime : DowntimeContext)
    → min_delay rules ≤ max_delay rules
    → let s = schedule p rules now downtime in
      let base = now + minutes (clamped_delay rules p) in
      (now + minutes (min_delay rules) ≤ s.at)
      × (base ≤ now + minutes (max_delay rules))
      × (s.at ≡ (if defers rules downtime then max base (candidate rules now downtime).0 else base))
      × ((s.fired ≡ "DOWNTIME_DEFER" ∷ []) ↔ (base < s.at))
unfolding schedule clamped_delay
schedule_bounds p rules now downtime h =
    (ground arith, ground arith, ground arith, (λ e. ground arith, λ e. ground arith))

same_refusal :
    (sha256 : String → String) (p q : DiagnosisProposal) (c : CaseView) (rules : Rules)
    (calibrated : Option ℕ)
    → p.recoverability ≡ q.recoverability
    → p.proposed_action ≡ q.proposed_action
    → or_default p.confidence calibrated ≡ or_default q.confidence calibrated
    → refusal sha256 p c rules calibrated ≡ refusal sha256 q c rules calibrated
unfolding refusal supported_action terminal_class duplicate_action proposed_stop confidence_floor
same_refusal sha256 p q c rules calibrated class action sure = simp (class, action, sure)

same_schedule :
    (p q : DiagnosisProposal) (rules : Rules) (now : Time) (downtime : DowntimeContext)
    → p.proposed_delay_minutes ≡ q.proposed_delay_minutes
    → schedule p rules now downtime ≡ schedule q rules now downtime
unfolding schedule clamped_delay
same_schedule p q rules now downtime delay = simp delay

-- The verdict depends on the proposal through its class, its action, its delay and, where no
-- calibrated confidence is given, its confidence: two proposals that agree in these get one
-- verdict, whatever else the model claims.
pub evaluate_ignores_claims :
    (sha256 : String → String) (p q : DiagnosisProposal) (c : CaseView) (rules : Rules) (now : Time)
    (downtime : DowntimeContext) (calibrated : Option ℕ)
    → p.recoverability ≡ q.recoverability
    → p.proposed_action ≡ q.proposed_action
    → p.proposed_delay_minutes ≡ q.proposed_delay_minutes
    → or_default p.confidence calibrated ≡ or_default q.confidence calibrated
    → evaluate sha256 p c rules now downtime calibrated
      ≡ evaluate sha256 q c rules now downtime calibrated
unfolding evaluate
evaluate_ignores_claims sha256 p q c rules now downtime calibrated class action delay sure = cc (
  same_refusal sha256 p q c rules calibrated class action sure,
  same_schedule p q rules now downtime delay,
)
