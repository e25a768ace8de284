-- ===== src/Pipeline/FailClosed.antt =====
-- The reasons on which agent/pipeline.py spends no attempt, whatever the model and the rules are.
use downtime_aware_recovery.Common.{
  ◌≡◌, ◌⊎◌, false, lookup, elem, none, some, refl, String, ℕ, inl, Option, inr, Bool-cases,
}
use downtime_aware_recovery.Pipeline.Stages.{
  proposal_of, clean_proposal, DiagnosisPort, unseen_proposal,
}
use downtime_aware_recovery.Triage.{clean_reasons, ambiguous_reasons, triage}
use downtime_aware_recovery.Models.Payment.{PaymentFailure, DowntimeContext, Time}
use downtime_aware_recovery.Models.Enums.{terminal, stop}
use downtime_aware_recovery.Models.Verdict.{CaseView, is_executable}
use downtime_aware_recovery.Policy.{Rules}
use downtime_aware_recovery.Triage.Classes.{triage-unlisted, triage-listed}
use downtime_aware_recovery.Policy.Evaluate.{evaluate}
use downtime_aware_recovery.Policy.Authorized.{evaluate-decides}

-- A reason that nothing lists, or one that is listed as terminal.
abbrev pub IsHopeless : String → Type 0
IsHopeless reason =
    ((lookup reason clean_reasons ≡ none) × (elem reason ambiguous_reasons ≡ false))
    ⊎ (lookup reason clean_reasons ≡ some terminal)

hopeless_stops :
    (port : DiagnosisPort) (pf : PaymentFailure) (attempts : ℕ) (downtime : DowntimeContext)
    → IsHopeless pf.error.reason
    → (proposal_of port (triage pf.error.reason) pf attempts downtime).proposed_action ≡ stop
unfolding proposal_of clean_proposal unseen_proposal
hopeless_stops port pf attempts downtime (inl (h, k)) =
    rw (triage-unlisted pf.error.reason h k) refl
hopeless_stops port pf attempts downtime (inr h) =
    rw (triage-listed pf.error.reason terminal h) refl

-- A payment that failed for a reason that is listed as terminal, or that no table lists, gets a
-- verdict that is not executable, whatever the diagnosis, the rules, the outages, the calibrated
-- confidence and the rest of the case are.
pub hopeless_never_retried :
    (sha256 : String → String) (port : DiagnosisPort) (pf : PaymentFailure) (attempts : ℕ)
    (c : CaseView) (rules : Rules) (now : Time) (downtime : DowntimeContext) (calibrated : Option ℕ)
    → IsHopeless pf.error.reason
    → is_executable (
        evaluate sha256
          (proposal_of port (triage pf.error.reason) pf attempts downtime)
          c
          rules
          now
          downtime
          calibrated)
      ≡ false
hopeless_never_retried sha256 port pf attempts c rules now downtime calibrated h =
    let p = proposal_of port (triage pf.error.reason) pf attempts downtime in
    elim (Bool-cases (is_executable (evaluate sha256 p c rules now downtime calibrated))) [
      | inl e ↦
          let permitted = ((evaluate-decides sha256 p c rules now downtime calibrated).0.0 e).0 in
          absurd (permitted.not_stop (hopeless_stops port pf attempts downtime h))
      | inr e ↦ e
    ]
