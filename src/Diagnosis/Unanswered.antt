-- ===== src/Diagnosis/Unanswered.antt =====
-- What agent/pipeline.py does when no reply of a model (agent/diagnosis) is accepted.
use Prim.Native.String.{◌++◌ as join}
use downtime_aware_recovery.Common.{
  ◌≡◌, ◌∙◌, ap, List, or_default, refl, true, false, String, ℕ, Option, none, some, lookup,
  Bool-cases, inl, inr, arith, ◌∷◌, [],
}
use downtime_aware_recovery.Triage.{triage, clean_reasons}
use downtime_aware_recovery.Models.Payment.{PaymentFailure, DowntimeContext, Time}
use downtime_aware_recovery.Models.Verdict.{CaseView, is_executable}
use downtime_aware_recovery.Models.Enums.{stop}
use downtime_aware_recovery.Policy.{Rules}
use downtime_aware_recovery.Policy.Evaluate.{evaluate}
use downtime_aware_recovery.Policy.Authorized.{evaluate-decides}
use downtime_aware_recovery.Pipeline.Stages.{proposal_of, input_of, DiagnosisInput}
use downtime_aware_recovery.Models.Proposal.{DiagnosisProposal}
use downtime_aware_recovery.Diagnosis.Prompting.{prior_proposal, tier2_fallback, tier3_fallback}
use downtime_aware_recovery.Diagnosis.Texts.{repair_suffix}
use downtime_aware_recovery.Diagnosis.Models.{
  Provider, answered, failed, ask_model, ask_in_turn, diagnose, fallback, build_prompt,
}

ambiguous_unlisted :
    (reason : String) → (triage reason).is_ambiguous ≡ true → lookup reason clean_reasons ≡ none
unfolding triage
ambiguous_unlisted reason h = ground arith

-- For a reason that triage calls ambiguous, which is the only kind on which the pipeline asks for a
-- diagnosis, the ladder ends in tier 3: the taxonomy has no prior for the reason.
pub ambiguous-fallback :
    (inp : DiagnosisInput) (e : Option String)
    → (triage inp.error.reason).is_ambiguous ≡ true
    → fallback inp e ≡ tier3_fallback inp e
unfolding fallback tier2_fallback
ambiguous-fallback inp e h =
    ap
      (λ listed. or_default (tier3_fallback inp e) (elim listed as (λ _. Option DiagnosisProposal) [
        | none ↦ none
        | some prior ↦ some (prior_proposal prior e)
      ]))
      (ambiguous_unlisted inp.error.reason h)

module _ (provider : Provider) (inp : DiagnosisInput) where
  ask_in_turn-failed :
      (prompt : String) (rest : List String) (l : Option String) (e : String)
      → ask_model provider prompt ≡ failed e
      → ask_in_turn provider inp (prompt ∷ rest) l ≡ ask_in_turn provider inp rest (some e)
  unfolding ask_in_turn
  ask_in_turn-failed prompt rest l e h =
      ap
        (λ a. elim a as (λ _. DiagnosisProposal) [
          | answered p ↦ p
          | failed x ↦ ask_in_turn provider inp rest (some x)
        ])
        h

  diagnose-fallback :
      (e₁ e₂ : String)
      → ask_model provider (build_prompt provider inp) ≡ failed e₁
      → ask_model provider (join (build_prompt provider inp) repair_suffix) ≡ failed e₂
      → diagnose provider inp ≡ fallback inp (some e₂)
  unfolding diagnose
  diagnose-fallback e₁ e₂ h₁ h₂ =
      let prompt = build_prompt provider inp in
      let repair = join prompt repair_suffix in
      ask_in_turn-failed prompt (repair ∷ []) none e₁ h₁
      ∙ ask_in_turn-failed repair [] (some e₁) e₂ h₂
      ∙ unfold ask_in_turn in refl

  diagnose-stops :
      (e₁ e₂ : String)
      → (triage inp.error.reason).is_ambiguous ≡ true
      → ask_model provider (build_prompt provider inp) ≡ failed e₁
      → ask_model provider (join (build_prompt provider inp) repair_suffix) ≡ failed e₂
      → (diagnose provider inp).proposed_action ≡ stop
  unfolding tier3_fallback
  diagnose-stops e₁ e₂ a h₁ h₂ =
      ap (λ p. p.proposed_action)
        (diagnose-fallback e₁ e₂ h₁ h₂ ∙ ambiguous-fallback inp (some e₂) a)

-- If a payment failed for a reason that triage calls ambiguous, and neither the first reply of the
-- model nor the one to the repair prompt is accepted, then the verdict on what `diagnose` returns is
-- not executable, whatever the rules, the outages, the calibrated confidence and the rest of the case
-- are.
pub unanswered_never_retried :
    (provider : Provider) (pf : PaymentFailure) (attempts : ℕ) (downtime : DowntimeContext)
    (e₁ e₂ : String)
    → (triage pf.error.reason).is_ambiguous ≡ true
    → ask_model provider (build_prompt provider (input_of pf attempts downtime)) ≡ failed e₁
    → ask_model provider
        (join (build_prompt provider (input_of pf attempts downtime)) repair_suffix)
      ≡ failed e₂
    → (sha256 : String → String) (c : CaseView) (rules : Rules) (now : Time) (calibrated : Option ℕ)
    → is_executable (
        evaluate sha256
          (proposal_of (diagnose provider) (triage pf.error.reason) pf attempts downtime)
          c
          rules
          now
          downtime
          calibrated)
      ≡ false
unanswered_never_retried provider pf attempts downtime e₁ e₂ a h₁ h₂ sha256 c rules now calibrated =
    let p = proposal_of (diagnose provider) (triage pf.error.reason) pf attempts downtime in
    elim (Bool-cases (is_executable (evaluate sha256 p c rules now downtime calibrated))) [
      | inl e ↦
          let permitted = ((evaluate-decides sha256 p c rules now downtime calibrated).0.0 e).0 in
          absurd (
            permitted.not_stop (
              unfold proposal_of in
              rw a (
                diagnose-stops provider (input_of pf attempts downtime) e₁ e₂ (unfold input_of in a)
                  h₁ h₂)))
      | inr e ↦ e
    ]
