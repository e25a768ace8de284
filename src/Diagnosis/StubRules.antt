-- ===== src/Diagnosis/StubRules.antt =====
-- What the proposals of the deterministic ports (agent/diagnosis/stub.py and baseline.py) have in
-- common.
use downtime_aware_recovery.Common.{
  ◌≡◌, nat_eq, refl, Bool, true, false, arith, if◌then◌else◌, lookup, some, none, Option, ◌==◌, ltb,
  ◌&&◌,
}
use downtime_aware_recovery.Models.Enums.{Recoverability}
use downtime_aware_recovery.Models.Proposal.{DiagnosisProposal}
use downtime_aware_recovery.Pipeline.Stages.{DiagnosisInput}
use downtime_aware_recovery.Diagnosis.Stub.{
  stub_diagnosis, stub_listed, stub_outage, stub_recurring, stub_high_amount, stub_interactive,
  is_hopeless_class, is_stop, unlisted_diagnosis, is_card,
}
use downtime_aware_recovery.Diagnosis.Prompting.{in_bounds, note_fits}
use downtime_aware_recovery.Triage.{clean_reasons}

-- STOP goes with the classes that no retry can help and with no chance of success, and the chance is
-- to be observable after the delay.
pub record IsConsistent (p : DiagnosisProposal) : Type 0 where
  pub bounded : in_bounds p ≡ true
  pub stops : is_stop p.proposed_action ≡ is_hopeless_class p.recoverability
  pub chance : is_stop p.proposed_action ≡ nat_eq p.expected_outcome.probability_of_success 0
  pub horizon : p.proposed_delay_minutes ≡ some p.expected_outcome.horizon_minutes

module _ (inp : DiagnosisInput) where
  listed-IsConsistent : (guess : Recoverability) → IsConsistent (stub_listed inp guess)
  unfolding stub_listed in_bounds note_fits
  listed-IsConsistent guess = record {
    bounded = ground arith;
    stops = ground arith;
    chance = ground arith;
    horizon = refl;
  }

  outage-IsConsistent : IsConsistent (stub_outage inp)
  unfolding stub_outage in_bounds note_fits
  outage-IsConsistent = record { bounded = refl; stops = refl; chance = refl; horizon = refl }

  either-IsConsistent :
      (b : Bool) {p q : DiagnosisProposal}
      → IsConsistent p
      → IsConsistent q
      → IsConsistent (if b then p else q)
  either-IsConsistent true c d = c
  either-IsConsistent false c d = d

  recurring-IsConsistent : IsConsistent (stub_recurring inp)
  unfolding stub_recurring in_bounds
  recurring-IsConsistent =
      either-IsConsistent (is_card inp.method)
        (record { bounded = refl; stops = refl; chance = refl; horizon = refl })
        (record { bounded = refl; stops = refl; chance = refl; horizon = refl })

  high_amount-IsConsistent : IsConsistent (stub_high_amount inp)
  unfolding stub_high_amount in_bounds
  high_amount-IsConsistent = record { bounded = refl; stops = refl; chance = refl; horizon = refl }

  interactive-IsConsistent : IsConsistent (stub_interactive inp)
  unfolding stub_interactive in_bounds
  interactive-IsConsistent =
      either-IsConsistent (inp.error.reason == "authentication_failed")
        (record { bounded = refl; stops = refl; chance = refl; horizon = refl })
        (either-IsConsistent (inp.error.reason == "collect_request_expired")
          (record { bounded = refl; stops = refl; chance = refl; horizon = refl })
          (record { bounded = refl; stops = refl; chance = refl; horizon = refl }))

  unlisted-IsConsistent : IsConsistent (unlisted_diagnosis inp)
  unlisted-IsConsistent = either-IsConsistent inp.downtime.active outage-IsConsistent (
      either-IsConsistent inp.is_recurring recurring-IsConsistent (
        either-IsConsistent
          (ltb 1000000 inp.amount_paise && inp.error.reason == "transaction_limit_exceeded")
          high_amount-IsConsistent interactive-IsConsistent))

  found-IsConsistent :
      (listed : Option Recoverability)
      → IsConsistent (elim listed as (λ _. DiagnosisProposal) [
        | some guess ↦ stub_listed inp guess
        | none ↦ unlisted_diagnosis inp
      ])
  found-IsConsistent (some guess) = listed-IsConsistent guess
  found-IsConsistent none = unlisted-IsConsistent

-- Every proposal of the stub is in bounds, says STOP exactly for the classes TERMINAL and
-- INSTRUMENT_INVALID and exactly if it sees no chance of success, and expects the outcome after the
-- delay that it proposes.
pub stub-IsConsistent : (inp : DiagnosisInput) → IsConsistent (stub_diagnosis inp)
unfolding stub_diagnosis
stub-IsConsistent inp = found-IsConsistent inp (lookup inp.error.reason clean_reasons)
