-- ===== src/Diagnosis/Ladder.antt =====
-- The fallback ladder of agent/diagnosis (claude.py, groq_diagnosis.py and prompting.py).
use Prim.Native.String.{count, ◌++◌ as join}
use downtime_aware_recovery.Common.{
  ◌≡◌, ◌≤◌, String, refl, arith, some, none, Option, inl, inr, ap, lookup, or_default, ◌∙◌,
  Bool-cases, List, [], ◌∷◌,
}
use downtime_aware_recovery.Models.Enums.{Recoverability}
use downtime_aware_recovery.Models.Proposal.{DiagnosisProposal}
use downtime_aware_recovery.Text.{has_text}
use downtime_aware_recovery.Diagnosis.Prompting.{
  note_fits, validate, Validation, accepted, rejected, evidence_fields, tier2_fallback,
  prior_proposal, tier3_fallback, noted,
}
use downtime_aware_recovery.Diagnosis.Texts.{system_prompt, repair_suffix}
use downtime_aware_recovery.Diagnosis.Models.{
  Provider, Attempt, Reply, replied, raised, answered, failed, build_prompt, diagnose, ask_in_turn,
  ask_model, fallback,
}
use downtime_aware_recovery.Triage.{clean_reasons}
use downtime_aware_recovery.Text.Strip.{count-take}
use downtime_aware_recovery.Pipeline.Stages.{DiagnosisInput}
use downtime_aware_recovery.Diagnosis.Soundness.{IsSound, validate_iff}

module _ (provider : Provider) where
  validated-IsSound :
      (v : Validation) (raw : String) (p : DiagnosisProposal)
      → validate provider.decode raw evidence_fields ≡ v
      → elim v as (λ _. Attempt) [
        | accepted q ↦ answered q
        | rejected why ↦ failed (provider.describe why)
      ]
        ≡ answered p
      → IsSound evidence_fields p
  validated-IsSound (accepted q) raw p e h =
      let same : q ≡ p = (ground arith) in
      ((validate_iff provider.decode raw evidence_fields p).0 (e ∙ ap accepted same)).1
  validated-IsSound (rejected why) raw p e h = ground arith

  reply-IsSound :
      (reply : Reply) (p : DiagnosisProposal)
      → elim reply as (λ _. Attempt) [
        | raised type text ↦ failed (join type (join ": " text))
        | replied raw ↦ elim (validate provider.decode raw evidence_fields) [
          | accepted q ↦ answered q
          | rejected why ↦ failed (provider.describe why)
        ]
      ]
        ≡ answered p
      → IsSound evidence_fields p
  reply-IsSound (raised type text) p h = ground arith
  reply-IsSound (replied raw) p h =
      validated-IsSound (validate provider.decode raw evidence_fields) raw p refl h

  ask_model-IsSound :
      (prompt : String) (p : DiagnosisProposal)
      → ask_model provider prompt ≡ answered p
      → IsSound evidence_fields p
  unfolding ask_model
  ask_model-IsSound prompt p h = reply-IsSound (provider.call system_prompt prompt) p h

module _ (inp : DiagnosisInput) where
  prior-IsSound :
      (prior : Recoverability) (e : Option String)
      → IsSound evidence_fields (prior_proposal prior e)
  unfolding prior_proposal evidence_fields note_fits
  prior-IsSound prior e = record {
    confidence_bound = omega arith;
    probability_bound = omega arith;
    short_notes = refl;
    short_rationale = count-take 280 _;
    tier_bound = omega arith;
    grounded = refl;
    no_link = λ h. ground arith;
    cited = refl;
    no_gap = refl;
    consistent = ground arith;
  }

  short_noted : (e : Option String) → count (noted "stub: unrecognised combination" e) ≤ 280
  unfolding noted
  short_noted none = omega arith
  short_noted (some e) = elim (Bool-cases (has_text e)) [
    | inl h ↦ rw h (count-take 280 _)
    | inr h ↦ rw h (omega arith)
  ]

  tier3-IsSound : (e : Option String) → IsSound evidence_fields (tier3_fallback inp e)
  unfolding tier3_fallback evidence_fields note_fits
  tier3-IsSound e = record {
    confidence_bound = omega arith;
    probability_bound = omega arith;
    short_notes = refl;
    short_rationale = short_noted e;
    tier_bound = omega arith;
    grounded = refl;
    no_link = λ h. ground arith;
    cited = refl;
    no_gap = refl;
    consistent = refl;
  }

  listed-IsSound :
      (listed : Option Recoverability) (e : Option String)
      → IsSound evidence_fields (
          or_default (tier3_fallback inp e) (elim listed as (λ _. Option DiagnosisProposal) [
            | none ↦ none
            | some prior ↦ some (prior_proposal prior e)
          ]))
  listed-IsSound none e = tier3-IsSound e
  listed-IsSound (some prior) e = prior-IsSound prior e

  fallback-IsSound : (e : Option String) → IsSound evidence_fields (fallback inp e)
  unfolding fallback tier2_fallback
  fallback-IsSound e = listed-IsSound (lookup inp.error.reason clean_reasons) e

  module _ (provider : Provider) where
    round-IsSound :
        (prompt : String) (a : Attempt) (rest : String → DiagnosisProposal)
        → ask_model provider prompt ≡ a
        → ((e : String) → IsSound evidence_fields (rest e))
        → IsSound evidence_fields
            (elim a as (λ _. DiagnosisProposal) [ answered p ↦ p | failed e ↦ rest e ])
    round-IsSound prompt (answered p) rest h k = ask_model-IsSound provider prompt p h
    round-IsSound prompt (failed e) rest h k = k e

    ask_in_turn-IsSound :
        (prompts : List String) (e : Option String)
        → IsSound evidence_fields (ask_in_turn provider inp prompts e)
    unfolding ask_in_turn
    ask_in_turn-IsSound [] e = fallback-IsSound e
    ask_in_turn-IsSound (prompt ∷ rest) e =
        round-IsSound prompt (ask_model provider prompt)
          (λ e'. ask_in_turn provider inp rest (some e')) refl
          λ e'. ask_in_turn-IsSound rest (some e')

-- Whatever a model replies or raises, and whatever the replies decode to, what `diagnose` returns
-- keeps the bounds and the rules of the prompt: it proposes RETRY or STOP, cites input fields alone,
-- is not confident without evidence, is not near-certain where information is missing, and does not
-- propose RETRY for a terminal class.
pub diagnose-IsSound :
    (provider : Provider) (inp : DiagnosisInput) → IsSound evidence_fields (diagnose provider inp)
unfolding diagnose
diagnose-IsSound provider inp =
    let prompt = build_prompt provider inp in
    ask_in_turn-IsSound inp provider (prompt ∷ join prompt repair_suffix ∷ []) none
