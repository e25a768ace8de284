-- ===== src/Diagnosis/Soundness.antt =====
-- What a diagnosis may be: the rules of agent/diagnosis/prompting.py as a predicate, which replies
-- `validate` lets through, and what `diagnose` returns.
use Prim.Native.String.{count}
use downtime_aware_recovery.Common.{
  ◌≡◌, ◌≢◌, ◌≤◌, ◌↔◌, String, Bool, true, ◌&&◌, ◌||◌, not, ltb, leb, all, elem, is_empty, refl,
  arith, some, none, Option, ap, sym, subst, List, [], ◌∷◌,
}
use downtime_aware_recovery.Models.Enums.{
  recovery_link, retry, is_terminal_class, same_action, stop,
}
use downtime_aware_recovery.Models.Proposal.{DiagnosisProposal}
use downtime_aware_recovery.Diagnosis.Fence.{strip_code_fence}
use downtime_aware_recovery.Diagnosis.Prompting.{
  note_fits, check, validate, Validation, undecodable, accepted, rejected, unresolvable, in_bounds,
  is_supported,
}

-- A proposal that keeps its bounds and the rules of the system prompt.
pub record IsSound (fields : List String) (p : DiagnosisProposal) : Type 0 where
  pub confidence_bound : p.confidence ≤ 1000000
  pub probability_bound : p.expected_outcome.probability_of_success ≤ 1000000
  pub short_notes : all note_fits p.risks ≡ true
  pub short_rationale : count p.rationale ≤ 280
  pub tier_bound : p.fallback_tier ≤ 3
  pub grounded : all (λ e. elem e fields) p.evidence ≡ true
  pub no_link : p.proposed_action ≢ recovery_link
  pub cited : (ltb p.confidence 700000 || not (is_empty p.evidence)) ≡ true
  pub no_gap : (ltb p.confidence 850000 || is_empty p.missing_information) ≡ true
  pub consistent :
      (not (is_terminal_class p.recoverability) || same_action p.proposed_action stop) ≡ true

unresolvable-all :
    (fields es : List String) → is_empty (unresolvable fields es) ≡ all (λ e. elem e fields) es
unfolding unresolvable
unresolvable-all fields [] = refl
unresolvable-all fields (e ∷ es) = grind (arith, unresolvable-all fields es)

-- All the tests of `check` at once.
abbrev passes : List String → DiagnosisProposal → Bool
passes fields p =
    in_bounds p
    && is_empty (unresolvable fields p.evidence)
    && is_supported p.proposed_action
    && not (leb 700000 p.confidence && is_empty p.evidence)
    && not (leb 850000 p.confidence && not (is_empty p.missing_information))
    && not (is_terminal_class p.recoverability && same_action p.proposed_action retry)

check-passes :
    (fields : List String) (p q : DiagnosisProposal)
    → (check fields p ≡ accepted q) ↔ ((passes fields p ≡ true) × (p ≡ q))
unfolding check
check-passes fields p q = ground arith

passes-IsSound :
    (fields : List String) (p : DiagnosisProposal) → passes fields p ≡ true → IsSound fields p
unfolding in_bounds
passes-IsSound fields p h = record {
  confidence_bound = ground arith;
  probability_bound = ground arith;
  short_notes = ground arith;
  short_rationale = ground arith;
  tier_bound = ground arith;
  grounded = rw (← unresolvable-all fields p.evidence) (ground arith);
  no_link = λ e. ground arith;
  cited = ground arith;
  no_gap = ground arith;
  consistent = ground arith;
}

IsSound-passes :
    (fields : List String) (p : DiagnosisProposal) → IsSound fields p → passes fields p ≡ true
unfolding in_bounds
IsSound-passes fields p s =
    let a = s.confidence_bound in
    let b = s.probability_bound in
    let c = s.short_notes in
    let d = s.short_rationale in
    let e = s.tier_bound in
    let f = s.grounded in
    let g = s.no_link in
    let i = s.cited in
    let j = s.no_gap in
    let k = s.consistent in rw (unresolvable-all fields p.evidence, f) (ground arith)

module _ (fields : List String) (p : DiagnosisProposal) where
  check_iff : (q : DiagnosisProposal) → (check fields q ≡ accepted p) ↔ ((q ≡ p) × IsSound fields p)
  check_iff q = (
    λ h.
        let both = (check-passes fields q p).0 h in
        (both.1, subst (IsSound fields) both.1 (passes-IsSound fields q both.0)),
    λ (same, sound).
        (check-passes fields q p).1
          (IsSound-passes fields q (subst (IsSound fields) (sym same) sound), same),
  )

  decoded_iff :
      (decoded : Option DiagnosisProposal)
      → (elim decoded as (λ _. Validation) [ none ↦ rejected undecodable | some q ↦ check fields q ]
          ≡ accepted p)
        ↔ ((decoded ≡ some p) × IsSound fields p)
  decoded_iff none = ground arith
  decoded_iff (some q) =
      let c = check_iff q in
      (λ h. (ap some (c.0 h).0, (c.0 h).1), λ (e, sound). c.1 (ground arith, sound))

-- `validate` accepts a reply as a proposal exactly if the text between its code fences decodes to the
-- proposal, and the proposal keeps the bounds and the rules of the prompt.
pub validate_iff :
    (decode : String → Option DiagnosisProposal) (raw : String) (fields : List String)
    (p : DiagnosisProposal)
    → (validate decode raw fields ≡ accepted p)
      ↔ ((decode (strip_code_fence raw) ≡ some p) × IsSound fields p)
unfolding validate
validate_iff decode raw fields p = decoded_iff fields p (decode (strip_code_fence raw))
