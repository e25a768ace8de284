-- ===== src/State/Graph.antt =====
-- The transition diagram of a case (agent/state.py) as a relation, with what it reaches.
use downtime_aware_recovery.Common.{◌≡◌, ◌↔◌, Bool-cases, inl, inr, refl, true, false, arith}
use downtime_aware_recovery.Models.Enums.{CaseState, abandoned}
use downtime_aware_recovery.State.{is_terminal, is_allowed}

infix 40 ◌⟶*◌
-- Chains of permitted transitions.
pub data ◌⟶*◌ : CaseState → CaseState → Type 0 where
  here : {s : CaseState} → s ⟶* s
  next : {s t u : CaseState} → is_allowed s t ≡ true → t ⟶* u → s ⟶* u

terminal-blocks : (s t : CaseState) → is_terminal s ≡ true → is_allowed s t ≡ false
unfolding is_terminal is_allowed
terminal-blocks s t h = ground arith

live-abandoned : (s : CaseState) → is_terminal s ≡ false → is_allowed s abandoned ≡ true
unfolding is_terminal is_allowed
live-abandoned s h = ground arith

-- A state is terminal exactly when no transition out of it is permitted, and from every other state
-- the case may be abandoned at once.
pub terminal_or_abandonable :
    (s : CaseState)
    → ((is_terminal s ≡ true) ↔ ((t : CaseState) → is_allowed s t ≡ false))
      × ((is_terminal s ≡ false) ↔ (is_allowed s abandoned ≡ true))
terminal_or_abandonable s = elim (Bool-cases (is_terminal s)) [
  | inl e ↦ (
    (λ _. λ t. terminal-blocks s t e, λ _. e),
    (λ h. cc, λ h. cc (terminal-blocks s abandoned e)),
  )
  | inr e ↦
      ((λ h. cc, λ h. cc (live-abandoned s e, h abandoned)), (λ _. live-abandoned s e, λ _. e))
]

-- Nothing leaves a terminal state: what is reached from one is that state.
terminal_absorbs : {s t : CaseState} → is_terminal s ≡ true → s ⟶* t → t ≡ s
terminal_absorbs h here = refl
terminal_absorbs {s} h (next {t = u} a r) = cc (terminal-blocks s u h)

pub ⟶*-trans : {s t u : CaseState} → s ⟶* t → t ⟶* u → s ⟶* u
⟶*-trans here q = q
⟶*-trans (next a p) q = next a (⟶*-trans p q)
