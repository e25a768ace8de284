-- ===== src/Policy/Authorized.antt =====
-- When `evaluate` (agent/policy/engine.py) authorizes an action, against a description by conditions
-- that knows nothing of the order of the gates.
use downtime_aware_recovery.Common.{
  ℕ, ◌+◌, ◌*◌, ◌≤◌, ◌<◌, String, ◌≡◌, ◌≢◌, ◌↔◌, ◌⊎◌, inl, inr, refl, sym, ◌∙◌, true, false, Option,
  none, some, List, [], ◌∷◌, arith, elem, or_default, is_empty, Option-cases,
}
use downtime_aware_recovery.Models.Enums.{
  treated, stop, allow, deny, review, state_value, action_value, class_value,
}
use downtime_aware_recovery.Models.Payment.{Time, DowntimeContext}
use downtime_aware_recovery.Models.Proposal.{DiagnosisProposal}
use downtime_aware_recovery.Models.Verdict.{CaseView, is_executable, idempotency_key}
use downtime_aware_recovery.Policy.{Rules, enabled}
use downtime_aware_recovery.Policy.Gates.{
  Refusal, actionable, required_state, supported_actions, supported_action, kill_switch_gate,
  holdout_guard, denied_classes, terminal_class, cap_for, attempt_cap, duplicate_action,
  proposed_stop, action_cost, assumed_rate, ev_floor, confidence_min, confidence_floor,
}
use downtime_aware_recovery.Policy.Evaluate.{refusal, settle, evaluate}

module _ (sha256 : String → String) (p : DiagnosisProposal) (c : CaseView) (rules : Rules)
    (calibrated : Option ℕ) where
  -- Everything that policy asks for but confidence.
  pub record Permitted : Type 0 where
    pub state_actionable :
        enabled rules "REQUIRED_STATE" ≡ true → elem (state_value c.state) (actionable rules) ≡ true
    pub action_supported :
        enabled rules "SUPPORTED_ACTION" ≡ true
        → elem (action_value p.proposed_action) (supported_actions rules) ≡ true
    pub not_halted : rules.kill_switch ≡ false
    pub in_treatment : c.cohort ≡ treated
    pub class_recoverable :
        enabled rules "TERMINAL_CLASS" ≡ true
        → elem (class_value p.recoverability) (denied_classes rules) ≡ false
    pub within_cap : enabled rules "ATTEMPT_CAP" ≡ true → c.attempts < cap_for rules c
    pub not_executed :
        enabled rules "DUPLICATE_ACTION" ≡ true
        → elem
            (idempotency_key sha256 c.case_id p.proposed_action (c.attempts + 1))
            c.executed_action_keys
          ≡ false
    pub not_stop : p.proposed_action ≢ stop
    pub worth_it :
        enabled rules "EV_FLOOR" ≡ true
        → action_cost rules * 1000000 < assumed_rate rules * c.amount_paise

  abbrev pub IsConfident : Type 0
  IsConfident =
      enabled rules "CONFIDENCE_FLOOR" ≡ true
      → confidence_min rules ≤ or_default p.confidence calibrated

  required_state-none : (required_state rules c ≡ none) ↔ (
      enabled rules "REQUIRED_STATE" ≡ true → elem (state_value c.state) (actionable rules) ≡ true)
  unfolding required_state
  required_state-none = (λ h. λ e. ground arith, λ h. ground arith)

  supported_action-none : (supported_action rules p ≡ none) ↔ (
      enabled rules "SUPPORTED_ACTION" ≡ true
      → elem (action_value p.proposed_action) (supported_actions rules) ≡ true)
  unfolding supported_action
  supported_action-none = (λ h. λ e. ground arith, λ h. ground arith)

  kill_switch_gate-none : (kill_switch_gate rules ≡ none) ↔ (rules.kill_switch ≡ false)
  unfolding kill_switch_gate
  kill_switch_gate-none = (λ h. ground arith, λ h. ground arith)

  holdout_guard-none : (holdout_guard c ≡ none) ↔ (c.cohort ≡ treated)
  unfolding holdout_guard
  holdout_guard-none = (λ h. ground arith, λ h. ground arith)

  terminal_class-none : (terminal_class rules p ≡ none) ↔ (
      enabled rules "TERMINAL_CLASS" ≡ true
      → elem (class_value p.recoverability) (denied_classes rules) ≡ false)
  unfolding terminal_class
  terminal_class-none = (λ h. λ e. ground arith, λ h. ground arith)

  attempt_cap-none :
      (attempt_cap rules c ≡ none)
      ↔ (enabled rules "ATTEMPT_CAP" ≡ true → c.attempts < cap_for rules c)
  unfolding attempt_cap
  attempt_cap-none = (λ h. λ e. ground arith, λ h. ground arith)

  empty_keys : (k : String) (ks : List String) → is_empty ks ≡ true → elem k ks ≡ false
  empty_keys k [] h = refl
  empty_keys k (x ∷ ks) h = cc

  duplicate_action-none : (duplicate_action sha256 rules p c ≡ none) ↔ (
      enabled rules "DUPLICATE_ACTION" ≡ true
      → elem
          (idempotency_key sha256 c.case_id p.proposed_action (c.attempts + 1))
          c.executed_action_keys
        ≡ false)
  unfolding duplicate_action
  duplicate_action-none =
      let k = idempotency_key sha256 c.case_id p.proposed_action (c.attempts + 1) in
      (
        λ h. λ e. ground (arith, empty_keys k c.executed_action_keys),
        λ h. ground (arith, empty_keys k c.executed_action_keys),
      )

  proposed_stop-none : (proposed_stop p ≡ none) ↔ (p.proposed_action ≢ stop)
  unfolding proposed_stop
  proposed_stop-none = (λ h. λ e. ground arith, λ h. ground arith)

  ev_floor-none : (ev_floor rules c ≡ none) ↔ (
      enabled rules "EV_FLOOR" ≡ true
      → action_cost rules * 1000000 < assumed_rate rules * c.amount_paise)
  unfolding ev_floor
  ev_floor-none = (λ h. λ e. ground arith, λ h. ground arith)

  confidence_floor-none : (confidence_floor rules p calibrated ≡ none) ↔ IsConfident
  unfolding confidence_floor
  confidence_floor-none = (λ h. λ e. ground arith, λ h. ground arith)

  -- Every gate but the last lets the case pass.
  record Open : Type 0 where
    g1 : required_state rules c ≡ none
    g2 : supported_action rules p ≡ none
    g3 : kill_switch_gate rules ≡ none
    g4 : holdout_guard c ≡ none
    g5 : terminal_class rules p ≡ none
    g6 : attempt_cap rules c ≡ none
    g7 : duplicate_action sha256 rules p c ≡ none
    g8 : proposed_stop p ≡ none
    g9 : ev_floor rules c ≡ none

  Open-Permitted : Open → Permitted
  Open-Permitted o = record {
    state_actionable = required_state-none.0 o.g1;
    action_supported = supported_action-none.0 o.g2;
    not_halted = kill_switch_gate-none.0 o.g3;
    in_treatment = holdout_guard-none.0 o.g4;
    class_recoverable = terminal_class-none.0 o.g5;
    within_cap = attempt_cap-none.0 o.g6;
    not_executed = duplicate_action-none.0 o.g7;
    not_stop = proposed_stop-none.0 o.g8;
    worth_it = ev_floor-none.0 o.g9;
  }

  Permitted-Open : Permitted → Open
  Permitted-Open h = record {
    g1 = required_state-none.1 h.state_actionable;
    g2 = supported_action-none.1 h.action_supported;
    g3 = kill_switch_gate-none.1 h.not_halted;
    g4 = holdout_guard-none.1 h.in_treatment;
    g5 = terminal_class-none.1 h.class_recoverable;
    g6 = attempt_cap-none.1 h.within_cap;
    g7 = duplicate_action-none.1 h.not_executed;
    g8 = proposed_stop-none.1 h.not_stop;
    g9 = ev_floor-none.1 h.worth_it;
  }

  refusal-none :
      refusal sha256 p c rules calibrated ≡ none
      → Open × (confidence_floor rules p calibrated ≡ none)
  unfolding refusal
  refusal-none h = ground arith

  refusal_of_Open : Open → refusal sha256 p c rules calibrated ≡ confidence_floor rules p calibrated
  unfolding refusal
  refusal_of_Open o = ground arith

  -- No gate but the last asks for a review.
  hard_gates_deny :
      (r : Refusal)
      → (required_state rules c ≡ some r)
        ⊎ (supported_action rules p ≡ some r)
        ⊎ (kill_switch_gate rules ≡ some r)
        ⊎ (holdout_guard c ≡ some r)
        ⊎ (terminal_class rules p ≡ some r)
        ⊎ (attempt_cap rules c ≡ some r)
        ⊎ (duplicate_action sha256 rules p c ≡ some r)
        ⊎ (proposed_stop p ≡ some r)
        ⊎ (ev_floor rules c ≡ some r)
      → r.decision ≡ deny
  unfolding required_state supported_action kill_switch_gate holdout_guard terminal_class
      attempt_cap duplicate_action proposed_stop ev_floor
  hard_gates_deny r (inl h) = ground arith
  hard_gates_deny r (inr (inl h)) = ground arith
  hard_gates_deny r (inr (inr (inl h))) = ground arith
  hard_gates_deny r (inr (inr (inr (inl h)))) = ground arith
  hard_gates_deny r (inr (inr (inr (inr (inl h))))) = ground arith
  hard_gates_deny r (inr (inr (inr (inr (inr (inl h)))))) = ground arith
  hard_gates_deny r (inr (inr (inr (inr (inr (inr (inl h))))))) = ground arith
  hard_gates_deny r (inr (inr (inr (inr (inr (inr (inr (inl h)))))))) = ground arith
  hard_gates_deny r (inr (inr (inr (inr (inr (inr (inr (inr h)))))))) = ground arith

  -- A refusal is a denial, or every gate but the last is open and the last one refuses.
  refusal_cases :
      (r : Refusal)
      → refusal sha256 p c rules calibrated ≡ some r
      → (r.decision ≡ deny) ⊎ (Open × (confidence_floor rules p calibrated ≡ some r))
  unfolding refusal
  refusal_cases r h = ground (arith, hard_gates_deny r)

  confidence_floor-review :
      (r : Refusal) → confidence_floor rules p calibrated ≡ some r → r.decision ≡ review
  unfolding confidence_floor
  confidence_floor-review r h = ground arith

module _ (sha256 : String → String) (p : DiagnosisProposal) (c : CaseView) (rules : Rules)
    (now : Time) (downtime : DowntimeContext) (calibrated : Option ℕ) where
  evaluate-of_none :
      refusal sha256 p c rules calibrated ≡ none
      → let v = evaluate sha256 p c rules now downtime calibrated in
        (is_executable v ≡ true) × (v.decision ≡ allow)
  unfolding evaluate settle
  evaluate-of_none h = rw h (refl, refl)

  evaluate-of_some :
      (r : Refusal)
      → refusal sha256 p c rules calibrated ≡ some r
      → let v = evaluate sha256 p c rules now downtime calibrated in
        (is_executable v ≡ false) × (v.decision ≡ r.decision)
  unfolding evaluate settle
  evaluate-of_some r h = ground arith

  denial-blocks :
      (r : Refusal)
      → refusal sha256 p c rules calibrated ≡ some r
      → r.decision ≡ deny
      → ¬ Permitted sha256 p c rules calibrated
  denial-blocks r e d h =
      let open_gates =
        refusal_of_Open sha256 p c rules calibrated
          (Permitted-Open sha256 p c rules calibrated h) in
      cc (d, confidence_floor-review sha256 p c rules calibrated r (sym open_gates ∙ e))

  -- `evaluate` authorizes an action exactly if every condition of policy holds and the confidence
  -- reaches the floor. It asks for a human exactly if every other condition holds and the confidence
  -- does not, so that a denial goes before a review. In every other case it denies.
  pub evaluate-decides :
      let v = evaluate sha256 p c rules now downtime calibrated in
      ((is_executable v ≡ true)
        ↔ (Permitted sha256 p c rules calibrated × IsConfident sha256 p c rules calibrated))
      × ((v.decision ≡ review)
          ↔ (Permitted sha256 p c rules calibrated × (¬ IsConfident sha256 p c rules calibrated)))
      × ((v.decision ≡ deny) ↔ (¬ Permitted sha256 p c rules calibrated))
  evaluate-decides = elim (Option-cases (refusal sha256 p c rules calibrated)) [
    | inl e ↦
        let (o, sure) = refusal-none sha256 p c rules calibrated e in
        let permitted = Open-Permitted sha256 p c rules calibrated o in
        let confident = (confidence_floor-none sha256 p c rules calibrated).0 sure in
        let (x, d) = evaluate-of_none e in
        (
          (λ _. (permitted, confident), λ _. x),
          (λ h. cc, λ h. absurd (h.1 confident)),
          (λ h. cc, λ h. absurd (h permitted)),
        )
    | inr (r, e) ↦
        let (x, d) = evaluate-of_some r e in
        elim (refusal_cases sha256 p c rules calibrated r e) [
          | inl denial ↦
              let blocked = denial-blocks r e denial in
              (
                (λ h. cc, λ h. absurd (blocked h.0)),
                (λ h. cc, λ h. absurd (blocked h.0)),
                (λ _. blocked, λ _. d ∙ denial),
              )
          | inr (o, unsure) ↦
              let permitted = Open-Permitted sha256 p c rules calibrated o in
              let reviewed = confidence_floor-review sha256 p c rules calibrated r unsure in
              let doubtful : ¬ IsConfident sha256 p c rules calibrated =
                λ sure. cc ((confidence_floor-none sha256 p c rules calibrated).1 sure) in
              (
                (λ h. cc, λ h. absurd (doubtful h.1)),
                (λ _. (permitted, doubtful), λ _. d ∙ reviewed),
                (λ h. cc, λ h. absurd (h permitted)),
              )
        ]
  ]
