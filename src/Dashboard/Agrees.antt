-- ===== src/Dashboard/Agrees.antt =====
-- The detail of a case in agent/dashboard.py agrees with what the pipeline logged of it.
use downtime_aware_recovery.Common.{
  ◌∷◌, [], none, some, String, Bool, Option, List, ◌==◌, ◌≡◌, refl, ◌+◌, false, ◌||◌, ◌&&◌, not,
  ◌∙◌, ap, ◌*◌,
}
use downtime_aware_recovery.Models.Enums.{
  Decision, Action, decision_value, action_value, is_allow, same_action, stop, retry, recovery_link,
  deny, allow, review, state_value,
}
use downtime_aware_recovery.Logger.{
  Redactor, is_sensitive, redact_string, sensitive_keys, sanitize_data, sensitive_stems,
}
use downtime_aware_recovery.Dashboard.Phases.{
  shows_executable, percent_or_null, payload_for, phase_policy, phase_diagnosis, phase_outcome,
  phase_context, phase_audit, empty_object,
}
use downtime_aware_recovery.Models.Verdict.{Verdict, dump_verdict, is_executable}
use downtime_aware_recovery.Text.{lower, translate, contains}
use downtime_aware_recovery.Logger.Open.{get-sanitize, value_at}
use downtime_aware_recovery.Models.Json.{str, Json, get, real, bool, int}
use downtime_aware_recovery.Models.Proposal.{dump_proposal, DiagnosisProposal}
use downtime_aware_recovery.Dashboard.Transactions.{percent, get_null, last_scheduled}
use downtime_aware_recovery.Dashboard.Detail.{
  expected_success, detail_dict, get_transaction_detail, phases_of,
}
use downtime_aware_recovery.Store.Exec.{ok, or_raise, lift}
use downtime_aware_recovery.Dashboard.{rounded}
use downtime_aware_recovery.Store.{CaseRow, Env, EventRow, World, ActionRow, Columns}
use downtime_aware_recovery.Metrics.{says, last_event}
use downtime_aware_recovery.Audit.Replay.{is_text}
use downtime_aware_recovery.Store.Cases.{find_case}
use downtime_aware_recovery.Audit.{verify_chain}

-- The regular expressions find no secret in the names of decisions and actions.
pub record IsPlain (r : Redactor) : Type 0 where
  pub decisions : (d : Decision) → redact_string r (decision_value d) ≡ decision_value d
  pub actions : (a : Action) → redact_string r (action_value a) ≡ action_value a

-- The keys that are read are not sensitive.
decision-open : is_sensitive "decision" ≡ false
unfolding is_sensitive sensitive_keys lower translate sensitive_stems contains
decision-open = refl

action-open : is_sensitive "action" ≡ false
unfolding is_sensitive sensitive_keys lower translate sensitive_stems contains
action-open = refl

confidence-open : is_sensitive "confidence" ≡ false
unfolding is_sensitive sensitive_keys lower translate sensitive_stems contains
confidence-open = refl

expected_outcome-open : is_sensitive "expected_outcome" ≡ false
unfolding is_sensitive sensitive_keys lower translate sensitive_stems contains
expected_outcome-open = refl

probability_of_success-open : is_sensitive "probability_of_success" ≡ false
unfolding is_sensitive sensitive_keys lower translate sensitive_stems contains
probability_of_success-open = refl

says-some : (k t : String) (j v : Json) → get k j ≡ some v → says k t j ≡ is_text t v
says-some k t j v h = ap (λ o. elim o as (λ _. Bool) [ none ↦ false | some u ↦ is_text t u ]) h

-- A text without a secret comes through.
get-plain :
    (r : Redactor) (k t : String) (j : Json)
    → is_sensitive k ≡ false
    → get k j ≡ some (str t)
    → redact_string r t ≡ t
    → get k (sanitize_data r none j) ≡ some (str t)
unfolding sanitize_data
get-plain r k t j h g plain = get-sanitize r k j (str t) h g ∙ ap (λ u. some (str u)) plain

names :
    (d : Decision) (a : Action)
    → (decision_value d == "ALLOW" || decision_value d == "DEFER") && not (action_value a == "STOP")
      ≡ is_allow d && not (same_action a stop)
names allow retry = refl
names allow recovery_link = refl
names allow stop = refl
names deny a = refl
names review a = refl

shows_executable-verdict :
    (r : Redactor) (v : Verdict)
    → IsPlain r
    → shows_executable (sanitize_data r none (dump_verdict v)) ≡ is_executable v
unfolding shows_executable dump_verdict
shows_executable-verdict r v plain =
    let decision =
      get-plain r "decision" (decision_value v.decision) (dump_verdict v) decision-open refl
        (plain.decisions v.decision) in
    let action =
      get-plain r "action" (action_value v.action) (dump_verdict v) action-open refl
        (plain.actions v.action) in
    rw (decision, says-some "action" "STOP" _ _ action) (names v.decision v.action)

-- The confidence of a logged proposal is a number, and is shown as percent.
confidence-shown :
    (r : Redactor) (p : DiagnosisProposal)
    → percent_or_null (get_null "confidence" (sanitize_data r none (dump_proposal p)))
      ≡ ok (real (rounded 100000 (100 * p.confidence) 1))
unfolding dump_proposal percent_or_null percent sanitize_data
confidence-shown r p = rw confidence-open refl

success-shown :
    (r : Redactor) (p : DiagnosisProposal)
    → percent_or_null (expected_success (sanitize_data r none (dump_proposal p)))
      ≡ ok (real (rounded 100000 (100 * p.expected_outcome.probability_of_success) 1))
unfolding dump_proposal percent_or_null percent expected_success sanitize_data
success-shown r p = rw (expected_outcome-open, probability_of_success-open) refl

-- What is shown of a case that the pipeline has decided.
pub record IsTold (c : CaseRow) (chain : Bool) (p : DiagnosisProposal) (v : Verdict) (j : Json)
    : Type 0 where
  pub executable :
      value_at ("policy_result" ∷ "is_executable" ∷ []) j ≡ some (bool (is_executable v))
  pub confidence :
      value_at ("ai_diagnosis" ∷ "confidence_pct" ∷ []) j
      ≡ some (real (rounded 100000 (100 * p.confidence) 1))
  pub final_state : value_at ("outcome" ∷ "final_state" ∷ []) j ≡ some (str (state_value c.state))
  pub attempt_no : value_at ("context" ∷ "attempt_no" ∷ []) j ≡ some (int (c.attempts + 1))
  pub chain_valid : value_at ("audit_trail" ∷ "chain_valid" ∷ []) j ≡ some (bool chain)

detail_dict-IsTold :
    (env : Env) (r : Redactor) (c : CaseRow) (a : Option ActionRow) (events : List EventRow)
    (id : String) (p : DiagnosisProposal) (v : Verdict)
    → (x : Json) → shows_executable (payload_for r id events "POLICY_VERDICT") ≡ is_executable v
    → IsTold c (verify_chain env events) p v (
        detail_dict id
          (phases_of env r c a events id (real (rounded 100000 (100 * p.confidence) 1)) x))
unfolding detail_dict phases_of phase_policy phase_diagnosis phase_outcome phase_context phase_audit
    value_at
detail_dict-IsTold env r c a events id p v x h = record {
  executable = ap (λ b. some (bool b)) h;
  confidence = refl;
  final_state = refl;
  attempt_no = refl;
  chain_valid = refl;
}

payload_for-some :
    (r : Redactor) (id t : String) (events : List EventRow) (e : EventRow)
    → last_event id t events ≡ some e
    → payload_for r id events t ≡ sanitize_data r none e.payload
unfolding payload_for
payload_for-some r id t events e h =
    ap
      (λ o. elim o as (λ _. Json) [ none ↦ empty_object | some x ↦ sanitize_data r none x.payload ])
      h

-- For a stored case on which a proposal and a verdict were logged, and where the regular expressions
-- find no secret in the names of decisions and actions, `get_transaction_detail` returns and changes
-- nothing; it shows the last verdict as executable exactly if it is, the confidence of the last
-- proposal as a percentage, the state of the case, the number of its next attempt, and whether the
-- log verifies.
pub get_transaction_detail-IsTold :
    (columns : Columns) (env : Env) (r : Redactor) (id : String) (w : World) (c : CaseRow)
    (p : DiagnosisProposal) (v : Verdict) (d e : EventRow)
    → IsPlain r
    → find_case id w.cases ≡ some c
    → last_event id "DIAGNOSIS_RETURNED" w.events ≡ some d
    → d.payload ≡ dump_proposal p
    → last_event id "POLICY_VERDICT" w.events ≡ some e
    → e.payload ≡ dump_verdict v
    → (j : Json) × (get_transaction_detail columns env r id w ≡ (ok j, w))
      × IsTold c (verify_chain env w.events) p v j
unfolding get_transaction_detail
get_transaction_detail-IsTold columns env r id w c p v d e plain stored diag dump judged dumped =
    let proposal : payload_for r id w.events "DIAGNOSIS_RETURNED"
        ≡ sanitize_data r none (dump_proposal p) =
      payload_for-some r id "DIAGNOSIS_RETURNED" w.events d diag ∙ ap (sanitize_data r none) dump in
    let verdict : payload_for r id w.events "POLICY_VERDICT"
        ≡ sanitize_data r none (dump_verdict v) =
      payload_for-some r id "POLICY_VERDICT" w.events e judged ∙ ap (sanitize_data r none) dumped in
    let shown =
      ap (λ j. percent_or_null (get_null "confidence" j)) proposal ∙ confidence-shown r p in
    let expected = ap (λ j. percent_or_null (expected_success j)) proposal ∙ success-shown r p in
    let success = real (rounded 100000 (100 * p.expected_outcome.probability_of_success) 1) in
    (
      detail_dict id (
          phases_of env r c (last_scheduled columns id w.actions) w.events id
            (real (rounded 100000 (100 * p.confidence) 1)) success),
      rw (stored, or_raise, shown, lift, expected, lift) refl,
      detail_dict-IsTold env r c (last_scheduled columns id w.actions) w.events id p v success
          (ap shows_executable verdict ∙ shows_executable-verdict r v plain),
    )
