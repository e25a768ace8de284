-- ===== src/Metrics.antt =====
-- evalharness/metrics.py: the scores of a replayed corpus, over exact fractions.
pub mod F1
pub mod Safety
pub mod Bootstrap
pub mod Sampling
pub mod Sorting
pub mod Interval
pub mod Scores
use downtime_aware_recovery.Common.{
  ℕ, suc, ◌+◌, ◌*◌, String, Bool, true, false, not, ◌&&◌, Option, none, some, List, [], ◌∷◌, ◌==◌,
  lookup, length, ltb, or_default, if◌then◌else◌, map,
}
use downtime_aware_recovery.Audit.Replay.{is_of_case, is_text}
use downtime_aware_recovery.Fraction.{Fraction, frac, ratio, plus, times, over, total}
use downtime_aware_recovery.Harness.{GroundTruth, Truth}
use downtime_aware_recovery.Ledger.{hex_prefix, scale}
use downtime_aware_recovery.Models.Enums.{
  Cohort, CaseState, Method, Recoverability, class_value, is_holdout, is_terminal_class,
}
use downtime_aware_recovery.Models.Json.{Json, get}
use downtime_aware_recovery.Models.Payment.{Time}
use downtime_aware_recovery.Models.Verdict.{concat, decimal}
use downtime_aware_recovery.Pipeline.Cap.{method_cap}
use downtime_aware_recovery.Policy.{Rules}
use downtime_aware_recovery.Store.{Env, World, CaseRow, ActionRow, EventRow}

-- `LABELS`.
abbrev pub labels : List String
labels = "TRANSIENT_INFRA" ∷ "CUSTOMER_FIXABLE" ∷ "INSTRUMENT_INVALID" ∷ "TERMINAL" ∷ []

-- `_organic_recovered`: the comparison of the quotient is that of the exact numbers.
unfoldable pub organic_recovered : Env → String → ℕ → ℕ → Bool
organic_recovered env case_id seed p_organic =
    let text = concat ("organic:" ∷ decimal seed ∷ ":" ∷ case_id ∷ []) in
    ltb (hex_prefix 8 0 (env.sha256 text) * 1000000) (p_organic * scale)

-- The row that `ORDER BY executed_at DESC` puts first; NULL comes last.
abbrev pub is_newer : Option Time → Option Time → Bool
is_newer none b = false
is_newer (some a) none = true
is_newer (some a) (some b) = ltb b a

unfoldable pub latest_action : String → List ActionRow → Option ActionRow
latest_action id [] = none
latest_action id (a ∷ as') =
    let rest = latest_action id as' in
    let newest = elim rest as (λ _. Option ActionRow) [
      | none ↦ some a
      | some b ↦ if is_newer b.executed_at a.executed_at then some b else some a
    ] in
    if a.case_id == id then newest else rest

-- The two texts that `source` takes.
pub data Source : Type 0 where
  by_attempt organic : Source

pub record Outcome : Type 0 where
  pub cohort : Cohort
  pub state : CaseState
  pub amount_paise : ℕ
  pub method : Method
  pub attempts : ℕ
  pub recovered : Bool
  pub source : Source
  pub true_class : Recoverability
  pub is_ambiguous : Bool

abbrev outcome_from : CaseRow → GroundTruth → Bool → Source → Outcome
outcome_from row gt recovered source = record {
  cohort = row.cohort;
  state = row.state;
  amount_paise = row.amount_paise;
  method = row.method;
  attempts = row.attempts;
  recovered = recovered;
  source = source;
  true_class = gt.true_class;
  is_ambiguous = gt.is_ambiguous;
}

-- The outcome of one case. `bool(NULL)` is false.
unfoldable pub outcome_of : Env → ℕ → List ActionRow → CaseRow → GroundTruth → Outcome
outcome_of env seed actions row gt = elim (latest_action row.case_id actions) [
  | some a ↦ outcome_from row gt (or_default false a.succeeded) by_attempt
  | none ↦ outcome_from row gt (organic_recovered env row.case_id seed gt.p_organic) organic
]

-- `compute_outcomes`.
unfoldable pub compute_outcomes :
    Env → Truth → ℕ → List ActionRow → List CaseRow → List (String × Outcome)
compute_outcomes env truth seed actions [] = []
compute_outcomes env truth seed actions (row ∷ rows) =
    let rest = compute_outcomes env truth seed actions rows in
    elim (lookup row.case_id truth) [
      | none ↦ rest
      | some gt ↦ (row.case_id, outcome_of env seed actions row gt) ∷ rest
    ]

unfoldable pub count_if {ℓ} : {A : Type ℓ} → (A → Bool) → List A → ℕ
count_if p [] = 0
count_if p (x ∷ xs) = let rest = count_if p xs in if p x then suc rest else rest

-- `zip(y_true, y_pred)`; what is predicted stands in a payload.
abbrev pub Scored : Type 0
Scored = List (String × Json)

abbrev pub true_positives : String → Scored → ℕ
true_positives label pairs = count_if (λ (t, p). t == label && is_text label p) pairs

abbrev pub false_positives : String → Scored → ℕ
false_positives label pairs = count_if (λ (t, p). not (t == label) && is_text label p) pairs

abbrev pub false_negatives : String → Scored → ℕ
false_negatives label pairs = count_if (λ (t, p). t == label && not (is_text label p)) pairs

pub record ClassScore : Type 0 where
  pub precision : Fraction
  pub recall : Fraction
  pub f1 : Fraction
  pub support : ℕ

-- `2 * precision * recall / (precision + recall)`.
unfoldable pub f1_of : Fraction → Fraction → Fraction
f1_of precision recall = over (times (times (frac 2 1) precision) recall) (plus precision recall)

-- The body of the loop over the labels.
unfoldable pub class_score : Scored → String → ClassScore
class_score pairs label =
    let tp = true_positives label pairs in
    let fp = false_positives label pairs in
    let fn = false_negatives label pairs in
    record {
      precision = ratio tp (tp + fp);
      recall = ratio tp (tp + fn);
      f1 = f1_of (ratio tp (tp + fp)) (ratio tp (tp + fn));
      support = tp + fn;
    }

-- The first component of `macro_f1`.
unfoldable pub macro_f1 : Scored → List String → Fraction
macro_f1 pairs ls = over (total (map (λ l. (class_score pairs l).f1) ls)) (frac (length ls) 1)

-- The last event of a case of one type.
unfoldable pub last_event : String → String → List EventRow → Option EventRow
last_event id event_type [] = none
last_event id event_type (e ∷ es) =
    let rest = last_event id event_type es in
    let here = if is_of_case id e && e.event_type == event_type then some e else none in
    elim rest [ some x ↦ some x | none ↦ here ]

-- `wasted_attempt_rate`: the wasted attempts, and all.
abbrev pub is_wasted : Truth → ActionRow → Bool
is_wasted truth a = elim (lookup a.case_id truth) [
  | none ↦ false
  | some gt ↦ is_terminal_class gt.true_class
]

unfoldable pub wasted_attempt_rate : Truth → List ActionRow → Fraction × ℕ × ℕ
wasted_attempt_rate truth actions =
    let wasted = count_if (is_wasted truth) actions in
    (ratio wasted (length actions), wasted, length actions)

-- `proposal.get("proposed_action") != "RETRY"` and `verdict.get("decision") == "DENY"`.
abbrev pub says : String → String → Json → Bool
says key text payload = elim (get key payload) [ none ↦ false | some v ↦ is_text text v ]

abbrev pub is_retry_proposal : EventRow → Bool
is_retry_proposal e =
    e.event_type == "DIAGNOSIS_RETURNED" && says "proposed_action" "RETRY" e.payload

-- The last verdict on the case of a proposal is a DENY; `case_id = NULL` selects nothing.
abbrev pub is_denied : List EventRow → EventRow → Bool
is_denied events e = elim e.case_id [
  | none ↦ false
  | some id ↦ elim (last_event id "POLICY_VERDICT" events) [
    | none ↦ false
    | some v ↦ says "decision" "DENY" v.payload
  ]
]

-- `policy_veto_rate`.
unfoldable pub policy_veto_rate : List EventRow → Fraction × ℕ × ℕ
policy_veto_rate events =
    let proposals = count_if is_retry_proposal events in
    let vetoed = count_if (λ e. is_retry_proposal e && is_denied events e) events in
    (ratio vetoed proposals, vetoed, proposals)

-- The join of an action with the cases of the holdout.
abbrev pub holdout_match : ActionRow → CaseRow → Bool
holdout_match a c = a.case_id == c.case_id && is_holdout c.cohort

unfoldable pub holdout_contamination : List ActionRow → List CaseRow → ℕ
holdout_contamination [] cases = 0
holdout_contamination (a ∷ as') cases =
    count_if (holdout_match a) cases + holdout_contamination as' cases

-- `row["attempts"] > cap`.
abbrev pub breaches_cap : Rules → CaseRow → Bool
breaches_cap rules row = ltb (method_cap rules row.method) row.attempts

unfoldable pub cap_breach : Rules → List CaseRow → ℕ
cap_breach rules cases = count_if (breaches_cap rules) cases
