-- ===== src/Metrics/Scores.antt =====
-- evalharness/metrics.py: the scores of the ambiguous diagnoses, all metrics in one record, and the
-- adverse findings of the report. The sealed log's fields are passed through.
use downtime_aware_recovery.Common.{
  ◌∷◌, [], none, some, ℕ, String, Bool, Option, List, ◌*◌, ◌==◌, ◌&&◌, not, true, false,
  if◌then◌else◌, leb, ltb, map, nat_eq, is_empty, length,
}
use Prim.Native.Nat.{Ordering}
use Prim.Native.String.{compare}
use downtime_aware_recovery.Store.Exec.{Result, ok, err, key_error}
use downtime_aware_recovery.Metrics.{
  Outcome, Scored, macro_f1, ClassScore, labels, count_if, last_event, class_score,
  compute_outcomes, wasted_attempt_rate, policy_veto_rate, holdout_contamination, cap_breach,
}
use downtime_aware_recovery.Dashboard.{Sqlite}
use downtime_aware_recovery.Metrics.Bootstrap.{Arm, Interval, Random, size, bootstrap_incremental}
use downtime_aware_recovery.Models.Enums.{
  CaseState, is_holdout, same_state, class_value, abandoned, holdout_closed,
}
use downtime_aware_recovery.Store.{Env, EventRow, World}
use downtime_aware_recovery.Fraction.{Fraction, frac}
use downtime_aware_recovery.Policy.{Rule, Rules}
use downtime_aware_recovery.Models.Payment.{Time}
use downtime_aware_recovery.Models.Json.{Json, get}
use downtime_aware_recovery.Harness.{Truth}

-- The payload's `recoverability` of the last diagnosis of a case; none where there is no diagnosis.
unfoldable pub predicted : List EventRow → String → Option (Option Json)
predicted events id = elim (last_event id "DIAGNOSIS_RETURNED" events) [
  | none ↦ none
  | some e ↦ some (get "recoverability" e.payload)
]

-- The loop over the ground truth: the true and the predicted classes.
unfoldable pub ambiguous_pairs : List EventRow → Truth → Result Scored
ambiguous_pairs events [] = ok []
ambiguous_pairs events ((id, gt) ∷ truth) =
    let rest = ambiguous_pairs events truth in
    let here = elim (predicted events id) as (λ _. Result Scored) [
      | none ↦ rest
      | some none ↦ err (key_error "recoverability")
      | some (some p) ↦ elim rest as (λ _. Result Scored) [
        | ok pairs ↦ ok ((class_value gt.true_class, p) ∷ pairs)
        | err e ↦ err e
      ]
    ] in
    if gt.is_ambiguous then here else rest

pub record Diagnosed : Type 0 where
  pub macro : Fraction
  pub per_class : List (String × ClassScore)
  pub n_ambiguous : ℕ

unfoldable pub scores_of : Scored → Diagnosed
scores_of pairs = record {
  macro = macro_f1 pairs labels;
  per_class = map (λ l. (l, class_score pairs l)) labels;
  n_ambiguous = length pairs;
}

unfoldable pub ambiguous_diagnosis_scores : List EventRow → Truth → Result Diagnosed
ambiguous_diagnosis_scores events truth = elim (ambiguous_pairs events truth) [
  | ok pairs ↦ ok (scores_of pairs)
  | err e ↦ err e
]

-- `[(o["amount_paise"], o["recovered"]) for o in … if o["cohort"] == …]`.
unfoldable pub arm_of : Bool → List (String × Outcome) → Arm
arm_of in_holdout [] = []
arm_of in_holdout ((id, o) ∷ os) =
    let rest = arm_of in_holdout os in
    let taken = if is_holdout o.cohort then in_holdout else not in_holdout in
    if taken then (o.amount_paise, o.recovered) ∷ rest else rest

-- `sum(1 for _, r in arm if r) / max(1, len(arm))`.
unfoldable pub recovery_rate : Arm → Fraction
recovery_rate arm = frac (count_if (λ (amount, rec). rec) arm) (size arm)

-- agent/policy/engine.py: `Rules.unverified_ids`, in the order of the texts.
abbrev pub text_le : String → String → Bool
text_le s t = elim (compare s t) [ Ordering.gt ↦ false | _ ↦ true ]

unfoldable pub insert_id : String → List String → List String
insert_id s [] = s ∷ []
insert_id s (t ∷ ts) = let rest = insert_id s ts in if text_le s t then s ∷ t ∷ ts else t ∷ rest

unfoldable pub unverified : List (String × Rule) → List String
unverified [] = []
unverified ((id, r) ∷ rules) =
    let rest = unverified rules in if r.enabled && not r.verified then insert_id id rest else rest

unfoldable pub unverified_ids : Rules → List String
unverified_ids rules = unverified rules.by_id

-- datagen/schema.py: `BatchManifest`, what the report reads of it.
pub record BatchManifest : Type 0 where
  pub corpus : String
  pub seed : ℕ
  pub scenario_id : String
  pub n : ℕ
  pub generator_version : String
  pub times_scored : ℕ
  pub created_at : Time

-- `payload LIKE '%DOWNTIME_DEFER%'`, on the canonical text of the payload.
abbrev pub is_deferred : Env → Sqlite → EventRow → Bool
is_deferred env sql e =
    e.event_type == "POLICY_VERDICT" && sql.like (env.dumps e.payload) "%DOWNTIME_DEFER%"

abbrev pub in_state : CaseState → String × Outcome → Bool
in_state s (id, o) = same_state o.state s

pub record AllMetrics : Type 0 where
  pub manifest : BatchManifest
  pub times_scored : ℕ
  pub rescore_override : Bool
  pub incremental : Interval
  pub treated_rate : Fraction
  pub holdout_rate : Fraction
  pub ai : Diagnosed
  pub wasted_rate : Fraction
  pub wasted_n : ℕ
  pub total_attempts : ℕ
  pub n_deferred : ℕ
  pub n_abandoned : ℕ
  pub n_holdout_closed : ℕ
  pub holdout_contamination : ℕ
  pub cap_breach : ℕ
  pub veto_rate : Fraction
  pub veto_n : ℕ
  pub veto_total : ℕ
  pub chain_ok : Bool
  pub counters_ok : Bool
  pub unverified_rules : List String

-- What `compute_all_metrics` is called with besides the database.
pub record Scoring : Type 0 where
  pub seed : ℕ
  pub manifest : BatchManifest
  pub chain_ok : Bool
  pub counters_ok : Bool
  pub times_scored : ℕ
  pub rescore_override : Bool

unfoldable pub metrics_of :
    Env
    → Sqlite
    → Rules
    → Truth
    → Scoring
    → World
    → List (String × Outcome)
    → Interval
    → Diagnosed
    → AllMetrics
metrics_of env sql rules truth s w outcomes inc ai =
    let wasted = wasted_attempt_rate truth w.actions in
    let veto = policy_veto_rate w.events in
    record {
      manifest = record s.manifest { seed = s.seed };
      times_scored = s.times_scored;
      rescore_override = s.rescore_override;
      incremental = inc;
      treated_rate = recovery_rate (arm_of false outcomes);
      holdout_rate = recovery_rate (arm_of true outcomes);
      ai = ai;
      wasted_rate = wasted.0;
      wasted_n = wasted.1;
      total_attempts = wasted.2;
      n_deferred = count_if (is_deferred env sql) w.events;
      n_abandoned = count_if (in_state abandoned) outcomes;
      n_holdout_closed = count_if (in_state holdout_closed) outcomes;
      holdout_contamination = holdout_contamination w.actions w.cases;
      cap_breach = cap_breach rules w.cases;
      veto_rate = veto.0;
      veto_n = veto.1;
      veto_total = veto.2;
      chain_ok = s.chain_ok;
      counters_ok = s.counters_ok;
      unverified_rules = unverified_ids rules;
    }

-- `compute_all_metrics`, with the 2,000 resamples of the default; none is an exception.
unfoldable pub compute_all_metrics :
    Env → Sqlite → Random → Rules → Truth → Scoring → World → Option AllMetrics
compute_all_metrics env sql rng rules truth s w =
    let outcomes = compute_outcomes env truth s.seed w.actions w.cases in
    elim (bootstrap_incremental rng (arm_of false outcomes) (arm_of true outcomes) 2000) [
      | none ↦ none
      | some inc ↦ elim (ambiguous_diagnosis_scores w.events truth) [
        | err e ↦ none
        | ok ai ↦ some (metrics_of env sql rules truth s w outcomes inc ai)
      ]
    ]

-- The adverse findings of `build_report`.
pub data Adverse : Type 0 where
  ci_includes_zero few_ambiguous macro_below_chance : Adverse
  gate_decorative gate_restrictive none_deferred none_identified : Adverse

-- `a < b` of fractions.
abbrev pub frac_lt : Fraction → Fraction → Bool
frac_lt a b = ltb (a.num * b.den) (b.num * a.den)

abbrev pub add_if : Bool → Adverse → List Adverse → List Adverse
add_if b a rest = if b then a ∷ rest else rest

-- The veto rate is out of its band, and on which side.
abbrev pub veto_finding : AllMetrics → List Adverse → List Adverse
veto_finding m rest =
    if leb 10 m.veto_total && frac_lt m.veto_rate (frac 5 100)
    then gate_decorative ∷ rest
    else add_if (leb 10 m.veto_total && frac_lt (frac 40 100) m.veto_rate) gate_restrictive rest

unfoldable pub adverse_findings : AllMetrics → List Adverse
adverse_findings m =
    let found =
      add_if (leb m.incremental.ci_lower.gain m.incremental.ci_lower.loss) ci_includes_zero (
        add_if (ltb m.ai.n_ambiguous 30) few_ambiguous (
          add_if (frac_lt m.ai.macro (frac 1 4)) macro_below_chance
            (veto_finding m (add_if (nat_eq m.n_deferred 0) none_deferred [])))) in
    if is_empty found then none_identified ∷ [] else found
