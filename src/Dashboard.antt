-- ===== src/Dashboard.antt =====
-- agent/dashboard.py: the operational metrics. A float is a number of millionths, and `round` rounds
-- the exact number to the nearest step, a tie to the even one. How SQLite reads a JSON value as a number
-- and matches a pattern are parameters.
pub mod Grouping
pub mod Consistent
pub mod Transactions
pub mod Trace
pub mod Phases
pub mod Detail
pub mod Order
pub mod Pages
pub mod Views
pub mod Agrees
use downtime_aware_recovery.Common.{
  ◌∷◌, [], none, some, zero, suc, ℕ, String, Bool, Option, List, ◌==◌, ◌&&◌, ◌||◌, ◌*◌, ◌+◌, ◌/◌,
  if◌then◌else◌, ◌%◌, is_empty, leb, length, nat_eq, ltb, is_some, ◌-◌,
}
use downtime_aware_recovery.Store.{Columns, CaseRow, EventRow, World}
use downtime_aware_recovery.Models.Json.{Json, get}
use downtime_aware_recovery.Text.{has_text}
use downtime_aware_recovery.Models.Enums.{
  same_state, recovered, cohort_value, method_value, state_value,
}
use downtime_aware_recovery.Metrics.{says, count_if}

-- The numeric value that AVG takes, none for NULL; `LIKE`, on the text and the pattern; and the texts
-- of the times.
pub record Sqlite : Type 0 where
  pub number_of : Json → Option ℕ
  pub like : String → String → Bool
  pub columns : Columns

-- The whole number nearest to n / d, a tie to the even one.
unfoldable pub nearest : ℕ → ℕ → ℕ
nearest n d =
    let q = n / d in
    let r = n % d in if ltb (2 * r) d then q else if ltb d (2 * r) then q + 1 else q + q % 2

-- n / d, a number of millionths, rounded to a multiple of `step` of them.
unfoldable pub rounded : ℕ → ℕ → ℕ → ℕ
rounded step n d = nearest n (d * step) * step

-- `round(paise / 100.0, 2)`, which is exact.
abbrev pub rupees : ℕ → ℕ
rupees paise = paise * 10000

-- `round(part / whole * 100.0, places)` if the whole is positive, else 0.0.
unfoldable pub percentage : ℕ → ℕ → ℕ → ℕ
percentage step part whole = if nat_eq whole 0 then 0 else rounded step (part * 100000000) whole

unfoldable pub sum_by {ℓ} : {A : Type ℓ} → (A → ℕ) → List A → ℕ
sum_by f [] = 0
sum_by f (x ∷ xs) = f x + sum_by f xs

abbrev pub is_recovered : CaseRow → Bool
is_recovered c = same_state c.state recovered

-- `COALESCE(SUM(amount_paise), 0)` over all cases, and over the recovered ones.
abbrev pub paise_of : CaseRow → ℕ
paise_of c = c.amount_paise

abbrev pub recovered_paise_of : CaseRow → ℕ
recovered_paise_of c = if is_recovered c then c.amount_paise else 0

-- The condition on a verdict that blocks an action.
abbrev pub is_blocked : EventRow → Bool
is_blocked e =
    e.event_type == "POLICY_VERDICT"
    && (says "decision" "DENY" e.payload
        || says "decision" "REVIEW" e.payload
        || says "action" "STOP" e.payload)

-- The values that AVG adds up.
unfoldable pub confidences : Sqlite → List EventRow → List ℕ
confidences sql [] = []
confidences sql (e ∷ es) =
    let rest = confidences sql es in
    let value = elim (get "confidence" e.payload) as (λ _. Option ℕ) [
      | none ↦ none
      | some v ↦ sql.number_of v
    ] in
    let longer = elim value as (λ _. List ℕ) [ none ↦ rest | some n ↦ n ∷ rest ] in
    if e.event_type == "DIAGNOSIS_RETURNED" then longer else rest

-- `round(avg_conf * 100.0, 1)`; the average of no values is NULL, which counts as 0.0.
unfoldable pub confidence_pct : Sqlite → List EventRow → ℕ
confidence_pct sql events =
    let values = confidences sql events in
    if is_empty values then 0 else rounded 100000 (100 * sum_by (λ n. n) values) (length values)

-- `GROUP BY`: the rows of each key, under the key. The order of the groups is open in SQL.
module _ {A : Type 0} where
  unfoldable pub insert_group : String → A → List (String × List A) → List (String × List A)
  insert_group k x [] = (k, x ∷ []) ∷ []
  insert_group k x ((j, ys) ∷ m) =
      let rest = insert_group k x m in if k == j then (j, x ∷ ys) ∷ m else (j, ys) ∷ rest

  unfoldable pub group_by : (A → String) → List A → List (String × List A)
  group_by key [] = []
  group_by key (x ∷ xs) = insert_group (key x) x (group_by key xs)

pub record CohortEntry : Type 0 where
  pub cases : ℕ
  pub amount_rupees : ℕ
  pub recovered : ℕ

pub record MethodEntry : Type 0 where
  pub total : ℕ
  pub recovered : ℕ
  pub amount_rupees : ℕ
  pub recovered_rupees : ℕ
  pub recovery_rate_pct : ℕ

pub record ErrorEntry : Type 0 where
  pub reason : String
  pub total : ℕ
  pub recovered : ℕ

unfoldable pub cohort_entry : List CaseRow → CohortEntry
cohort_entry rows = record {
  cases = length rows;
  amount_rupees = rupees (sum_by paise_of rows);
  recovered = count_if is_recovered rows;
}

unfoldable pub method_entry : List CaseRow → MethodEntry
method_entry rows = record {
  total = length rows;
  recovered = count_if is_recovered rows;
  amount_rupees = rupees (sum_by paise_of rows);
  recovered_rupees = rupees (sum_by recovered_paise_of rows);
  recovery_rate_pct = percentage 100000 (count_if is_recovered rows) (length rows);
}

-- `r["reason"] or "unknown"`.
unfoldable pub error_entry : String → List CaseRow → ErrorEntry
error_entry reason rows = record {
  reason = if has_text reason then reason else "unknown";
  total = length rows;
  recovered = count_if is_recovered rows;
}

-- The dictionary over the groups.
abbrev pub summary : {A B : Type 0} → (List A → B) → List (String × List A) → List (String × B)
summary f [] = []
summary f ((k, rows) ∷ m) = (k, f rows) ∷ summary f m

-- `ORDER BY total DESC`; among equal totals the order is open in SQL.
unfoldable pub insert_error : ErrorEntry → List ErrorEntry → List ErrorEntry
insert_error e [] = e ∷ []
insert_error e (d ∷ ds) =
    let rest = insert_error e ds in if leb d.total e.total then e ∷ d ∷ ds else d ∷ rest

unfoldable pub error_entries : List (String × List CaseRow) → List ErrorEntry
error_entries [] = []
error_entries ((reason, rows) ∷ m) = insert_error (error_entry reason rows) (error_entries m)

-- `LIMIT n`.
unfoldable pub take {ℓ} : {A : Type ℓ} → ℕ → List A → List A
take zero xs = []
take (suc n) [] = []
take (suc n) (x ∷ xs) = x ∷ take n xs

pub record DashboardMetrics : Type 0 where
  pub revenue_at_risk_rupees : ℕ
  pub recovered_value_rupees : ℕ
  pub recovery_rate_pct : ℕ
  pub actions_executed : ℕ
  pub actions_blocked : ℕ
  pub ai_confidence_pct : ℕ
  pub failure_rate_pct : ℕ
  pub total_cases : ℕ
  pub recovered_cases : ℕ
  pub cohorts : List (String × CohortEntry)
  pub methods : List (String × MethodEntry)
  pub errors : List ErrorEntry
  pub states : List (String × ℕ)

-- `compute_dashboard_metrics`, without its log line.
unfoldable pub compute_dashboard_metrics : Sqlite → World → DashboardMetrics
compute_dashboard_metrics sql w =
    let at_risk = sum_by paise_of w.cases in
    let won = sum_by recovered_paise_of w.cases in
    let total = length w.cases in
    let done = count_if is_recovered w.cases in
    record {
      revenue_at_risk_rupees = rupees at_risk;
      recovered_value_rupees = rupees won;
      recovery_rate_pct = percentage 10000 won at_risk;
      actions_executed = count_if (λ a. is_some a.executed_at) w.actions;
      actions_blocked = count_if is_blocked w.events;
      ai_confidence_pct = confidence_pct sql w.events;
      failure_rate_pct = percentage 10000 (total - done) total;
      total_cases = total;
      recovered_cases = done;
      cohorts = summary cohort_entry (group_by (λ c. cohort_value c.cohort) w.cases);
      methods = summary method_entry (group_by (λ c. method_value c.method) w.cases);
      errors = take 6 (error_entries (group_by (λ c. c.error.reason) w.cases));
      states = summary length (group_by (λ c. state_value c.state) w.cases);
    }
