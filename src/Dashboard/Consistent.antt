-- ===== src/Dashboard/Consistent.antt =====
-- The metrics of agent/dashboard.py agree with one another and with the table of cases.
use downtime_aware_recovery.Common.{
  ◌∷◌, [], ℕ, String, List, ◌==◌, ◌≡◌, refl, ◌≤◌, arith, or_default, lookup, ◌∙◌, length, ap, sym,
}
use downtime_aware_recovery.Store.{CaseRow, World}
use downtime_aware_recovery.Dashboard.{
  cohort_entry, compute_dashboard_metrics, sum_by, DashboardMetrics, Sqlite, rupees, paise_of,
  summary, group_by, is_recovered, method_entry, recovered_paise_of,
}
use downtime_aware_recovery.Dashboard.Grouping.{
  over_entries, count_if-le-length, over_entries-summary, percentage_bound, over_groups-group_by,
  length-sum, sum_by_mono, lookup-summary, group_at-group_by, length-members,
}
use downtime_aware_recovery.Models.Enums.{CaseState, state_value, cohort_value, method_value}
use downtime_aware_recovery.Metrics.{count_if}

rupees_sum :
    (xs : List CaseRow) → (cohort_entry xs).amount_rupees ≡ sum_by (λ c. rupees c.amount_paise) xs
unfolding cohort_entry sum_by
rupees_sum [] = refl
rupees_sum (x ∷ xs) = omega (arith, rupees_sum xs)

rupees_total :
    (xs : List CaseRow) → sum_by (λ c. rupees c.amount_paise) xs ≡ rupees (sum_by paise_of xs)
unfolding sum_by
rupees_total [] = refl
rupees_total (x ∷ xs) = omega (arith, rupees_total xs)

won-le-paid : (c : CaseRow) → recovered_paise_of c ≤ paise_of c
won-le-paid c = ground arith

cohort_cases : (xs : List CaseRow) → (cohort_entry xs).cases ≡ sum_by (λ c. 1) xs
unfolding cohort_entry
cohort_cases xs = length-sum xs

method_cases : (xs : List CaseRow) → (method_entry xs).total ≡ sum_by (λ c. 1) xs
unfolding method_entry
method_cases xs = length-sum xs

count-at :
    (k : String) (cases : List CaseRow)
    → or_default 0 (lookup k (summary length (group_by (λ c. state_value c.state) cases)))
      ≡ count_if (λ c. state_value c.state == k) cases
count-at k cases =
    let key : CaseRow → String = λ c. state_value c.state in
    lookup-summary 0 length k (group_by key cases) refl
    ∙ ap length (group_at-group_by key k cases)
    ∙ length-members (λ c. key c == k) cases

module _ {A B : Type 0} (key : A → String) (g : B → ℕ) (e : List A → B) (f : A → ℕ) where
  entries-group_by :
      ((xs : List A) → g (e xs) ≡ sum_by f xs)
      → (xs : List A) → over_entries g (summary e (group_by key xs)) ≡ sum_by f xs
  entries-group_by h xs =
      over_entries-summary g e f h (group_by key xs) ∙ over_groups-group_by f key xs

pub record IsCoherent (cases : List CaseRow) (m : DashboardMetrics) : Type 0 where
  pub recovered : m.recovered_cases ≤ m.total_cases
  pub value : m.recovered_value_rupees ≤ m.revenue_at_risk_rupees
  pub recovery_rate : m.recovery_rate_pct ≤ 100000000
  pub failure_rate : m.failure_rate_pct ≤ 100000000
  pub all_cohorts : over_entries (λ e. e.cases) m.cohorts ≡ m.total_cases
  pub all_money : over_entries (λ e. e.amount_rupees) m.cohorts ≡ m.revenue_at_risk_rupees
  pub all_methods : over_entries (λ e. e.total) m.methods ≡ m.total_cases
  pub all_states : over_entries (λ n. n) m.states ≡ m.total_cases
  pub each_state :
      (s : CaseState)
      → or_default 0 (lookup (state_value s) m.states)
        ≡ count_if (λ c. state_value c.state == state_value s) cases

-- Of the dashboard's metrics no more cases and no more value are recovered than there are, the rates
-- are at most 100 percent, the cohorts, the methods and the states each account for every case and
-- the cohorts for all revenue at risk, and each state is given the number of cases that are in it.
pub compute_dashboard_metrics-IsCoherent :
    (sql : Sqlite) (w : World) → IsCoherent w.cases (compute_dashboard_metrics sql w)
unfolding compute_dashboard_metrics
compute_dashboard_metrics-IsCoherent sql w = record {
  recovered = count_if-le-length is_recovered w.cases;
  value = omega (arith, sum_by_mono recovered_paise_of paise_of won-le-paid w.cases);
  recovery_rate =
      percentage_bound _ _ (sum_by_mono recovered_paise_of paise_of won-le-paid w.cases);
  failure_rate = percentage_bound _ _ (omega arith);
  all_cohorts =
      entries-group_by (λ c. cohort_value c.cohort) (λ e. e.cases) cohort_entry (λ c. 1)
        cohort_cases w.cases
      ∙ sym (length-sum w.cases);
  all_money =
      entries-group_by (λ c. cohort_value c.cohort) (λ e. e.amount_rupees) cohort_entry
        (λ c. rupees c.amount_paise) rupees_sum w.cases
      ∙ rupees_total w.cases;
  all_methods =
      entries-group_by (λ c. method_value c.method) (λ e. e.total) method_entry (λ c. 1)
        method_cases w.cases
      ∙ sym (length-sum w.cases);
  all_states =
      entries-group_by (λ c. state_value c.state) (λ n. n) length (λ c. 1) length-sum w.cases
      ∙ sym (length-sum w.cases);
  each_state = λ s. count-at (state_value s) w.cases;
}
