-- ===== src/Metrics/Safety.antt =====
-- The safety counts of evalharness/metrics.py: when they are 0.
use downtime_aware_recovery.Common.{
  ℕ, ◌+◌, ◌≤◌, ◌≡◌, ◌↔◌, refl, Bool, false, List, [], ◌∷◌, All, arith, if◌then◌else◌, suc,
}
use downtime_aware_recovery.Metrics.{
  count_if, cap_breach, breaches_cap, holdout_contamination, holdout_match,
}
use downtime_aware_recovery.Pipeline.Cap.{method_cap}
use downtime_aware_recovery.Policy.{Rules}
use downtime_aware_recovery.Store.{CaseRow, ActionRow}

count_step : (b : Bool) (n : ℕ) → ((if b then suc n else n) ≡ 0) ↔ ((b ≡ false) × (n ≡ 0))
count_step b n = ground arith

module _ {A : Type 0} (p : A → Bool) where
  count_if-zero : (xs : List A) → (count_if p xs ≡ 0) ↔ All (λ x. p x ≡ false) xs
  unfolding count_if
  count_if-zero [] = (λ h. tt, λ h. refl)
  count_if-zero (x ∷ xs) =
      let ih = count_if-zero xs in
      let step = count_step (p x) (count_if p xs) in
      (λ h. ((step.0 h).0, ih.0 (step.0 h).1), λ (e, rest). step.1 (e, ih.1 rest))

sum_zero : (m n : ℕ) → (m + n ≡ 0) ↔ ((m ≡ 0) × (n ≡ 0))
sum_zero m n = ground arith

contamination-zero :
    (actions : List ActionRow) (cases : List CaseRow)
    → (holdout_contamination actions cases ≡ 0)
      ↔ All (λ a. All (λ c. holdout_match a c ≡ false) cases) actions
unfolding holdout_contamination
contamination-zero [] cases = (λ h. tt, λ h. refl)
contamination-zero (a ∷ as') cases =
    let ih = contamination-zero as' cases in
    let here = count_if-zero (holdout_match a) cases in
    let both = sum_zero (count_if (holdout_match a) cases) (holdout_contamination as' cases) in
    (λ h. (here.0 (both.0 h).0, ih.0 (both.0 h).1), λ (x, rest). both.1 (here.1 x, ih.1 rest))

within_cap :
    (rules : Rules) (row : CaseRow)
    → (breaches_cap rules row ≡ false) ↔ (row.attempts ≤ method_cap rules row.method)
within_cap rules row = ground arith

breach-zero :
    (rules : Rules) (cases : List CaseRow)
    → All (λ r. breaches_cap rules r ≡ false) cases
      ↔ All (λ r. r.attempts ≤ method_cap rules r.method) cases
breach-zero rules [] = (λ h. tt, λ h. tt)
breach-zero rules (r ∷ rs) =
    let ih = breach-zero rules rs in
    let here = within_cap rules r in
    (λ (x, rest). (here.0 x, ih.0 rest), λ (x, rest). (here.1 x, ih.1 rest))

-- The count of holdout contamination is 0 exactly if no stored action is of a stored case of the
-- holdout, and the count of cap breaches is 0 exactly if every stored case has spent no more attempts
-- than the cap of its method.
pub safety_zero_iff :
    (rules : Rules) (actions : List ActionRow) (cases : List CaseRow)
    → ((holdout_contamination actions cases ≡ 0)
        ↔ All (λ a. All (λ c. holdout_match a c ≡ false) cases) actions)
      × ((cap_breach rules cases ≡ 0) ↔ All (λ r. r.attempts ≤ method_cap rules r.method) cases)
unfolding cap_breach
safety_zero_iff rules actions cases =
    let count = count_if-zero (breaches_cap rules) cases in
    let caps = breach-zero rules cases in
    (contamination-zero actions cases, (λ h. caps.0 (count.0 h), λ h. count.1 (caps.1 h)))
