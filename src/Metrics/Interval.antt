-- ===== src/Metrics/Interval.antt =====
-- The interval of evalharness/metrics.py has its ends in order.
use downtime_aware_recovery.Common.{
  ◌∷◌, [], some, ℕ, List, ◌*◌, ◌≡◌, refl, ◌<◌, ◌≤◌, max, arith, length, All, true, ◌∙◌,
}
use downtime_aware_recovery.Metrics.Bootstrap.{
  bootstrap_incremental, ends_of, high_index, low_index, Estimate, Random, Arm, sorted, Interval,
  est_le, point_estimate, interval_of,
}
use downtime_aware_recovery.Metrics.Sampling.{
  InRange, den_for, get_elem?-in_range, resamples-returns, >>=-some,
}
use downtime_aware_recovery.Metrics.Sorting.{
  IsSorted, est_le_refl, All-get_elem?, length-sorted, IsBelow-est_le, sorted-IsSorted,
  sorted_places, All-sorted,
}

den_positive : (m n : ℕ) → 0 < max 1 m * max 1 n * 100
den_positive m n = grind arith

low_index_in : (n : ℕ) → 0 < n → low_index n < n
low_index_in n h = omega arith

high_index_in : (n : ℕ) → 0 < n → high_index n < n
high_index_in n h = omega arith

low-le-high : (n : ℕ) → 0 < n → low_index n ≤ high_index n
low-le-high n h = omega arith

-- The ends of sorted estimates with one denominator.
ends_of-ordered :
    (d : ℕ) (point : Estimate) (n : ℕ) (es : List Estimate)
    → length es ≡ n
    → IsSorted es
    → All (λ e. e.den ≡ d) es
    → (lo hi : Estimate) × (ends_of point n es ≡ some (lo, hi)) × (est_le lo hi ≡ true)
unfolding ends_of
ends_of-ordered d point n [] size s dens = (point, point, refl, est_le_refl point)
ends_of-ordered d point n (e ∷ es) size s dens =
    let positive : 0 < n = omega arith in
    let (lo, low) =
      get_elem?-in_range (e ∷ es) (low_index n) (omega (arith, low_index_in n positive)) in
    let (hi, high) =
      get_elem?-in_range (e ∷ es) (high_index n) (omega (arith, high_index_in n positive)) in
    let dens_at = All-get_elem? (λ x. x.den ≡ d) (e ∷ es) in
    (
      lo,
      hi,
      >>=-some _ _ lo _ low (>>=-some _ _ hi _ high refl),
      IsBelow-est_le lo hi d (dens_at (low_index n) lo dens low)
          (dens_at (high_index n) hi dens high)
          (sorted_places (e ∷ es) (low_index n) (high_index n) lo hi s (low-le-high n positive) low
            high),
    )

-- If `randrange` gives a number below its argument, the bootstrap returns, whatever the two arms and
-- the number of resamples, none included. The interval's lower end is at most its upper end, and the
-- estimate in it is that of the arms themselves.
pub bootstrap_incremental-ordered :
    (rng : Random) (treated holdout : Arm) (n_boot : ℕ)
    → InRange rng
    → (i : Interval) × (bootstrap_incremental rng treated holdout n_boot ≡ some i)
      × (est_le i.ci_lower i.ci_upper ≡ true)
      × (i.incremental_per_1000 ≡ point_estimate treated holdout)
unfolding bootstrap_incremental
bootstrap_incremental-ordered rng treated holdout n_boot fair =
    let d = den_for (length treated) (length holdout) in
    let (boots, drawn, size, dens) = resamples-returns rng fair treated holdout n_boot 0 in
    let positive = den_positive (length treated) (length holdout) in
    let (lo, hi, ends, ordered) =
      ends_of-ordered d (point_estimate treated holdout) n_boot (sorted boots)
        (length-sorted boots ∙ size) (sorted-IsSorted d positive boots dens)
        (All-sorted (λ e. e.den ≡ d) boots dens) in
    (
      interval_of treated holdout n_boot lo hi,
      >>=-some _ _ boots _ drawn (>>=-some _ _ (lo, hi) _ ends refl),
      ordered,
      refl,
    )
