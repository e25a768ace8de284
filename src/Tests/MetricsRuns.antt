-- ===== src/Tests/MetricsRuns.antt =====
-- The metrics of evalharness/metrics.py at a few values.
use downtime_aware_recovery.Common.{◌≡◌, false, [], ◌∷◌, ◌%◌, arith, true, some}
use downtime_aware_recovery.Metrics.Bootstrap.{
  Arm, Interval, Random, bootstrap_incremental, est_le, point_estimate,
}
use downtime_aware_recovery.Metrics.Sampling.{InRange}
use downtime_aware_recovery.Metrics.Interval.{bootstrap_incremental-ordered}

abbrev rng : Random
rng k n = k % n

rng-InRange : InRange rng
rng-InRange k n h = grind arith

abbrev treated_arm : Arm
treated_arm = (50000, true) ∷ (20000, false) ∷ (10000, true) ∷ []

abbrev holdout_arm : Arm
holdout_arm = (30000, false) ∷ (40000, true) ∷ []

bootstrap_incremental-ordered_example :
    (i : Interval) × (bootstrap_incremental rng treated_arm holdout_arm 80 ≡ some i)
    × (est_le i.ci_lower i.ci_upper ≡ true)
    × (i.incremental_per_1000 ≡ point_estimate treated_arm holdout_arm)
bootstrap_incremental-ordered_example =
    bootstrap_incremental-ordered rng treated_arm holdout_arm 80 rng-InRange
