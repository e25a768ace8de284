-- ===== src/Metrics/Bootstrap.antt =====
-- evalharness/metrics.py: the bootstrap interval of the incremental value, over exact fractions. An
-- estimate is a difference, (gain - loss) / den.
use downtime_aware_recovery.Common.{
  ◌∷◌, [], none, some, zero, suc, ℕ, Bool, Option, List, ◌+◌, ◌*◌, ◌/◌, ◌-◌, if◌then◌else◌, leb,
  length, max, min,
}
use downtime_aware_recovery.Fraction.{Fraction, frac}

pub record Estimate : Type 0 where
  pub gain : ℕ
  pub loss : ℕ
  pub den : ℕ

-- The amount and whether it was recovered.
abbrev pub Arm : Type 0
Arm = List (ℕ × Bool)

-- `sum(amt for amt, rec in arm if rec)`.
unfoldable pub recovered_sum : Arm → ℕ
recovered_sum [] = 0
recovered_sum ((amount, rec) ∷ arm) = (if rec then amount else 0) + recovered_sum arm

-- `max(1, len(arm))`.
abbrev pub size : Arm → ℕ
size arm = max 1 (length arm)

-- `st` and `sh`: the gross value for each case, in rupees.
unfoldable pub gross : Arm → Fraction
gross arm = frac (recovered_sum arm) (size arm * 100)

-- `(st - sh) * 1000.0`.
unfoldable pub point_estimate : Arm → Arm → Estimate
point_estimate treated holdout = record {
  gain = recovered_sum treated * size holdout * 1000;
  loss = recovered_sum holdout * size treated * 1000;
  den = size treated * size holdout * 100;
}

-- `a <= b`.
unfoldable pub est_le : Estimate → Estimate → Bool
est_le a b = leb (a.gain * b.den + b.loss * a.den) (b.gain * a.den + a.loss * b.den)

unfoldable pub get_elem? {ℓ} : {A : Type ℓ} → List A → ℕ → Option A
get_elem? [] i = none
get_elem? (x ∷ xs) zero = some x
get_elem? (x ∷ xs) (suc i) = get_elem? xs i

-- What `rng.randrange(n)` gives, by how many numbers were drawn before, and n.
abbrev pub Random : Type 0
Random = ℕ → ℕ → ℕ

-- A chain of steps any of which may raise.
infixl 5 ◌>>=◌
abbrev pub ◌>>=◌ : {A B : Type 0} → Option A → (A → Option B) → Option B
none >>= f = none
some a >>= f = f a

-- `[arm[rng.randrange(n)] for _ in range(rounds)]`; none is an IndexError.
unfoldable pub draw_arm : Random → Arm → ℕ → ℕ → Option Arm
draw_arm rng arm zero k = some []
draw_arm rng arm (suc rounds) k = do
  x ← get_elem? arm (rng k (length arm))
  rest ← draw_arm rng arm rounds (suc k)
  some (x ∷ rest)

-- One estimate of the loop.
unfoldable pub resampled : Random → Arm → Arm → ℕ → Option Estimate
resampled rng treated holdout k = do
  st ← draw_arm rng treated (length treated) k
  sh ← draw_arm rng holdout (length holdout) (k + length treated)
  some (point_estimate st sh)

-- The loop over `range(n_boot)`.
unfoldable pub resamples : Random → Arm → Arm → ℕ → ℕ → Option (List Estimate)
resamples rng treated holdout zero k = some []
resamples rng treated holdout (suc n) k = do
  e ← resampled rng treated holdout k
  rest ← resamples rng treated holdout n (k + length treated + length holdout)
  some (e ∷ rest)

-- `boots.sort()`.
unfoldable pub insert_estimate : Estimate → List Estimate → List Estimate
insert_estimate e [] = e ∷ []
insert_estimate e (d ∷ ds) =
    let rest = insert_estimate e ds in if est_le e d then e ∷ d ∷ ds else d ∷ rest

unfoldable pub sorted : List Estimate → List Estimate
sorted [] = []
sorted (e ∷ es) = insert_estimate e (sorted es)

-- The positions of the two ends among n estimates; n is not 0.
abbrev pub low_index : ℕ → ℕ
low_index n = n / 40 - 1

abbrev pub high_index : ℕ → ℕ
high_index n = min (n - 1) (39 * n / 40)

pub record Interval : Type 0 where
  pub incremental_per_1000 : Estimate
  pub ci_lower : Estimate
  pub ci_upper : Estimate
  pub gross_treated_rupees : Fraction
  pub gross_holdout_rupees : Fraction
  pub n_boot : ℕ
  pub n_treated : ℕ
  pub n_holdout : ℕ

abbrev pub interval_of : Arm → Arm → ℕ → Estimate → Estimate → Interval
interval_of treated holdout n_boot lo hi = record {
  incremental_per_1000 = point_estimate treated holdout;
  ci_lower = lo;
  ci_upper = hi;
  gross_treated_rupees = gross treated;
  gross_holdout_rupees = gross holdout;
  n_boot = n_boot;
  n_treated = length treated;
  n_holdout = length holdout;
}

-- The ends of the interval: of the sorted estimates, or the point where there are none.
unfoldable pub ends_of : Estimate → ℕ → List Estimate → Option (Estimate × Estimate)
ends_of point n [] = some (point, point)
ends_of point n (e ∷ es) = do
  lo ← get_elem? (e ∷ es) (low_index n)
  hi ← get_elem? (e ∷ es) (high_index n)
  some (lo, hi)

unfoldable pub bootstrap_incremental : Random → Arm → Arm → ℕ → Option Interval
bootstrap_incremental rng treated holdout n_boot = do
  boots ← resamples rng treated holdout n_boot 0
  (lo, hi) ← ends_of (point_estimate treated holdout) n_boot (sorted boots)
  some (interval_of treated holdout n_boot lo hi)
