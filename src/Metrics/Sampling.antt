-- ===== src/Metrics/Sampling.antt =====
-- The resamples of evalharness/metrics.py: none fails, and all have the denominator of the point.
use downtime_aware_recovery.Common.{
  ◌∷◌, [], some, zero, suc, ℕ, Option, List, ◌+◌, ◌*◌, ◌≡◌, refl, ◌<◌, max, length, arith, All, ap,
  ◌∙◌,
}
use downtime_aware_recovery.Metrics.Bootstrap.{
  ◌>>=◌, Random, get_elem?, Arm, resampled, resamples, Estimate, point_estimate, draw_arm,
}

pub >>=-some :
    {A B : Type 0} (m : Option A) (f : A → Option B) (a : A) (o : Option B)
    → m ≡ some a
    → f a ≡ o
    → (m >>= f) ≡ o
>>=-some m f a o e h = ap (λ n. n >>= f) e ∙ h

-- What `randrange` promises: a number below its argument.
abbrev pub InRange : Random → Type 0
InRange rng = (k n : ℕ) → 0 < n → rng k n < n

pub get_elem?-in_range {ℓ} :
    {A : Type ℓ} (xs : List A) (i : ℕ) → i < length xs → (x : A) × (get_elem? xs i ≡ some x)
unfolding get_elem?
get_elem?-in_range [] i h = absurd (omega arith)
get_elem?-in_range (x ∷ xs) zero h = (x, refl)
get_elem?-in_range (x ∷ xs) (suc i) h = get_elem?-in_range xs i (omega arith)

-- The denominator of an estimate of the two arms, for their lengths.
abbrev pub den_for : ℕ → ℕ → ℕ
den_for nt nh = max 1 nt * max 1 nh * 100

module _ (rng : Random) (fair : InRange rng) where
  draw_arm-returns :
      (arm : Arm) (rounds k : ℕ)
      → 0 < length arm
      → (ys : Arm) × (draw_arm rng arm rounds k ≡ some ys) × (length ys ≡ rounds)
  unfolding draw_arm
  draw_arm-returns arm zero k h = ([], refl, refl)
  draw_arm-returns arm (suc rounds) k h =
      let (x, found) = get_elem?-in_range arm (rng k (length arm)) (fair k (length arm) h) in
      let (ys, drawn, size) = draw_arm-returns arm rounds (suc k) h in
      (x ∷ ys, (>>=-some _ _ x _ found (>>=-some _ _ ys _ drawn refl)), omega (arith, size))

  -- An arm without cases is drawn from no times.
  draw_arm-whole :
      (arm : Arm) (k : ℕ)
      → (ys : Arm) × (draw_arm rng arm (length arm) k ≡ some ys) × (length ys ≡ length arm)
  unfolding draw_arm
  draw_arm-whole [] k = ([], refl, refl)
  draw_arm-whole (x ∷ xs) k = draw_arm-returns (x ∷ xs) (length (x ∷ xs)) k (omega arith)

  module _ (treated holdout : Arm) where
    resampled-returns :
        (k : ℕ)
        → (e : Estimate) × (resampled rng treated holdout k ≡ some e)
          × (e.den ≡ den_for (length treated) (length holdout))
    unfolding resampled point_estimate
    resampled-returns k =
        let (st, drawn, size) = draw_arm-whole treated k in
        let (sh, drawn', size') = draw_arm-whole holdout (k + length treated) in
        (
          point_estimate st sh,
          (>>=-some _ _ st _ drawn (>>=-some _ _ sh _ drawn' refl)),
          rw (size, size') refl,
        )

    pub resamples-returns :
        (n k : ℕ)
        → (es : List Estimate) × (resamples rng treated holdout n k ≡ some es)
          × (length es ≡ n)
          × All (λ e. e.den ≡ den_for (length treated) (length holdout)) es
    unfolding resamples
    resamples-returns zero k = ([], refl, refl, tt)
    resamples-returns (suc n) k =
        let (e, one, den) = resampled-returns k in
        let (es, rest, size, dens) = resamples-returns n (k + length treated + length holdout) in
        (
          e ∷ es,
          (>>=-some _ _ e _ one (>>=-some _ _ es _ rest refl)),
          omega (arith, size),
          (den, dens),
        )
