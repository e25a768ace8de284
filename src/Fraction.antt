-- ===== src/Fraction.antt =====
-- Exact fractions, in place of the floats of the metrics.
use downtime_aware_recovery.Common.{ℕ, ◌+◌, ◌*◌, ◌≡◌, List, [], ◌∷◌, nat_eq, if◌then◌else◌}

pub record Fraction : Type 0 where
  pub num : ℕ
  pub den : ℕ

abbrev pub frac : ℕ → ℕ → Fraction
frac a b = record { num = a; den = b }

-- `a / b if b else 0.0`.
unfoldable pub ratio : ℕ → ℕ → Fraction
ratio a b = if nat_eq b 0 then frac 0 1 else frac a b

unfoldable pub plus : Fraction → Fraction → Fraction
plus a b = frac (a.num * b.den + b.num * a.den) (a.den * b.den)

unfoldable pub times : Fraction → Fraction → Fraction
times a b = frac (a.num * b.num) (a.den * b.den)

-- `a / b if b else 0.0`, of fractions.
unfoldable pub over : Fraction → Fraction → Fraction
over a b = if nat_eq b.num 0 then frac 0 1 else frac (a.num * b.den) (a.den * b.num)

unfoldable pub total : List Fraction → Fraction
total [] = frac 0 1
total (a ∷ as') = plus a (total as')

-- The two fractions are the same number.
infix 50 ◌≃◌
abbrev pub ◌≃◌ : Fraction → Fraction → Type 0
a ≃ b = a.num * b.den ≡ b.num * a.den
