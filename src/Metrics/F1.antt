-- ===== src/Metrics/F1.antt =====
-- The F1 score of evalharness/metrics.py.
use native.Mathlib.Nat.{
  suc-add, mul_assoc, mul-add, mul_left_comm, zero-mul, one-mul, suc-mul, add_comm,
}
use downtime_aware_recovery.Common.{
  ℕ, zero, suc, ◌+◌, ◌*◌, ◌≡◌, refl, subst, sym, ◌∙◌, ap, String, nat_eq, arith, false,
}
use downtime_aware_recovery.Fraction.{Fraction, frac, ratio, plus, times, over, ◌≃◌}
use downtime_aware_recovery.Metrics.{
  f1_of, class_score, Scored, true_positives, false_positives, false_negatives,
}

-- Twice the hits among all that are claimed and all that there are.
abbrev pub dice : ℕ → ℕ → ℕ → Fraction
dice tp fp fn = ratio (2 * tp) (2 * tp + fp + fn)

over-zero : (a b : Fraction) → b.num ≡ 0 → over a b ≡ frac 0 1
unfolding over
over-zero a b h = rw h refl

ratio-zero : (n : ℕ) → (ratio 0 n).num ≡ 0
unfolding ratio
ratio-zero n = ground arith

plus-zero : (a b : Fraction) → a.num ≡ 0 → b.num ≡ 0 → (plus a b).num ≡ 0
unfolding plus
plus-zero a b h k = rw (h, k, zero-mul b.den, zero-mul a.den) refl

missed : (a b c : ℕ) → f1_of (ratio 0 a) (ratio 0 b) ≃ ratio 0 c
unfolding f1_of
missed a b c =
    let none_hit =
      over-zero (times (times (frac 2 1) (ratio 0 a)) (ratio 0 b)) (plus (ratio 0 a) (ratio 0 b))
        (plus-zero (ratio 0 a) (ratio 0 b) (ratio-zero a) (ratio-zero b)) in
    rw (none_hit, ratio-zero c) (zero-mul (ratio 0 c).den)

-- The two products that the claim compares.
same_products : (t a b : ℕ) → 2 * t * t * (a * b) * (a + b) ≡ 2 * t * (1 * a * b * (t * b + t * a))
same_products t a b =
    let inner : 1 * a * b * (t * b + t * a) ≡ t * (a * b * (a + b)) =
      rw (one-mul a, ← mul-add t b a, mul_left_comm (a * b) t (b + a), add_comm b a) refl in
    mul_assoc (2 * t * t) (a * b) (a + b)
    ∙ mul_assoc (2 * t) t (a * b * (a + b))
    ∙ ap (λ x. 2 * t * x) (sym inner)

product-positive : (t a b : ℕ) → nat_eq (suc t * suc b + suc t * suc a) 0 ≡ false
product-positive t a b = rw (suc-mul t (suc b)) (ground arith)

hit :
    (t a b : ℕ)
    → f1_of (frac (suc t) (suc a)) (frac (suc t) (suc b)) ≃ frac (2 * suc t) (suc a + suc b)
unfolding f1_of over times plus
hit t a b = rw (product-positive t a b) (same_products (suc t) (suc a) (suc b))

ratio-suc : (a b : ℕ) → ratio a (suc b) ≡ frac a (suc b)
unfolding ratio
ratio-suc a b = ground arith

f1-dice : (tp fp fn : ℕ) → f1_of (ratio tp (tp + fp)) (ratio tp (tp + fn)) ≃ dice tp fp fn
f1-dice zero fp fn = missed (0 + fp) (0 + fn) (2 * 0 + fp + fn)
f1-dice (suc t) fp fn =
    let all : 2 * suc t + fp + fn ≡ suc (t + fp) + suc (t + fn) = (omega arith) in
    let positive : suc (t + fp) + suc (t + fn) ≡ suc (t + fp + suc (t + fn)) = (omega arith) in
    rw
      (
        all,
        positive,
        suc-add t fp,
        suc-add t fn,
        ratio-suc (suc t) (t + fp),
        ratio-suc (suc t) (t + fn),
        ratio-suc (2 * suc t) (t + fp + suc (t + fn)),
      )
      (subst
        (λ d.
          f1_of (frac (suc t) (suc (t + fp))) (frac (suc t) (suc (t + fn))) ≃ frac (2 * suc t) d)
        positive (hit t (t + fp) (t + fn)))

-- The F1 score that is computed for a class, from precision and recall and with 0 where one of the
-- divisors is 0, is the number 2 tp / (2 tp + fp + fn), and 0 if there are no true positives, no false
-- positives and no false negatives.
class_score-dice :
    (pairs : Scored) (label : String)
    → (class_score pairs label).f1
      ≃ dice
          (true_positives label pairs)
          (false_positives label pairs)
          (false_negatives label pairs)
unfolding class_score
class_score-dice pairs label =
    f1-dice (true_positives label pairs) (false_positives label pairs) (false_negatives label pairs)
