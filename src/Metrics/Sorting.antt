-- ===== src/Metrics/Sorting.antt =====
-- The sorted estimates of evalharness/metrics.py, where all have one denominator.
use downtime_aware_recovery.Common.{
  ◌∷◌, [], some, zero, suc, ℕ, List, ◌+◌, ◌*◌, ◌≡◌, refl, ◌<◌, ◌≤◌, All, arith, false, length, true,
  Bool-cases, subst, inl, inr, leb,
}
use downtime_aware_recovery.Metrics.Bootstrap.{Estimate, est_le, get_elem?, insert_estimate, sorted}

-- The order on estimates with one denominator.
abbrev pub IsBelow : Estimate → Estimate → Type 0
IsBelow a b = a.gain + b.loss ≤ b.gain + a.loss

abbrev pub IsSorted : List Estimate → Type 0
IsSorted [] = Unit
IsSorted (e ∷ es) = All (IsBelow e) es × IsSorted es

some_injective : {a b : Estimate} → some a ≡ some b → a ≡ b
some_injective h = cc

cancel : (x y d : ℕ) → 0 < d → x * d ≤ y * d → x ≤ y
cancel x y d p h = grind arith

spread : (x y d : ℕ) → x ≤ y → x * d ≤ y * d
spread x y d h = grind arith

split : (x y d : ℕ) → (x + y) * d ≡ x * d + y * d
split x y d = grind arith

le_of_leb : (m n : ℕ) → leb m n ≡ true → m ≤ n
le_of_leb m n h = ground arith

ge_of_leb : (m n : ℕ) → leb m n ≡ false → n ≤ m
ge_of_leb m n h = ground arith

leb_of_le : (m n : ℕ) → m ≤ n → leb m n ≡ true
leb_of_le m n h = ground arith

unscaled : (a b c e d : ℕ) → 0 < d → a * d + b * d ≤ c * d + e * d → a + b ≤ c + e
unscaled a b c e d p h = cancel (a + b) (c + e) d p (omega (arith, split a b d, split c e d))

scaled : (a b c e d : ℕ) → a + b ≤ c + e → a * d + b * d ≤ c * d + e * d
scaled a b c e d h = omega (arith, split a b d, split c e d, spread (a + b) (c + e) d h)

module _ (d : ℕ) (positive : 0 < d) where
  est_le-IsBelow : (a b : Estimate) → a.den ≡ d → b.den ≡ d → est_le a b ≡ true → IsBelow a b
  unfolding est_le
  est_le-IsBelow a b p q h =
      unscaled a.gain b.loss b.gain a.loss d positive (rw (p, q) at (le_of_leb _ _ h))

  not-est_le : (a b : Estimate) → a.den ≡ d → b.den ≡ d → est_le a b ≡ false → IsBelow b a
  unfolding est_le
  not-est_le a b p q h =
      unscaled b.gain a.loss a.gain b.loss d positive (rw (p, q) at (ge_of_leb _ _ h))

pub IsBelow-est_le :
    (a b : Estimate) (d : ℕ) → a.den ≡ d → b.den ≡ d → IsBelow a b → est_le a b ≡ true
unfolding est_le
IsBelow-est_le a b d p q h = rw (p, q) (leb_of_le _ _ (scaled a.gain b.loss b.gain a.loss d h))

pub est_le_refl : (a : Estimate) → est_le a a ≡ true
unfolding est_le
est_le_refl a = leb_of_le _ _ (omega arith)

IsBelow-All :
    (a b : Estimate) (es : List Estimate) → IsBelow a b → All (IsBelow b) es → All (IsBelow a) es
IsBelow-All a b [] h all = tt
IsBelow-All a b (e ∷ es) h (x, all) = (omega arith, IsBelow-All a b es h all)

All-insert_estimate :
    (P : Estimate → Type 0) (e : Estimate) (es : List Estimate)
    → P e
    → All P es
    → All P (insert_estimate e es)
unfolding insert_estimate
All-insert_estimate P e [] p h = (p, tt)
All-insert_estimate P e (d ∷ ds) p (q, h) = elim (Bool-cases (est_le e d)) [
  | inl t ↦ rw t (p, (q, h))
  | inr t ↦ rw t (q, All-insert_estimate P e ds p h)
]

pub All-sorted : (P : Estimate → Type 0) (es : List Estimate) → All P es → All P (sorted es)
unfolding sorted
All-sorted P [] h = tt
All-sorted P (e ∷ es) (p, h) = All-insert_estimate P e (sorted es) p (All-sorted P es h)

length-insert_estimate :
    (e : Estimate) (es : List Estimate) → length (insert_estimate e es) ≡ suc (length es)
unfolding insert_estimate
length-insert_estimate e [] = refl
length-insert_estimate e (d ∷ ds) = ground (arith, length-insert_estimate e ds)

pub length-sorted : (es : List Estimate) → length (sorted es) ≡ length es
unfolding sorted
length-sorted [] = refl
length-sorted (e ∷ es) = omega (arith, length-insert_estimate e (sorted es), length-sorted es)

module _ (d : ℕ) (positive : 0 < d) where
  insert_estimate-IsSorted :
      (e : Estimate) (es : List Estimate)
      → e.den ≡ d
      → All (λ x. x.den ≡ d) es
      → IsSorted es
      → IsSorted (insert_estimate e es)
  unfolding insert_estimate
  insert_estimate-IsSorted e [] p h s = (tt, tt)
  insert_estimate-IsSorted e (x ∷ xs) p (q, h) (all, s) = elim (Bool-cases (est_le e x)) [
    | inl t ↦
        let below = est_le-IsBelow d positive e x p q t in
        rw t ((below, IsBelow-All e x xs below all), (all, s))
    | inr t ↦ rw t (
      All-insert_estimate (IsBelow x) e xs (not-est_le d positive e x p q t) all,
      insert_estimate-IsSorted e xs p h s,
    )
  ]

  pub sorted-IsSorted : (es : List Estimate) → All (λ x. x.den ≡ d) es → IsSorted (sorted es)
  unfolding sorted
  sorted-IsSorted [] h = tt
  sorted-IsSorted (e ∷ es) (p, h) =
      insert_estimate-IsSorted e (sorted es) p (All-sorted (λ x. x.den ≡ d) es h)
        (sorted-IsSorted es h)

pub All-get_elem? :
    (P : Estimate → Type 0) (es : List Estimate) (i : ℕ) (e : Estimate)
    → All P es
    → get_elem? es i ≡ some e
    → P e
unfolding get_elem?
All-get_elem? P [] i e h g = absurd (cc)
All-get_elem? P (x ∷ xs) zero e (p, h) g = subst P (some_injective g) p
All-get_elem? P (x ∷ xs) (suc i) e (p, h) g = All-get_elem? P xs i e h g

-- Of two places in a sorted list the later one has the larger estimate.
pub sorted_places :
    (es : List Estimate) (i j : ℕ) (a b : Estimate)
    → IsSorted es
    → i ≤ j
    → get_elem? es i ≡ some a
    → get_elem? es j ≡ some b
    → IsBelow a b
unfolding get_elem?
sorted_places [] i j a b s h p q = absurd (cc)
sorted_places (x ∷ xs) zero zero a b s h p q = (let e : a ≡ b = cc in rw e (omega arith))
sorted_places (x ∷ xs) zero (suc j) a b (all, s) h p q =
    subst (λ y. IsBelow y b) (some_injective p) (All-get_elem? (IsBelow x) xs j b all q)
sorted_places (x ∷ xs) (suc i) zero a b s h p q = absurd (omega arith)
sorted_places (x ∷ xs) (suc i) (suc j) a b (all, s) h p q =
    sorted_places xs i j a b s (omega arith) p q
