-- ===== src/Validation/Episodes.antt =====
-- The loop over the attempts of one mandate in scripts/validate_data.py, told without its list of
-- episodes.
use downtime_aware_recovery.Common.{
  ℕ, ◌≡◌, refl, List, [], ◌∷◌, true, false, Bool, nat_eq, ltb, ◌||◌, ◌-◌, ◌+◌, ◌≤◌, Option, none,
  some, ◌++◌, arith, zero, suc, if◌then◌else◌, Bool-cases, Option-cases, inl, inr, ap, subst,
}
use downtime_aware_recovery.Validation.{Failure, Finding, advance, misplaced, check_runs}

-- How often a number occurs.
unfoldable pub tally : ℕ → List ℕ → ℕ
tally k [] = 0
tally k (x ∷ xs) = let rest = tally k xs in if nat_eq x k then suc rest else rest

abbrev one : ℕ → ℕ → ℕ
one x k = if nat_eq x k then 1 else 0

-- An attempt is in place if it is a first one or if, among the attempts in place before it, its number
-- occurs less often than the number before.
abbrev pub in_place : List ℕ → ℕ → Bool
in_place seen a = nat_eq a 1 || ltb (tally a seen) (tally (a - 1) seen)

unfoldable pub by_counting : List ℕ → List Failure → List Finding
by_counting seen [] = []
by_counting seen (r ∷ rs) = elim (in_place seen r.attempt_no) [
  | true ↦ by_counting (r.attempt_no ∷ seen) rs
  | false ↦ misplaced r ∷ by_counting seen rs
]

tally_cons : (k x : ℕ) (xs : List ℕ) → tally k (x ∷ xs) ≡ one x k + tally k xs
unfolding tally
tally_cons k x xs = ground arith

tally_snoc : (k x : ℕ) (xs : List ℕ) → tally k (xs ++ x ∷ []) ≡ tally k xs + one x k
unfolding tally
tally_snoc k x [] = ground arith
tally_snoc k x (y ∷ ys) = ground (arith, tally_snoc k x ys)

-- What a search for the episode comes to.
abbrev Step : ℕ → List ℕ → Option (List ℕ) → Type 0
Step a runs none = tally a runs ≡ 0
Step a runs (some runs') =
    (1 ≤ tally a runs) × ((k : ℕ) → tally k runs' + one a k ≡ tally k runs + one (suc a) k)

Step-here : (a x : ℕ) (xs : List ℕ) → nat_eq x a ≡ true → Step a (x ∷ xs) (some (suc a ∷ xs))
unfolding tally
Step-here a x xs here = (ground arith, λ k. ground arith)

abbrev kept_first : ℕ → Option (List ℕ) → Option (List ℕ)
kept_first x none = none
kept_first x (some runs) = some (x ∷ runs)

Step-later :
    (a x : ℕ) (xs : List ℕ) (o : Option (List ℕ))
    → nat_eq x a ≡ false
    → Step a xs o
    → Step a (x ∷ xs) (kept_first x o)
unfolding tally
Step-later a x xs none other h = ground arith
Step-later a x xs (some runs') other (waits, moved) =
    (ground arith, λ k. let h = moved k in ground arith)

advance-Step : (a : ℕ) (runs : List ℕ) → Step a runs (advance a runs)
unfolding advance tally
advance-Step a [] = refl
advance-Step a (x ∷ xs) = elim (Bool-cases (nat_eq x a)) [
  | inl here ↦ rw here (Step-here a x xs here)
  | inr other ↦ rw other (Step-later a x xs (advance a xs) other (advance-Step a xs))
]

-- The episodes that expect a number are the attempts before it that nothing has followed.
record Balanced (runs seen : List ℕ) : Type 0 where
  none_zero : tally 0 runs ≡ 0
  none_first : tally 1 runs ≡ 0
  waiting : (k : ℕ) → tally (suc (suc k)) runs + tally (suc (suc k)) seen ≡ tally (suc k) seen

follows :
    (runs seen : List ℕ)
    → Balanced runs seen
    → (a : ℕ) → nat_eq a 1 ≡ false
    → ltb (tally a seen) (tally (a - 1) seen) ≡ ltb 0 (tally a runs)
follows runs seen b zero other = let h = b.none_zero in ground arith
follows runs seen b (suc zero) other = ground arith
follows runs seen b (suc (suc k)) other = let h = b.waiting k in ground arith

first-Balanced :
    (a : ℕ) (runs seen : List ℕ)
    → Balanced runs seen
    → nat_eq a 1 ≡ true
    → Balanced (runs ++ 2 ∷ []) (a ∷ seen)
first-Balanced a runs seen b first = record {
  none_zero = rw (tally_snoc 0 2 runs) (ground (arith, b.none_zero));
  none_first = rw (tally_snoc 1 2 runs) (ground (arith, b.none_first));
  waiting = λ k.
      let h = b.waiting k in
      rw
        (
          tally_snoc (suc (suc k)) 2 runs,
          tally_cons (suc (suc k)) a seen,
          tally_cons (suc k) a seen,
        )
        (ground arith);
}

-- An episode that expects the number 1 does not arise.
next_first :
    (a : ℕ) (runs runs' : List ℕ)
    → tally 0 runs ≡ 0
    → tally 1 runs ≡ 0
    → Step a runs (some runs')
    → tally 1 runs' ≡ 0
next_first zero runs runs' z f (waits, moved) = ground arith
next_first (suc a) runs runs' z f (waits, moved) = let h = moved 1 in ground arith

next-Balanced :
    (a : ℕ) (runs runs' seen : List ℕ)
    → Balanced runs seen
    → nat_eq a 1 ≡ false
    → Step a runs (some runs')
    → Balanced runs' (a ∷ seen)
next-Balanced a runs runs' seen b other (some_wait, moved) = record {
  none_zero = let h = moved 0 in let z = b.none_zero in ground arith;
  none_first = next_first a runs runs' b.none_zero b.none_first (some_wait, moved);
  waiting = λ k.
      let h = b.waiting k in
      let g = moved (suc (suc k)) in
      let here = tally_cons (suc (suc k)) a seen in
      let below = tally_cons (suc k) a seen in ground arith;
}

check_runs-Balanced :
    (rs : List Failure) (runs seen : List ℕ)
    → Balanced runs seen
    → check_runs runs rs ≡ by_counting seen rs
unfolding check_runs by_counting
check_runs-Balanced [] runs seen b = refl
check_runs-Balanced (r ∷ rs) runs seen b =
    let a = r.attempt_no in
    elim (Bool-cases (nat_eq a 1)) [
      | inl first ↦
          let started : Balanced (runs ++ 2 ∷ []) (a ∷ seen) = first-Balanced a runs seen b first in
          rw (first, check_runs, by_counting)
            (check_runs-Balanced rs (runs ++ 2 ∷ []) (a ∷ seen) started)
      | inr other ↦
          let e : ltb (tally a seen) (tally (a - 1) seen) ≡ ltb 0 (tally a runs) =
            follows runs seen b a other in
          elim (Option-cases (advance a runs)) [
            | inl lost ↦
                let nothing : tally a runs ≡ 0 = subst (Step a runs) lost (advance-Step a runs) in
                rw (other, e, lost, nothing, check_runs, by_counting)
                  (ap (λ fs. misplaced r ∷ fs) (check_runs-Balanced rs runs seen b))
            | inr (runs', found) ↦
                let step : Step a runs (some runs') =
                  subst (Step a runs) found (advance-Step a runs) in
                let waits : ltb 0 (tally a runs) ≡ true = let h = step.0 in ground arith in
                rw (other, e, found, waits, check_runs, by_counting)
                  (check_runs-Balanced rs runs' (a ∷ seen)
                    (next-Balanced a runs runs' seen b other step))
          ]
    ]

-- The loop reports exactly the attempts that counting finds out of place: those that are not first ones
-- and whose number occurs, among the attempts in place before, as often as the number before it.
pub check_runs-counts : (records : List Failure) → check_runs [] records ≡ by_counting [] records
unfolding tally
check_runs-counts records =
    check_runs-Balanced records [] []
      (record { none_zero = refl; none_first = refl; waiting = λ k. refl })
