-- ===== src/Dashboard/Grouping.antt =====
-- Sums over groups, and the rounding of percentages, for agent/dashboard.py.
use downtime_aware_recovery.Common.{
  ◌∷◌, [], ℕ, String, Bool, List, ◌==◌, ◌≡◌, refl, ◌≤◌, ◌+◌, ◌<◌, if◌then◌else◌, or_default, ◌*◌,
  arith, length, lookup, ◌/◌, eq_iff, ◌%◌, Bool-cases, ltb, false, inl, nat_eq, sym, inr,
}
use downtime_aware_recovery.Metrics.{count_if}
use downtime_aware_recovery.Dashboard.{
  group_by, insert_group, nearest, percentage, sum_by, rounded, summary,
}

module _ {A : Type 0} where
  -- The sum of a function of the groups.
  unfoldable pub over_groups : (List A → ℕ) → List (String × List A) → ℕ
  over_groups f [] = 0
  over_groups f ((k, xs) ∷ m) = f xs + over_groups f m

  unfoldable pub members : (A → Bool) → List A → List A
  members p [] = []
  members p (x ∷ xs) = let rest = members p xs in if p x then x ∷ rest else rest

  over_groups-insert_group :
      (f : A → ℕ) (k : String) (x : A) (m : List (String × List A))
      → over_groups (sum_by f) (insert_group k x m) ≡ f x + over_groups (sum_by f) m
  unfolding over_groups sum_by insert_group
  over_groups-insert_group f k x [] = omega arith
  over_groups-insert_group f k x ((j, ys) ∷ m) = ground (arith, over_groups-insert_group f k x m)

  -- Nothing is lost or counted twice.
  pub over_groups-group_by :
      (f : A → ℕ) (key : A → String) (xs : List A)
      → over_groups (sum_by f) (group_by key xs) ≡ sum_by f xs
  unfolding over_groups group_by sum_by
  over_groups-group_by f key [] = refl
  over_groups-group_by f key (x ∷ xs) =
      rw (over_groups-insert_group f (key x) x (group_by key xs))
        (omega (arith, over_groups-group_by f key xs))

  -- The group of a key, empty if there is none.
  abbrev pub group_at : String → List (String × List A) → List A
  group_at k m = or_default [] (lookup k m)

  group_at-insert_group :
      (i k : String) (x : A) (m : List (String × List A))
      → group_at i (insert_group k x m) ≡ (if k == i then x ∷ group_at i m else group_at i m)
  unfolding insert_group
  group_at-insert_group i k x [] = ground (arith, eq_iff i k, eq_iff k i)
  group_at-insert_group i k x ((j, ys) ∷ m) =
      ground (arith, eq_iff i k, eq_iff k i, eq_iff i j, eq_iff k j, group_at-insert_group i k x m)

  -- The group of a key has the rows with the key, in their order.
  pub group_at-group_by :
      (key : A → String) (k : String) (xs : List A)
      → group_at k (group_by key xs) ≡ members (λ x. key x == k) xs
  unfolding group_by members
  group_at-group_by key k [] = refl
  group_at-group_by key k (x ∷ xs) =
      rw (group_at-insert_group k (key x) x (group_by key xs), group_at-group_by key k xs) refl

  pub length-members : (p : A → Bool) (xs : List A) → length (members p xs) ≡ count_if p xs
  unfolding members count_if
  length-members p [] = refl
  length-members p (x ∷ xs) = ground (arith, length-members p xs)

  pub length-sum : (xs : List A) → length xs ≡ sum_by (λ x. 1) xs
  unfolding sum_by
  length-sum [] = refl
  length-sum (x ∷ xs) = omega (arith, length-sum xs)

  pub count_if-le-length : (p : A → Bool) (xs : List A) → count_if p xs ≤ length xs
  unfolding count_if
  count_if-le-length p [] = omega arith
  count_if-le-length p (x ∷ xs) = ground (arith, count_if-le-length p xs)

  pub sum_by_mono :
      (f g : A → ℕ) → ((x : A) → f x ≤ g x) → (xs : List A) → sum_by f xs ≤ sum_by g xs
  unfolding sum_by
  sum_by_mono f g h [] = omega arith
  sum_by_mono f g h (x ∷ xs) = omega (arith, h x, sum_by_mono f g h xs)

quotient_bound : (n d k : ℕ) → 0 < d → n ≤ k * d → n / d ≤ k
quotient_bound n d k p h = grind arith

no_remainder : (n d k : ℕ) → 0 < d → n ≤ k * d → n / d ≡ k → n % d ≡ 0
no_remainder n d k p h e = grind arith

ltb_ge : (m n : ℕ) → ltb m n ≡ false → n ≤ m
ltb_ge m n h = ground arith

nearest_bound : (n d k : ℕ) → 0 < d → n ≤ k * d → nearest n d ≤ k
unfolding nearest
nearest_bound n d k p h = elim (Bool-cases (ltb (n / d) k)) [
  | inl e ↦ ground arith
  | inr e ↦
      let top : n / d ≡ k = omega (arith, quotient_bound n d k p h, ltb_ge (n / d) k e) in
      let exact = no_remainder n d k p h top in ground arith
]

pub percentage_bound : (part whole : ℕ) → part ≤ whole → percentage 10000 part whole ≤ 100000000
unfolding percentage rounded
percentage_bound part whole h = elim (Bool-cases (nat_eq whole 0)) [
  | inl e ↦ rw e (omega arith)
  | inr e ↦
      let positive : 0 < whole * 10000 = ground arith in
      rw e (
        omega
          (arith, nearest_bound (part * 100000000) (whole * 10000) 10000 positive (omega arith)))
]

-- The sum of a number of the entries of a summary.
unfoldable pub over_entries : {B : Type 0} → (B → ℕ) → List (String × B) → ℕ
over_entries g [] = 0
over_entries g ((k, b) ∷ m) = g b + over_entries g m

module _ {A B : Type 0} where
  pub over_entries-summary :
      (g : B → ℕ) (e : List A → B) (f : A → ℕ)
      → ((xs : List A) → g (e xs) ≡ sum_by f xs)
      → (m : List (String × List A)) → over_entries g (summary e m) ≡ over_groups (sum_by f) m
  unfolding over_entries over_groups
  over_entries-summary g e f h [] = refl
  over_entries-summary g e f h ((k, xs) ∷ m) = omega (arith, h xs, over_entries-summary g e f h m)

  pub lookup-summary :
      (d : B) (e : List A → B) (k : String) (m : List (String × List A))
      → e [] ≡ d
      → or_default d (lookup k (summary e m)) ≡ e (group_at k m)
  lookup-summary d e k [] h = sym h
  lookup-summary d e k ((j, xs) ∷ m) h = elim (Bool-cases (k == j)) [
    | inl t ↦ rw t refl
    | inr t ↦ rw t (lookup-summary d e k m h)
  ]
