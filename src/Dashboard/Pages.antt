-- ===== src/Dashboard/Pages.antt =====
-- The pages of the list of cases in agent/dashboard.py.
use downtime_aware_recovery.Common.{
  subst, ◌∙◌, ◌∷◌, [], zero, suc, ℕ, List, ◌≡◌, refl, ◌+◌, ◌++◌, All, Bool-cases, length, true, ap,
  arith, inl, inr, sym,
}
use mathlib.Core.List.{Perm}
use mathlib.Core.List.Perm
use downtime_aware_recovery.Dashboard.Order.{IsNewer, comes_first-IsNewer, comes_first_total}
use downtime_aware_recovery.Store.{CaseRow, Columns}
use downtime_aware_recovery.Dashboard.Transactions.{
  comes_first, insert_case, matching, newest_first, skip, Query, is_match, page,
}
use downtime_aware_recovery.Dashboard.{take, Sqlite}

zero_plus : (n : ℕ) → 0 + n ≡ n
zero_plus n = omega arith

suc_plus : (m n : ℕ) → suc m + n ≡ suc (m + n)
suc_plus m n = omega arith

module _ {A : Type 0} where
  take-nil : (n : ℕ) → take {A = A} n [] ≡ []
  unfolding take
  take-nil zero = refl
  take-nil (suc n) = refl

  skip-nil : (n : ℕ) → skip {A = A} n [] ≡ []
  unfolding skip
  skip-nil zero = refl
  skip-nil (suc n) = refl

  take-append_rest : (l m : ℕ) (xs : List A) → take l xs ++ take m (skip l xs) ≡ take (l + m) xs
  unfolding take skip
  take-append_rest zero m xs = rw (zero_plus m)
  take-append_rest (suc l) m [] = rw (take-nil m, take-nil (suc l + m))
  take-append_rest (suc l) m (x ∷ xs) =
      rw (suc_plus l m) (ap (λ ys. x ∷ ys) (take-append_rest l m xs))

  skip-skip : (o l : ℕ) (xs : List A) → skip l (skip o xs) ≡ skip (o + l) xs
  unfolding skip
  skip-skip zero l xs = rw (zero_plus l)
  skip-skip (suc o) l [] = rw (skip-nil l, skip-nil (suc o + l))
  skip-skip (suc o) l (x ∷ xs) = rw (suc_plus o l) (skip-skip o l xs)

  take-all : (xs : List A) → take (length xs) xs ≡ xs
  unfolding take
  take-all [] = refl
  take-all (x ∷ xs) = ap (λ ys. x ∷ ys) (take-all xs)

  take_all-Perm : (n : ℕ) (xs ys : List A) → n ≡ length xs → Perm xs ys → Perm (take n xs) ys
  take_all-Perm n xs ys e p =
      subst (λ k. Perm (take k xs) ys) (sym e) (subst (λ zs. Perm zs ys) (sym (take-all xs)) p)

  module _ (P : A → Type 0) where
    All-take : (n : ℕ) (xs : List A) → All P xs → All P (take n xs)
    unfolding take
    All-take zero xs h = tt
    All-take (suc n) [] h = tt
    All-take (suc n) (x ∷ xs) (p, h) = (p, All-take n xs h)

    All-skip : (n : ℕ) (xs : List A) → All P xs → All P (skip n xs)
    unfolding skip
    All-skip zero xs h = h
    All-skip (suc n) [] h = tt
    All-skip (suc n) (x ∷ xs) (p, h) = All-skip n xs h

-- Later texts of `created_at` stand first, and of equal ones the greater id.
abbrev pub Leads : Columns → CaseRow → List CaseRow → Type 0
Leads columns c [] = Unit
Leads columns c (d ∷ ds) = IsNewer columns c d

abbrev pub IsNewestFirst : Columns → List CaseRow → Type 0
IsNewestFirst columns [] = Unit
IsNewestFirst columns (c ∷ cs) = Leads columns c cs × IsNewestFirst columns cs

module _ (columns : Columns) where
  insert_case-Perm : (c : CaseRow) (cs : List CaseRow) → Perm (insert_case columns c cs) (c ∷ cs)
  unfolding insert_case
  insert_case-Perm c [] = Perm.refl (c ∷ [])
  insert_case-Perm c (d ∷ ds) = elim (Bool-cases (comes_first columns c d)) [
    | inl e ↦ rw e (Perm.refl (c ∷ d ∷ ds))
    | inr e ↦ rw e (Perm.trans (Perm.cons d (insert_case-Perm c ds)) (Perm.swap c d ds))
  ]

  newest_first-Perm : (cs : List CaseRow) → Perm (newest_first columns cs) cs
  unfolding newest_first
  newest_first-Perm [] = Perm.refl []
  newest_first-Perm (c ∷ cs) =
      Perm.trans (insert_case-Perm c (newest_first columns cs)) (Perm.cons c (newest_first-Perm cs))

  length-insert_case :
      (c : CaseRow) (cs : List CaseRow) → length (insert_case columns c cs) ≡ suc (length cs)
  unfolding insert_case
  length-insert_case c [] = refl
  length-insert_case c (d ∷ ds) = elim (Bool-cases (comes_first columns c d)) [
    | inl e ↦ rw e refl
    | inr e ↦ rw e (ap suc (length-insert_case c ds))
  ]

  length-newest_first : (cs : List CaseRow) → length (newest_first columns cs) ≡ length cs
  unfolding newest_first
  length-newest_first [] = refl
  length-newest_first (c ∷ cs) =
      length-insert_case c (newest_first columns cs) ∙ ap suc (length-newest_first cs)

  insert_case-All :
      (P : CaseRow → Type 0) (c : CaseRow) (cs : List CaseRow)
      → P c
      → All P cs
      → All P (insert_case columns c cs)
  unfolding insert_case
  insert_case-All P c [] p h = (p, tt)
  insert_case-All P c (d ∷ ds) p (q, h) = elim (Bool-cases (comes_first columns c d)) [
    | inl e ↦ rw e (p, (q, h))
    | inr e ↦ rw e (q, insert_case-All P c ds p h)
  ]

  newest_first-All :
      (P : CaseRow → Type 0) (cs : List CaseRow) → All P cs → All P (newest_first columns cs)
  unfolding newest_first
  newest_first-All P [] h = tt
  newest_first-All P (c ∷ cs) (p, h) =
      insert_case-All P c (newest_first columns cs) p (newest_first-All P cs h)

  Leads-insert_case :
      (d c : CaseRow) (cs : List CaseRow)
      → IsNewer columns d c
      → Leads columns d cs
      → Leads columns d (insert_case columns c cs)
  unfolding insert_case
  Leads-insert_case d c [] h l = h
  Leads-insert_case d c (e ∷ es) h l = elim (Bool-cases (comes_first columns c e)) [
    | inl t ↦ rw t h
    | inr t ↦ rw t l
  ]

  insert_case-IsNewestFirst :
      (c : CaseRow) (cs : List CaseRow)
      → IsNewestFirst columns cs
      → IsNewestFirst columns (insert_case columns c cs)
  unfolding insert_case
  insert_case-IsNewestFirst c [] h = (tt, tt)
  insert_case-IsNewestFirst c (d ∷ ds) (l, h) = elim (Bool-cases (comes_first columns c d)) [
    | inl e ↦ rw e (comes_first-IsNewer columns c d e, (l, h))
    | inr e ↦ rw e (
      Leads-insert_case d c ds (comes_first-IsNewer columns d c (comes_first_total columns c d e))
          l,
      insert_case-IsNewestFirst c ds h,
    )
  ]

  newest_first-IsNewestFirst : (cs : List CaseRow) → IsNewestFirst columns (newest_first columns cs)
  unfolding newest_first
  newest_first-IsNewestFirst [] = tt
  newest_first-IsNewestFirst (c ∷ cs) =
      insert_case-IsNewestFirst c (newest_first columns cs) (newest_first-IsNewestFirst cs)

  Leads-take :
      (c : CaseRow) (n : ℕ) (cs : List CaseRow) → Leads columns c cs → Leads columns c (take n cs)
  unfolding take
  Leads-take c zero cs l = tt
  Leads-take c (suc n) [] l = tt
  Leads-take c (suc n) (d ∷ ds) l = l

  take-IsNewestFirst :
      (n : ℕ) (cs : List CaseRow) → IsNewestFirst columns cs → IsNewestFirst columns (take n cs)
  unfolding take
  take-IsNewestFirst zero cs h = tt
  take-IsNewestFirst (suc n) [] h = tt
  take-IsNewestFirst (suc n) (c ∷ cs) (l, h) = (Leads-take c n cs l, take-IsNewestFirst n cs h)

  skip-IsNewestFirst :
      (n : ℕ) (cs : List CaseRow) → IsNewestFirst columns cs → IsNewestFirst columns (skip n cs)
  unfolding skip
  skip-IsNewestFirst zero cs h = h
  skip-IsNewestFirst (suc n) [] h = tt
  skip-IsNewestFirst (suc n) (c ∷ cs) (l, h) = skip-IsNewestFirst n cs h

matching-All :
    (sql : Sqlite) (q : Query) (cs : List CaseRow)
    → All (λ c. is_match sql q c ≡ true) (matching sql q cs)
unfolding matching
matching-All sql q [] = tt
matching-All sql q (c ∷ cs) = elim (Bool-cases (is_match sql q c)) [
  | inl e ↦ rw e (e, matching-All sql q cs)
  | inr e ↦ rw e (matching-All sql q cs)
]

-- Limit and offset do not change which cases match.
matching-paged :
    (sql : Sqlite) (q : Query) (l o : ℕ) (cs : List CaseRow)
    → matching sql (record q { limit = l; offset = o }) cs ≡ matching sql q cs
unfolding matching is_match
matching-paged sql q l o [] = refl
matching-paged sql q l o (c ∷ cs) = rw (matching-paged sql q l o cs) refl

-- Every case on a page matches the filters. A page is in the order of the texts of `created_at`, the
-- latest first, and of the ids among equal ones. Two pages one after the other are one longer page, so
-- that none is lost or shown twice between them; and a page as long as the total is a permutation of
-- the cases that match.
pub page-continues :
    (sql : Sqlite) (q : Query) (m : ℕ) (cases : List CaseRow)
    → All (λ c. is_match sql q c ≡ true) (page sql q cases)
      × IsNewestFirst sql.columns (page sql q cases)
      × (page sql q cases ++ page sql (record q { limit = m; offset = q.offset + q.limit }) cases
          ≡ page sql (record q { limit = q.limit + m; offset = q.offset }) cases)
      × Perm
          (page sql (record q { limit = length (matching sql q cases); offset = 0 }) cases)
          (matching sql q cases)
unfolding page skip
page-continues sql q m cases =
    let rows = matching sql q cases in
    let match = λ (c : CaseRow). is_match sql q c ≡ true in
    let ordered = newest_first sql.columns rows in
    (
      All-take match q.limit _ (
          All-skip match q.offset _
            (newest_first-All sql.columns match rows (matching-All sql q cases))),
      take-IsNewestFirst sql.columns q.limit _
          (skip-IsNewestFirst sql.columns q.offset _ (newest_first-IsNewestFirst sql.columns rows)),
      rw
          (
            matching-paged sql q m (q.offset + q.limit) cases,
            matching-paged sql q (q.limit + m) q.offset cases,
            ← skip-skip q.offset q.limit ordered,
          )
          (take-append_rest q.limit m (skip q.offset ordered)),
      rw (matching-paged sql q (length rows) 0 cases) (
          take_all-Perm (length rows) ordered rows (sym (length-newest_first sql.columns rows))
            (newest_first-Perm sql.columns rows)),
    )
