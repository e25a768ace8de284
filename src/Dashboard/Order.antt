-- ===== src/Dashboard/Order.antt =====
-- The order of texts in which SQLite sorts the cases of agent/dashboard.py.
use Prim.Native.Char.{code}
use Prim.Native.Nat.{Ordering, compare as compare_nat}
use Prim.Native.String.{compare, then}
use Prim.Native.String.compare
use text.Mathlib.TextEquality.{path_by_compare}
use text.Mathlib.TextPositions.{compare_refl}
use downtime_aware_recovery.Common.{
  ℕ, String, ◌≡◌, refl, true, false, eq_iff, arith, ◌∙◌, ap, sym, subst,
}
use downtime_aware_recovery.Store.{CaseRow, Columns, text_le}
use downtime_aware_recovery.Dashboard.Transactions.{comes_first}

abbrev flip : Ordering → Ordering
flip Ordering.lt = Ordering.gt
flip Ordering.eq = Ordering.eq
flip Ordering.gt = Ordering.lt

flip-then : (o r : Ordering) → then (flip o) (flip r) ≡ flip (then o r)
flip-then Ordering.lt r = refl
flip-then Ordering.eq r = refl
flip-then Ordering.gt r = refl

compare_nat-flip : (m n : ℕ) → compare_nat n m ≡ flip (compare_nat m n)
compare_nat-flip m n = ground arith

compare-flip : (s t : String) → compare t s ≡ flip (compare s t)
compare-flip String.[] String.[] = compare.nil-nil ∙ sym (ap flip compare.nil-nil)
compare-flip String.[] (String.◌∷◌ d t) =
    compare.cons-nil d t ∙ sym (ap flip (compare.nil-cons d t))
compare-flip (String.◌∷◌ c s) String.[] =
    compare.nil-cons c s ∙ sym (ap flip (compare.cons-nil c s))
compare-flip (String.◌∷◌ c s) (String.◌∷◌ d t) =
    compare.cons-cons d c t s
    ∙ ap (λ o. then o (compare t s)) (compare_nat-flip (code c) (code d))
    ∙ ap (then (flip (compare_nat (code c) (code d)))) (compare-flip s t)
    ∙ flip-then (compare_nat (code c) (code d)) (compare s t)
    ∙ sym (ap flip (compare.cons-cons c d s t))

le_of :
    (o : Ordering)
    → (elim o [ Ordering.gt ↦ false | _ ↦ true ]) ≡ false
    → (elim (flip o) [ Ordering.gt ↦ false | _ ↦ true ]) ≡ true
le_of Ordering.lt h = cc
le_of Ordering.eq h = refl
le_of Ordering.gt h = refl

text_total : (s t : String) → text_le s t ≡ false → text_le t s ≡ true
text_total s t h = rw (compare-flip s t, text_le) (le_of (compare s t) h)

text_same : (s t : String) → s ≡ t → text_le s t ≡ true
text_same s t same = subst (λ u. text_le s u ≡ true) same (rw (compare_refl s, text_le) refl)

both_ways :
    (o : Ordering)
    → (elim o [ Ordering.gt ↦ false | _ ↦ true ]) ≡ true
    → (elim (flip o) [ Ordering.gt ↦ false | _ ↦ true ]) ≡ true
    → o ≡ Ordering.eq
both_ways Ordering.lt h g = cc
both_ways Ordering.eq h g = refl
both_ways Ordering.gt h g = cc

text_antisym : (s t : String) → text_le s t ≡ true → text_le t s ≡ true → s ≡ t
text_antisym s t h g =
    path_by_compare s t (both_ways (compare s t) h (rw (compare-flip s t, text_le) at g))

-- Of two cases at least one may stand before the other.
pub comes_first_total :
    (columns : Columns) (c d : CaseRow)
    → comes_first columns c d ≡ false
    → comes_first columns d c ≡ true
unfolding comes_first
comes_first_total columns c d h =
    let s = columns.created_at c.case_id in
    let t = columns.created_at d.case_id in
    ground (
      arith,
      eq_iff s t,
      eq_iff t s,
      text_antisym s t,
      text_total s t,
      text_total d.case_id c.case_id,
    )

-- The case `c` may stand before `d`: its text is not the smaller one, and where the texts are equal
-- its id is not.
abbrev pub IsNewer : Columns → CaseRow → CaseRow → Type 0
IsNewer columns c d =
    (text_le (columns.created_at d.case_id) (columns.created_at c.case_id) ≡ true)
    × (columns.created_at c.case_id ≡ columns.created_at d.case_id
        → text_le d.case_id c.case_id ≡ true)

pub comes_first-IsNewer :
    (columns : Columns) (c d : CaseRow) → comes_first columns c d ≡ true → IsNewer columns c d
unfolding comes_first
comes_first-IsNewer columns c d h =
    let s = columns.created_at c.case_id in
    let t = columns.created_at d.case_id in
    let either = text_total s t in
    (ground (arith, eq_iff s t, either, text_same s t), λ same. ground (arith, text_same s t same))
