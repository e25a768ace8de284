-- ===== src/Text/Strip.antt =====
-- How stripping and slicing act on the parts of a text.
use Prim.Native.String.{[], ◌∷◌, ◌++◌, count}
use text.Mathlib.TextLemmas.{length-append, append-nil, nil-append, cons-append, length-cons}
use downtime_aware_recovery.Common.{
  ◌≡◌, ◌∙◌, ap, sym, refl, true, String, arith, ℕ, inl, inr, Bool-cases, subst, ◌&&◌, ◌+◌, eq_refl,
  ◌-◌, ◌≤◌, suc, zero,
}
use downtime_aware_recovery.Text.{
  lstrip, rstrip, strip, is_space, is_blank, has_text, take, drop, ends_with,
}

lstrip-blank : (s t : String) → is_blank s ≡ true → lstrip (s ++ t) ≡ lstrip t
unfolding lstrip
lstrip-blank [] t h = rw (nil-append t) refl
lstrip-blank (c ∷ s) t h = grind (arith, cons-append c s t, lstrip-blank s t)

rstrip-blank : (t : String) → is_blank t ≡ true → rstrip t ≡ []
unfolding rstrip
rstrip-blank [] h = refl
rstrip-blank (c ∷ t) h = elim (Bool-cases (is_space c)) [
  | inl e ↦
      let tail = rstrip-blank t (subst (λ b. (b && is_blank t) ≡ true) e h) in rw (tail, e) refl
  | inr e ↦ ground arith
]

rstrip-append_blank : (s t : String) → is_blank t ≡ true → rstrip (s ++ t) ≡ rstrip s
unfolding rstrip
rstrip-append_blank [] t h = rw (nil-append t) (rstrip-blank t h)
rstrip-append_blank (c ∷ s) t h = rw (cons-append c s t, rstrip-append_blank s t h) refl

-- White space after a text does not matter, and neither does white space before it.
pub strip-append_blank : (s t : String) → is_blank t ≡ true → strip (s ++ t) ≡ strip s
unfolding strip lstrip
strip-append_blank [] t h =
    let blank = lstrip-blank t [] h in
    rw (nil-append t) (ap rstrip (sym (ap lstrip (append-nil t)) ∙ blank))
strip-append_blank (c ∷ s) t h = elim (Bool-cases (is_space c)) [
  | inl e ↦ rw (cons-append c s t, e) (strip-append_blank s t h)
  | inr e ↦
      let solid = rstrip-append_blank (c ∷ s) t h in
      rw (e, cons-append c s t, e) (ap rstrip (sym (cons-append c s t)) ∙ solid)
]

has_text-append : (s t : String) → has_text t ≡ true → has_text (s ++ t) ≡ true
has_text-append [] t h = rw (nil-append t) h
has_text-append (c ∷ s) t h = rw (cons-append c s t) refl

-- A solid end protects everything before it.
pub rstrip-append : (s t : String) → has_text (rstrip t) ≡ true → rstrip (s ++ t) ≡ s ++ rstrip t
unfolding rstrip
rstrip-append [] t h = rw (nil-append t, nil-append (rstrip t)) refl
rstrip-append (c ∷ s) t h =
    rw
      (
        cons-append c s t,
        rstrip-append s t h,
        has_text-append s (rstrip t) h,
        cons-append c s (rstrip t),
      )
      refl

count_behind : (m n : ℕ) → m + n - n ≡ m
count_behind m n = omega arith

pub drop-append : (s t : String) → drop (count s) (s ++ t) ≡ t
unfolding drop
drop-append [] t = nil-append t
drop-append (c ∷ s) t = rw (cons-append c s t, length-cons c s) (drop-append s t)

pub take-append : (s t : String) → take (count s) (s ++ t) ≡ s
unfolding take
take-append [] t = refl
take-append (c ∷ s) t = rw (cons-append c s t, length-cons c s, take-append s t) refl

pub strip-blank_append : (s t : String) → is_blank s ≡ true → strip (s ++ t) ≡ strip t
unfolding strip
strip-blank_append s t h = ap rstrip (lstrip-blank s t h)

pub ends_with-append : (s t : String) → ends_with (s ++ t) t ≡ true
unfolding ends_with
ends_with-append s t =
    let behind = count_behind (count s) (count t) in
    rw (length-append s t, behind, drop-append s t, eq_refl t) (ground arith)

-- All but the end.
pub take-end : (s t : String) → take (count (s ++ t) - count t) (s ++ t) ≡ s
take-end s t = rw (length-append s t, count_behind (count s) (count t)) (take-append s t)

pub count-take : (n : ℕ) (s : String) → count (take n s) ≤ n
unfolding take
count-take zero s = omega arith
count-take (suc n) [] = omega arith
count-take (suc n) (c ∷ s) = rw (length-cons c (take n s)) (omega (arith, count-take n s))
