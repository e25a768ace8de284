-- ===== src/Logger/Open.antt =====
-- What `sanitize_data` of agent/logger.py keeps: the values under keys that are not sensitive.
use downtime_aware_recovery.Common.{
  ◌∷◌, Option-cases, Bool-cases, ◌≡◌, refl, List, String, any, Option, some, false, none, ◌==◌, [],
  inl, inr, Bool, true, ◌||◌, eq_iff,
}
use downtime_aware_recovery.Logger.{
  sanitize_data, Redactor, sanitize_fields, is_sensitive, sanitize_items,
}
use downtime_aware_recovery.Models.Json.{
  find_field, get, Json, Fields, bool, field, int, real, str, end, message, arr, obj, Items, cons,
  null, nil,
}

abbrev inside : Option Json → (Json → Option Json) → Option Json
inside none f = none
inside (some j) f = f j

-- The value at a path of keys.
unfoldable pub value_at : List String → Json → Option Json
value_at [] j = some j
value_at (k ∷ ks) (obj fs) = inside (find_field k fs) (value_at ks)
value_at (k ∷ ks) _ = none

ors_false : (a b : Bool) → a || b ≡ false → (a ≡ false) × (b ≡ false)
ors_false true b h = cc
ors_false false b h = (refl, h)

found_here :
    (k l : String) (j v : Json) (fs : Fields)
    → k == l ≡ true
    → find_field k (field l j fs) ≡ some v
    → j ≡ v
found_here k l j v fs e h = cc (rw e at h)

find_field-sanitize :
    (r : Redactor) (k : String) (fs : Fields) (v : Json)
    → find_field k fs ≡ some v
    → find_field k (sanitize_fields r fs) ≡ some (sanitize_data r (some k) v)
unfolding sanitize_data
find_field-sanitize r k end v h = cc
find_field-sanitize r k (field l j fs) v h = elim (Bool-cases (k == l)) [
  | inl e ↦ rw e (cc ((eq_iff k l).0 e, found_here k l j v fs e h))
  | inr e ↦ rw e (find_field-sanitize r k fs v (rw e at h))
]

mutual
  unfolding sanitize_data

  -- A key matters only if it is sensitive.
  data-open :
      (r : Redactor) (k : String) (j : Json)
      → is_sensitive k ≡ false
      → sanitize_data r (some k) j ≡ sanitize_data r none j
  data-open r k null h = refl
  data-open r k (bool b) h = rw h refl
  data-open r k (int n) h = rw h refl
  data-open r k (real x) h = rw h refl
  data-open r k (str s) h = rw h refl
  data-open r k (message m) h = rw h refl
  data-open r k (arr js) h = rw (h, items-open r k js h) refl
  data-open r k (obj fs) h = rw h refl

  items-open :
      (r : Redactor) (k : String) (js : Items)
      → is_sensitive k ≡ false
      → sanitize_items r (some k) js ≡ sanitize_items r none js
  items-open r k nil h = refl
  items-open r k (cons j js) h = rw (data-open r k j h, items-open r k js h) refl

-- The value at a path without a sensitive key is the original value there, sanitized.
pub value_at-sanitize :
    (r : Redactor) (ks : List String) (j v : Json)
    → any is_sensitive ks ≡ false
    → value_at ks j ≡ some v
    → value_at ks (sanitize_data r none j) ≡ some (sanitize_data r none v)
unfolding sanitize_data value_at
value_at-sanitize r [] j v h g = cc
value_at-sanitize r (k ∷ ks) (obj fs) v h g = elim (Option-cases (find_field k fs)) [
  | inl e ↦ cc
  | inr (i, e) ↦
      let parts = ors_false (is_sensitive k) (any is_sensitive ks) h in
      let rest : value_at ks i ≡ some v = cc in
      rw (find_field-sanitize r k fs i e, data-open r k i parts.0)
        (value_at-sanitize r ks i v parts.1 rest)
]
value_at-sanitize r (k ∷ ks) null v h g = cc
value_at-sanitize r (k ∷ ks) (bool b) v h g = cc
value_at-sanitize r (k ∷ ks) (int n) v h g = cc
value_at-sanitize r (k ∷ ks) (real x) v h g = cc
value_at-sanitize r (k ∷ ks) (str s) v h g = cc
value_at-sanitize r (k ∷ ks) (message m) v h g = cc
value_at-sanitize r (k ∷ ks) (arr js) v h g = cc

-- What stands under a key that is not sensitive is the original value, sanitized.
pub get-sanitize :
    (r : Redactor) (k : String) (j v : Json)
    → is_sensitive k ≡ false
    → get k j ≡ some v
    → get k (sanitize_data r none j) ≡ some (sanitize_data r none v)
unfolding sanitize_data
get-sanitize r k (obj fs) v h g = rw (find_field-sanitize r k fs v g, data-open r k v h) refl
get-sanitize r k null v h g = cc
get-sanitize r k (bool b) v h g = cc
get-sanitize r k (int n) v h g = cc
get-sanitize r k (real x) v h g = cc
get-sanitize r k (str s) v h g = cc
get-sanitize r k (message m) v h g = cc
get-sanitize r k (arr js) v h g = cc
