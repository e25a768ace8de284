-- ===== src/Logger/Redaction.antt =====
-- What agent/logger.py lets through.
use downtime_aware_recovery.Common.{
  ◌≡◌, refl, ◌==◌, String, Bool, true, false, not, ◌&&◌, ◌||◌, Option, none, some, if◌then◌else◌,
  arith, List, any,
}
use downtime_aware_recovery.Models.Json.{
  Json, Items, Fields, null, bool, int, real, str, message, arr, obj, nil, cons, end, field,
}
use downtime_aware_recovery.Logger.{
  Redactor, sanitize_data, sanitize_items, sanitize_fields, is_sensitive, is_sensitive_under,
  redacted,
}
use downtime_aware_recovery.Logger.Open.{value_at-sanitize, value_at}

-- What may stand under a sensitive key.
abbrev pub is_withheld : Json → Bool
is_withheld null = true
is_withheld (str s) = s == "[REDACTED]"
is_withheld _ = false

unfoldable mutual
  -- Under every sensitive key, value_at every depth, the value is withheld.
  pub is_safe : Json → Bool
  is_safe (arr js) = are_safe js
  is_safe (obj fs) = fields_safe fs
  is_safe _ = true

  pub are_safe : Items → Bool
  are_safe nil = true
  are_safe (cons j js) = is_safe j && are_safe js

  pub fields_safe : Fields → Bool
  fields_safe end = true
  fields_safe (field k j fs) =
      (not (is_sensitive k) || is_withheld j) && is_safe j && fields_safe fs

withheld :
    (r : Redactor) (k : String) (j : Json)
    → (not (is_sensitive k) || is_withheld (sanitize_data r (some k) j)) ≡ true
unfolding sanitize_data
withheld r k null = ground arith
withheld r k (bool b) = ground arith
withheld r k (int n) = ground arith
withheld r k (real x) = ground arith
withheld r k (str s) = ground arith
withheld r k (message m) = ground arith
withheld r k (arr js) = ground arith
withheld r k (obj fs) = ground arith

safe_if :
    (b : Bool) (j k : Json)
    → is_safe j ≡ true
    → is_safe k ≡ true
    → is_safe (if b then j else k) ≡ true
safe_if true j k h g = h
safe_if false j k h g = g

mutual
  unfolding sanitize_data is_safe

  pub data-safe :
      (r : Redactor) (parent : Option String) (j : Json) → is_safe (sanitize_data r parent j) ≡ true
  data-safe r parent null = refl
  data-safe r parent (bool b) = safe_if (is_sensitive_under parent) redacted (bool b) refl refl
  data-safe r parent (int n) = safe_if (is_sensitive_under parent) redacted (int n) refl refl
  data-safe r parent (real x) = safe_if (is_sensitive_under parent) redacted (real x) refl refl
  data-safe r parent (str s) = safe_if (is_sensitive_under parent) redacted (str _) refl refl
  data-safe r parent (message m) = safe_if (is_sensitive_under parent) redacted (str _) refl refl
  data-safe r parent (arr js) =
      safe_if (is_sensitive_under parent) redacted (arr (sanitize_items r parent js)) refl
        (items-safe r parent js)
  data-safe r parent (obj fs) =
      safe_if (is_sensitive_under parent) redacted (obj (sanitize_fields r fs)) refl
        (fields-safe r fs)

  items-safe :
      (r : Redactor) (parent : Option String) (js : Items)
      → are_safe (sanitize_items r parent js) ≡ true
  items-safe r parent nil = refl
  items-safe r parent (cons j js) = rw (data-safe r parent j, items-safe r parent js) refl

  fields-safe : (r : Redactor) (fs : Fields) → fields_safe (sanitize_fields r fs) ≡ true
  fields-safe r end = refl
  fields-safe r (field k j fs) = rw (withheld r k j, data-safe r (some k) j, fields-safe r fs) refl

-- In what `sanitize_data` makes of a document, whatever the regular expressions do, the value of every
-- sensitive key at every depth of objects and lists is null or the text "[REDACTED]", and at a path
-- of keys none of which is sensitive stands the original value there, sanitized.
pub sanitize_data-safe :
    (r : Redactor) (ks : List String) (j v : Json)
    → any is_sensitive ks ≡ false
    → value_at ks j ≡ some v
    → (is_safe (sanitize_data r none j) ≡ true)
      × (value_at ks (sanitize_data r none j) ≡ some (sanitize_data r none v))
sanitize_data-safe r ks j v h g = (data-safe r none j, value_at-sanitize r ks j v h g)
