-- ===== src/Logger.antt =====
-- agent/logger.py: the removal of secrets from what is logged. What the regular expressions
-- find in a text is a parameter.
pub mod Open
pub mod Redaction
use Prim.Native.String.{◌++◌ as join, count}
use downtime_aware_recovery.Text.{drop, contains, lower}
use downtime_aware_recovery.Common.{
  String, Bool, true, false, ◌||◌, Option, none, some, List, [], ◌∷◌, elem, any, if◌then◌else◌,
  ◌==◌, leb, ◌&&◌, ◌-◌,
}
use downtime_aware_recovery.Models.Json.{
  Json, Items, Fields, Message, null, bool, int, real, str, message, arr, obj, nil, cons, end,
  field,
}

-- `_SENSITIVE_KEYS`.
unfoldable pub sensitive_keys : List String
sensitive_keys =
    "api_key" ∷ "secret_key" ∷ "private_key" ∷ "access_token" ∷ "auth_token" ∷ "token" ∷ "secret"
    ∷ "password" ∷ "passwd" ∷ "pan" ∷ "card_number" ∷ "card_num" ∷ "cvv" ∷ "cvc" ∷ "authorization"
    ∷ []

-- The stems that make a longer key sensitive.
unfoldable pub sensitive_stems : List String
sensitive_stems =
    "api_key" ∷ "secret_key" ∷ "password" ∷ "passwd" ∷ "access_token" ∷ "auth_token" ∷ "card_number"
    ∷ "cvv" ∷ "cvc" ∷ []

unfoldable pub is_sensitive : String → Bool
is_sensitive key =
    elem (lower key) sensitive_keys || any (λ stem. contains stem (lower key)) sensitive_stems

-- `parent_key`, if there is one.
abbrev pub is_sensitive_under : Option String → Bool
is_sensitive_under none = false
is_sensitive_under (some key) = is_sensitive key

-- The substitutions by the three regular expressions and the removal of what is no digit, from the
-- library for regular expressions; and the text of a message.
pub record Redactor : Type 0 where
  pub sub_api_keys : String → String → String
  pub sub_cvvs : String → String → String
  pub sub_pans : (String → String) → String → String
  pub digits : String → String
  pub text_of : Message → String

-- `_mask_pan`, for the text of a match.
abbrev pub mask_pan : Redactor → String → String
mask_pan r s =
    let n = count (r.digits s) in
    if leb 13 n && leb n 19 then join "****-****-****-" (drop (n - 4) (r.digits s)) else s

-- `redact_string`, on a text.
abbrev pub redact_string : Redactor → String → String
redact_string r text =
    if text == ""
    then text
    else r.sub_pans (mask_pan r)
        (r.sub_cvvs "cvv: [REDACTED_CVV]" (r.sub_api_keys "[REDACTED_SECRET]" text))

abbrev pub redacted : Json
redacted = str "[REDACTED]"

unfoldable mutual
  -- `sanitize_data`. None stays as it is, also under a sensitive key.
  pub sanitize_data : Redactor → Option String → Json → Json
  sanitize_data r parent null = null
  sanitize_data r parent (bool b) = if is_sensitive_under parent then redacted else bool b
  sanitize_data r parent (int n) = if is_sensitive_under parent then redacted else int n
  sanitize_data r parent (real x) = if is_sensitive_under parent then redacted else real x
  sanitize_data r parent (str s) =
      if is_sensitive_under parent then redacted else str (redact_string r s)
  sanitize_data r parent (message m) =
      if is_sensitive_under parent then redacted else str (redact_string r (r.text_of m))
  sanitize_data r parent (arr js) =
      let inner = sanitize_items r parent js in
      if is_sensitive_under parent then redacted else arr inner
  sanitize_data r parent (obj fs) =
      let inner = sanitize_fields r fs in if is_sensitive_under parent then redacted else obj inner

  -- The elements of a list stand under the key of the list.
  pub sanitize_items : Redactor → Option String → Items → Items
  sanitize_items r parent nil = nil
  sanitize_items r parent (cons j js) = cons (sanitize_data r parent j) (sanitize_items r parent js)

  pub sanitize_fields : Redactor → Fields → Fields
  sanitize_fields r end = end
  sanitize_fields r (field k j fs) = field k (sanitize_data r (some k) j) (sanitize_fields r fs)
