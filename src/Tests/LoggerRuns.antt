-- ===== src/Tests/LoggerRuns.antt =====
-- agent/logger.py on a document with a secret.
use downtime_aware_recovery.Text.{lower, translate, contains, drop}
use downtime_aware_recovery.Common.{◌≡◌, refl, true, some, none, [], ◌∷◌, if◌then◌else◌, ◌==◌}
use downtime_aware_recovery.Logger.Redaction.{sanitize_data-safe, is_safe}
use downtime_aware_recovery.Logger.{
  Redactor, sanitize_data, is_sensitive, redacted, sensitive_keys, sensitive_stems,
}
use downtime_aware_recovery.Models.Json.{Json, dict, str, int, arr, cons, nil}
use downtime_aware_recovery.Logger.Open.{value_at}

abbrev redactor : Redactor
redactor = record {
  sub_api_keys = λ new s. if s == "rzp_test_0123456789" then new else s;
  sub_cvvs = λ new s. s;
  sub_pans = λ mask s. if s == "4111 1111 1111 1111" then mask s else s;
  digits = λ s. "4111111111111111";
  text_of = λ m. "message";
}

abbrev request : Json
request = dict (
    ("headers", dict (("X-API_Key-Id", str "rzp_test_1") ∷ ("Accept", str "json") ∷ []))
    ∷ ("cvv", int 123)
    ∷ ("note", arr (cons (str "4111 1111 1111 1111") (cons (str "rzp_test_0123456789") nil)))
    ∷ [])

abbrev sanitized : Json
sanitized = dict (
    ("headers", dict (("X-API_Key-Id", redacted) ∷ ("Accept", str "json") ∷ []))
    ∷ ("cvv", redacted)
    ∷ ("note", arr (cons (str "****-****-****-1111") (cons (str "[REDACTED_SECRET]") nil)))
    ∷ [])

secrets_removed : sanitize_data redactor none request ≡ sanitized
unfolding sanitize_data is_sensitive sensitive_keys lower translate sensitive_stems contains drop
secrets_removed = refl

sanitize_data-safe_example :
    (is_safe (sanitize_data redactor none request) ≡ true)
    × (value_at ("headers" ∷ "Accept" ∷ []) (sanitize_data redactor none request)
        ≡ some (sanitize_data redactor none (str "json")))
unfolding is_sensitive sensitive_keys lower translate sensitive_stems contains value_at
sanitize_data-safe_example =
    sanitize_data-safe redactor ("headers" ∷ "Accept" ∷ []) request (str "json") refl refl
