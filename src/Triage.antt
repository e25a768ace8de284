-- ===== src/Triage.antt =====
-- agent/triage.py: the deterministic classification of an error reason.
pub mod Classes
use downtime_aware_recovery.Common.{
  String, Bool, true, false, Option, none, some, List, [], ◌∷◌, lookup, elem, if◌then◌else◌,
}
use downtime_aware_recovery.Models.Enums.{
  Recoverability, transient_infra, customer_fixable, instrument_invalid, terminal, unknown,
  class_value,
}
use downtime_aware_recovery.Models.Json.{Json, bool, str, dict}

-- `CLEAN`.
unfoldable pub clean_reasons : List (String × Recoverability)
clean_reasons =
    ("insufficient_funds", customer_fixable)
    ∷ ("payment_cancelled_by_user", customer_fixable)
    ∷ ("invalid_otp", customer_fixable)
    ∷ ("otp_attempts_exceeded", customer_fixable)
    ∷ ("card_expired", instrument_invalid)
    ∷ ("invalid_card_number", instrument_invalid)
    ∷ ("card_blocked", instrument_invalid)
    ∷ ("invalid_vpa", instrument_invalid)
    ∷ ("account_closed", terminal)
    ∷ ("fraud_suspected", terminal)
    ∷ ("payment_frozen", terminal)
    ∷ ("international_transaction_not_allowed", terminal)
    ∷ ("mandate_revoked", terminal)
    ∷ ("gateway_timeout", transient_infra)
    ∷ ("issuer_down", transient_infra)
    ∷ ("npci_unavailable", transient_infra)
    ∷ ("server_error", transient_infra)
    ∷ []

-- `AMBIGUOUS`.
unfoldable pub ambiguous_reasons : List String
ambiguous_reasons =
    "payment_failed" ∷ "payment_declined_by_bank" ∷ "authentication_failed"
    ∷ "collect_request_expired" ∷ "transaction_limit_exceeded" ∷ []

-- The three texts that `TriageResult.matched` takes.
pub data Matched : Type 0 where
  clean ambiguous unseen : Matched

abbrev pub matched_value : Matched → String
matched_value clean = "clean"
matched_value ambiguous = "ambiguous"
matched_value unseen = "unseen"

pub record TriageResult : Type 0 where
  pub recoverability : Recoverability
  pub is_ambiguous : Bool
  pub matched : Matched

-- `TriageResult.as_payload`.
unfoldable pub as_payload : TriageResult → Json
as_payload t = dict (
    ("recoverability", str (class_value t.recoverability))
    ∷ ("is_ambiguous", bool t.is_ambiguous)
    ∷ ("matched", str (matched_value t.matched))
    ∷ [])

-- The test of the first `if` and the lookup in its branch are one lookup.
unfoldable pub triage : String → TriageResult
triage reason = elim (lookup reason clean_reasons) [
  | some c ↦ record { recoverability = c; is_ambiguous = false; matched = clean }
  | none ↦
      if elem reason ambiguous_reasons
      then record { recoverability = unknown; is_ambiguous = true; matched = ambiguous }
      else record { recoverability = unknown; is_ambiguous = false; matched = unseen }
]
