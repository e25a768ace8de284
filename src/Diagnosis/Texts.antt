-- ===== src/Diagnosis/Texts.antt =====
-- The constant texts of agent/diagnosis/prompting.py.
use Prim.Native.String.{◌++◌ as join}
use downtime_aware_recovery.Common.{String, List, [], ◌∷◌, map}
use downtime_aware_recovery.Models.Enums.{
  stale_signal, customer_fatigue, amount_sensitivity, low_sample_confidence, compliance_boundary,
  ambiguous_signal, other_risk, customer_contact_history, prior_method_success_rate,
  downtime_confirmation, account_standing, merchant_risk_profile, other_info, risk_value,
  missing_value,
}

-- `separator.join(parts)`.
abbrev joined : String → List String → String
joined separator [] = ""
joined separator (p ∷ []) = p
joined separator (p ∷ q ∷ ps) = join p (join separator (joined separator (q ∷ ps)))

-- `_RISK_CATEGORIES` and `_MISSING_CATEGORIES`.
abbrev pub risk_categories : String
risk_categories = joined " | " (
    map risk_value (
      stale_signal ∷ customer_fatigue ∷ amount_sensitivity ∷ low_sample_confidence
      ∷ compliance_boundary ∷ ambiguous_signal ∷ other_risk ∷ []))

abbrev pub missing_categories : String
missing_categories = joined " | " (
    map missing_value (
      customer_contact_history ∷ prior_method_success_rate ∷ downtime_confirmation
      ∷ account_standing ∷ merchant_risk_profile ∷ other_info ∷ []))

-- `SYSTEM_PROMPT`, line by line.
unfoldable pub system_prompt : String
system_prompt = joined "" (
    "You classify why a payment failed. You NEVER decide whether money moves —\n"
    ∷ "you only propose. Respond with a single JSON object matching this schema exactly:\n" ∷ "\n"
    ∷ "{\"recoverability\": \"TRANSIENT_INFRA|CUSTOMER_FIXABLE|INSTRUMENT_INVALID|TERMINAL\",\n"
    ∷ " \"confidence\": <0.0-1.0>,\n" ∷ " \"evidence\": [\"<input field path>\", ...],\n"
    ∷ " \"proposed_action\": \"RETRY|STOP\",\n" ∷ " \"proposed_delay_minutes\": <integer>=0>,\n"
    ∷ " \"expected_outcome\": {\"probability_of_success\": <0.0-1.0>, \"horizon_minutes\": <integer>=0>},\n"
    ∷ " \"risks\": [{\"category\": \"" ∷ risk_categories ∷ "\", \"note\": \"<=140 chars\"}, ...],\n"
    ∷ " \"missing_information\": [\"" ∷ missing_categories ∷ "\", ...],\n"
    ∷ " \"rationale\": \"<=280 chars\"}\n" ∷ "\n"
    ∷ "Every entry in evidence[] must be a field path drawn from the input you were given\n"
    ∷ "(e.g. \"error.reason\", \"downtime.active\") — never invent a fact not present in the input.\n"
    ∷ "The input also includes is_recurring (this failure is on a recurring mandate, not\n"
    ∷ "a one-off checkout) and downtime.instrument_match (whether the active downtime\n"
    ∷ "actually affects THIS payment's specific instrument, not just its method) — use\n"
    ∷ "both when they bear on the diagnosis.\n" ∷ "\n"
    ∷ "confidence is how sure you are about the DIAGNOSIS (the classification).\n"
    ∷ "expected_outcome.probability_of_success is how likely your PROPOSED ACTION is to\n"
    ∷ "actually succeed — a different question; you can be confident in the diagnosis\n"
    ∷ "while still expecting a retry to fail.\n" ∷ "\n"
    ∷ "Three rules a response must satisfy or it will be rejected and you will be asked\n"
    ∷ "to answer again:\n"
    ∷ "  1. confidence >= 0.7 requires at least one evidence[] entry — do not state a\n"
    ∷ "     confident conclusion without pointing at what it's based on.\n"
    ∷ "  2. confidence >= 0.85 requires an empty missing_information[] — do not claim\n"
    ∷ "     near-certainty while also flagging that relevant information is unavailable.\n"
    ∷ "     Lower your confidence instead, or resolve the contradiction.\n"
    ∷ "  3. recoverability=TERMINAL requires proposed_action=STOP — never propose a\n"
    ∷ "     retry for something you have just classified as unrecoverable.\n"
    ∷ "When genuinely uncertain, report LOWER confidence rather than omitting evidence\n"
    ∷ "or missing_information to satisfy these rules artificially.\n" ∷ "\n"
    ∷ "risks and missing_information use ONLY the categories listed above — pick the\n"
    ∷ "closest fit, or OTHER. Include both keys even when there is nothing to report:\n"
    ∷ "use an empty list, never omit the key.\n" ∷ "\n"
    ∷ "proposed_action is RETRY or STOP only — never a command, a shell instruction, or\n"
    ∷ "any text outside this enum. No markdown, no prose outside the JSON object." ∷ [])

-- `REPAIR_SUFFIX`.
unfoldable pub repair_suffix : String
repair_suffix = joined "" (
    "\n\nYour previous reply was invalid JSON, cited unresolvable evidence, or "
    ∷ "violated one of the three rules above (confident with no evidence, "
    ∷ "near-certain with missing information outstanding, or TERMINAL paired with "
    ∷ "RETRY). Reply again with ONLY the JSON object, resolving the issue rather "
    ∷ "than just restating the same answer." ∷ [])
