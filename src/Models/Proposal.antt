-- ===== src/Models/Proposal.antt =====
-- agent/models.py: the diagnosis proposal (RiskFlag, ExpectedOutcome, DiagnosisProposal) and its
-- dump. A float of [0, 1] is a number of millionths.
use downtime_aware_recovery.Common.{ℕ, String, Option, List, [], ◌∷◌, map}
use downtime_aware_recovery.Models.Enums.{
  Recoverability, Action, RiskCategory, MissingInfoCategory, class_value, action_value, risk_value,
  missing_value,
}
use downtime_aware_recovery.Models.Json.{Json, int, real, str, dict, array, optional}

pub record RiskFlag : Type 0 where
  pub category : RiskCategory
  pub note : String

pub record ExpectedOutcome : Type 0 where
  pub probability_of_success : ℕ
  pub horizon_minutes : ℕ

pub record DiagnosisProposal : Type 0 where
  pub recoverability : Recoverability
  pub confidence : ℕ
  pub evidence : List String
  pub proposed_action : Action
  pub proposed_delay_minutes : Option ℕ
  pub expected_outcome : ExpectedOutcome
  pub risks : List RiskFlag
  pub missing_information : List MissingInfoCategory
  pub rationale : String
  pub fallback_tier : ℕ

dump_risk : RiskFlag → Json
dump_risk r = dict (("category", str (risk_value r.category)) ∷ ("note", str r.note) ∷ [])

-- `proposal.model_dump(mode="json")`.
unfoldable pub dump_proposal : DiagnosisProposal → Json
unfolding dump_risk
dump_proposal p = dict (
    ("recoverability", str (class_value p.recoverability))
    ∷ ("confidence", real p.confidence)
    ∷ ("evidence", array (map str p.evidence))
    ∷ ("proposed_action", str (action_value p.proposed_action))
    ∷ ("proposed_delay_minutes", optional int p.proposed_delay_minutes)
    ∷ (
      "expected_outcome",
      dict (
          ("probability_of_success", real p.expected_outcome.probability_of_success)
          ∷ ("horizon_minutes", int p.expected_outcome.horizon_minutes)
          ∷ []),
    )
    ∷ ("risks", array (map dump_risk p.risks))
    ∷ ("missing_information", array (map (λ m. str (missing_value m)) p.missing_information))
    ∷ ("rationale", str p.rationale)
    ∷ ("fallback_tier", int p.fallback_tier)
    ∷ [])
