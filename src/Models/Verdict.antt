-- ===== src/Models/Verdict.antt =====
-- agent/models.py: the verdict, the case as policy sees it, the result of an action and the
-- decision record, with their dumps and the idempotency key.
use Prim.Native.String.{◌++◌ as join}
use downtime_aware_recovery.Common.{
  ℕ, zero, suc, ◌/◌, ◌%◌, String, Bool, Option, List, [], ◌∷◌, map, nat_eq, ◌&&◌, not,
  if◌then◌else◌,
}
use downtime_aware_recovery.Models.Enums.{
  Action, Decision, Cohort, CaseState, Method, ActionOutcome, ExecutionMode, stop, action_value,
  decision_value, outcome_value, mode_value, same_action, is_allow, is_succeeded,
}
use downtime_aware_recovery.Models.Payment.{Time, Instrument}
use downtime_aware_recovery.Models.Json.{
  Json, Message, bool, int, str, message, dict, array, optional,
}

-- The texts of an f-string, one after the other.
abbrev pub concat : List String → String
concat [] = ""
concat (s ∷ ss) = join s (concat ss)

abbrev pub digit : ℕ → String
digit zero = "0"
digit (suc zero) = "1"
digit (suc (suc zero)) = "2"
digit (suc (suc (suc zero))) = "3"
digit (suc (suc (suc (suc zero)))) = "4"
digit (suc (suc (suc (suc (suc zero))))) = "5"
digit (suc (suc (suc (suc (suc (suc zero)))))) = "6"
digit (suc (suc (suc (suc (suc (suc (suc zero))))))) = "7"
digit (suc (suc (suc (suc (suc (suc (suc (suc zero)))))))) = "8"
digit (suc (suc (suc (suc (suc (suc (suc (suc (suc n))))))))) = "9"

-- The decimal digits of a number, the last one first to be found; a number has fewer digits than
-- its successor, which is the fuel.
decimal_from : ℕ → ℕ → String → String
decimal_from zero n rest = rest
decimal_from (suc fuel) n rest =
    let text = join (digit (n % 10)) rest in
    let more = decimal_from fuel (n / 10) text in if nat_eq (n / 10) 0 then text else more

-- `str(n)`.
unfoldable pub decimal : ℕ → String
unfolding decimal_from
decimal n = decimal_from (suc n) n ""

-- The text that `idempotency_key` hashes.
unfoldable pub key_text : String → Action → ℕ → String
unfolding decimal
key_text case_id action attempt_no =
    concat (case_id ∷ ":" ∷ action_value action ∷ ":" ∷ decimal attempt_no ∷ [])

-- `idempotency_key`, over the digest that `hashlib.sha256(…).hexdigest()` computes.
unfoldable pub idempotency_key : (String → String) → String → Action → ℕ → String
idempotency_key sha256 case_id action attempt_no = sha256 (key_text case_id action attempt_no)

pub record CaseView : Type 0 where
  pub case_id : String
  pub cohort : Cohort
  pub attempts : ℕ
  pub method : Method
  pub instrument : Instrument
  pub amount_paise : ℕ
  pub is_recurring : Bool
  pub state : CaseState
  pub executed_action_keys : List String

pub record Verdict : Type 0 where
  pub case_id : String
  pub decision : Decision
  pub action : Action
  pub attempt_no : ℕ
  pub execute_at : Option Time
  pub fired_rules : List String
  pub reason : Message
  pub rules_version : ℕ
  pub decided_at : Time

-- `Verdict.is_executable`.
abbrev pub is_executable : Verdict → Bool
is_executable v = is_allow v.decision && not (same_action v.action stop)

-- `Verdict.idempotency_key`.
unfoldable pub verdict_key : (String → String) → Verdict → String
verdict_key sha256 v = idempotency_key sha256 v.case_id v.action v.attempt_no

unfoldable pub dump_verdict : Verdict → Json
dump_verdict v = dict (
    ("case_id", str v.case_id)
    ∷ ("decision", str (decision_value v.decision))
    ∷ ("action", str (action_value v.action))
    ∷ ("attempt_no", int v.attempt_no)
    ∷ ("execute_at", optional int v.execute_at)
    ∷ ("fired_rules", array (map str v.fired_rules))
    ∷ ("reason", message v.reason)
    ∷ ("rules_version", int v.rules_version)
    ∷ ("decided_at", int v.decided_at)
    ∷ [])

pub record ActionResult : Type 0 where
  pub case_id : String
  pub action : Action
  pub idempotency_key : String
  pub outcome : ActionOutcome
  pub executed_at : Time
  pub mode : ExecutionMode
  pub replayed : Bool
  pub detail : Message

-- `ActionResult.succeeded`; a property, so that the dump has no such key.
abbrev pub result_succeeded : ActionResult → Bool
result_succeeded r = is_succeeded r.outcome

unfoldable pub dump_result : ActionResult → Json
dump_result r = dict (
    ("case_id", str r.case_id)
    ∷ ("action", str (action_value r.action))
    ∷ ("idempotency_key", str r.idempotency_key)
    ∷ ("outcome", str (outcome_value r.outcome))
    ∷ ("executed_at", int r.executed_at)
    ∷ ("mode", str (mode_value r.mode))
    ∷ ("replayed", bool r.replayed)
    ∷ ("detail", message r.detail)
    ∷ [])

pub record DecisionRecord : Type 0 where
  pub event_id : String
  pub transaction_id : String
  pub timestamp : Time
  pub actor : String
  pub ai_proposal : Json
  pub policy_decision : String
  pub execution_result : Option String
  pub reason : Message
  pub policy_version : ℕ

unfoldable pub dump_record : DecisionRecord → Json
dump_record r = dict (
    ("event_id", str r.event_id)
    ∷ ("transaction_id", str r.transaction_id)
    ∷ ("timestamp", int r.timestamp)
    ∷ ("actor", str r.actor)
    ∷ ("ai_proposal", r.ai_proposal)
    ∷ ("policy_decision", str r.policy_decision)
    ∷ ("execution_result", optional str r.execution_result)
    ∷ ("reason", message r.reason)
    ∷ ("policy_version", int r.policy_version)
    ∷ [])
