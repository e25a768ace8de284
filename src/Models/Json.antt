-- ===== src/Models/Json.antt =====
-- JSON documents, as `model_dump(mode="json")` and the literal dictionaries of the pipeline build
-- them, and the lookup of a key. A text that the program formats for a human reader and never reads
-- back is kept as a `Message`: which text, and the values put into it.
use downtime_aware_recovery.Common.{
  ℕ, String, Bool, Option, none, some, List, [], ◌∷◌, ◌==◌, if◌then◌else◌,
}
use downtime_aware_recovery.Models.Enums.{CaseState, Action, Recoverability, ActionOutcome}
use downtime_aware_recovery.Contracts.Codes.{ActionErrorCode, UncertaintyCode}

pub data Message : Type 0 where
  -- the reasons of agent/policy/engine.py
  state_not_actionable : CaseState → Message
  action_not_implemented : Action → Message
  kill_switch_engaged holdout_never_acted_upon : Message
  class_not_recoverable : Recoverability → Message
  attempt_cap_reached already_executed : ℕ → Message
  model_proposed_stop : Message
  value_below_cost : ℕ → ℕ → ℕ → Message
  confidence_below_floor : ℕ → ℕ → Message
  proceed deferred_past_end unknown_end_backoff : Message
  -- the reasons of agent/pipeline.py and agent/reconciliation.py
  action_refused : ActionErrorCode → Message
  execution_uncertain : UncertaintyCode → Message
  reconciled : Option ActionOutcome → Message
  -- the details of agent/executors
  nothing_more idempotent_replay : Message
  case_named : String → Message
  bad_decision : Message
  bad_action : Action → Message
  execute_at_required not_valid in_flight state_not_executable timed_out : Message
  -- a text with parts that come from a server
  formatted : String → Message

mutual
  pub data Json : Type 0 where
    null : Json
    bool : Bool → Json
    int : ℕ → Json
    -- a float, in millionths
    real : ℕ → Json
    str : String → Json
    message : Message → Json
    arr : Items → Json
    obj : Fields → Json

  pub data Items : Type 0 where
    nil : Items
    cons : Json → Items → Items

  pub data Fields : Type 0 where
    end : Fields
    field : String → Json → Fields → Fields

-- A list of keys and values as the fields of an object, and a list of values as an array.
abbrev pub fields : List (String × Json) → Fields
fields [] = end
fields ((k, v) ∷ r) = field k v (fields r)

abbrev pub dict : List (String × Json) → Json
dict kvs = obj (fields kvs)

abbrev pub items : List Json → Items
items [] = nil
items (v ∷ r) = cons v (items r)

abbrev pub array : List Json → Json
array vs = arr (items vs)

abbrev pub optional {ℓ} : {A : Type ℓ} → (A → Json) → Option A → Json
optional f none = null
optional f (some a) = f a

abbrev pub find_field : String → Fields → Option Json
find_field k end = none
find_field k (field j v r) = if k == j then some v else find_field k r

-- `payload.get(k)`; `none` is a missing key. Only objects have keys.
abbrev pub get : String → Json → Option Json
get k (obj fs) = find_field k fs
get k _ = none

-- Python's truth value of a document.
abbrev pub truthy : Json → Bool
truthy null = Bool.false
truthy (bool b) = b
truthy (int ℕ.zero) = Bool.false
truthy (int (ℕ.suc n)) = Bool.true
truthy (real ℕ.zero) = Bool.false
truthy (real (ℕ.suc n)) = Bool.true
truthy (str s) = if s == "" then Bool.false else Bool.true
truthy (message nothing_more) = Bool.false
truthy (message m) = Bool.true
truthy (arr nil) = Bool.false
truthy (arr (cons x xs)) = Bool.true
truthy (obj end) = Bool.false
truthy (obj (field k v fs)) = Bool.true

-- `bool(payload.get(k))`.
abbrev pub is_set : String → Json → Bool
is_set k j = elim (get k j) [ none ↦ Bool.false | some v ↦ truthy v ]
