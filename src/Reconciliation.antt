-- ===== src/Reconciliation.antt =====
-- agent/reconciliation.py: `find_uncertain_cases` and `reconcile`. The seconds of a latency and the
-- calls of the logger are left out.
pub mod Unresolved
pub mod Resolution
pub mod Listing
use downtime_aware_recovery.Common.{
  ℕ, String, Bool, true, false, not, ◌&&◌, Option, none, some, List, [], ◌∷◌, ◌==◌, if◌then◌else◌,
  ◌||◌, is_some, or_default,
}
use downtime_aware_recovery.Store.{EventRow, CaseRow, Env}
use downtime_aware_recovery.Models.Json.{
  Json, get, dict, str, optional, message, reconciled, null, bool,
}
use downtime_aware_recovery.Store.Exec.{
  ◌>>=◌, ◌>>◌, Exec, gets, raise_if, pure, reconciliation_error, or_raise,
}
use downtime_aware_recovery.Models.Enums.{
  ActionOutcome, CaseState, same_state, recovered, state_value, failed_attempt, quarantined,
  outcome_value, diagnosed, succeeded, failed,
}
use downtime_aware_recovery.Audit.Replay.{is_of_case}
use downtime_aware_recovery.Models.Payment.{Time}
use downtime_aware_recovery.Store.Cases.{find_case, Sets, transition, get_case}
use downtime_aware_recovery.Audit.{append}

-- An event of this type on this case; NULL equals nothing.
unfoldable pub is_event : String → String → EventRow → Bool
is_event id event_type e = is_of_case id e && e.event_type == event_type

-- `NOT EXISTS (… later.seq > ae.seq)`: no later event resolves the case.
unfoldable pub is_resolved : String → List EventRow → Bool
is_resolved id [] = false
is_resolved id (e ∷ es) =
    let rest = is_resolved id es in is_event id "RECONCILIATION_RESOLVED" e || rest

-- The SELECT of the guard: the newest ACTION_UNCERTAIN event that nothing later resolves.
unfoldable pub unresolved : String → List EventRow → Option EventRow
unresolved id [] = none
unresolved id (e ∷ es) =
    let rest = unresolved id es in
    let is_open = is_event id "ACTION_UNCERTAIN" e && not (is_resolved id es) in
    elim rest [ some later ↦ some later | none ↦ if is_open then some e else none ]

-- A row of `find_uncertain_cases`; `json_extract` of a missing key is NULL.
pub record UncertainCase : Type 0 where
  pub case_id : String
  pub idempotency_key : Option Json
  pub code : Option Json

-- The JOIN with `cases` in state QUARANTINED.
unfoldable pub is_quarantined : String → List CaseRow → Bool
is_quarantined id cases = elim (find_case id cases) [
  | some row ↦ same_state row.state quarantined
  | none ↦ false
]

abbrev uncertain_of : String → EventRow → UncertainCase
uncertain_of id e = record {
  case_id = id;
  idempotency_key = get "idempotency_key" e.payload;
  code = get "code" e.payload;
}

-- The event as a row of the result, if it is one; the list holds the events after it.
unfoldable pub uncertain_row : List CaseRow → EventRow → List EventRow → Option UncertainCase
uncertain_row cases e later = elim e.case_id [
  | none ↦ none
  | some id ↦
      if e.event_type == "ACTION_UNCERTAIN" && is_quarantined id cases && not (is_resolved id later)
      then some (uncertain_of id e)
      else none
]

abbrev pub add_row : Option UncertainCase → List UncertainCase → List UncertainCase
add_row none rows = rows
add_row (some c) rows = c ∷ rows

unfoldable pub uncertain_rows : List CaseRow → List EventRow → List UncertainCase
uncertain_rows cases [] = []
uncertain_rows cases (e ∷ es) = add_row (uncertain_row cases e es) (uncertain_rows cases es)

unfoldable pub find_uncertain_cases : Exec (List UncertainCase)
find_uncertain_cases = gets λ w. uncertain_rows w.cases w.events

-- `target` and `increment`, by the verified outcome; none for an action that never ran.
unfoldable pub target_state : Option ActionOutcome → CaseState
target_state (some succeeded) = recovered
target_state (some failed) = failed_attempt
target_state none = diagnosed

unfoldable pub counted : Option ActionOutcome → Bool
counted outcome = is_some outcome

abbrev pub reconciled_sets : Option ActionOutcome → Time → Sets
reconciled_sets outcome ts = record {
  increment_attempt = counted outcome;
  abandon_reason = none;
  last_attempt_at = if counted outcome then some ts else none;
}

abbrev pub resolved_payload : Option ActionOutcome → EventRow → Json
resolved_payload outcome e = dict (
    ("actual_outcome", optional (λ o. str (outcome_value o)) outcome)
    ∷ ("target_state", str (state_value (target_state outcome)))
    ∷ ("idempotency_key", or_default null (get "idempotency_key" e.payload))
    ∷ ("attempt_counted", bool (counted outcome))
    ∷ [])

abbrev pub target_payload : Option ActionOutcome → Json
target_payload outcome = dict (
    ("to", str (state_value (target_state outcome)))
    ∷ ("reason", message (reconciled outcome))
    ∷ [])

-- The part behind the two guards.
unfoldable pub resolve : Env → String → Option ActionOutcome → Time → EventRow → Exec CaseState
resolve env id outcome ts e = do
  transition id (target_state outcome) (reconciled_sets outcome ts)
  append env (some id) "reconciliation" "RECONCILIATION_RESOLVED" (resolved_payload outcome e) ts
  append env (some id) "reconciliation" "STATE_TRANSITION" (target_payload outcome) ts
  pure (target_state outcome)

unfoldable pub reconcile : Env → String → Option ActionOutcome → Time → Exec CaseState
reconcile env id outcome ts = do
  row ← get_case id
  raise_if (not (same_state row.state quarantined)) reconciliation_error
  found ← gets (λ w. unresolved id w.events)
  event ← or_raise found reconciliation_error
  resolve env id outcome ts event
