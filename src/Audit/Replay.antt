-- ===== src/Audit/Replay.antt =====
-- agent/audit.py: `events_for` and `replay`, and `verify_counters` of agent/state.py.
use downtime_aware_recovery.Common.{
  ℕ, ◌+◌, String, Bool, true, false, ◌&&◌, Option, none, some, List, [], ◌∷◌, ◌==◌, nat_eq,
  if◌then◌else◌,
}
use downtime_aware_recovery.Models.Json.{Json, str, get, is_set}
use downtime_aware_recovery.Store.{EventRow}
use downtime_aware_recovery.Store.Exec.{Result, ok, err, key_error, Exec, ◌>>=◌, gets, lift}
use downtime_aware_recovery.Store.Cases.{get_case}

-- The dictionary that `replay` fills.
pub record Replayed : Type 0 where
  pub case_id : String
  pub cohort : Option Json
  pub state : Option Json
  pub attempts : ℕ
  pub recovered : Bool
  pub abandon_reason : Option Json

abbrev pub nothing_replayed : String → Replayed
nothing_replayed id = record {
  case_id = id;
  cohort = none;
  state = none;
  attempts = 0;
  recovered = false;
  abandon_reason = none;
}

-- `WHERE case_id = ?`; NULL equals nothing.
abbrev pub is_of_case : String → EventRow → Bool
is_of_case id e = elim e.case_id [ none ↦ false | some c ↦ c == id ]

-- A document that is this text.
abbrev pub is_text : String → Json → Bool
is_text t (str s) = s == t
is_text t _ = false

abbrev read_cohort : Option Json → Replayed → Result Replayed
read_cohort none s = err (key_error "cohort")
read_cohort (some c) s = ok (record s { cohort = some c })

abbrev pub with_transition : Json → Json → Replayed → Replayed
with_transition to payload s = record s {
  state = some to;
  abandon_reason =
      if is_set "reason" payload && is_text "ABANDONED" to
      then get "reason" payload
      else s.abandon_reason;
}

abbrev read_transition : Option Json → Json → Replayed → Result Replayed
read_transition none payload s = err (key_error "to")
read_transition (some to) payload s = ok (with_transition to payload s)

abbrev pub read_result : Json → Replayed → Replayed
read_result payload s = record s {
  attempts = s.attempts + 1;
  recovered = if is_set "succeeded" payload then true else s.recovered;
}

-- The body of the loop, for one event.
unfoldable pub replay_event : EventRow → Replayed → Result Replayed
replay_event e s =
    if e.event_type == "COHORT_ASSIGNED"
    then read_cohort (get "cohort" e.payload) s
    else if e.event_type == "STATE_TRANSITION"
    then read_transition (get "to" e.payload) e.payload s
    else if e.event_type == "ACTION_RESULT"
    then ok (read_result e.payload s)
    else ok s

abbrev and_then : Result Replayed → (Replayed → Result Replayed) → Result Replayed
and_then (ok s) f = f s
and_then (err e) f = err e

-- The loop over `events_for(conn, case_id)`.
unfoldable pub replay_from : String → List EventRow → Replayed → Result Replayed
unfolding replay_event
replay_from id [] s = ok s
replay_from id (e ∷ es) s =
    and_then (if is_of_case id e then replay_event e s else ok s) (replay_from id es)

unfoldable pub replay : String → List EventRow → Result Replayed
unfolding replay_from
replay id events = replay_from id events (nothing_replayed id)

-- `verify_counters`: the attempts of the row against those of the events.
unfoldable pub verify_counters : String → Exec Bool
unfolding get_case replay
verify_counters id = do
  row ← get_case id
  replayed ← (λ w. lift (replay id w.events) w)
  gets (λ w. nat_eq row.attempts replayed.attempts)
