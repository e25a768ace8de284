-- ===== src/Audit.antt =====
-- agent/audit.py: the append-only, hash-chained log of decisions.
pub mod Replay
pub mod Chain
pub mod Tamper
pub mod Counting
use Prim.Native.String.{◌++◌ as join}
use downtime_aware_recovery.Common.{
  ℕ, String, Bool, true, false, not, ◌&&◌, Option, some, List, [], ◌∷◌, ◌++◌, ◌==◌, elem,
  if◌then◌else◌,
}
use downtime_aware_recovery.Models.Payment.{Time}
use downtime_aware_recovery.Models.Json.{Json, null, int, str, dict, optional}
use downtime_aware_recovery.Store.{EventRow, World, Env}
use downtime_aware_recovery.Store.Exec.{
  Exec, ◌>>=◌, ◌>>◌, pure, gets, raise_if, modify, value_error,
}

abbrev pub genesis : String
genesis = "0000000000000000000000000000000000000000000000000000000000000000"

-- `EVENTS`.
unfoldable pub event_names : List String
event_names =
    "SIGNAL_RECEIVED" ∷ "COHORT_ASSIGNED" ∷ "TRIAGE_RESULT" ∷ "DIAGNOSIS_RETURNED"
    ∷ "POLICY_VERDICT" ∷ "ACTION_DISPATCHED" ∷ "ACTION_RESULT" ∷ "ACTION_REFUSED"
    ∷ "ACTION_UNCERTAIN" ∷ "RECONCILIATION_RESOLVED" ∷ "STATE_TRANSITION" ∷ "DECISION_RECORDED" ∷ []

-- `_digest`.
unfoldable pub digest : Env → String → String → String
digest env prev_hash body = env.sha256 (join prev_hash body)

-- The document whose canonical text is hashed, from the columns of an event.
body_of : Option String → Time → String → String → Json → Json
body_of case_id ts actor event_type payload = dict (
    ("case_id", optional str case_id)
    ∷ ("ts", int ts)
    ∷ ("actor", str actor)
    ∷ ("event_type", str event_type)
    ∷ ("payload", payload)
    ∷ [])

-- `canonical` of that document.
unfoldable pub body_text : Env → Option String → Time → String → String → Json → String
unfolding body_of
body_text env case_id ts actor event_type payload =
    env.dumps (body_of case_id ts actor event_type payload)

-- The hash of the newest event, or the one given.
unfoldable pub last_hash : String → List EventRow → String
last_hash h [] = h
last_hash h (e ∷ es) = last_hash e.hash es

-- The row that `append` inserts after the events that are there.
unfoldable pub new_event :
    Env → Option String → String → String → Json → Time → List EventRow → EventRow
unfolding last_hash digest body_text
new_event env case_id actor event_type payload ts events =
    let prev = last_hash genesis events in
    record {
      case_id = case_id;
      ts = ts;
      actor = actor;
      event_type = event_type;
      payload = payload;
      prev_hash = prev;
      hash = digest env prev (body_text env case_id ts actor event_type payload);
    }

unfoldable pub append : Env → Option String → String → String → Json → Time → Exec String
unfolding event_names
append env case_id actor event_type payload ts = do
  raise_if (not (elem event_type event_names)) value_error
  row ← gets (λ w. new_event env case_id actor event_type payload ts w.events)
  modify (λ w. record w { events = w.events ++ row ∷ [] })
  pure row.hash

-- The loop of `verify_chain`, from the hash of the event before.
unfoldable pub verify_from : Env → String → List EventRow → Bool
unfolding digest body_text
verify_from env prev [] = true
verify_from env prev (e ∷ es) =
    let text = body_text env e.case_id e.ts e.actor e.event_type e.payload in
    (e.prev_hash == prev) && (digest env prev text == e.hash) && verify_from env e.hash es

unfoldable pub verify_chain : Env → List EventRow → Bool
unfolding verify_from
verify_chain env events = verify_from env genesis events
