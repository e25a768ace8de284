-- ===== src/Store.antt =====
-- The database (agent/db.py): its tables as lists of rows in insertion order, and the actions on it.
-- A JSON or ISO text column is kept as the value that it was written from; where SQL compares the text
-- of a time, which has an offset of its own, `Columns` gives the text.
pub mod Exec
pub mod Cases
pub mod Lookup
pub mod Writers
pub mod Evolves
pub mod Respects
pub mod Keeps
use downtime_aware_recovery.Common.{ℕ, String, Bool, Option, List, [], true, false}
use Prim.Native.Nat.{Ordering}
use Prim.Native.String.{compare}
use downtime_aware_recovery.Models.Enums.{Method, Cohort, CaseState, Action, ExecutionMode}
use downtime_aware_recovery.Models.Payment.{Time, Instrument, ErrorObj, DowntimeWindow}
use downtime_aware_recovery.Models.Json.{Json, Message}

-- A row of `cases`; `case_id` is the primary key.
pub record CaseRow : Type 0 where
  pub case_id : String
  pub customer_id : String
  pub order_id : String
  pub created_at : Time
  pub method : Method
  pub instrument : Instrument
  pub amount_paise : ℕ
  pub is_recurring : Bool
  pub mandate_id : Option String
  pub error : ErrorObj
  pub cohort : Cohort
  pub state : CaseState
  pub attempts : ℕ
  pub last_attempt_at : Option Time
  pub abandon_reason : Option Message
  pub version : ℕ

-- A row of `actions`; `executed_at` is NULL while the action is in flight.
pub record ActionRow : Type 0 where
  pub idempotency_key : String
  pub case_id : String
  pub action : Action
  pub scheduled_at : Time
  pub executed_at : Option Time
  pub succeeded : Option Bool
  pub mode : ExecutionMode
  pub detail : Message

-- A row of `audit_events`; `seq` is its place in the list.
pub record EventRow : Type 0 where
  pub case_id : Option String
  pub ts : Time
  pub actor : String
  pub event_type : String
  pub payload : Json
  pub prev_hash : String
  pub hash : String

-- The tables, and how often the clock and the source of event ids have been read.
pub record World : Type 0 where
  pub cases : List CaseRow
  pub actions : List ActionRow
  pub events : List EventRow
  pub windows : List DowntimeWindow
  pub reads : ℕ

-- What the program takes from elsewhere: SHA-256 as `hexdigest()` gives it, the canonical text of a
-- document (`json.dumps` with sorted keys), what the clock shows at its n-th reading, and the n-th
-- random event id.
pub record Env : Type 0 where
  pub sha256 : String → String
  pub dumps : Json → String
  pub now_at : ℕ → Time
  pub uuid_at : ℕ → String

-- The text in the column `created_at` of the case with an id, and in `scheduled_at` of the action with
-- a key: what `isoformat()` gave when the row was written.
pub record Columns : Type 0 where
  pub created_at : String → String
  pub scheduled_at : String → String

-- `<=` on texts, code point by code point, as SQLite compares them.
abbrev pub text_le : String → String → Bool
text_le s t = elim (compare s t) [ Ordering.gt ↦ false | _ ↦ true ]

-- The tables as `SCHEMA` creates them.
abbrev pub empty_world : World
empty_world = record { cases = []; actions = []; events = []; windows = []; reads = 0 }
