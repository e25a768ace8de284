-- ===== src/Dashboard/Trace.antt =====
-- agent/dashboard.py: `get_transaction_trace`.
use downtime_aware_recovery.Common.{
  ◌∷◌, [], none, suc, ℕ, String, Bool, List, if◌then◌else◌, length,
}
use downtime_aware_recovery.Store.Exec.{Exec, ◌>>=◌, pure, gets, or_raise, key_error}
use downtime_aware_recovery.Store.{Env, CaseRow, EventRow}
use downtime_aware_recovery.Logger.{Redactor, sanitize_data}
use downtime_aware_recovery.Models.Payment.{Time}
use downtime_aware_recovery.Models.Json.{Json}
use downtime_aware_recovery.Models.Enums.{Method, Cohort, CaseState}
use downtime_aware_recovery.Store.Cases.{find_case}
use downtime_aware_recovery.Dashboard.{rupees}
use downtime_aware_recovery.Audit.{verify_chain}
use downtime_aware_recovery.Dashboard.Transactions.{error_json, instrument_json}
use downtime_aware_recovery.Audit.Replay.{is_of_case}

-- An event as the dashboard shows it; `seq` counts from 1.
pub record TimelineEvent : Type 0 where
  pub seq : ℕ
  pub actor : String
  pub event_type : String
  pub timestamp : Time
  pub hash : String
  pub prev_hash : String
  pub payload : Json

unfoldable pub timeline_event : Redactor → ℕ → EventRow → TimelineEvent
timeline_event r seq e = record {
  seq = seq;
  actor = e.actor;
  event_type = e.event_type;
  timestamp = e.ts;
  hash = e.hash;
  prev_hash = e.prev_hash;
  payload = sanitize_data r none e.payload;
}

-- The events of a case in the order of the log, `parsed_events`; the first event has the given number.
unfoldable pub timeline : Redactor → String → ℕ → List EventRow → List TimelineEvent
timeline r id seq [] = []
timeline r id seq (e ∷ es) =
    let rest = timeline r id (suc seq) es in
    if is_of_case id e then timeline_event r seq e ∷ rest else rest

pub record Trace : Type 0 where
  pub case_id : String
  pub order_id : String
  pub customer_id : String
  pub created_at : Time
  pub method : Method
  pub amount_rupees : ℕ
  pub cohort : Cohort
  pub state : CaseState
  pub attempts : ℕ
  pub error : Json
  pub instrument : Json
  pub chain_valid : Bool
  pub event_count : ℕ
  pub events : List TimelineEvent

unfoldable pub trace_fields : Redactor → String → CaseRow → Bool → List TimelineEvent → Trace
trace_fields r id c chain_valid shown = record {
  case_id = id;
  order_id = c.order_id;
  customer_id = c.customer_id;
  created_at = c.created_at;
  method = c.method;
  amount_rupees = rupees c.amount_paise;
  cohort = c.cohort;
  state = c.state;
  attempts = c.attempts;
  error = sanitize_data r none (error_json c.error);
  instrument = sanitize_data r none (instrument_json c.instrument);
  chain_valid = chain_valid;
  event_count = length shown;
  events = shown;
}

unfoldable pub get_transaction_trace : Env → Redactor → String → Exec Trace
get_transaction_trace env r id = do
  rows ← gets (λ w. w.cases)
  c ← or_raise (find_case id rows) (key_error id)
  chain_valid ← gets (λ w. verify_chain env w.events)
  shown ← gets (λ w. timeline r id 1 w.events)
  pure (trace_fields r id c chain_valid shown)
