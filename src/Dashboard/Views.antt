-- ===== src/Dashboard/Views.antt =====
-- What the views of one case in agent/dashboard.py show.
use downtime_aware_recovery.Common.{
  ◌∷◌, [], none, some, suc, ℕ, String, List, ◌≡◌, refl, ◌⊎◌, inl, inr, if◌then◌else◌, All, length,
  arith, map, Bool-cases, true, Option-cases,
}
use downtime_aware_recovery.Store.{Env, EventRow, World, CaseRow}
use downtime_aware_recovery.Logger.{Redactor, sanitize_data}
use downtime_aware_recovery.Dashboard.Trace.{
  get_transaction_trace, trace_fields, timeline, timeline_event, TimelineEvent, Trace,
}
use downtime_aware_recovery.Store.Cases.{find_case}
use downtime_aware_recovery.Audit.Replay.{is_of_case}
use downtime_aware_recovery.Store.Exec.{err, key_error, ok, or_raise}
use downtime_aware_recovery.Logger.Redaction.{is_safe, data-safe}
use downtime_aware_recovery.Audit.{verify_chain}
use downtime_aware_recovery.Dashboard.Transactions.{error_json, instrument_json}

-- The events of a case.
unfoldable pub events_of : String → List EventRow → List EventRow
events_of id [] = []
events_of id (e ∷ es) = let rest = events_of id es in if is_of_case id e then e ∷ rest else rest

-- The view shows the case, its events in order with their payloads as `sanitize_data` makes them,
-- whether the whole log verifies, and no value of a sensitive key.
pub record IsTrue (env : Env) (r : Redactor) (w : World) (c : CaseRow) (t : Trace) : Type 0 where
  pub order : t.order_id ≡ c.order_id
  pub customer : t.customer_id ≡ c.customer_id
  pub cohort : t.cohort ≡ c.cohort
  pub state : t.state ≡ c.state
  pub attempts : t.attempts ≡ c.attempts
  pub chain : t.chain_valid ≡ verify_chain env w.events
  pub actors : map (λ e. e.actor) t.events ≡ map (λ e. e.actor) (events_of t.case_id w.events)
  pub times : map (λ e. e.timestamp) t.events ≡ map (λ e. e.ts) (events_of t.case_id w.events)
  pub hashes : map (λ e. e.hash) t.events ≡ map (λ e. e.hash) (events_of t.case_id w.events)
  pub types :
      map (λ e. e.event_type) t.events ≡ map (λ e. e.event_type) (events_of t.case_id w.events)
  pub payloads :
      map (λ e. e.payload) t.events
      ≡ map (λ e. sanitize_data r none e.payload) (events_of t.case_id w.events)
  pub count : t.event_count ≡ length (events_of t.case_id w.events)
  pub withheld : All (λ e. is_safe e.payload ≡ true) t.events
  pub error : t.error ≡ sanitize_data r none (error_json c.error)
  pub error_withheld : is_safe t.error ≡ true
  pub instrument : t.instrument ≡ sanitize_data r none (instrument_json c.instrument)
  pub instrument_withheld : is_safe t.instrument ≡ true

module _ (r : Redactor) (id : String) where
  timeline-shows :
      {B : Type 0} (f : TimelineEvent → B) (g : EventRow → B)
      → ((n : ℕ) (e : EventRow) → f (timeline_event r n e) ≡ g e)
      → (n : ℕ) (es : List EventRow) → map f (timeline r id n es) ≡ map g (events_of id es)
  unfolding timeline events_of
  timeline-shows f g h n [] = refl
  timeline-shows f g h n (e ∷ es) = elim (Bool-cases (is_of_case id e)) [
    | inl t ↦ rw (t, h n e, timeline-shows f g h (suc n) es) refl
    | inr t ↦ rw (t, timeline-shows f g h (suc n) es) refl
  ]

  length-timeline :
      (n : ℕ) (es : List EventRow) → length (timeline r id n es) ≡ length (events_of id es)
  unfolding timeline events_of
  length-timeline n [] = refl
  length-timeline n (e ∷ es) = ground (arith, length-timeline (suc n) es)

  timeline-All-safe :
      (n : ℕ) (es : List EventRow) → All (λ e. is_safe e.payload ≡ true) (timeline r id n es)
  unfolding timeline timeline_event
  timeline-All-safe n [] = tt
  timeline-All-safe n (e ∷ es) = elim (Bool-cases (is_of_case id e)) [
    | inl t ↦ rw t (data-safe r none e.payload, timeline-All-safe (suc n) es)
    | inr t ↦ rw t (timeline-All-safe (suc n) es)
  ]

trace_fields-IsTrue :
    (env : Env) (r : Redactor) (id : String) (w : World) (c : CaseRow)
    → IsTrue env r w c (trace_fields r id c (verify_chain env w.events) (timeline r id 1 w.events))
unfolding trace_fields timeline_event
trace_fields-IsTrue env r id w c = record {
  order = refl;
  customer = refl;
  cohort = refl;
  state = refl;
  attempts = refl;
  chain = refl;
  actors = timeline-shows r id (λ e. e.actor) (λ e. e.actor) (λ n e. refl) 1 w.events;
  times = timeline-shows r id (λ e. e.timestamp) (λ e. e.ts) (λ n e. refl) 1 w.events;
  hashes = timeline-shows r id (λ e. e.hash) (λ e. e.hash) (λ n e. refl) 1 w.events;
  types = timeline-shows r id (λ e. e.event_type) (λ e. e.event_type) (λ n e. refl) 1 w.events;
  payloads =
      timeline-shows r id (λ e. e.payload) (λ e. sanitize_data r none e.payload) (λ n e. refl) 1
        w.events;
  count = length-timeline r id 1 w.events;
  withheld = timeline-All-safe r id 1 w.events;
  error = refl;
  error_withheld = data-safe r none (error_json c.error);
  instrument = refl;
  instrument_withheld = data-safe r none (instrument_json c.instrument);
}

-- `get_transaction_trace` changes nothing. It raises KeyError if there is no such case. Otherwise it
-- returns a view that shows the ids, the cohort, the state and the attempts of the case, and whether
-- the whole log verifies. It shows exactly the events of the case in the order of the log, with actor,
-- time, type and hash, and with the payload as `sanitize_data` makes it, as it does the error and the
-- instrument; in these the value of every sensitive key is withheld.
pub get_transaction_trace-IsTrue :
    (env : Env) (r : Redactor) (id : String) (w : World)
    → ((find_case id w.cases ≡ none) × (get_transaction_trace env r id w ≡ (err (key_error id), w)))
      ⊎ ((c : CaseRow) × (find_case id w.cases ≡ some c)
          × ((t : Trace) × (get_transaction_trace env r id w ≡ (ok t, w))
              × (t.case_id ≡ id)
              × IsTrue env r w c t))
unfolding get_transaction_trace trace_fields
get_transaction_trace-IsTrue env r id w = elim (Option-cases (find_case id w.cases)) [
  | inl e ↦ inl (e, rw (e, or_raise) refl)
  | inr (c, e) ↦
      let shown = trace_fields r id c (verify_chain env w.events) (timeline r id 1 w.events) in
      inr (c, e, (shown, rw (e, or_raise) refl, refl, trace_fields-IsTrue env r id w c))
]
