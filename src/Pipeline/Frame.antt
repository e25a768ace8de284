-- ===== src/Pipeline/Frame.antt =====
-- What `process_case` (agent/pipeline.py) leaves alone: the other cases.
use mathlib.Core.List.{append-nil}
use downtime_aware_recovery.Common.{
  ◌≡◌, ◌≢◌, refl, ◌∙◌, ap, String, false, List, [], ◌∷◌, ◌++◌, some, none, Option, if◌then◌else◌,
  Bool-cases, inl, inr, elem, arith, eq_iff, ◌==◌,
}
use downtime_aware_recovery.Store.{Env, World, EventRow, CaseRow}
use downtime_aware_recovery.Store.Cases.{find_case, Sets, transition}
use downtime_aware_recovery.Store.Lookup.{
  transition-missing, transition-allowed, transition-illegal, find_case-update_rows_ne,
}
use downtime_aware_recovery.Store.Respects.{IsTrack}
use downtime_aware_recovery.Audit.{append, event_names, new_event}
use downtime_aware_recovery.Audit.Chain.{append-known, append-unknown}
use downtime_aware_recovery.Audit.Replay.{is_of_case}
use downtime_aware_recovery.Audit.Counting.{count_results}
use downtime_aware_recovery.Models.Enums.{CaseState}
use downtime_aware_recovery.Models.Json.{Json}
use downtime_aware_recovery.Models.Payment.{Time}
use downtime_aware_recovery.Pipeline.Acts.{IsPort}
use downtime_aware_recovery.Pipeline.Dispatch.{ExecutorPort}
use downtime_aware_recovery.Pipeline.Stages.{DiagnosisPort}
use downtime_aware_recovery.Pipeline.Process.{process_case}
use downtime_aware_recovery.Pipeline.Tracks.{process_case-Respects}
use downtime_aware_recovery.Policy.{Rules}
use downtime_aware_recovery.State.{is_allowed}

-- The events of one case.
abbrev pub events_of : String → List EventRow → List EventRow
events_of id [] = []
events_of id (e ∷ es) = let rest = events_of id es in if is_of_case id e then e ∷ rest else rest

-- The row and the events of a case are as before.
pub record IsFramed (other : String) (w w' : World) : Type 0 where
  pub same_row : find_case other w'.cases ≡ find_case other w.cases
  pub same_events : events_of other w'.events ≡ events_of other w.events

events_of-append :
    (id : String) (es fs : List EventRow)
    → events_of id (es ++ fs) ≡ events_of id es ++ events_of id fs
events_of-append id [] fs = refl
events_of-append id (e ∷ es) fs = ground (arith, events_of-append id es fs)

events_of-other :
    (id : String) (e : EventRow) → is_of_case id e ≡ false → events_of id (e ∷ []) ≡ []
events_of-other id e h = rw h refl

-- The results of a case are counted among its events alone.
pub count_results-events_of :
    (id : String) (es : List EventRow) → count_results id (events_of id es) ≡ count_results id es
count_results-events_of id [] = refl
count_results-events_of id (e ∷ es) = ground (arith, count_results-events_of id es)

module _ (env : Env) (id other : String) (apart : other ≢ id) where
  append-IsFramed :
      (actor event_type : String) (payload : Json) (ts : Time) (w : World)
      → IsFramed other w (append env (some id) actor event_type payload ts w).1
  unfolding new_event
  append-IsFramed actor event_type payload ts w = elim (Bool-cases (elem event_type event_names)) [
    | inl known ↦
        let e = new_event env (some id) actor event_type payload ts w.events in
        let differ : (id == other) ≡ false = (ground (arith, eq_iff id other, apart)) in
        rw (append-known env (some id) actor event_type payload ts w known) (record {
          same_row = refl;
          same_events =
              events_of-append other w.events (e ∷ [])
              ∙ ap (λ es. events_of other w.events ++ es) (events_of-other other e differ)
              ∙ append-nil (events_of other w.events);
        })
    | inr unknown_type ↦
        rw (append-unknown env (some id) actor event_type payload ts w unknown_type)
          (record { same_row = refl; same_events = refl })
  ]

  transition-IsFramed :
      (target : CaseState) (sets : Sets) (w : World) (o : Option CaseRow)
      → find_case id w.cases ≡ o
      → IsFramed other w (transition id target sets w).1
  transition-IsFramed target sets w none missing =
      rw (transition-missing id target sets w missing)
        (record { same_row = refl; same_events = refl })
  transition-IsFramed target sets w (some r) found = elim (Bool-cases (is_allowed r.state target)) [
    | inl a ↦ rw (transition-allowed id target sets w found a) (record {
      same_row = find_case-update_rows_ne id other r.version target sets w.cases apart;
      same_events = refl;
    })
    | inr a ↦
        rw (transition-illegal id target sets w found a)
          (record { same_row = refl; same_events = refl })
  ]

  pub IsFramed-IsTrack : IsTrack env id (IsFramed other)
  IsFramed-IsTrack = record {
    still = λ w. record { same_row = refl; same_events = refl };
    chain = λ a b c p q. record {
      same_row = q.same_row ∙ p.same_row;
      same_events = q.same_events ∙ p.same_events;
    };
    reads = λ w n. record { same_row = refl; same_events = refl };
    logs = append-IsFramed;
    moves = λ target sets w. transition-IsFramed target sets w (find_case id w.cases) refl;
  }

-- A run of the pipeline on a case, also one that ends in an exception, leaves the row and the events
-- of every other case as they were. The executor is one that leaves cases and events alone and
-- answers with a result, a refusal or an uncertain outcome.
pub process_case-IsFramed :
    (env : Env) (rules : Rules) (port : DiagnosisPort) (executor : ExecutorPort)
    → IsPort executor
    → (id other : String) (w : World) → other ≢ id
    → IsFramed other w (process_case env rules port executor id w).1
process_case-IsFramed env rules port executor laws id other w apart =
    (process_case-Respects env id (IsFramed other) (IsFramed-IsTrack env id other apart) executor
        (λ v. record {
          at = λ w'. record {
            same_row = ap (find_case other) (laws.same_cases v w');
            same_events = ap (events_of other) (laws.same_events v w');
          };
        })
        rules port).at
      w
