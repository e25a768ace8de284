-- ===== src/Pipeline/Ingested.antt =====
-- agent/pipeline.py: `ingest` followed by `process_case`.
use downtime_aware_recovery.Common.{
  ◌≡◌, refl, none, some, String, List, ◌++◌, ◌∷◌, [], arith, eq_refl, ℕ,
}
use downtime_aware_recovery.Store.Cases.{find_case, create_case, new_row}
use downtime_aware_recovery.Store.{World, CaseRow, Env}
use downtime_aware_recovery.Audit.Counting.{count_results, Readable}
use downtime_aware_recovery.Store.Exec.{Result, ok, lift, err, ◌>>◌}
use downtime_aware_recovery.Models.Payment.{PaymentFailure, Time}
use downtime_aware_recovery.Models.Enums.{Cohort}
use downtime_aware_recovery.Policy.{Rules}
use downtime_aware_recovery.Pipeline.Book.{
  Triple, Book, bind-Triple, log-Book, Returns, pure-Triple,
}
use downtime_aware_recovery.Pipeline.Stages.{
  ingest, record_ingest, DiagnosisPort, signal_payload, cohort_payload,
}
use downtime_aware_recovery.State.{is_allowed}
use downtime_aware_recovery.Audit.{event_names}
use downtime_aware_recovery.Ledger.{assign_cohort}
use downtime_aware_recovery.Pipeline.Dispatch.{ExecutorPort}
use downtime_aware_recovery.Pipeline.Prepares.{given}
use downtime_aware_recovery.Pipeline.Settles.{process_case_settles}
use downtime_aware_recovery.Pipeline.Acts.{IsPort}
use downtime_aware_recovery.Pipeline.Endings.{Settled}
use downtime_aware_recovery.Pipeline.Process.{process_case}

find_case-new :
    (rs : List CaseRow) (r : CaseRow)
    → find_case r.case_id rs ≡ none
    → find_case r.case_id (rs ++ r ∷ []) ≡ some r
unfolding find_case
find_case-new [] r h = ground (arith, eq_refl r.case_id)
find_case-new (x ∷ rs) r h = ground (arith, find_case-new rs r)

-- What the program knows of a case that it has not seen.
pub record Fresh (id : String) (w : World) : Type 0 where
  pub absent : find_case id w.cases ≡ none
  pub no_results : count_results id w.events ≡ 0
  pub can_replay : Readable w.events

create_case-runs :
    (pf : PaymentFailure) (cohort : Cohort) (w : World)
    → find_case pf.case_id w.cases ≡ none
    → create_case pf cohort w ≡ (ok tt, record w { cases = w.cases ++ new_row pf cohort ∷ [] })
unfolding create_case
create_case-runs pf cohort w h = ground arith

create_case-Triple :
    (pf : PaymentFailure) (cohort : Cohort)
    → Triple (Fresh pf.case_id) (create_case pf cohort) (λ _. Book pf.case_id (new_row pf cohort) 0)
unfolding new_row
create_case-Triple pf cohort = record {
  at = λ w h. rw (create_case-runs pf cohort w h.absent) (record {
    found = find_case-new w.cases (new_row pf cohort) h.absent;
    counted = h.no_results;
    can_replay = h.can_replay;
  });
}

pub lift-Triple :
    {A : Type 0} {P : World → Type 0} (out : Result A) (a : A)
    → out ≡ ok a
    → Triple P (lift out) (λ b w. (b ≡ a) × P w)
lift-Triple (ok b) a h = record { at = λ w p. (ground arith, p) }
lift-Triple (err e) a h = cc

module _ (env : Env) (pf : PaymentFailure) (seed : ℕ) (rules : Rules) (ts : Time) where
  recorded-Triple :
      (cohort : Cohort)
      → Triple
          (Fresh pf.case_id)
          (record_ingest env pf seed ts cohort)
          (λ c w. (c ≡ cohort) × Book pf.case_id (new_row pf cohort) 0 w)
  unfolding record_ingest event_names
  recorded-Triple cohort =
      let r = new_row pf cohort in
      bind-Triple (create_case-Triple pf cohort) λ _.
        bind-Triple
          (log-Book env pf.case_id r 0 "ingest" "SIGNAL_RECEIVED" (signal_payload pf) ts refl refl)
          λ _.
            bind-Triple
              (log-Book env pf.case_id r 0 "ledger" "COHORT_ASSIGNED" (cohort_payload cohort seed)
                ts refl refl)
              λ _. pure-Triple cohort (λ w b. (refl, b))

  ingest-Triple :
      (cohort : Cohort)
      → assign_cohort env pf.case_id seed rules.holdout_fraction ≡ ok cohort
      → Triple
          (Fresh pf.case_id)
          (ingest env pf seed rules ts)
          (λ c w. (c ≡ cohort) × Book pf.case_id (new_row pf cohort) 0 w)
  unfolding ingest
  ingest-Triple cohort h =
      bind-Triple (lift-Triple (assign_cohort env pf.case_id seed rules.holdout_fraction) cohort h)
        λ c. given env pf.case_id (record_ingest env pf seed ts) (recorded-Triple cohort) c

  processed-Triple :
      (port : DiagnosisPort) (executor : ExecutorPort)
      → IsPort executor
      → (cohort c : Cohort)
      → Triple
          (λ w. (c ≡ cohort) × Book pf.case_id (new_row pf cohort) 0 w)
          (process_case env rules port executor pf.case_id)
          (Settled pf.case_id (new_row pf cohort) 0)
  unfolding new_row is_allowed
  processed-Triple port executor laws cohort c = record {
    at = λ w b.
        process_case_settles env pf.case_id rules port executor laws (new_row pf cohort) 0 w refl
          b.1;
  }

  -- A payment with a case id that is not stored yet, and of which the log has no results, is
  -- ingested and then processed without a raise, if its cohort can be assigned. The run ends as for
  -- any case: with the case in the final state of the trace, never in EXECUTING, in the cohort that
  -- was assigned, with one attempt in the row and in the log if the action ran and none if not.
  pub ingested_settles :
      (port : DiagnosisPort) (executor : ExecutorPort)
      → IsPort executor
      → (cohort : Cohort) (w : World)
      → assign_cohort env pf.case_id seed rules.holdout_fraction ≡ ok cohort
      → Fresh pf.case_id w
      → Returns
          (Settled pf.case_id (new_row pf cohort) 0)
          ((ingest env pf seed rules ts >> process_case env rules port executor pf.case_id) w)
  ingested_settles port executor laws cohort w h fresh =
      (bind-Triple {R = Settled pf.case_id (new_row pf cohort) 0}
          {f = λ c. process_case env rules port executor pf.case_id} (ingest-Triple cohort h)
          (processed-Triple port executor laws cohort)).at
        w fresh
