-- ===== src/Pipeline/Settles.antt =====
-- How `process_case` (agent/pipeline.py) ends.
use downtime_aware_recovery.Common.{◌≡◌, true, String, ℕ, ◌||◌}
use downtime_aware_recovery.Store.{Env, CaseRow, World}
use downtime_aware_recovery.Policy.{Rules}
use downtime_aware_recovery.Pipeline.Stages.{DiagnosisPort}
use downtime_aware_recovery.Pipeline.Dispatch.{Findings, ExecutorPort}
use downtime_aware_recovery.Models.Payment.{Time}
use downtime_aware_recovery.Pipeline.Book.{Book, Triple, bind-Triple, Returns}
use downtime_aware_recovery.State.{is_allowed}
use downtime_aware_recovery.Models.Enums.{diagnosed, same_state}
use downtime_aware_recovery.Pipeline.Acts.{weaken, IsPort, Settled-from, act-Triple}
use downtime_aware_recovery.Pipeline.Process.{process_case, act}
use downtime_aware_recovery.Pipeline.Endings.{Settled}
use downtime_aware_recovery.Pipeline.Prepares.{Prepared, prepare-Triple}

module _ (env : Env) (id : String) where
  pub act_on-Triple :
      (rules : Rules) (executor : ExecutorPort) (r : CaseRow) (n : ℕ) (out : Findings × Time)
      → IsPort executor
      → Triple (Prepared env rules id r n out.0) (act env executor id out.0 out.1) (Settled id r n)
  act_on-Triple rules executor r n out laws = record {
    at = λ w p.
        (weaken env id
            (λ t w' h. Settled-from env id r p.row n t w' p.same_cohort p.same_attempts h)
            (act-Triple env id executor laws p.row n out.0 out.1 p.is_diagnosed)).at
          w p.booked;
  }

  -- A run of `process_case` on a stored case that may move to DIAGNOSED, or is in it,
  -- returns a trace: it does not raise. The case is then in the final state of the trace, which is
  -- RECOVERED or FAILED_ATTEMPT if the action ran and SCHEDULED, QUARANTINED, ABANDONED or
  -- HOLDOUT_CLOSED if it did not, and so is never left in EXECUTING. The attempts of the row and the
  -- results in its log are one more than before exactly if the action ran, and its cohort is as
  -- before. The executor is one that leaves cases and events alone and answers with a result, a
  -- refusal or an uncertain outcome.
  pub process_case_settles :
      (rules : Rules) (port : DiagnosisPort) (executor : ExecutorPort)
      → IsPort executor
      → (r : CaseRow) (n : ℕ) (w : World)
      → (same_state r.state diagnosed || is_allowed r.state diagnosed) ≡ true
      → Book id r n w
      → Returns (Settled id r n) (process_case env rules port executor id w)
  unfolding process_case
  process_case_settles rules port executor laws r n w a b =
      (bind-Triple (prepare-Triple env id rules port r n a)
          λ out. act_on-Triple rules executor r n out laws).at
        w b
