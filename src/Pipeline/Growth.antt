-- ===== src/Pipeline/Growth.antt =====
-- What `process_case` (agent/pipeline.py) does to the database on every path, whatever the executor
-- answers or raises.
use downtime_aware_recovery.Common.{String, refl, some}
use downtime_aware_recovery.Store.{Env}
use downtime_aware_recovery.Store.Evolves.{Evolves, Evolves-refl, Evolves-trans, Evolves-same}
use downtime_aware_recovery.Store.Keeps.{Keeps, append-Keeps, transition-Keeps}
use downtime_aware_recovery.Store.Respects.{IsTrack}
use downtime_aware_recovery.Pipeline.Dispatch.{ExecutorPort}
use downtime_aware_recovery.Pipeline.Stages.{DiagnosisPort}
use downtime_aware_recovery.Pipeline.Process.{process_case}
use downtime_aware_recovery.Pipeline.Tracks.{process_case-Respects}
use downtime_aware_recovery.Models.Verdict.{Verdict}
use downtime_aware_recovery.Policy.{Rules}

Evolves-IsTrack : (env : Env) (id : String) → IsTrack env id (Evolves env)
Evolves-IsTrack env id = record {
  still = λ w. Evolves-refl env w;
  chain = λ a b c p q. Evolves-trans env p q;
  reads = λ w n. Evolves-same env w _ refl refl;
  logs = λ actor event_type payload ts w.
      (append-Keeps env (some id) actor event_type payload ts).at w;
  moves = λ target sets w. (transition-Keeps env id target sets).at w;
}

module _ (env : Env) (executor : ExecutorPort)
    (executor-Keeps : (v : Verdict) → Keeps env (executor v)) where
  -- A run of the pipeline on a case, also one that ends in an exception, only adds events to the
  -- log and leaves a log that verifies if it did before. Every case that was there is there
  -- afterwards with its identity, cohort, order and amount, with no fewer attempts and no lower
  -- version, in a state that the permitted transitions lead to. This holds for every executor
  -- that itself leaves the database in such a way.
  pub process_case-Keeps :
      (rules : Rules) (port : DiagnosisPort) (id : String)
      → Keeps env (process_case env rules port executor id)
  process_case-Keeps rules port id = record {
    at = λ w.
        (process_case-Respects env id (Evolves env) (Evolves-IsTrack env id) executor
            (λ v. record { at = λ w'. (executor-Keeps v).at w' }) rules port).at
          w;
  }
