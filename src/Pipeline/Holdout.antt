-- ===== src/Pipeline/Holdout.antt =====
-- agent/pipeline.py on the cases of the holdout.
use downtime_aware_recovery.Common.{◌≡◌, true, String, ℕ, false, Bool-cases, ◌||◌, inl, none, inr}
use downtime_aware_recovery.Store.{Env, CaseRow, World}
use downtime_aware_recovery.Policy.{Rules}
use downtime_aware_recovery.Pipeline.Stages.{DiagnosisPort}
use downtime_aware_recovery.Pipeline.Process.{act, process_case, prepare}
use downtime_aware_recovery.Pipeline.Dispatch.{ExecutorPort, Findings, DecisionTrace, close_case}
use downtime_aware_recovery.Models.Payment.{Time}
use downtime_aware_recovery.Store.Exec.{Result, ok, err}
use downtime_aware_recovery.Models.Verdict.{is_executable}
use downtime_aware_recovery.Models.Enums.{holdout, same_state, diagnosed}
use downtime_aware_recovery.Pipeline.Book.{Returns, Book}
use downtime_aware_recovery.Pipeline.Prepares.{Prepared, prepare-Triple}
use downtime_aware_recovery.State.{is_allowed}
use downtime_aware_recovery.Policy.Authorized.{evaluate-decides}

module _ (env : Env) (rules : Rules) (port : DiagnosisPort) (id : String) where
  holdout_not_executable :
      (r : CaseRow) (n : ℕ) (f : Findings) (w : World)
      → r.cohort ≡ holdout
      → Prepared env rules id r n f w
      → is_executable f.verdict ≡ false
  holdout_not_executable r n f w h p = elim (Bool-cases (is_executable f.verdict)) [
    | inl e ↦
        let decided =
          evaluate-decides env.sha256 f.diagnosis f.view rules p.judged_at p.downtime none in
        let permitted = (decided.0.0 (rw (← p.judged) e)).0 in
        cc (permitted.in_treatment, p.view_cohort, h)
    | inr e ↦ e
  ]

  act_unexecuted :
      (executor : ExecutorPort) (f : Findings) (ts : Time)
      → is_executable f.verdict ≡ false
      → act env executor id f ts ≡ close_case env id f ts
  unfolding act
  act_unexecuted executor f ts h = rw h λ i. close_case env id f ts

  same_after :
      (executor executor' : ExecutorPort) (r : CaseRow) (n : ℕ)
      (out : Result (Findings × Time) × World)
      → r.cohort ≡ holdout
      → Returns (λ x w. Prepared env rules id r n x.0 w) out
      → (elim out.0 as (λ _. Result DecisionTrace × World) [
        | ok x ↦ act env executor id x.0 x.1 out.1
        | err e ↦ (err e, out.1)
      ])
        ≡ (elim out.0 as (λ _. Result DecisionTrace × World) [
          | ok x ↦ act env executor' id x.0 x.1 out.1
          | err e ↦ (err e, out.1)
        ])
  same_after executor executor' r n (ok x, w) h p =
      let blocked = holdout_not_executable r n x.0 w h p in
      rw (act_unexecuted executor x.0 x.1 blocked, act_unexecuted executor' x.0 x.1 blocked)
        λ i. close_case env id x.0 x.1 w
  same_after executor executor' r n (err e, w) h p = absurd p

  -- On a case of the holdout that may move to DIAGNOSED, or is in it, `process_case`
  -- does not depend on the executor: any two give the same result and the same database, so none is
  -- ever called.
  pub holdout_never_executed :
      (executor executor' : ExecutorPort) (r : CaseRow) (n : ℕ) (w : World)
      → r.cohort ≡ holdout
      → (same_state r.state diagnosed || is_allowed r.state diagnosed) ≡ true
      → Book id r n w
      → process_case env rules port executor id w ≡ process_case env rules port executor' id w
  unfolding process_case
  holdout_never_executed executor executor' r n w h a b =
      same_after executor executor' r n (prepare env rules port id w) h
        ((prepare-Triple env id rules port r n a).at w b)
