-- ===== src/Simulated/Port.antt =====
-- agent/executors/simulated.py as the executor of agent/pipeline.py.
use downtime_aware_recovery.Common.{
  refl, ◌≡◌, true, Bool, false, arith, String, Option-cases, some, Option, inl, Bool-cases, inr,
  none,
}
use downtime_aware_recovery.Store.{Env, CaseRow, World, ActionRow}
use downtime_aware_recovery.Store.Exec.{
  Error, refused, err, uncertain, key_error, illegal_transition, Result, concurrent_modification,
  value_error, type_error, ok, integrity_error, reconciliation_error,
}
use downtime_aware_recovery.Contracts.Retry.{build_retry_input, RetryInput, is_executable_state}
use downtime_aware_recovery.Simulated.{
  Injected, execute, attempt, by_existing, times_out, find_action,
}
use downtime_aware_recovery.Pipeline.Acts.{IsHandled, IsPort}
use downtime_aware_recovery.Models.Verdict.{Verdict, verdict_key}
use downtime_aware_recovery.Store.Keeps.{Keeps}
use downtime_aware_recovery.Store.Cases.{find_case}
use downtime_aware_recovery.Simulated.Steps.{
  execute-Effect, execute-invalid, execute-missing, existing-refused, attempt-stale, execute-valid,
  existing-replays, attempt-times_out, attempt-runs,
}
use downtime_aware_recovery.Store.Evolves.{Evolves-same}

abbrev is_refusal : Error → Bool
is_refusal (refused code detail) = true
is_refusal e = false

refusal-IsHandled : (e : Error) → is_refusal e ≡ true → IsHandled (err e)
refusal-IsHandled (refused code detail) h = tt
refusal-IsHandled (uncertain code detail key) h = tt
refusal-IsHandled (key_error k) h = cc
refusal-IsHandled value_error h = cc
refusal-IsHandled type_error h = cc
refusal-IsHandled integrity_error h = cc
refusal-IsHandled (illegal_transition a b) h = cc
refusal-IsHandled (concurrent_modification k) h = cc
refusal-IsHandled reconciliation_error h = cc

invalid-refused :
    (v : Verdict) (row : CaseRow) (e : Error)
    → build_retry_input v row.order_id row.method row.amount_paise ≡ err e
    → is_refusal e ≡ true
unfolding build_retry_input
invalid-refused v row e h = ground arith

module _ (env : Env) (inj : Injected) (v : Verdict) (row : CaseRow) (i : RetryInput) (key : String)
    (w : World) where
  attempt-IsHandled : IsHandled (attempt env inj v row i key w).0
  attempt-IsHandled = elim (Bool-cases (is_executable_state row.state)) [
    | inr stale ↦ rw (attempt-stale env inj v row i key w stale) tt
    | inl runs ↦ elim (Bool-cases (times_out inj.timeout_fn v)) [
      | inl late ↦ rw (attempt-times_out env inj v row i key w runs late) tt
      | inr answers ↦ rw (attempt-runs env inj v row i key w runs answers) tt
    ]
  ]

  by_existing-IsHandled : (o : Option ActionRow) → IsHandled (by_existing env inj v row i key o w).0
  by_existing-IsHandled none = unfold by_existing in attempt-IsHandled
  by_existing-IsHandled (some a) = elim (Option-cases a.executed_at) [
    | inl pending ↦ rw (existing-refused env inj v row i key w a pending) tt
    | inr (t, done) ↦ rw (existing-replays env inj v row i key w a done) tt
  ]

module _ (env : Env) (inj : Injected) where
  pub execute-Keeps : (v : Verdict) → Keeps env (execute env inj v)
  execute-Keeps v = record {
    at = λ w.
        let only = (execute-Effect env inj v w).1 in
        Evolves-same env w (execute env inj v w).1 only.0 only.1;
  }

  built-IsHandled :
      (v : Verdict) (w : World) (row : CaseRow)
      → find_case v.case_id w.cases ≡ some row
      → (m : Result RetryInput) → build_retry_input v row.order_id row.method row.amount_paise ≡ m
      → IsHandled (execute env inj v w).0
  built-IsHandled v w row found (err e) bad =
      rw (execute-invalid env inj v w row e found bad)
        (refusal-IsHandled e (invalid-refused v row e bad))
  built-IsHandled v w row found (ok i) good = rw (execute-valid env inj v w row i found good) (
      by_existing-IsHandled env inj v row i (verdict_key env.sha256 v) w
        (find_action (verdict_key env.sha256 v) w.actions))

  execute-IsHandled : (v : Verdict) (w : World) → IsHandled (execute env inj v w).0
  execute-IsHandled v w = elim (Option-cases (find_case v.case_id w.cases)) [
    | inl missing ↦ rw (execute-missing env inj v w missing) tt
    | inr (row, found) ↦
        built-IsHandled v w row found (build_retry_input v row.order_id row.method row.amount_paise)
          refl
  ]

  -- The simulated executor is one that the pipeline can be run with: it leaves the cases and the
  -- events alone, and it answers every verdict, on every database, with a result, a refusal or an
  -- uncertain outcome.
  pub execute-IsPort : IsPort (execute env inj)
  execute-IsPort = record {
    same_cases = λ v w. (execute-Effect env inj v w).1.0;
    same_events = λ v w. (execute-Effect env inj v w).1.1;
    handled = execute-IsHandled;
  }
