-- ===== src/Simulated/Redelivery.antt =====
-- At-least-once delivery of a verdict to `SimulatedExecutor.execute` (agent/executors/simulated.py).
use downtime_aware_recovery.Common.{
  suc, ◌≡◌, refl, true, false, some, arith, String, Bool, is_some, or_default, Option-cases, inl,
  inr, sym, subst, ◌∙◌, ap,
}
use downtime_aware_recovery.Store.{Env, World, CaseRow, ActionRow}
use downtime_aware_recovery.Simulated.{
  Injected, execute, find_action, outcome_of, sim_result, by_existing,
}
use downtime_aware_recovery.Models.Verdict.{Verdict, ActionResult, verdict_key}
use downtime_aware_recovery.Simulated.Steps.{
  Delivered, execute-Effect, Effect, execute-valid, existing-replays,
}
use downtime_aware_recovery.Contracts.Retry.{RetryInput, build_retry_input}
use downtime_aware_recovery.Store.Exec.{ok}
use downtime_aware_recovery.Store.Cases.{find_case}
use downtime_aware_recovery.Models.Json.{idempotent_replay}

-- After a delivery that gave a result the table has an executed row under its key with its outcome.
settled :
    (v : Verdict) (key : String) (w : World) (r : ActionResult) (w' : World) (b : Bool)
    → Delivered v key w r w' b
    → (a : ActionRow) × (find_action key w'.actions ≡ some a)
      × (is_some a.executed_at ≡ true)
      × (r.outcome ≡ outcome_of (or_default false a.succeeded))
settled v key w r w' true (same, (a, found, done, outcome)) = (a, rw same found, done, outcome)
settled v key w r w' false (absent, (a, found, done, success)) =
    (a, found, rw done refl, ground arith)

replays_row :
    (env : Env) (inj : Injected) (v : Verdict) (later : World) (row : CaseRow) (i : RetryInput)
    (a : ActionRow)
    → find_case v.case_id later.cases ≡ some row
    → build_retry_input v row.order_id row.method row.amount_paise ≡ ok i
    → find_action (verdict_key env.sha256 v) later.actions ≡ some a
    → is_some a.executed_at ≡ true
    → (again : ActionResult) × (execute env inj v later
        ≡ (ok again, record later { reads = suc later.reads }))
      × (again.replayed ≡ true)
      × (again.outcome ≡ outcome_of (or_default false a.succeeded))
      × (again.idempotency_key ≡ verdict_key env.sha256 v)
replays_row env inj v later row i a found good there done =
    let key = verdict_key env.sha256 v in
    elim (Option-cases a.executed_at) [
      | inl pending ↦ cc
      | inr (t, at) ↦ (
        sim_result i key (or_default false a.succeeded) (env.now_at later.reads) true
            idempotent_replay,
        execute-valid env inj v later row i found good
            ∙ ap (λ o. by_existing env inj v row i key o later) there
            ∙ existing-replays env inj v row i key later a at,
        refl,
        refl,
        refl,
      )
    ]

-- Once a verdict has been carried out, a second delivery of it spends nothing, whatever happened to
-- the case and to the clock in between: it answers with the outcome of the first one, marked as a
-- replay, and leaves all the tables alone.
pub redelivery_replays :
    (env : Env) (inj : Injected) (v : Verdict) (w later : World) {r : ActionResult} {w' : World}
    {row : CaseRow} {i : RetryInput}
    → execute env inj v w ≡ (ok r, w')
    → find_action (verdict_key env.sha256 v) later.actions
      ≡ find_action (verdict_key env.sha256 v) w'.actions
    → find_case v.case_id later.cases ≡ some row
    → build_retry_input v row.order_id row.method row.amount_paise ≡ ok i
    → (again : ActionResult) × (execute env inj v later
        ≡ (ok again, record later { reads = suc later.reads }))
      × (again.replayed ≡ true)
      × (again.outcome ≡ r.outcome)
      × (again.idempotency_key ≡ r.idempotency_key)
redelivery_replays env inj v w later {r} {w'} {row} {i} ran kept found good =
    let ended : Effect v (verdict_key env.sha256 v) w (ok r, w') =
      subst (Effect v (verdict_key env.sha256 v) w) ran (execute-Effect env inj v w).0 in
    let (a, there, done, outcome) =
      settled v (verdict_key env.sha256 v) w r w' r.replayed ended.1 in
    let (again, e, x, y, z) = replays_row env inj v later row i a found good (kept ∙ there) done in
    (again, e, x, y ∙ sym outcome, z ∙ sym ended.0)
