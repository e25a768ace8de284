-- ===== src/Simulated/Steps.antt =====
-- What `SimulatedExecutor.execute` (agent/executors/simulated.py) does to the database, on every branch.
use downtime_aware_recovery.Common.{
  suc, ltb, String, ◌≡◌, refl, Bool, true, false, Option, none, some, List, [], ◌∷◌, ◌++◌, arith,
  eq_iff, Option-cases, Bool-cases, inl, inr, is_some, or_default,
}
use downtime_aware_recovery.Models.Enums.{retry, is_succeeded}
use downtime_aware_recovery.Models.Verdict.{Verdict, ActionResult, is_executable, verdict_key}
use downtime_aware_recovery.Contracts.Retry.{
  RetryInput, input_key, build_retry_input, is_executable_state,
}
use downtime_aware_recovery.Store.{CaseRow, ActionRow, World, Env}
use downtime_aware_recovery.Store.Exec.{Result, ok, err, refused, uncertain, Error}
use downtime_aware_recovery.Store.Cases.{find_case}
use downtime_aware_recovery.Simulated.{
  Injected, find_action, remove_action, put_action, replay_action, attempt, outcome_of,
  executed_row, by_existing, execute, times_out, sim_result,
}
use downtime_aware_recovery.Models.Payment.{Time}
use downtime_aware_recovery.Contracts.Codes.{
  illegal_state, execution_timeout, duplicate_in_flight, unknown_case,
}
use downtime_aware_recovery.Models.Json.{
  state_not_executable, nothing_more, timed_out, idempotent_replay, in_flight, case_named,
}

find_action-append :
    (k : String) (as' : List ActionRow) (a : ActionRow)
    → find_action k as' ≡ none
    → k ≡ a.idempotency_key
    → find_action k (as' ++ a ∷ []) ≡ some a
unfolding find_action
find_action-append k [] a h e = ground (arith, eq_iff k a.idempotency_key)
find_action-append k (x ∷ as') a h e = ground (arith, find_action-append k as' a)

find_action-remove :
    (k : String) (as' : List ActionRow) → find_action k (remove_action k as') ≡ none
unfolding find_action remove_action
find_action-remove k [] = refl
find_action-remove k (x ∷ as') = ground (arith, find_action-remove k as')

pub find_action-put_action :
    (a : ActionRow) (as' : List ActionRow)
    → find_action a.idempotency_key (put_action a as') ≡ some a
unfolding put_action
find_action-put_action a as' =
    find_action-append a.idempotency_key (remove_action a.idempotency_key as') a
      (find_action-remove a.idempotency_key as') refl

-- The input of a retry exists only for an executable verdict that says RETRY, and carries the case
-- and the attempt of the verdict.
pub build_retry_input-ok :
    (v : Verdict) (row : CaseRow) {i : RetryInput}
    → build_retry_input v row.order_id row.method row.amount_paise ≡ ok i
    → (is_executable v ≡ true)
      × (v.action ≡ retry)
      × (i.case_id ≡ v.case_id)
      × (i.attempt_no ≡ v.attempt_no)
unfolding build_retry_input
build_retry_input-ok v row h = ground arith

-- The key of the input is the key of the verdict.
pub input_key-verdict :
    (sha256 : String → String) (v : Verdict) (row : CaseRow) {i : RetryInput}
    → build_retry_input v row.order_id row.method row.amount_paise ≡ ok i
    → input_key sha256 i ≡ verdict_key sha256 v
unfolding input_key verdict_key
input_key-verdict sha256 v row h = let (_, a, c, n) = build_retry_input-ok v row h in cc (a, c, n)

-- A result that is marked as a replay, or not, of a delivery that began at `w` and ended at `w'`.
abbrev pub Delivered : Verdict → String → World → ActionResult → World → Bool → Type 0
Delivered v key w r w' true =
    (w'.actions ≡ w.actions)
    × ((a : ActionRow) × (find_action key w.actions ≡ some a)
        × (is_some a.executed_at ≡ true)
        × (r.outcome ≡ outcome_of (or_default false a.succeeded)))
Delivered v key w r w' false =
    (find_action key w.actions ≡ none)
    × ((a : ActionRow) × (find_action key w'.actions ≡ some a)
        × (a.executed_at ≡ some r.executed_at)
        × (a.succeeded ≡ some (is_succeeded r.outcome)))

-- What the delivery has done to the table of actions, by how it ended.
abbrev pub Effect : Verdict → String → World → Result ActionResult × World → Type 0
Effect v key w (err e, w') = w'.actions ≡ w.actions
Effect v key w (ok r, w') = (r.idempotency_key ≡ key) × Delivered v key w r w' r.replayed

-- Only the table of actions and the count of readings can change.
abbrev pub OnlyActions : World → World → Type 0
OnlyActions w w' = (w'.cases ≡ w.cases) × (w'.events ≡ w.events) × (w'.windows ≡ w.windows)

module _ (env : Env) (inj : Injected) (v : Verdict) (row : CaseRow) (i : RetryInput) (key : String)
    (w : World) where
  -- What the random source and the clock give at this point.
  abbrev drawn : Bool
  drawn = ltb (inj.random_at w.reads) (inj.outcome_fn v)

  abbrev written : ActionRow
  written = executed_row i key drawn (env.now_at (suc w.reads))

  pub attempt-runs :
      is_executable_state row.state ≡ true
      → times_out inj.timeout_fn v ≡ false
      → attempt env inj v row i key w ≡ (
        ok (sim_result i key drawn (env.now_at (suc w.reads)) false nothing_more),
        record w { actions = put_action written w.actions; reads = suc (suc w.reads) },
      )
  unfolding attempt
  attempt-runs runs answers = ground arith

  pub attempt-times_out :
      is_executable_state row.state ≡ true
      → times_out inj.timeout_fn v ≡ true
      → attempt env inj v row i key w ≡ (err (uncertain execution_timeout timed_out key), w)
  unfolding attempt
  attempt-times_out runs late = ground arith

  pub attempt-stale :
      is_executable_state row.state ≡ false
      → attempt env inj v row i key w ≡ (err (refused illegal_state state_not_executable), w)
  unfolding attempt
  attempt-stale stale = ground arith

  succeeded-drawn : (b : Bool) → ◌≡◌ {A = Option Bool} (some b) (some (is_succeeded (outcome_of b)))
  succeeded-drawn b = ground arith

  attempt-Effect :
      find_action key w.actions ≡ none
      → Effect v key w (attempt env inj v row i key w)
        × OnlyActions w (attempt env inj v row i key w).1
  attempt-Effect absent = elim (Bool-cases (is_executable_state row.state)) [
    | inr stale ↦ rw (attempt-stale stale) (refl, (refl, refl, refl))
    | inl runs ↦ elim (Bool-cases (times_out inj.timeout_fn v)) [
      | inl late ↦ rw (attempt-times_out runs late) (refl, (refl, refl, refl))
      | inr answers ↦ rw (attempt-runs runs answers) (
        (
          refl,
          (
            absent,
            (written, find_action-put_action written w.actions, refl, succeeded-drawn drawn),
          ),
        ),
        (refl, refl, refl),
      )
    ]
  ]

  pub existing-replays :
      (a : ActionRow) {t : Time}
      → a.executed_at ≡ some t
      → by_existing env inj v row i key (some a) w ≡ (
        ok (
            sim_result i key
              (or_default false a.succeeded)
              (env.now_at w.reads)
              true
              idempotent_replay),
        record w { reads = suc w.reads },
      )
  unfolding by_existing replay_action
  existing-replays a done = ground arith

  pub existing-refused :
      (a : ActionRow)
      → a.executed_at ≡ none
      → by_existing env inj v row i key (some a) w
        ≡ (err (refused duplicate_in_flight in_flight), w)
  unfolding by_existing
  existing-refused a pending = ground arith

  by_existing-Effect :
      (o : Option ActionRow)
      → find_action key w.actions ≡ o
      → Effect v key w (by_existing env inj v row i key o w)
        × OnlyActions w (by_existing env inj v row i key o w).1
  by_existing-Effect none e = unfold by_existing in attempt-Effect e
  by_existing-Effect (some a) e = elim (Option-cases a.executed_at) [
    | inl pending ↦ rw (existing-refused a pending) (refl, (refl, refl, refl))
    | inr (t, done) ↦
        rw (existing-replays a done) ((refl, (refl, (a, e, rw done, refl))), (refl, refl, refl))
  ]

module _ (env : Env) (inj : Injected) (v : Verdict) (w : World) where
  pub execute-missing :
      find_case v.case_id w.cases ≡ none
      → execute env inj v w ≡ (err (refused unknown_case (case_named v.case_id)), w)
  unfolding execute
  execute-missing missing = ground arith

  pub execute-invalid :
      (row : CaseRow) (e : Error)
      → find_case v.case_id w.cases ≡ some row
      → build_retry_input v row.order_id row.method row.amount_paise ≡ err e
      → execute env inj v w ≡ (err e, w)
  unfolding execute
  execute-invalid row e found bad = ground arith

  pub execute-valid :
      (row : CaseRow) (i : RetryInput)
      → find_case v.case_id w.cases ≡ some row
      → build_retry_input v row.order_id row.method row.amount_paise ≡ ok i
      → execute env inj v w
        ≡ by_existing env inj v row i
            (verdict_key env.sha256 v)
            (find_action (verdict_key env.sha256 v) w.actions)
            w
  unfolding execute
  execute-valid row i found good = ground (arith, input_key-verdict env.sha256 v row good)

-- A delivery leaves the cases, the log and the outages alone, and the table of actions too where it
-- raises or answers with a replay. A replay gives the outcome that an executed row under the key
-- of the verdict records; a result that is no replay comes from a key that had no row, and leaves
-- an executed row with its outcome.
pub execute-Effect :
    (env : Env) (inj : Injected) (v : Verdict) (w : World)
    → Effect v (verdict_key env.sha256 v) w (execute env inj v w)
      × OnlyActions w (execute env inj v w).1
execute-Effect env inj v w = elim (Option-cases (find_case v.case_id w.cases)) [
  | inl missing ↦ rw (execute-missing env inj v w missing) (refl, (refl, refl, refl))
  | inr (row, found) ↦
      built row found (build_retry_input v row.order_id row.method row.amount_paise) refl
]
  where
    built :
        (row : CaseRow)
        → find_case v.case_id w.cases ≡ some row
        → (m : Result RetryInput) → build_retry_input v row.order_id row.method row.amount_paise ≡ m
        → Effect v (verdict_key env.sha256 v) w (execute env inj v w)
          × OnlyActions w (execute env inj v w).1
    built row found (err e) bad =
        rw (execute-invalid env inj v w row e found bad) (refl, (refl, refl, refl))
    built row found (ok i) good = rw (execute-valid env inj v w row i found good) (
        by_existing-Effect env inj v row i (verdict_key env.sha256 v) w
          (find_action (verdict_key env.sha256 v) w.actions) refl)
