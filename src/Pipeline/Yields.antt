-- ===== src/Pipeline/Yields.antt =====
-- What `process_case` (agent/pipeline.py) returns, if it returns, whatever the executor does to the
-- database.
use downtime_aware_recovery.Common.{
  ◌≡◌, refl, true, Bool, ◌||◌, not, String, is_some, Option, none, some, Bool-cases, inl, inr,
}
use downtime_aware_recovery.Store.Exec.{
  Result, Exec, pure, Error, ◌>>=◌, raise, ok, err, refused, uncertain, key_error,
  illegal_transition, concurrent_modification, value_error, type_error, integrity_error,
  reconciliation_error,
}
use downtime_aware_recovery.Models.Verdict.{Verdict, is_executable, ActionResult, result_succeeded}
use downtime_aware_recovery.Store.{Env, World}
use downtime_aware_recovery.Pipeline.Dispatch.{
  DecisionTrace, Findings, finalize, close_case, trace_of, closing_state, on_uncertain, on_refused,
  ExecutorPort, dispatch, on_result, after_execution, catching, dispatch_payload,
}
use downtime_aware_recovery.Models.Payment.{Time}
use downtime_aware_recovery.Models.Enums.{CaseState, scheduled, executing}
use downtime_aware_recovery.Pipeline.Process.{act}
use downtime_aware_recovery.Store.Cases.{transition, no_sets}
use downtime_aware_recovery.Pipeline.Stages.{log, moved_to}
use downtime_aware_recovery.Contracts.Codes.{UncertaintyCode, ActionErrorCode}
use downtime_aware_recovery.Models.Json.{Message}

abbrev pub Given : {A : Type 0} → (A → Type 0) → Result A → Type 0
Given P (ok a) = P a
Given P (err e) = Unit

-- Every value that the action returns has the property.
pub record Yields {A : Type 0} (P : A → Type 0) (m : Exec A) : Type 0 where
  pub at : (w : World) → Given P (m w).0

module _ {B : Type 0} {P : B → Type 0} where
  pub pure-Yields : (b : B) → P b → Yields P (pure b)
  pure-Yields b p = record { at = λ w. p }

  pub raise-Yields : (e : Error) → Yields P (raise e)
  raise-Yields e = record { at = λ w. tt }

  bind-Given :
      {A : Type 0} (f : A → Exec B) (out : Result A × World)
      → ((a : A) → Yields P (f a))
      → Given P
          (elim out.0 as (λ _. Result B × World) [ ok a ↦ f a out.1 | err e ↦ (err e, out.1) ]).0
  bind-Given f (ok a, w) k = (k a).at w
  bind-Given f (err e, w) k = tt

  -- Only what follows the last step matters.
  pub >>=-Yields :
      {A : Type 0} (m : Exec A) (f : A → Exec B) → ((a : A) → Yields P (f a)) → Yields P (m >>= f)
  >>=-Yields m f k = record { at = λ w. bind-Given f (m w) k }

  pub relax-Yields : {Q : B → Type 0} (m : Exec B) → ((b : B) → P b → Q b) → Yields P m → Yields Q m
  relax-Yields {Q} m f y = record { at = λ w. go (m w).0 (y.at w) }
    where
      go : (out : Result B) → Given P out → Given Q out
      go (ok b) p = f b p
      go (err e) p = tt

ruleset yields_rules = (pure-Yields, raise-Yields, >>=-Yields)

-- The trace is about this verdict, and says that the action ran only if the verdict is executable.
pub record Authorized (v : Verdict) (t : DecisionTrace) : Type 0 where
  pub same_verdict : t.verdict ≡ v
  pub ran_if_allowed : (not (is_some t.action_succeeded) || is_executable v) ≡ true

module _ (env : Env) (id : String) (f : Findings) where
  trace-Authorized :
      (success : Option Bool) (final : CaseState)
      → (not (is_some success) || is_executable f.verdict) ≡ true
      → Authorized f.verdict (trace_of id f success final)
  trace-Authorized success final h = record { same_verdict = refl; ran_if_allowed = h }

  finalize-Yields :
      (t : DecisionTrace)
      → Authorized f.verdict t
      → Yields (Authorized f.verdict) (finalize env id t)
  unfolding finalize
  finalize-Yields t h = search (yields_rules, h) depth 12

  close_case-Yields : (ts : Time) → Yields (Authorized f.verdict) (close_case env id f ts)
  unfolding close_case
  close_case-Yields ts =
      search
        (yields_rules, finalize-Yields, trace-Authorized none (closing_state f.view f.verdict) refl)
        depth 12

  unran : (final : CaseState) → Authorized f.verdict (trace_of id f none final)
  unran final = trace-Authorized none final refl

  on_refused-Yields :
      (code : ActionErrorCode) (detail : Message)
      → Yields (Authorized f.verdict) (on_refused env id f code detail)
  unfolding on_refused
  on_refused-Yields code detail = search (yields_rules, finalize-Yields, unran) depth 14

  on_uncertain-Yields :
      (code : UncertaintyCode) (detail : Message) (key : String)
      → Yields (Authorized f.verdict) (on_uncertain env id f code detail key)
  unfolding on_uncertain
  on_uncertain-Yields code detail key = search (yields_rules, finalize-Yields, unran) depth 14

  module _ (x : is_executable f.verdict ≡ true) where
    ran :
        (r : ActionResult) (final : CaseState)
        → Authorized f.verdict (trace_of id f (some (result_succeeded r)) final)
    ran r final = trace-Authorized (some (result_succeeded r)) final (rw x refl)

    on_result-Yields : (r : ActionResult) → Yields (Authorized f.verdict) (on_result env id f r)
    unfolding on_result
    on_result-Yields r = search (yields_rules, finalize-Yields, ran r) depth 14

    after_execution-Yields :
        (out : Result ActionResult) → Yields (Authorized f.verdict) (after_execution env id f out)
    unfolding after_execution
    after_execution-Yields (ok r) = on_result-Yields r
    after_execution-Yields (err (refused code detail)) = on_refused-Yields code detail
    after_execution-Yields (err (uncertain code detail key)) = on_uncertain-Yields code detail key
    after_execution-Yields (err (key_error k)) = raise-Yields (key_error k)
    after_execution-Yields (err value_error) = raise-Yields value_error
    after_execution-Yields (err type_error) = raise-Yields type_error
    after_execution-Yields (err integrity_error) = raise-Yields integrity_error
    after_execution-Yields (err (illegal_transition a b)) = raise-Yields (illegal_transition a b)
    after_execution-Yields (err (concurrent_modification k)) =
        raise-Yields (concurrent_modification k)
    after_execution-Yields (err reconciliation_error) = raise-Yields reconciliation_error

    caught-Yields :
        (executor : ExecutorPort)
        → Yields (Authorized f.verdict) (catching (executor f.verdict) (after_execution env id f))
    caught-Yields executor = record {
      at = λ w. (after_execution-Yields (executor f.verdict w).0).at (executor f.verdict w).1;
    }

    dispatch-Yields :
        (executor : ExecutorPort) (ts : Time)
        → Yields (Authorized f.verdict) (dispatch env executor id f ts)
    unfolding dispatch
    dispatch-Yields executor ts = >>=-Yields (transition id scheduled no_sets) _ λ _.
        >>=-Yields (log env id "pipeline" "STATE_TRANSITION" (moved_to scheduled) ts) _ λ _.
          >>=-Yields (log env id "scheduler" "ACTION_DISPATCHED" (dispatch_payload f.verdict) ts) _
            λ _. >>=-Yields (transition id executing no_sets) _ λ _. caught-Yields executor

  pub act-Yields :
      (executor : ExecutorPort) (ts : Time)
      → Yields (Authorized f.verdict) (act env executor id f ts)
  unfolding act
  act-Yields executor ts = elim (Bool-cases (is_executable f.verdict)) [
    | inl x ↦ rw x (dispatch-Yields x executor ts)
    | inr n ↦ rw n (close_case-Yields ts)
  ]
