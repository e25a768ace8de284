-- ===== src/Pipeline/Acts.antt =====
-- How acting on a verdict, in `process_case` (agent/pipeline.py), leaves the row and the log.
use downtime_aware_recovery.Common.{ℕ, String, ◌≡◌, refl, Bool, true, false, if◌then◌else◌, ◌∙◌}
use downtime_aware_recovery.Store.{Env, CaseRow, World}
use downtime_aware_recovery.Pipeline.Dispatch.{
  DecisionTrace, Findings, ExecutorPort, after_execution, catching, dispatch, dispatch_payload,
}
use downtime_aware_recovery.Models.Enums.{diagnosed, scheduled, executing}
use downtime_aware_recovery.Pipeline.Book.{
  Triple, Book, bind-Triple, log-Book, transition-Book, Returns,
}
use downtime_aware_recovery.Models.Payment.{Time}
use downtime_aware_recovery.Audit.{event_names}
use downtime_aware_recovery.State.{is_allowed}
use downtime_aware_recovery.Store.Cases.{no_sets, apply_sets}
use downtime_aware_recovery.Pipeline.Stages.{moved_to}
use downtime_aware_recovery.Store.Exec.{
  Result, Exec, ok, err, refused, uncertain, key_error, illegal_transition, concurrent_modification,
  value_error, type_error, integrity_error, reconciliation_error,
}
use downtime_aware_recovery.Models.Verdict.{ActionResult, Verdict, is_executable}
use downtime_aware_recovery.Pipeline.Process.{act}
use downtime_aware_recovery.Pipeline.Endings.{
  Settled, close_case-Triple, on_result-Triple, on_refused-Triple, on_uncertain-Triple,
}

-- The outcomes that the pipeline handles: a result, a refusal or an uncertain outcome.
abbrev pub IsHandled : Result ActionResult → Type 0
IsHandled (ok r) = Unit
IsHandled (err (refused code detail)) = Unit
IsHandled (err (uncertain code detail key)) = Unit
IsHandled (err e) = ⊥

-- What the pipeline relies on in an executor: it leaves the cases and the events alone, and it
-- answers in one of these ways.
pub record IsPort (executor : ExecutorPort) : Type 0 where
  pub same_cases : (v : Verdict) (w : World) → (executor v w).1.cases ≡ w.cases
  pub same_events : (v : Verdict) (w : World) → (executor v w).1.events ≡ w.events
  pub handled : (v : Verdict) (w : World) → IsHandled (executor v w).0

module _ (env : Env) (id : String) where
  after_execution-Settled :
      (r : CaseRow) (n : ℕ) (f : Findings) (out : Result ActionResult) (w : World)
      → r.state ≡ executing
      → IsHandled out
      → Book id r n w
      → Returns (Settled id r n) (after_execution env id f out w)
  unfolding after_execution
  after_execution-Settled r n f (ok res) w x h b = (on_result-Triple env id r n f res x).at w b
  after_execution-Settled r n f (err (refused code detail)) w x h b =
      (on_refused-Triple env id r n f code detail x).at w b
  after_execution-Settled r n f (err (uncertain code detail key)) w x h b =
      (on_uncertain-Triple env id r n f code detail key x).at w b
  after_execution-Settled r n f (err (key_error k)) w x h b = absurd h
  after_execution-Settled r n f (err value_error) w x h b = absurd h
  after_execution-Settled r n f (err type_error) w x h b = absurd h
  after_execution-Settled r n f (err integrity_error) w x h b = absurd h
  after_execution-Settled r n f (err (illegal_transition a c)) w x h b = absurd h
  after_execution-Settled r n f (err (concurrent_modification k)) w x h b = absurd h
  after_execution-Settled r n f (err reconciliation_error) w x h b = absurd h

  -- What a later stage settles of a row that agrees with an earlier one in cohort and attempts is
  -- settled of the earlier one.
  pub Settled-from :
      (r₀ r : CaseRow) (n : ℕ) (t : DecisionTrace) (w : World)
      → r.cohort ≡ r₀.cohort
      → r.attempts ≡ r₀.attempts
      → Settled id r n t w
      → Settled id r₀ n t w
  Settled-from r₀ r n t w c a (s, b, x, y, z, u, v) = (s, b, x, y, rw (← a) z, u ∙ c, v)

  pub weaken :
      {A : Type 0} {P : World → Type 0} {Q R : A → World → Type 0} {m : Exec A}
      → ((a : A) (w : World) → Q a w → R a w)
      → Triple P m Q
      → Triple P m R
  weaken {A} {P} {Q} {R} {m} f t = record { at = λ w p. go w (m w) (t.at w p) }
    where
      go : (w : World) (out : Result A × World) → Returns Q out → Returns R out
      go w (ok a, w') h = f a w' h
      go w (err e, w') h = absurd h

  pub if-Triple :
      {A : Type 0} {P : World → Type 0} {Q : A → World → Type 0} {m m' : Exec A} (b : Bool)
      → Triple P m Q
      → Triple P m' Q
      → Triple P (if b then m else m') Q
  if-Triple true t u = t
  if-Triple false t u = u

  module _ (executor : ExecutorPort) (port_laws : IsPort executor) where
    executing-Triple :
        (r : CaseRow) (n : ℕ) (f : Findings)
        → r.state ≡ executing
        → Triple
            (Book id r n)
            (catching (executor f.verdict) (after_execution env id f))
            (Settled id r n)
    executing-Triple r n f x = record {
      at = λ w b.
          after_execution-Settled r n f (executor f.verdict w).0 (executor f.verdict w).1 x
            (port_laws.handled f.verdict w)
            (record {
              found = rw (port_laws.same_cases f.verdict w) b.found;
              counted = rw (port_laws.same_events f.verdict w) b.counted;
              can_replay = rw (port_laws.same_events f.verdict w) b.can_replay;
            });
    }

    dispatch-Triple :
        (r : CaseRow) (n : ℕ) (f : Findings) (ts : Time)
        → r.state ≡ diagnosed
        → Triple (Book id r n) (dispatch env executor id f ts) (Settled id r n)
    unfolding dispatch event_names is_allowed
    dispatch-Triple r n f ts d =
        let r1 = apply_sets scheduled no_sets r in
        let r2 = apply_sets executing no_sets r1 in
        bind-Triple (transition-Book env id r n scheduled no_sets (rw d refl)) λ _.
          bind-Triple
            (log-Book env id r1 n "pipeline" "STATE_TRANSITION" (moved_to scheduled) ts refl refl)
            λ _.
              bind-Triple
                (log-Book env id r1 n "scheduler" "ACTION_DISPATCHED" (dispatch_payload f.verdict)
                  ts refl refl)
                λ _.
                  bind-Triple
                    (transition-Book env id r1 n executing no_sets (unfold apply_sets in refl))
                    λ _.
                      weaken
                        (λ t w.
                          Settled-from r r2 n t w (unfold apply_sets in refl)
                            (unfold apply_sets in refl))
                        (executing-Triple r2 n f (unfold apply_sets in refl))

    pub act-Triple :
        (r : CaseRow) (n : ℕ) (f : Findings) (ts : Time)
        → r.state ≡ diagnosed
        → Triple (Book id r n) (act env executor id f ts) (Settled id r n)
    unfolding act
    act-Triple r n f ts d =
        if-Triple (is_executable f.verdict) (dispatch-Triple r n f ts d)
          (close_case-Triple env id r n f ts d)
