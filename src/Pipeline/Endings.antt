-- ===== src/Pipeline/Endings.antt =====
-- How the ends of `process_case` (agent/pipeline.py) leave the row of the case and the log.
use downtime_aware_recovery.Common.{
  ℕ, suc, String, ◌≡◌, refl, Option, Bool, some, none, true, ◌||◌, false, if◌then◌else◌, is_some,
  arith,
}
use downtime_aware_recovery.Store.{Env, CaseRow, World}
use downtime_aware_recovery.Pipeline.Dispatch.{
  close_case, DecisionTrace, finalize, Findings, closing_state, on_refused, on_uncertain,
  abandon_because, uncertainty_payload, refusal_payload, moved_because, trace_of, on_result,
  record_of, ran_at,
}
use downtime_aware_recovery.Models.Enums.{
  CaseState, same_state, recovered, diagnosed, failed_attempt, scheduled, quarantined, abandoned,
  holdout_closed, executing,
}
use downtime_aware_recovery.Pipeline.Book.{
  Triple, Book, bind-Triple, new_id-Book, now-Book, log-Book, pure-Triple, transition-Book,
}
use downtime_aware_recovery.Models.Payment.{Time}
use downtime_aware_recovery.Audit.{event_names}
use downtime_aware_recovery.State.{is_allowed}
use downtime_aware_recovery.Models.Json.{Json, Message, get, action_refused, execution_uncertain}
use downtime_aware_recovery.Contracts.Codes.{ActionErrorCode, UncertaintyCode, retryable}
use downtime_aware_recovery.Store.Cases.{no_sets, apply_sets}
use downtime_aware_recovery.Pipeline.Stages.{log, moved_to}
use downtime_aware_recovery.Store.Exec.{◌>>◌}
use downtime_aware_recovery.Models.Verdict.{
  dump_record, ActionResult, result_succeeded, dump_result,
}

-- The state in which a case is left, by whether the action ran and how: never in EXECUTING.
abbrev pub fits : Option Bool → CaseState → Bool
fits (some true) s = same_state s recovered
fits (some false) s = same_state s failed_attempt
fits none s =
    same_state s scheduled
    || same_state s quarantined
    || same_state s abandoned
    || same_state s holdout_closed

-- An attempt is counted, in the row and in the log, exactly if the action ran.
abbrev pub counts : Option Bool → ℕ → ℕ
counts none n = n
counts (some b) n = suc n

-- What holds of the case and the log when a run that began with the row `r₀` and `n₀` results in the
-- log has returned the trace `t`.
abbrev pub Settled : String → CaseRow → ℕ → DecisionTrace → World → Type 0
Settled id r₀ n₀ t w =
    (r : CaseRow) × Book id r (counts t.action_succeeded n₀) w
    × (r.state ≡ t.final_state)
    × (fits t.action_succeeded t.final_state ≡ true)
    × (r.attempts ≡ counts t.action_succeeded r₀.attempts)
    × (r.cohort ≡ r₀.cohort)
    × (t.case_id ≡ id)

-- The part of `Settled` that speaks of the row and the trace alone.
abbrev Ends : String → CaseRow → DecisionTrace → CaseRow → Type 0
Ends id r₀ t r =
    (r.state ≡ t.final_state)
    × (fits t.action_succeeded t.final_state ≡ true)
    × (r.attempts ≡ counts t.action_succeeded r₀.attempts)
    × (r.cohort ≡ r₀.cohort)
    × (t.case_id ≡ id)

result_allowed : (b : Bool) → is_allowed executing (if b then recovered else failed_attempt) ≡ true
unfolding is_allowed
result_allowed b = ground arith

result_fits : (b : Bool) → fits (some b) (if b then recovered else failed_attempt) ≡ true
result_fits b = ground arith

module _ (env : Env) (id : String) where
  finalize-Triple :
      (r₀ r : CaseRow) (n₀ : ℕ) (t : DecisionTrace)
      → Ends id r₀ t r
      → Triple (Book id r (counts t.action_succeeded n₀)) (finalize env id t) (Settled id r₀ n₀)
  unfolding finalize event_names
  finalize-Triple r₀ r n₀ t e =
      let n = counts t.action_succeeded n₀ in
      bind-Triple (new_id-Book env id r n) λ event_id. bind-Triple (now-Book env id r n) λ at.
        bind-Triple (now-Book env id r n) λ ts.
          bind-Triple
            (log-Book env id r n "pipeline" "DECISION_RECORDED"
              (dump_record (record_of t event_id at)) ts refl refl)
            λ _. pure-Triple t (λ w b. (r, b, e.0, e.1, e.2, e.3, e.4))

  moved-Triple :
      (r₀ r : CaseRow) (n₀ : ℕ) (payload : Json) (ts : Time) (t : DecisionTrace)
      → is_some (get "to" payload) ≡ true
      → Ends id r₀ t r
      → Triple
          (Book id r (counts t.action_succeeded n₀))
          (log env id "pipeline" "STATE_TRANSITION" payload ts >> finalize env id t)
          (Settled id r₀ n₀)
  unfolding event_names
  moved-Triple r₀ r n₀ payload ts t reads e =
      bind-Triple
        (log-Book env id r (counts t.action_succeeded n₀) "pipeline" "STATE_TRANSITION" payload ts
          refl reads)
        λ _. finalize-Triple r₀ r n₀ t e

  closes : (f : Findings) → is_allowed diagnosed (closing_state f.view f.verdict) ≡ true
  unfolding closing_state is_allowed
  closes f = ground arith

  closing_fits : (f : Findings) → fits none (closing_state f.view f.verdict) ≡ true
  unfolding closing_state
  closing_fits f = ground arith

  pub close_case-Triple :
      (r : CaseRow) (n : ℕ) (f : Findings) (ts : Time)
      → r.state ≡ diagnosed
      → Triple (Book id r n) (close_case env id f ts) (Settled id r n)
  unfolding close_case
  close_case-Triple r n f ts d =
      let final = closing_state f.view f.verdict in
      let sets = abandon_because final f.verdict.reason in
      bind-Triple (transition-Book env id r n final sets (rw d (closes f))) λ _.
        moved-Triple r (apply_sets final sets r) n (moved_because final f.verdict.reason) ts
          (trace_of id f none final) refl
          (unfold apply_sets in (refl, closing_fits f, refl, refl, refl))

  landing_allowed :
      (code : ActionErrorCode)
      → is_allowed executing (if retryable code then scheduled else quarantined) ≡ true
  unfolding is_allowed
  landing_allowed code = ground arith

  landing_fits :
      (code : ActionErrorCode)
      → fits none (if retryable code then scheduled else quarantined) ≡ true
  landing_fits code = ground arith

  pub on_refused-Triple :
      (r : CaseRow) (n : ℕ) (f : Findings) (code : ActionErrorCode) (detail : Message)
      → r.state ≡ executing
      → Triple (Book id r n) (on_refused env id f code detail) (Settled id r n)
  unfolding on_refused event_names
  on_refused-Triple r n f code detail x =
      let landing = if retryable code then scheduled else quarantined in
      bind-Triple (now-Book env id r n) λ at.
        bind-Triple
          (log-Book env id r n "executor" "ACTION_REFUSED" (refusal_payload code detail) at refl
            refl)
          λ _.
            bind-Triple (transition-Book env id r n landing no_sets (rw x (landing_allowed code)))
              λ _. bind-Triple (now-Book env id (apply_sets landing no_sets r) n) λ ts.
                moved-Triple r (apply_sets landing no_sets r) n
                  (moved_because landing (action_refused code)) ts (trace_of id f none landing) refl
                  (unfold apply_sets in (refl, landing_fits code, refl, refl, refl))

  pub on_uncertain-Triple :
      (r : CaseRow) (n : ℕ) (f : Findings) (code : UncertaintyCode) (detail : Message)
      (key : String)
      → r.state ≡ executing
      → Triple (Book id r n) (on_uncertain env id f code detail key) (Settled id r n)
  unfolding on_uncertain event_names is_allowed
  on_uncertain-Triple r n f code detail key x = bind-Triple (now-Book env id r n) λ at.
      bind-Triple
        (log-Book env id r n "executor" "ACTION_UNCERTAIN" (uncertainty_payload code detail key) at
          refl refl)
        λ _. bind-Triple (transition-Book env id r n quarantined no_sets (rw x refl)) λ _.
          bind-Triple (now-Book env id (apply_sets quarantined no_sets r) n) λ ts.
            moved-Triple r (apply_sets quarantined no_sets r) n
              (moved_because quarantined (execution_uncertain code)) ts
              (trace_of id f none quarantined) refl
              (unfold apply_sets in (refl, refl, refl, refl, refl))

  pub on_result-Triple :
      (r : CaseRow) (n : ℕ) (f : Findings) (res : ActionResult)
      → r.state ≡ executing
      → Triple (Book id r n) (on_result env id f res) (Settled id r n)
  unfolding on_result event_names
  on_result-Triple r n f res x =
      let final = if result_succeeded res then recovered else failed_attempt in
      bind-Triple (now-Book env id r n) λ at.
        bind-Triple (log-Book env id r n "executor" "ACTION_RESULT" (dump_result res) at refl refl)
          λ _. bind-Triple (now-Book env id r (suc n)) λ attempt_at.
            bind-Triple
              (transition-Book env id r (suc n) final (ran_at attempt_at)
                (rw x (result_allowed (result_succeeded res))))
              λ _.
                bind-Triple (now-Book env id (apply_sets final (ran_at attempt_at) r) (suc n)) λ ts.
                  moved-Triple r (apply_sets final (ran_at attempt_at) r) n (moved_to final) ts
                    (trace_of id f (some (result_succeeded res)) final) refl
                    (unfold apply_sets in
                      (refl, result_fits (result_succeeded res), omega arith, refl, refl))
