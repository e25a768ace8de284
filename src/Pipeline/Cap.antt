-- ===== src/Pipeline/Cap.antt =====
-- agent/pipeline.py: the attempt budget of agent/policy/engine.py against any diagnosis.
use downtime_aware_recovery.Common.{
  ◌≡◌, refl, true, ◌≤◌, arith, String, ℕ, or_default, some, lookup, [], Option-cases, Bool, inl,
  ◌<◌, none, subst, Option, inr, not, is_some, ◌||◌, sym,
}
use downtime_aware_recovery.Policy.{Rules, enabled, params}
use downtime_aware_recovery.Store.{World, Env, CaseRow}
use downtime_aware_recovery.Policy.Gates.{cap_for}
use downtime_aware_recovery.Store.Exec.{Exec, Result, ok, err}
use downtime_aware_recovery.Models.Verdict.{CaseView, is_executable}
use downtime_aware_recovery.Models.Enums.{Method, method_value, same_state, diagnosed}
use downtime_aware_recovery.Pipeline.Book.{Triple, Returns, Book, bind-Triple}
use downtime_aware_recovery.Pipeline.Dispatch.{Findings, DecisionTrace, ExecutorPort}
use downtime_aware_recovery.Pipeline.Yields.{
  Yields, Authorized, Given, >>=-Yields, relax-Yields, act-Yields,
}
use downtime_aware_recovery.Store.Cases.{find_case}
use downtime_aware_recovery.Pipeline.Prepares.{Prepared, prepare-Triple}
use downtime_aware_recovery.Pipeline.Endings.{Settled, counts}
use downtime_aware_recovery.Policy.Authorized.{evaluate-decides}
use downtime_aware_recovery.Pipeline.Process.{process_case, prepare, act}
use downtime_aware_recovery.Pipeline.Stages.{DiagnosisPort}
use downtime_aware_recovery.Pipeline.Acts.{IsPort, weaken}
use downtime_aware_recovery.State.{is_allowed}
use downtime_aware_recovery.Pipeline.Settles.{act_on-Triple}
use downtime_aware_recovery.Models.Payment.{Time}

-- `rules.params("ATTEMPT_CAP")` for a method.
unfoldable pub method_cap : Rules → Method → ℕ
method_cap rules method =
    let p = params rules "ATTEMPT_CAP" in
    or_default (or_default 3 p.default_cap)
      (lookup (method_value method) (or_default [] p.by_method))

cap_for-method : (rules : Rules) (c : CaseView) → cap_for rules c ≡ method_cap rules c.method
unfolding cap_for method_cap
cap_for-method rules c = refl

-- The stored case has spent no more attempts than `cap`.
abbrev pub Within : String → ℕ → World → Type 0
Within id cap w = (r : CaseRow) × (find_case id w.cases ≡ some r) × (r.attempts ≤ cap)

both :
    {A : Type 0} {P : World → Type 0} {Q : A → World → Type 0} {R : A → Type 0} (m : Exec A)
    → Triple P m Q
    → Yields R m
    → Triple P m (λ a w. Q a w × R a)
both {A} {Q} {R} m t y = record { at = λ w p. go (m w) (t.at w p) (y.at w) }
  where
    go : (out : Result A × World) → Returns Q out → Given R out.0 → Returns (λ a w. Q a w × R a) out
    go (ok a, w) q r = (q, r)
    go (err e, w) q r = absurd q

module _ (env : Env) (id : String) (rules : Rules) (capped : enabled rules "ATTEMPT_CAP" ≡ true)
    (r : CaseRow) (n : ℕ) (bounded : r.attempts ≤ method_cap rules r.method) where
  -- An executable verdict leaves room for one more attempt.
  below_cap :
      (f : Findings) (w₀ : World)
      → Prepared env rules id r n f w₀
      → is_executable f.verdict ≡ true
      → r.attempts < method_cap rules r.method
  below_cap f w₀ p x =
      let decided =
        evaluate-decides env.sha256 f.diagnosis f.view rules p.judged_at p.downtime none in
      let room = (decided.0.0 (rw (← p.judged) x)).0.within_cap capped in
      subst (λ a. a < method_cap rules r.method) p.view_attempts
        (subst (λ m. f.view.attempts < method_cap rules m) p.view_method
          (subst (λ k. f.view.attempts < k) (cap_for-method rules f.view) room))

  ran_executable :
      (f : Findings) (t : DecisionTrace) {b : Bool}
      → Authorized f.verdict t
      → t.action_succeeded ≡ some b
      → is_executable f.verdict ≡ true
  ran_executable f t {b} a ran =
      subst (λ s. (not (is_some s) || is_executable f.verdict) ≡ true) ran a.ran_if_allowed

  counts_of : {s s' : Option Bool} (a b : ℕ) → s ≡ s' → a ≡ counts s b → a ≡ counts s' b
  counts_of a b e h = subst (λ s. a ≡ counts s b) e h

  spends-Within :
      (f : Findings) (t : DecisionTrace) (w₀ w : World)
      → Prepared env rules id r n f w₀
      → Settled id r n t w
      → Authorized f.verdict t
      → Within id (method_cap rules r.method) w
  spends-Within f t w₀ w p (r', book, state, fit, counted, same, named) a = (
    r',
    book.found,
    elim (Option-cases t.action_succeeded) [
      | inl idle ↦ let now = counts_of r'.attempts r.attempts idle counted in ground arith
      | inr (b, ran) ↦
          let now = counts_of r'.attempts r.attempts ran counted in
          let room = below_cap f w₀ p (ran_executable f t a ran) in ground arith
    ],
  )

  act-Within :
      (executor : ExecutorPort) (out : Findings × Time)
      → IsPort executor
      → Triple
          (Prepared env rules id r n out.0)
          (act env executor id out.0 out.1)
          (λ _. Within id (method_cap rules r.method))
  act-Within executor out laws = record {
    at = λ w₀ p.
        (weaken env id (λ t w h. spends-Within out.0 t w₀ w p h.0 h.1)
            (both (act env executor id out.0 out.1)
              (act_on-Triple env id rules executor r n out laws)
              (act-Yields env id out.0 executor out.1))).at
          w₀ p;
  }

  capped-Triple :
      (port : DiagnosisPort) (executor : ExecutorPort)
      → IsPort executor
      → (same_state r.state diagnosed || is_allowed r.state diagnosed) ≡ true
      → Triple
          (Book id r n)
          (process_case env rules port executor id)
          (λ _. Within id (method_cap rules r.method))
  unfolding process_case
  capped-Triple port executor laws a =
      bind-Triple (prepare-Triple env id rules port r n a) λ out. act-Within executor out laws

-- If the attempt cap is enabled, and a stored case has spent no more attempts than the cap of its
-- method allows, then a run of `process_case` on the case, in a state that may move to DIAGNOSED or is
-- it, returns, and the stored case has still spent no more attempts than that, whatever the diagnosis
-- port proposes. The executor is one that leaves cases and events alone and answers with a result, a
-- refusal or an uncertain outcome.
pub cap_never_breached :
    (env : Env) (id : String) (rules : Rules) (port : DiagnosisPort) (executor : ExecutorPort)
    → IsPort executor
    → enabled rules "ATTEMPT_CAP" ≡ true
    → (r : CaseRow) (n : ℕ) (w : World)
    → (same_state r.state diagnosed || is_allowed r.state diagnosed) ≡ true
    → r.attempts ≤ method_cap rules r.method
    → Book id r n w
    → Returns
        (λ _. Within id (method_cap rules r.method))
        (process_case env rules port executor id w)
cap_never_breached env id rules port executor laws capped r n w a bounded b =
    (capped-Triple env id rules capped r n bounded port executor laws a).at w b

-- Whatever the diagnosis port and the executor are and whatever is stored, a trace that
-- `process_case` returns reports that the action ran only if its verdict is executable, that is, an
-- ALLOW whose action is not STOP.
pub ran-IsExecutable :
    (env : Env) (id : String) (rules : Rules) (port : DiagnosisPort) (executor : ExecutorPort)
    → Yields
        (λ t. (not (is_some t.action_succeeded) || is_executable t.verdict) ≡ true)
        (process_case env rules port executor id)
unfolding process_case
ran-IsExecutable env id rules port executor = >>=-Yields (prepare env rules port id) _ λ out.
    relax-Yields (act env executor id out.0 out.1)
      (λ t a.
        subst (λ v. (not (is_some t.action_succeeded) || is_executable v) ≡ true)
          (sym a.same_verdict) a.ran_if_allowed)
      (act-Yields env id out.0 executor out.1)
