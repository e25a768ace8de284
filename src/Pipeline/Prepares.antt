-- ===== src/Pipeline/Prepares.antt =====
-- How `process_case` (agent/pipeline.py) prepares a case, up to the logged verdict.
use downtime_aware_recovery.Common.{
  refl, ◌≡◌, true, String, ℕ, ◌||◌, none, if◌then◌else◌, Bool-cases, inl, inr, arith,
}
use downtime_aware_recovery.Store.{Env, CaseRow, World}
use downtime_aware_recovery.Policy.{Rules}
use downtime_aware_recovery.Pipeline.Stages.{
  to_diagnosed, judge, mark_diagnosed, moved_to, executed_keys, DiagnosisPort, log, view_of,
  proposal_of,
}
use downtime_aware_recovery.Store.Exec.{Exec, pure, gets, ◌>>=◌, ◌>>◌}
use downtime_aware_recovery.Audit.{event_names}
use downtime_aware_recovery.Pipeline.Dispatch.{Findings, findings_of}
use downtime_aware_recovery.Models.Payment.{Time, PaymentFailure, DowntimeContext}
use downtime_aware_recovery.Pipeline.Book.{
  Book, Triple, bind-Triple, get_case-Book, transition-Book, log-Book, pure-Triple, gets-Book,
  now-Book,
}
use downtime_aware_recovery.State.{is_allowed}
use downtime_aware_recovery.Triage.{TriageResult, triage, as_payload}
use downtime_aware_recovery.Models.Enums.{diagnosed, same_state, same_state-eq}
use downtime_aware_recovery.Store.Cases.{apply_sets, no_sets, to_payment_failure}
use downtime_aware_recovery.Models.Proposal.{DiagnosisProposal, dump_proposal}
use downtime_aware_recovery.Policy.Evaluate.{evaluate}
use downtime_aware_recovery.Pipeline.Acts.{weaken}
use downtime_aware_recovery.Pipeline.Process.{prepare, prepare_row}
use downtime_aware_recovery.Models.Verdict.{dump_verdict}
use downtime_aware_recovery.Downtime.{context_at}

-- What a prepared case is like: in DIAGNOSED, with nothing counted yet, and with a verdict that the
-- engine gave on the cohort of the row.
pub record Prepared (env : Env) (rules : Rules) (id : String) (r₀ : CaseRow) (n : ℕ) (f : Findings)
    (w : World) : Type 0 where
  pub row : CaseRow
  pub booked : Book id row n w
  pub is_diagnosed : row.state ≡ diagnosed
  pub same_cohort : row.cohort ≡ r₀.cohort
  pub same_attempts : row.attempts ≡ r₀.attempts
  pub view_cohort : f.view.cohort ≡ r₀.cohort
  pub view_attempts : f.view.attempts ≡ r₀.attempts
  pub view_method : f.view.method ≡ r₀.method
  pub judged_at : Time
  pub downtime : DowntimeContext
  pub judged : f.verdict ≡ evaluate env.sha256 f.diagnosis f.view rules judged_at downtime none

module _ (env : Env) (id : String) where
  pub given :
      {A B : Type 0} {a₀ : A} {P : World → Type 0} (f : A → Exec B) {Q : B → World → Type 0}
      → Triple P (f a₀) Q
      → (a : A) → Triple (λ w. (a ≡ a₀) × P w) (f a) Q
  given f t a = record { at = λ w h. rw h.0 (t.at w h.1) }

  mark_diagnosed-Triple :
      (r : CaseRow) (n : ℕ) (ts : Time)
      → is_allowed r.state diagnosed ≡ true
      → Triple
          (Book id r n)
          (mark_diagnosed env id ts)
          (λ _. Book id (apply_sets diagnosed no_sets r) n)
  unfolding mark_diagnosed event_names
  mark_diagnosed-Triple r n ts a = bind-Triple (transition-Book env id r n diagnosed no_sets a) λ _.
      bind-Triple
        (log-Book env id (apply_sets diagnosed no_sets r) n "pipeline" "STATE_TRANSITION"
          (moved_to diagnosed) ts refl refl)
        λ _. pure-Triple tt (λ w b. b)

  -- In DIAGNOSED, with the cohort and the attempts of the row given.
  abbrev Diagnosed : CaseRow → ℕ → World → Type 0
  Diagnosed r₀ n w =
      (r : CaseRow) × Book id r n w
      × (r.state ≡ diagnosed)
      × (r.cohort ≡ r₀.cohort)
      × (r.attempts ≡ r₀.attempts)

  marked-Triple :
      (r : CaseRow) (n : ℕ) (ts : Time)
      → is_allowed r.state diagnosed ≡ true
      → Triple (Book id r n) (mark_diagnosed env id ts) (λ _. Diagnosed r n)
  unfolding apply_sets
  marked-Triple r n ts a =
      weaken env id (λ _ w b. (apply_sets diagnosed no_sets r, b, refl, refl, refl))
        (mark_diagnosed-Triple r n ts a)

  to_diagnosed-Triple :
      (r : CaseRow) (n : ℕ) (ts : Time)
      → (same_state r.state diagnosed || is_allowed r.state diagnosed) ≡ true
      → Triple (Book id r n) (to_diagnosed env id ts) (λ _. Diagnosed r n)
  unfolding to_diagnosed
  to_diagnosed-Triple r n ts a = bind-Triple (get_case-Book env id r n) λ row.
      given (λ x. if same_state x.state diagnosed then pure tt else mark_diagnosed env id ts)
        (elim (Bool-cases (same_state r.state diagnosed)) [
          | inl e ↦
              rw e (pure-Triple tt (λ w b. (r, b, same_state-eq r.state diagnosed e, refl, refl)))
          | inr e ↦ rw e (marked-Triple r n ts (ground arith))
        ])
        row

  judge_from-Triple :
      (rules : Rules) (r₀ r : CaseRow) (n : ℕ) (pf : PaymentFailure) (t : TriageResult)
      (p : DiagnosisProposal) (downtime : DowntimeContext) (ts : Time)
      → r.state ≡ diagnosed
      → r.cohort ≡ r₀.cohort
      → r.attempts ≡ r₀.attempts
      → pf.method ≡ r₀.method
      → Triple
          (Book id r n)
          (judge env rules id pf p downtime ts)
          (λ out w. Prepared env rules id r₀ n (findings_of t p out.0 out.1) w)
  unfolding judge event_names
  judge_from-Triple rules r₀ r n pf t p downtime ts d c a m =
      bind-Triple (get_case-Book env id r n) λ row.
        given
          (λ x. gets (λ w. executed_keys id w.actions) >>= λ keys.
            log env id "policy" "POLICY_VERDICT"
              (dump_verdict (evaluate env.sha256 p (view_of x pf keys) rules ts downtime none)) ts
            >> pure (
              view_of x pf keys,
              evaluate env.sha256 p (view_of x pf keys) rules ts downtime none,
            ))
          (bind-Triple
            (weaken env id (λ _ w h. h.1) (gets-Book env id r n (λ w. executed_keys id w.actions)))
            λ keys.
              bind-Triple
                (log-Book env id r n "policy" "POLICY_VERDICT"
                  (dump_verdict (evaluate env.sha256 p (view_of r pf keys) rules ts downtime none))
                  ts refl refl)
                λ _.
                  pure-Triple
                    (
                      view_of r pf keys,
                      evaluate env.sha256 p (view_of r pf keys) rules ts downtime none,
                    )
                    (λ w b. record {
                      row = r;
                      booked = b;
                      is_diagnosed = d;
                      same_cohort = c;
                      same_attempts = a;
                      view_cohort = unfold view_of in c;
                      view_attempts = unfold view_of in a;
                      view_method = unfold view_of in m;
                      judged_at = ts;
                      downtime = downtime;
                      judged = refl;
                    }))
          row

  judge-Triple :
      (rules : Rules) (r₀ : CaseRow) (n : ℕ) (pf : PaymentFailure) (t : TriageResult)
      (p : DiagnosisProposal) (downtime : DowntimeContext) (ts : Time)
      → pf.method ≡ r₀.method
      → Triple
          (Diagnosed r₀ n)
          (judge env rules id pf p downtime ts)
          (λ out w. Prepared env rules id r₀ n (findings_of t p out.0 out.1) w)
  judge-Triple rules r₀ n pf t p downtime ts m = record {
    at = λ w (r, b, d, c, a). (judge_from-Triple rules r₀ r n pf t p downtime ts d c a m).at w b;
  }

  prepare_row-Triple :
      (rules : Rules) (port : DiagnosisPort) (r : CaseRow) (n : ℕ)
      → (same_state r.state diagnosed || is_allowed r.state diagnosed) ≡ true
      → Triple
          (Book id r n)
          (prepare_row env rules port id r)
          (λ out. Prepared env rules id r n out.0)
  unfolding prepare_row event_names
  prepare_row-Triple rules port r n a =
      let pf = to_payment_failure r in
      let t = triage pf.error.reason in
      bind-Triple (now-Book env id r n) λ ts.
        bind-Triple (log-Book env id r n "triage" "TRIAGE_RESULT" (as_payload t) ts refl refl) λ _.
          bind-Triple (weaken env id (λ _ w h. h.1) (gets-Book env id r n (λ w. w.windows)))
            λ windows.
              let downtime = context_at pf.method pf.instrument ts windows in
              let proposal = proposal_of port t pf r.attempts downtime in
              bind-Triple
                (log-Book env id r n "diagnosis" "DIAGNOSIS_RETURNED" (dump_proposal proposal) ts
                  refl refl)
                λ _. bind-Triple (to_diagnosed-Triple r n ts a) λ _.
                  bind-Triple
                    (judge-Triple rules r n pf t proposal downtime ts
                      (unfold to_payment_failure in refl))
                    λ judged. pure-Triple (findings_of t proposal judged.0 judged.1, ts) (λ w h. h)

  pub prepare-Triple :
      (rules : Rules) (port : DiagnosisPort) (r : CaseRow) (n : ℕ)
      → (same_state r.state diagnosed || is_allowed r.state diagnosed) ≡ true
      → Triple (Book id r n) (prepare env rules port id) (λ out. Prepared env rules id r n out.0)
  unfolding prepare
  prepare-Triple rules port r n a =
      bind-Triple (get_case-Book env id r n)
        λ row. given (prepare_row env rules port id) (prepare_row-Triple rules port r n a) row
