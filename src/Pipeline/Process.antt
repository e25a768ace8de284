-- ===== src/Pipeline/Process.antt =====
-- agent/pipeline.py: `process_case`.
use downtime_aware_recovery.Common.{String, if◌then◌else◌}
use downtime_aware_recovery.Store.{Env, CaseRow}
use downtime_aware_recovery.Store.Exec.{Exec, ◌>>=◌, ◌>>◌, pure, gets, now}
use downtime_aware_recovery.Policy.{Rules}
use downtime_aware_recovery.Pipeline.Stages.{DiagnosisPort, log, proposal_of, to_diagnosed, judge}
use downtime_aware_recovery.Pipeline.Dispatch.{
  ExecutorPort, DecisionTrace, dispatch, close_case, Findings, findings_of,
}
use downtime_aware_recovery.Store.Cases.{get_case, to_payment_failure}
use downtime_aware_recovery.Triage.{triage, as_payload}
use downtime_aware_recovery.Downtime.{context_at}
use downtime_aware_recovery.Models.Proposal.{dump_proposal}
use downtime_aware_recovery.Models.Verdict.{is_executable}
use downtime_aware_recovery.Models.Payment.{Time}

-- From the row of the case to the logged verdict, with the time of the first reading of the clock.
unfoldable pub prepare_row : Env → Rules → DiagnosisPort → String → CaseRow → Exec (Findings × Time)
prepare_row env rules port id row = do
  let pf = to_payment_failure row
  ts ← now env
  let t = triage pf.error.reason
  log env id "triage" "TRIAGE_RESULT" (as_payload t) ts
  windows ← gets (λ w. w.windows)
  let downtime = context_at pf.method pf.instrument ts windows
  let proposal = proposal_of port t pf row.attempts downtime
  log env id "diagnosis" "DIAGNOSIS_RETURNED" (dump_proposal proposal) ts
  to_diagnosed env id ts
  judged ← judge env rules id pf proposal downtime ts
  pure (findings_of t proposal judged.0 judged.1, ts)

unfoldable pub prepare : Env → Rules → DiagnosisPort → String → Exec (Findings × Time)
prepare env rules port id = do row ← get_case id; prepare_row env rules port id row

-- The branch on the verdict.
unfoldable pub act : Env → ExecutorPort → String → Findings → Time → Exec DecisionTrace
act env executor id f ts =
    if is_executable f.verdict then dispatch env executor id f ts else close_case env id f ts

unfoldable pub process_case :
    Env → Rules → DiagnosisPort → ExecutorPort → String → Exec DecisionTrace
process_case env rules port executor id = do
  prepared ← prepare env rules port id
  act env executor id prepared.0 prepared.1
