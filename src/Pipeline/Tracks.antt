-- ===== src/Pipeline/Tracks.antt =====
-- What a run of `process_case` (agent/pipeline.py) does to the database, step by step.
use downtime_aware_recovery.Common.{String}
use downtime_aware_recovery.Store.{World, Env, CaseRow}
use downtime_aware_recovery.Pipeline.Dispatch.{
  close_case, finalize, Findings, DecisionTrace, on_result, on_refused, after_execution,
  ExecutorPort, on_uncertain, dispatch, catching,
}
use downtime_aware_recovery.Models.Payment.{Time, PaymentFailure, DowntimeContext}
use downtime_aware_recovery.Store.Respects.{Respects, IsTrack, respects_rules, raise-Respects}
use downtime_aware_recovery.Pipeline.Stages.{mark_diagnosed, judge, to_diagnosed, DiagnosisPort}
use downtime_aware_recovery.Pipeline.Process.{prepare, process_case, act, prepare_row}
use downtime_aware_recovery.Models.Verdict.{Verdict, ActionResult}
use downtime_aware_recovery.Policy.{Rules}
use downtime_aware_recovery.Contracts.Codes.{ActionErrorCode, UncertaintyCode}
use downtime_aware_recovery.Store.Exec.{
  Result, ok, err, refused, uncertain, key_error, illegal_transition, concurrent_modification,
  value_error, type_error, integrity_error, reconciliation_error,
}
use downtime_aware_recovery.Models.Json.{Message}
use downtime_aware_recovery.Models.Proposal.{DiagnosisProposal}

module _ (env : Env) (id : String) (R : World → World → Type 0) (track : IsTrack env id R) where
  finalize-Respects : (t : DecisionTrace) → Respects R (finalize env id t)
  unfolding finalize
  finalize-Respects t = search (respects_rules, track) depth 14

  close_case-Respects : (f : Findings) (ts : Time) → Respects R (close_case env id f ts)
  unfolding close_case
  close_case-Respects f ts = search (respects_rules, track, finalize-Respects) depth 9

  on_refused-Respects :
      (f : Findings) (code : ActionErrorCode) (detail : Message)
      → Respects R (on_refused env id f code detail)
  unfolding on_refused
  on_refused-Respects f code detail = search (respects_rules, track, finalize-Respects) depth 12

  on_uncertain-Respects :
      (f : Findings) (code : UncertaintyCode) (detail : Message) (key : String)
      → Respects R (on_uncertain env id f code detail key)
  unfolding on_uncertain
  on_uncertain-Respects f code detail key =
      search (respects_rules, track, finalize-Respects) depth 12

  on_result-Respects : (f : Findings) (r : ActionResult) → Respects R (on_result env id f r)
  unfolding on_result
  on_result-Respects f r = search (respects_rules, track, finalize-Respects) depth 12

  after_execution-Respects :
      (f : Findings) (r : Result ActionResult) → Respects R (after_execution env id f r)
  unfolding after_execution
  after_execution-Respects f (ok r) = on_result-Respects f r
  after_execution-Respects f (err (refused code detail)) = on_refused-Respects f code detail
  after_execution-Respects f (err (uncertain code detail key)) =
      on_uncertain-Respects f code detail key
  after_execution-Respects f (err (key_error k)) = raise-Respects env id R track (key_error k)
  after_execution-Respects f (err value_error) = raise-Respects env id R track value_error
  after_execution-Respects f (err type_error) = raise-Respects env id R track type_error
  after_execution-Respects f (err integrity_error) = raise-Respects env id R track integrity_error
  after_execution-Respects f (err (illegal_transition a b)) =
      raise-Respects env id R track (illegal_transition a b)
  after_execution-Respects f (err (concurrent_modification k)) =
      raise-Respects env id R track (concurrent_modification k)
  after_execution-Respects f (err reconciliation_error) =
      raise-Respects env id R track reconciliation_error

  mark_diagnosed-Respects : (ts : Time) → Respects R (mark_diagnosed env id ts)
  unfolding mark_diagnosed
  mark_diagnosed-Respects ts = search (respects_rules, track) depth 14

  to_diagnosed-Respects : (ts : Time) → Respects R (to_diagnosed env id ts)
  unfolding to_diagnosed
  to_diagnosed-Respects ts = search (respects_rules, track, mark_diagnosed-Respects) depth 9

  judge-Respects :
      (rules : Rules) (pf : PaymentFailure) (p : DiagnosisProposal) (d : DowntimeContext)
      (ts : Time)
      → Respects R (judge env rules id pf p d ts)
  unfolding judge
  judge-Respects rules pf p d ts = search (respects_rules, track) depth 14

  prepare_row-Respects :
      (rules : Rules) (port : DiagnosisPort) (row : CaseRow)
      → Respects R (prepare_row env rules port id row)
  unfolding prepare_row
  prepare_row-Respects rules port row =
      search (respects_rules, track, to_diagnosed-Respects, judge-Respects) depth 14

  prepare-Respects : (rules : Rules) (port : DiagnosisPort) → Respects R (prepare env rules port id)
  unfolding prepare
  prepare-Respects rules port = search (respects_rules, track, prepare_row-Respects)

  module _ (executor : ExecutorPort)
      (executor-Respects : (v : Verdict) → Respects R (executor v)) where
    executing-Respects :
        (f : Findings) → Respects R (catching (executor f.verdict) (after_execution env id f))
    executing-Respects f = record {
      at = λ w.
          let out = executor f.verdict w in
          track.chain w out.1 _ ((executor-Respects f.verdict).at w)
            ((after_execution-Respects f out.0).at out.1);
    }

    dispatch-Respects : (f : Findings) (ts : Time) → Respects R (dispatch env executor id f ts)
    unfolding dispatch
    dispatch-Respects f ts = search (respects_rules, track, executing-Respects) depth 12

    act-Respects : (f : Findings) (ts : Time) → Respects R (act env executor id f ts)
    unfolding act
    act-Respects f ts = search (respects_rules, track, dispatch-Respects, close_case-Respects)

    -- Every run of the pipeline on a case respects a relation that the steps on the case and the
    -- executor respect.
    pub process_case-Respects :
        (rules : Rules) (port : DiagnosisPort)
        → Respects R (process_case env rules port executor id)
    unfolding process_case
    process_case-Respects rules port =
        search (respects_rules, track, prepare-Respects, act-Respects)
