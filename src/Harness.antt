-- ===== src/Harness.antt =====
-- evalharness/run.py: the replay of a stored corpus through the pipeline.
pub mod Ended
pub mod Rows
pub mod Corpus
pub mod Sealed
pub mod Scored
use downtime_aware_recovery.Common.{
  ℕ, String, Bool, ◌&&◌, Option, none, some, List, [], ◌∷◌, lookup, elem, leb, is_some,
  if◌then◌else◌,
}
use downtime_aware_recovery.Clock.{set_clock}
use downtime_aware_recovery.Models.Enums.{Recoverability, detected, same_state}
use downtime_aware_recovery.Models.Payment.{Time}
use downtime_aware_recovery.Models.Verdict.{Verdict}
use downtime_aware_recovery.Policy.{Rules}
use downtime_aware_recovery.Pipeline.Dispatch.{ExecutorPort}
use downtime_aware_recovery.Pipeline.Stages.{DiagnosisPort}
use downtime_aware_recovery.Pipeline.Process.{process_case}
use downtime_aware_recovery.Store.{Env, CaseRow, Columns, text_le}
use downtime_aware_recovery.Store.Exec.{Exec, ◌>>=◌, pure, gets, lift}

-- datagen/schema.py: `GroundTruth`; the probabilities are numbers of millionths.
pub record GroundTruth : Type 0 where
  pub case_id : String
  pub true_class : Recoverability
  pub is_ambiguous : Bool
  pub p_organic : ℕ
  pub p_retry_now : ℕ
  pub p_retry_after_downtime : ℕ
  pub max_recoverable : Bool

abbrev pub Truth : Type 0
Truth = List (String × GroundTruth)

-- `make_outcome_fn`.
unfoldable pub make_outcome_fn : Truth → Verdict → ℕ
make_outcome_fn truth v = elim (lookup v.case_id truth) [
  | none ↦ 500000
  | some gt ↦
      if elem "DOWNTIME_DEFER" v.fired_rules then gt.p_retry_after_downtime else gt.p_retry_now
]

-- `ORDER BY created_at ASC`, which compares texts.
abbrev pub is_earlier : Columns → CaseRow → CaseRow → Bool
is_earlier columns r s = text_le (columns.created_at r.case_id) (columns.created_at s.case_id)

unfoldable pub insert_row : Columns → CaseRow → List CaseRow → List CaseRow
insert_row columns r [] = r ∷ []
insert_row columns r (s ∷ ss) =
    let rest = insert_row columns r ss in if is_earlier columns r s then r ∷ s ∷ ss else s ∷ rest

unfoldable pub by_created_at : Columns → List CaseRow → List CaseRow
by_created_at columns [] = []
by_created_at columns (r ∷ rs) = insert_row columns r (by_created_at columns rs)

-- The clock that stands at a time.
abbrev pub at_time : Time → Env → Env
at_time t env = record env { now_at = λ n. t }

-- The test in the loop.
abbrev pub is_selected : Truth → CaseRow → Bool
is_selected truth r = is_some (lookup r.case_id truth) && same_state r.state detected

-- The loop over `case_rows`, from the time that the clock shows. The executor has the same clock.
unfoldable pub replay_rows :
    Env → Rules → DiagnosisPort → (Env → ExecutorPort) → Truth → List CaseRow → Time → Exec Unit
replay_rows env rules port executor truth [] shown = pure tt
replay_rows env rules port executor truth (r ∷ rs) shown =
    let skip = replay_rows env rules port executor truth rs shown in
    let run = lift (set_clock shown r.created_at) >>= λ t.
    process_case (at_time t env) rules port (executor (at_time t env)) r.case_id >>= λ _.
    replay_rows env rules port executor truth rs t in
    if is_selected truth r then run else skip

-- The query and the loop.
unfoldable pub replay_corpus :
    Columns → Env → Rules → DiagnosisPort → (Env → ExecutorPort) → Truth → Time → Exec Unit
replay_corpus columns env rules port executor truth start = do
  rows ← gets (λ w. by_created_at columns w.cases)
  replay_rows env rules port executor truth rows start
