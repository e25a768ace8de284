-- ===== src/Tests/HarnessRuns.antt =====
-- The replay loop of evalharness/run.py on a small corpus.
use downtime_aware_recovery.Common.{
  ◌≡◌, ◌≢◌, refl, String, ◌==◌, eq_iff, true, false, [], ◌∷◌, arith, Bool, List, ◌++◌,
}
use downtime_aware_recovery.Harness.{GroundTruth, Truth, replay_corpus}
use downtime_aware_recovery.Harness.Corpus.{replay_corpus-HaveEnded}
use downtime_aware_recovery.Harness.Ended.{HaveEnded}
use downtime_aware_recovery.Models.Enums.{transient_infra}
use downtime_aware_recovery.Pipeline.Book.{Returns, Book}
use downtime_aware_recovery.Pipeline.Frame.{IsFramed, process_case-IsFramed}
use downtime_aware_recovery.Pipeline.Process.{process_case}
use downtime_aware_recovery.Simulated.{execute}
use downtime_aware_recovery.Simulated.Port.{execute-IsPort}
use downtime_aware_recovery.Tests.Data.{
  columns, env, injected, diagnosis, rules, world, treated_row, holdout_row,
}
use downtime_aware_recovery.Store.Cases.{find_case}
use downtime_aware_recovery.Metrics.Scores.{BatchManifest}
use downtime_aware_recovery.Harness.Scored.{IsMarked, attempts-IsMarked}
use downtime_aware_recovery.Harness.Sealed.{
  Logs, begin_run, Attempt, attempts, record_scoring_run, ScoringEntry, is_refused, required_key,
  already_scored, key_missing,
}

abbrev known : GroundTruth
known = record {
  case_id = "c1";
  true_class = transient_infra;
  is_ambiguous = false;
  p_organic = 100000;
  p_retry_now = 300000;
  p_retry_after_downtime = 700000;
  max_recoverable = true;
}

abbrev truth : Truth
truth = ("c1", known) ∷ []

apart : (a b : String) → (a == b) ≡ false → a ≢ b
apart a b differ e = cc ((eq_iff a b).1 e, differ)

process_case-IsFramed_example :
    IsFramed "c2" world (process_case env rules diagnosis (execute env injected) "c1" world).1
process_case-IsFramed_example =
    process_case-IsFramed env rules diagnosis (execute env injected) (execute-IsPort env injected)
      "c1" "c2" world (apart "c2" "c1" refl)

first_booked : Book "c1" treated_row 0 world
unfolding find_case
first_booked = record { found = refl; counted = refl; can_replay = tt }

second_booked : Book "c2" holdout_row 0 world
unfolding find_case
second_booked = record { found = refl; counted = refl; can_replay = tt }

replay_corpus-HaveEnded_example :
    Returns
      (λ _. HaveEnded rules truth world.cases)
      (replay_corpus columns env rules diagnosis (λ e. execute e injected) truth 0 world)
replay_corpus-HaveEnded_example =
    replay_corpus-HaveEnded columns env rules diagnosis (λ e. execute e injected)
      (λ e. execute-IsPort e injected) truth 0 world ((apart "c1" "c2" refl, tt), (tt, tt))
      ((refl, tt), (tt, tt)) (omega arith, (omega arith, tt))
      ((0, first_booked), ((0, second_booked), tt))

abbrev sealed_manifest : BatchManifest
sealed_manifest = record {
  corpus = "test";
  seed = 7;
  scenario_id = "baseline";
  n = 400;
  generator_version = "1.0";
  times_scored = 0;
  created_at = 0;
}

abbrev attempt : String → Bool → Attempt
attempt provider rescore = record {
  manifest = sealed_manifest;
  directory = "data";
  files_exist = true;
  seed = 1;
  provider = provider;
  rescore = rescore;
  time = 5;
  keys = [];
}

abbrev no_logs : Logs
no_logs _ _ = []

-- A run without the key that it needs leaves its entry, and the next run is refused.
unscored_but_refused :
    (begin_run (attempt "stub" false) (begin_run (attempt "claude" false) no_logs).1).0
    ≡ already_scored 1
unfolding begin_run record_scoring_run is_refused required_key
unscored_but_refused = refl

without_key : (begin_run (attempt "claude" false) no_logs).0 ≡ key_missing
unfolding begin_run record_scoring_run is_refused required_key
without_key = refl

abbrev several : List Attempt
several = attempt "stub" false ∷ attempt "baseline" false ∷ attempt "stub" true ∷ []

attempts-IsMarked_example :
    IsMarked (attempts several no_logs "data" "test")
    × ((more : List ScoringEntry) × (attempts several no_logs "data" "test"
          ≡ no_logs "data" "test" ++ more))
attempts-IsMarked_example = attempts-IsMarked "data" several no_logs tt
