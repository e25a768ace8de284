-- ===== src/Harness/Sealed.antt =====
-- evalharness/run.py: the log of the scoring runs, the guard of the sealed corpus, and what `run` does
-- around the replay. The log of a corpus is the list of its entries, empty where there is no file.
use downtime_aware_recovery.Common.{
  ◌∷◌, [], none, some, ℕ, String, Bool, Option, List, ◌==◌, ◌&&◌, not, true, false, ◌++◌, elem,
  if◌then◌else◌, is_empty, length, is_some, lookup,
}
use downtime_aware_recovery.Store.Exec.{Exec, ◌>>=◌, ◌>>◌, pure, gets, or_raise, value_error}
use downtime_aware_recovery.Metrics.Scores.{AllMetrics, Scoring, BatchManifest, compute_all_metrics}
use downtime_aware_recovery.Store.{Env, CaseRow}
use downtime_aware_recovery.Models.Payment.{Time}
use downtime_aware_recovery.Harness.{Truth, by_created_at, replay_corpus}
use downtime_aware_recovery.Audit.Replay.{verify_counters}
use downtime_aware_recovery.Dashboard.{Sqlite}
use downtime_aware_recovery.Metrics.Bootstrap.{Random}
use downtime_aware_recovery.Policy.{Rules}
use downtime_aware_recovery.Pipeline.Stages.{DiagnosisPort}
use downtime_aware_recovery.Pipeline.Dispatch.{ExecutorPort}
use downtime_aware_recovery.Audit.{verify_chain}

pub record ScoringEntry : Type 0 where
  pub timestamp : Time
  pub corpus : String
  pub scenario_id : String
  pub provider : String
  pub seed : ℕ
  pub generator_version : String
  pub rescore_override : Bool

-- The log file of each corpus in each directory.
abbrev pub Logs : Type 0
Logs = String → String → List ScoringEntry

-- What `run` is called with, the directory of the ground truth, whether the two files exist, the time of the call, and which environment
-- variables are set to a text that is not empty.
pub record Attempt : Type 0 where
  pub manifest : BatchManifest
  pub directory : String
  pub files_exist : Bool
  pub seed : ℕ
  pub provider : String
  pub rescore : Bool
  pub time : Time
  pub keys : List String

abbrev pub entry_of : Attempt → ScoringEntry
entry_of a = record {
  timestamp = a.time;
  corpus = a.manifest.corpus;
  scenario_id = a.manifest.scenario_id;
  provider = a.provider;
  seed = a.seed;
  generator_version = a.manifest.generator_version;
  rescore_override = a.rescore;
}

-- `record_scoring_run`: the entry is appended, and the number of entries returned.
unfoldable pub record_scoring_run : Attempt → Logs → ℕ × Logs
record_scoring_run a logs =
    let written = logs a.directory a.manifest.corpus ++ entry_of a ∷ [] in
    (
      length written,
      λ d c. if a.directory == d && a.manifest.corpus == c then written else logs d c,
    )

-- The guard of a sealed corpus.
unfoldable pub is_refused : Attempt → Logs → Bool
is_refused a logs =
    a.manifest.corpus == "test"
    && not (is_empty (logs a.directory a.manifest.corpus))
    && not a.rescore

-- `required_key`.
unfoldable pub required_key : String → Option String
required_key provider =
    if provider == "groq"
    then some "GROQ_API_KEY"
    else if provider == "claude"
    then some "ANTHROPIC_API_KEY"
    else none

abbrev pub lacks_key : Attempt → Bool
lacks_key a = elim (required_key a.provider) [ none ↦ false | some k ↦ not (elem k a.keys) ]

-- The diagnosis that is chosen.
pub data PortChoice : Type 0 where
  claude_port groq_port baseline_port stub_port : PortChoice

unfoldable pub port_of : String → PortChoice
port_of provider =
    if provider == "claude"
    then claude_port
    else if provider == "groq"
    then groq_port
    else if provider == "baseline"
    then baseline_port
    else stub_port

-- How the part of `run` before the replay ends: with the number of runs scored and the diagnosis, or
-- with a ConfigurationError.
pub data Begun : Type 0 where
  ready : ℕ → PortChoice → Begun
  dataset_missing : Begun
  already_scored : ℕ → Begun
  key_missing : Begun

abbrev chosen : Attempt → ℕ → Begun
chosen a times = if lacks_key a then key_missing else ready times (port_of a.provider)

unfoldable pub begin_run : Attempt → Logs → Begun × Logs
begin_run a logs =
    let (times, logs') = record_scoring_run a logs in
    if not a.files_exist
    then (dataset_missing, logs)
    else if is_refused a logs
    then (already_scored (length (logs a.directory a.manifest.corpus)), logs)
    else (chosen a times, logs')

-- Calls of `run`, one after the other.
unfoldable pub attempts : List Attempt → Logs → Logs
attempts [] logs = logs
attempts (a ∷ as') logs = attempts as' (begin_run a logs).1

-- `all(verify_counters(conn, cid) for cid in case_ids)`.
unfoldable pub all_counters : List String → Exec Bool
all_counters [] = pure true
all_counters (id ∷ ids) = do
  agrees ← verify_counters id
  if agrees then all_counters ids else pure false

-- `case_ids`.
unfoldable pub known_ids : Truth → List CaseRow → List String
known_ids truth [] = []
known_ids truth (r ∷ rs) =
    let rest = known_ids truth rs in
    if is_some (lookup r.case_id truth) then r.case_id ∷ rest else rest

abbrev scoring_of : Attempt → ℕ → Bool → Bool → Scoring
scoring_of a times chain_ok counters_ok = record {
  seed = a.seed;
  manifest = a.manifest;
  chain_ok = chain_ok;
  counters_ok = counters_ok;
  times_scored = times;
  rescore_override = a.rescore;
}

-- `run` behind the choice of the diagnosis: the replay, the two checks and the metrics.
unfoldable pub score_corpus :
    Env
    → Sqlite
    → Random
    → Rules
    → DiagnosisPort
    → (Env → ExecutorPort)
    → Truth
    → Time
    → Attempt
    → ℕ
    → Exec AllMetrics
score_corpus env sql rng rules port executor truth start a times = do
  case_ids ← gets (λ w. known_ids truth (by_created_at sql.columns w.cases))
  replay_corpus sql.columns env rules port executor truth start
  chain_ok ← gets (λ w. verify_chain env w.events)
  counters_ok ← all_counters case_ids
  metrics ←
      gets (compute_all_metrics env sql rng rules truth (scoring_of a times chain_ok counters_ok))
  or_raise metrics value_error
