-- ===== src/Tests/DashboardRuns.antt =====
-- agent/dashboard.py on a small database.
use mathlib.Core.List.{Perm}
use downtime_aware_recovery.Common.{
  ◌≡◌, refl, true, some, none, [], ◌∷◌, ◌==◌, ◌⊎◌, ◌+◌, ◌++◌, All, String, length,
}
use downtime_aware_recovery.Tests.Data.{columns, env, world, treated_row, proposal, retry_verdict}
use downtime_aware_recovery.Store.Exec.{ok, err, key_error}
use downtime_aware_recovery.Models.Enums.{
  Action, Decision, action_value, decision_value, allow, retry, deny, recovery_link, review, stop,
}
use downtime_aware_recovery.Store.{EventRow, World, CaseRow}
use downtime_aware_recovery.Dashboard.Agrees.{IsPlain, IsTold, get_transaction_detail-IsTold}
use downtime_aware_recovery.Dashboard.Transactions.{Query, is_match, page, matching}
use downtime_aware_recovery.Logger.{Redactor, redact_string}
use downtime_aware_recovery.Dashboard.{Sqlite, compute_dashboard_metrics}
use downtime_aware_recovery.Store.Cases.{find_case}
use downtime_aware_recovery.Models.Json.{Json}
use downtime_aware_recovery.Models.Proposal.{dump_proposal}
use downtime_aware_recovery.Models.Verdict.{dump_verdict}
use downtime_aware_recovery.Dashboard.Trace.{get_transaction_trace, Trace}
use downtime_aware_recovery.Metrics.{last_event}
use downtime_aware_recovery.Dashboard.Consistent.{compute_dashboard_metrics-IsCoherent, IsCoherent}
use downtime_aware_recovery.Dashboard.Detail.{get_transaction_detail}
use downtime_aware_recovery.Dashboard.Pages.{IsNewestFirst, page-continues}
use downtime_aware_recovery.Dashboard.Views.{IsTrue, get_transaction_trace-IsTrue}
use downtime_aware_recovery.Audit.{verify_chain}

abbrev sql : Sqlite
sql = record {
  number_of = λ j. some 500000;
  like = λ text pattern. pattern == "%c1%";
  columns = columns;
}

-- Expressions that find nothing.
abbrev redactor : Redactor
redactor = record {
  sub_api_keys = λ new s. s;
  sub_cvvs = λ new s. s;
  sub_pans = λ mask s. s;
  digits = λ s. "";
  text_of = λ m. "message";
}

abbrev event : String → Json → EventRow
event event_type payload = record {
  case_id = some "c1";
  ts = 5;
  actor = "pipeline";
  event_type = event_type;
  payload = payload;
  prev_hash = "";
  hash = event_type;
}

abbrev diagnosed_event : EventRow
diagnosed_event = event "DIAGNOSIS_RETURNED" (dump_proposal proposal)

abbrev judged_event : EventRow
judged_event = event "POLICY_VERDICT" (dump_verdict retry_verdict)

abbrev logged : World
logged = record world { events = diagnosed_event ∷ judged_event ∷ [] }

compute_dashboard_metrics-IsCoherent_example :
    IsCoherent world.cases (compute_dashboard_metrics sql world)
compute_dashboard_metrics-IsCoherent_example = compute_dashboard_metrics-IsCoherent sql world

abbrev query : Query
query = record {
  limit = 1;
  offset = 0;
  search = none;
  cohort_filter = some "all";
  method_filter = some "UPI";
  state_filter = none;
}

page-continues_example :
    All (λ c. is_match sql query c ≡ true) (page sql query world.cases)
    × IsNewestFirst sql.columns (page sql query world.cases)
    × (page sql query world.cases
          ++ page sql (record query { limit = 1; offset = query.offset + query.limit }) world.cases
        ≡ page sql (record query { limit = query.limit + 1; offset = query.offset }) world.cases)
    × Perm
        (page sql
          (record query { limit = length (matching sql query world.cases); offset = 0 })
          world.cases)
        (matching sql query world.cases)
page-continues_example = page-continues sql query 1 world.cases

get_transaction_trace-IsTrue_example :
    ((find_case "c1" logged.cases ≡ none)
      × (get_transaction_trace env redactor "c1" logged ≡ (err (key_error "c1"), logged)))
    ⊎ ((c : CaseRow) × (find_case "c1" logged.cases ≡ some c)
        × ((t : Trace) × (get_transaction_trace env redactor "c1" logged ≡ (ok t, logged))
            × (t.case_id ≡ "c1")
            × IsTrue env redactor logged c t))
get_transaction_trace-IsTrue_example = get_transaction_trace-IsTrue env redactor "c1" logged

decisions_plain : (d : Decision) → redact_string redactor (decision_value d) ≡ decision_value d
decisions_plain allow = refl
decisions_plain deny = refl
decisions_plain review = refl

actions_plain : (a : Action) → redact_string redactor (action_value a) ≡ action_value a
actions_plain retry = refl
actions_plain recovery_link = refl
actions_plain stop = refl

plain : IsPlain redactor
plain = record { decisions = decisions_plain; actions = actions_plain }

get_transaction_detail-IsTold_example :
    (j : Json) × (get_transaction_detail columns env redactor "c1" logged ≡ (ok j, logged))
    × IsTold treated_row (verify_chain env logged.events) proposal retry_verdict j
unfolding find_case last_event
get_transaction_detail-IsTold_example =
    get_transaction_detail-IsTold columns env redactor "c1" logged treated_row proposal
      retry_verdict diagnosed_event judged_event plain refl refl refl refl refl
