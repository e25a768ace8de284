-- ===== src/Tests/PolicyRuns.antt =====
-- The engine of agent/policy/engine.py and the outages of agent/downtime.py on concrete inputs.
use downtime_aware_recovery.Common.{
  if◌then◌else◌, ◌↔◌, ◌≡◌, true, ◌≤◌, ◌∷◌, [], none, ◌+◌, max, ◌<◌, arith,
}
use downtime_aware_recovery.Models.Verdict.{is_executable, Verdict}
use downtime_aware_recovery.Downtime.Select.{Chosen, Bounds, active_at_most_severe}
use downtime_aware_recovery.Policy.Evaluate.{
  min_delay, max_delay, evaluate, schedule, clamped_delay, defers, candidate,
}
use downtime_aware_recovery.Models.Enums.{upi, review, deny}
use downtime_aware_recovery.Tests.Data.{proposal, env, hdfc, view, rules, outage, in_outage}
use downtime_aware_recovery.Policy.{params}
use downtime_aware_recovery.Models.Payment.{minutes}
use downtime_aware_recovery.Downtime.{active_at}
use downtime_aware_recovery.Policy.Timing.{schedule_bounds}
use downtime_aware_recovery.Policy.Authorized.{Permitted, IsConfident, evaluate-decides}

abbrev verdict_here : Verdict
verdict_here = evaluate env.sha256 proposal view rules 0 in_outage none

evaluate-decides_example :
    ((is_executable verdict_here ≡ true) ↔ (
      Permitted env.sha256 proposal view rules none
      × IsConfident env.sha256 proposal view rules none))
    × ((verdict_here.decision ≡ review) ↔ (
        Permitted env.sha256 proposal view rules none
        × (¬ IsConfident env.sha256 proposal view rules none)))
    × ((verdict_here.decision ≡ deny) ↔ (¬ Permitted env.sha256 proposal view rules none))
evaluate-decides_example = evaluate-decides env.sha256 proposal view rules 0 in_outage none

schedule_bounds_example :
    (minutes 15 ≤ (schedule proposal rules 0 in_outage).at)
    × (minutes (clamped_delay rules proposal) ≤ 0 + minutes (max_delay rules))
    × ((schedule proposal rules 0 in_outage).at ≡ (
        if defers rules in_outage
        then max (0 + minutes (clamped_delay rules proposal)) (candidate rules 0 in_outage).0
        else 0 + minutes (clamped_delay rules proposal)))
    × (((schedule proposal rules 0 in_outage).fired ≡ "DOWNTIME_DEFER" ∷ [])
        ↔ (0 + minutes (clamped_delay rules proposal) < (schedule proposal rules 0 in_outage).at))
unfolding min_delay max_delay params clamped_delay
schedule_bounds_example = schedule_bounds proposal rules 0 in_outage (omega arith)

active_at_most_severe_example :
    Chosen upi hdfc 5 (active_at upi hdfc 5 (outage ∷ [])) (outage ∷ [])
    × Bounds upi hdfc 5 (active_at upi hdfc 5 (outage ∷ [])) (outage ∷ [])
active_at_most_severe_example = active_at_most_severe upi hdfc 5 (outage ∷ [])
