-- ===== src/Tests/ReconciliationRuns.antt =====
-- `reconcile` of agent/reconciliation.py on concrete inputs.
use downtime_aware_recovery.Common.{
  refl, ◌≡◌, inl, inr, ◌∷◌, [], some, none, false, List, true, ◌&&◌, is_some,
}
use downtime_aware_recovery.Pipeline.Book.{Returns, Book}
use downtime_aware_recovery.Store.{World, EventRow, CaseRow}
use downtime_aware_recovery.Reconciliation.{
  unresolved, is_event, reconcile, is_resolved, UncertainCase, find_uncertain_cases,
}
use downtime_aware_recovery.Store.Cases.{find_case}
use downtime_aware_recovery.Audit.Replay.{verify_counters}
use downtime_aware_recovery.Reconciliation.Resolution.{
  Resolved, reconcile_unbalances, resolved_row, reconcile_blocked, reconcile_resolves,
}
use downtime_aware_recovery.Tests.Data.{world, treated_row, env, digest64}
use downtime_aware_recovery.Store.Exec.{Error, ok, err, reconciliation_error}
use downtime_aware_recovery.Audit.{new_event}
use downtime_aware_recovery.Models.Enums.{quarantined, succeeded, failed}
use downtime_aware_recovery.Pipeline.Dispatch.{uncertainty_payload}
use downtime_aware_recovery.Contracts.Codes.{execution_timeout}
use downtime_aware_recovery.Models.Json.{timed_out}
use downtime_aware_recovery.Reconciliation.Listing.{is_listed, find_uncertain_cases-lists, accepts}

abbrev stuck_row : CaseRow
stuck_row = record treated_row { state = quarantined }

-- The log of an action whose outcome is unknown.
abbrev stuck_event : EventRow
stuck_event =
    new_event env (some "c1") "executor" "ACTION_UNCERTAIN"
      (uncertainty_payload execution_timeout timed_out digest64) 7 []

abbrev stuck_world : World
stuck_world = record world { cases = stuck_row ∷ []; events = stuck_event ∷ [] }

stuck_open : unresolved "c1" stuck_world.events ≡ some stuck_event
unfolding unresolved is_event is_resolved new_event
stuck_open = refl

stuck_booked : Book "c1" stuck_row 0 stuck_world
unfolding find_case new_event
stuck_booked = record { found = refl; counted = refl; can_replay = (refl, tt) }

reconcile_resolves_example :
    Returns
      (λ s w'.
        Resolved env "c1" (some succeeded) 9 stuck_row 0 s w'
        × ((resolved_row env "c1" (some succeeded) 9 stuck_row).attempts ≡ 1)
        × (reconcile env "c1" none 9 w' ≡ (err reconciliation_error, w')))
      (reconcile env "c1" (some succeeded) 9 stuck_world)
reconcile_resolves_example =
    reconcile_resolves env "c1" (some succeeded) none 9 stuck_row 0 stuck_event stuck_world refl
      stuck_open stuck_booked

reconcile_unbalances_example :
    Returns
      (λ s w'. verify_counters "c1" w' ≡ (ok false, w'))
      (reconcile env "c1" (some succeeded) 9 stuck_world)
reconcile_unbalances_example =
    reconcile_unbalances env "c1" succeeded 9 stuck_row stuck_event stuck_world refl stuck_open
      stuck_booked

-- A case that was never sent to an executor.
reconcile_blocked_example :
    (e : Error) × (reconcile env "c1" (some failed) 9 world ≡ (err e, world))
unfolding find_case
reconcile_blocked_example =
    reconcile_blocked env "c1" (some failed) 9 world (inr (treated_row, refl, inl refl))

find_uncertain_cases-lists_example :
    (rows : List UncertainCase) × (find_uncertain_cases stuck_world ≡ (ok rows, stuck_world))
    × (is_listed "c1" rows ≡ accepts (reconcile env "c1" (some failed) 9 stuck_world))
    × (is_listed "c1" rows ≡ (true && is_some (unresolved "c1" stuck_world.events)))
unfolding find_case
find_uncertain_cases-lists_example =
    find_uncertain_cases-lists env "c1" (some failed) 9 stuck_world {r = stuck_row} refl
