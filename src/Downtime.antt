-- ===== src/Downtime.antt =====
-- agent/downtime.py: the store of downtime windows and the lookup of an outage.
pub mod Select
use downtime_aware_recovery.Common.{
  ℕ, String, Bool, true, false, ◌&&◌, Option, none, some, List, [], ◌∷◌, ◌++◌, ◌==◌, elem, ltb, leb,
  nat_eq, if◌then◌else◌,
}
use downtime_aware_recovery.Models.Enums.{Method, method_index}
use downtime_aware_recovery.Models.Payment.{
  Time, Instrument, DowntimeWindow, DowntimeContext, no_downtime, matches,
}
use downtime_aware_recovery.Store.{World}
use downtime_aware_recovery.Store.Exec.{Exec, gets, modify}

-- `ACTIVE_STATUSES`.
unfoldable pub active_statuses : List String
active_statuses = "started" ∷ "updated" ∷ "scheduled" ∷ []

remove_window : String → List DowntimeWindow → List DowntimeWindow
remove_window id [] = []
remove_window id (w ∷ ws) = let rest = remove_window id ws in if id == w.id then rest else w ∷ rest

-- `DowntimeStore.add`: INSERT OR REPLACE.
unfoldable pub add : DowntimeWindow → Exec Unit
unfolding remove_window
add win = modify (λ w. record w { windows = remove_window win.id w.windows ++ win ∷ [] })

-- `severity_rank.get(severity, 0)`.
unfoldable pub severity_rank : String → ℕ
severity_rank s =
    if s == "high" then 3 else if s == "medium" then 2 else if s == "low" then 1 else 0

-- `w.end is None or when < w.end`.
abbrev pub is_before : Time → Option Time → Bool
is_before when none = true
is_before when (some end) = ltb when end

-- The rows of the query (`method = ?`) that none of the tests of the loop skips.
unfoldable pub is_candidate : Method → Instrument → Time → DowntimeWindow → Bool
is_candidate method instrument when w =
    nat_eq (method_index w.method) (method_index method)
    && elem w.status active_statuses
    && (leb w.begin when && is_before when w.end)
    && matches instrument w.instrument

-- `best is None or rank(w) > rank(best)`.
abbrev pub improves : DowntimeWindow → Option DowntimeWindow → Bool
improves w none = true
improves w (some best) = ltb (severity_rank best.severity) (severity_rank w.severity)

-- The loop of `active_at`.
unfoldable pub select :
    Method → Instrument → Time → List DowntimeWindow → Option DowntimeWindow → Option DowntimeWindow
unfolding is_candidate
select method instrument when [] best = best
select method instrument when (w ∷ ws) best =
    select method instrument when ws
      (if is_candidate method instrument when w && improves w best then some w else best)

unfoldable pub active_at : Method → Instrument → Time → List DowntimeWindow → Option DowntimeWindow
active_at method instrument when windows = select method instrument when windows none

abbrev pub context_of : Option DowntimeWindow → DowntimeContext
context_of none = no_downtime
context_of (some w) = record {
  active = true;
  severity = some w.severity;
  scheduled = some w.scheduled;
  instrument_match = true;
  expected_end = w.end;
  window_id = some w.id;
}

unfoldable pub context_at : Method → Instrument → Time → List DowntimeWindow → DowntimeContext
context_at method instrument when windows = context_of (active_at method instrument when windows)
