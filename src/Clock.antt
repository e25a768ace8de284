-- ===== src/Clock.antt =====
-- agent/clock.py: `VirtualClock`, by the time that it shows.
use downtime_aware_recovery.Common.{◌+◌, ltb, if◌then◌else◌}
use downtime_aware_recovery.Models.Payment.{Time}
use downtime_aware_recovery.Store.Exec.{Result, ok, err, value_error}

-- `advance`, by a delta that is not negative.
unfoldable pub advance : Time → Time → Time
advance shown delta = shown + delta

-- `set`.
unfoldable pub set_clock : Time → Time → Result Time
set_clock shown when = if ltb when shown then err value_error else ok when
