-- ===== src/Triage/Classes.antt =====
-- The answers of `triage` (agent/triage.py), by where the reason is listed.
use downtime_aware_recovery.Common.{◌≡◌, false, arith, lookup, elem, none, some, String}
use downtime_aware_recovery.Triage.{triage, clean_reasons, ambiguous_reasons, clean, unseen}
use downtime_aware_recovery.Models.Enums.{Recoverability, unknown}

pub triage-listed :
    (reason : String) (c : Recoverability)
    → lookup reason clean_reasons ≡ some c
    → triage reason ≡ record { recoverability = c; is_ambiguous = false; matched = clean }
unfolding triage
triage-listed reason c h = ground arith

pub triage-unlisted :
    (reason : String)
    → lookup reason clean_reasons ≡ none
    → elem reason ambiguous_reasons ≡ false
    → triage reason ≡ record { recoverability = unknown; is_ambiguous = false; matched = unseen }
unfolding triage
triage-unlisted reason h k = ground arith
