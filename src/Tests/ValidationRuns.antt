-- ===== src/Tests/ValidationRuns.antt =====
-- The check of the attempts of scripts/validate_data.py on the records of one mandate.
use downtime_aware_recovery.Common.{ℕ, String, List, [], ◌∷◌, ◌≡◌, refl, some}
use downtime_aware_recovery.Validation.{Failure, check_runs, dupes, dupes_from, advance, misplaced}
use downtime_aware_recovery.Validation.Episodes.{by_counting, check_runs-counts}

abbrev failure : String → ℕ → Failure
failure id n = record {
  case_id = id;
  order_id = "o1";
  created_at = "2026-01-01";
  mandate_id = some "m1";
  attempt_no = n;
}

-- Two episodes that overlap, and a third attempt too many.
abbrev overlapping : List Failure
overlapping =
    failure "c1" 1
    ∷ failure "c2" 1
    ∷ failure "c3" 2
    ∷ failure "c4" 3
    ∷ failure "c5" 2
    ∷ failure "c6" 2
    ∷ []

one_misplaced : check_runs [] overlapping ≡ misplaced (failure "c6" 2) ∷ []
unfolding check_runs advance
one_misplaced = refl

dupes_once : dupes ("a" ∷ "b" ∷ "a" ∷ "a" ∷ []) ≡ "a" ∷ []
unfolding dupes_from
dupes_once = refl

check_runs-counts_example : check_runs [] overlapping ≡ by_counting [] overlapping
check_runs-counts_example = check_runs-counts overlapping
