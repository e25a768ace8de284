-- ===== src/Validation.antt =====
-- scripts/validate_data.py: the search for duplicates and the check of the order of the attempts, on
-- records that have the fields that are read.
pub mod Episodes
use downtime_aware_recovery.Common.{
  ℕ, String, Bool, Option, none, some, List, [], ◌∷◌, ◌++◌, ◌==◌, ltb, leb, nat_eq, true, not, ◌||◌,
  if◌then◌else◌, map, elem, suc, ◌-◌, ◌/◌, ◌&&◌, min, max, is_empty, false,
}
use downtime_aware_recovery.Metrics.{count_if}
use downtime_aware_recovery.Models.Payment.{Time}
use downtime_aware_recovery.Models.Verdict.{decimal, concat}

pub record Failure : Type 0 where
  pub case_id : String
  pub order_id : String
  pub created_at : String
  pub mandate_id : Option String
  pub attempt_no : ℕ

pub record Finding : Type 0 where
  pub category : String
  pub severity : String
  pub message : String
  pub ref : String

-- Texts by their order, `datetime.fromisoformat` behind the replacement of Z (dates that all have a time
-- zone, or all none), and what a time shows.
pub record Calendar : Type 0 where
  pub text_le : String → String → Bool
  pub fromisoformat : String → Option Time
  pub year : Time → ℕ
  pub shown : Time → String

-- `_dupes`: the keys that occur more than once, each at its first place.
unfoldable pub dupes_from : List String → List String → List String
dupes_from seen [] = []
dupes_from seen (k ∷ ks) =
    let rest = dupes_from (k ∷ seen) ks in if not (elem k seen) && elem k ks then k ∷ rest else rest

abbrev pub dupes : List String → List String
dupes keys = dupes_from [] keys

abbrev duplicate : String → String → Finding
duplicate message ref = record {
  category = "duplicates";
  severity = "FAIL";
  message = message;
  ref = ref;
}

abbrev times_message : List Failure → String → String
times_message failures id = concat (
    "case_id appears "
    ∷ decimal (count_if (λ f. f.case_id == id) failures)
    ∷ "x in payment_failures"
    ∷ [])

unfoldable pub check_duplicates : List Failure → List String → List String → List Finding
check_duplicates failures window_ids truth_ids =
    map (λ id. duplicate (times_message failures id) id) (dupes (map (λ f. f.case_id) failures))
    ++ map (duplicate "duplicate order_id") (dupes (map (λ f. f.order_id) failures))
    ++ map (duplicate "duplicate case_id in ground_truth") (dupes truth_ids)
    ++ map (duplicate "duplicate downtime window id") (dupes window_ids)

-- `next(idx ...)` and the assignment: the first episode that expects the number goes on.
unfoldable pub advance : ℕ → List ℕ → Option (List ℕ)
advance a [] = none
advance a (expected ∷ runs) =
    let rest = advance a runs in
    if nat_eq expected a
    then some (suc a ∷ runs)
    else elim rest [ none ↦ none | some runs' ↦ some (expected ∷ runs') ]

abbrev pub misplaced : Failure → Finding
misplaced r = record {
  category = "temporal_consistency";
  severity = "FAIL";
  message = concat (
      "attempt_no="
      ∷ decimal r.attempt_no
      ∷ " does not continue any in-progress episode for this mandate"
      ∷ []);
  ref = r.case_id;
}

-- The loop over the records of one mandate; a new episode is appended.
unfoldable pub check_runs : List ℕ → List Failure → List Finding
check_runs runs [] = []
check_runs runs (r ∷ rs) = elim (nat_eq r.attempt_no 1) [
  | true ↦ check_runs (runs ++ 2 ∷ []) rs
  | false ↦ elim (advance r.attempt_no runs) [
    | none ↦ misplaced r ∷ check_runs runs rs
    | some runs' ↦ check_runs runs' rs
  ]
]

-- `by_mandate`, in the order of the first records.
abbrev mandate_is : String → Failure → Bool
mandate_is id f = elim f.mandate_id [ none ↦ false | some m ↦ m == id ]

unfoldable pub mandates_from : List String → List Failure → List String
mandates_from seen [] = []
mandates_from seen (f ∷ fs) = elim f.mandate_id [
  | none ↦ mandates_from seen fs
  | some m ↦ elim (m == "" || elem m seen) [
    | true ↦ mandates_from seen fs
    | false ↦ m ∷ mandates_from (m ∷ seen) fs
  ]
]

unfoldable pub records_of : String → List Failure → List Failure
records_of id [] = []
records_of id (f ∷ fs) = let rest = records_of id fs in if mandate_is id f then f ∷ rest else rest

-- `sorted(records, key=lambda r: r["created_at"])`, which is stable.
unfoldable pub insert_record : Calendar → Failure → List Failure → List Failure
insert_record cal f [] = f ∷ []
insert_record cal f (g ∷ gs) =
    let rest = insert_record cal f gs in
    if cal.text_le f.created_at g.created_at then f ∷ g ∷ gs else g ∷ rest

unfoldable pub ordered : Calendar → List Failure → List Failure
ordered cal [] = []
ordered cal (f ∷ fs) = insert_record cal f (ordered cal fs)

unfoldable pub check_mandates : Calendar → List Failure → List String → List Finding
check_mandates cal failures [] = []
check_mandates cal failures (m ∷ ms) =
    check_runs [] (ordered cal (records_of m failures)) ++ check_mandates cal failures ms

-- `dates`; `fromisoformat` may raise.
unfoldable pub dates_of : Calendar → List Failure → Option (List Time)
dates_of cal [] = some []
dates_of cal (f ∷ fs) = elim (cal.fromisoformat f.created_at) [
  | none ↦ none
  | some t ↦ elim (dates_of cal fs) [ none ↦ none | some ts ↦ some (t ∷ ts) ]
]

abbrev least : Time → List Time → Time
least t [] = t
least t (u ∷ us) = least (min t u) us

abbrev greatest : Time → List Time → Time
greatest t [] = t
greatest t (u ∷ us) = greatest (max t u) us

abbrev bad_dates : String → Finding
bad_dates message = record {
  category = "temporal_consistency";
  severity = "FAIL";
  message = message;
  ref = "";
}

unfoldable pub check_dates : Calendar → List Time → List Finding
check_dates cal [] = []
check_dates cal (t ∷ ts) =
    let span_days = (greatest t ts - least t ts) / 86400000000 in
    let wide =
      if ltb 400 span_days
      then bad_dates (
          concat (
            "record span is "
            ∷ decimal span_days
            ∷ " days — unexpectedly wide for one corpus"
            ∷ []))
        ∷ []
      else [] in
    let old =
      if ltb (cal.year (least t ts)) 2020
      then bad_dates
          (concat ("earliest created_at (" ∷ cal.shown (least t ts) ∷ ") is implausibly old" ∷ []))
        ∷ []
      else [] in
    wide ++ old

-- `check_temporal_consistency`; none stands for the ValueError.
unfoldable pub check_temporal_consistency : Calendar → List Failure → Option (List Finding)
check_temporal_consistency cal failures = elim (dates_of cal failures) [
  | none ↦ none
  | some dates ↦
      some (check_mandates cal failures (mandates_from [] failures) ++ check_dates cal dates)
]
