-- ===== src/Store/Lookup.antt =====
-- What the operations of agent/state.py do to the row that a lookup finds.
use downtime_aware_recovery.Common.{
  ℕ, String, ◌≡◌, ◌≢◌, refl, true, false, none, some, List, [], ◌∷◌, arith, eq_iff,
}
use downtime_aware_recovery.Models.Enums.{CaseState}
use downtime_aware_recovery.State.{is_allowed}
use downtime_aware_recovery.Store.{CaseRow, World}
use downtime_aware_recovery.Store.Exec.{ok, err, illegal_transition, key_error}
use downtime_aware_recovery.Store.Cases.{
  find_case, Sets, apply_sets, update_rows, row_count, transition,
}

pub find_case-case_id :
    (id : String) (rs : List CaseRow) {r : CaseRow} → find_case id rs ≡ some r → r.case_id ≡ id
unfolding find_case
find_case-case_id id [] h = cc
find_case-case_id id (x ∷ rs) {r} h =
    ground (arith, eq_iff id x.case_id, find_case-case_id id rs {r = r})

-- After an UPDATE at the version of the row that is found, the lookup finds the new row.
pub find_case-update_rows :
    (id : String) (target : CaseState) (sets : Sets) (rs : List CaseRow) {r : CaseRow}
    → find_case id rs ≡ some r
    → find_case id (update_rows id r.version (apply_sets target sets) rs)
      ≡ some (apply_sets target sets r)
unfolding find_case update_rows apply_sets
find_case-update_rows id target sets [] h = cc
find_case-update_rows id target sets (x ∷ rs) {r} h =
    ground (arith, find_case-update_rows id target sets rs {r = r})

-- The lookup of another case finds what it found before.
pub find_case-update_rows_ne :
    (id other : String) (v : ℕ) (target : CaseState) (sets : Sets) (rs : List CaseRow)
    → other ≢ id
    → find_case other (update_rows id v (apply_sets target sets) rs) ≡ find_case other rs
unfolding find_case update_rows apply_sets
find_case-update_rows_ne id other v target sets [] h = refl
find_case-update_rows_ne id other v target sets (x ∷ rs) h = ground (
  arith,
  eq_iff id x.case_id,
  eq_iff other x.case_id,
  find_case-update_rows_ne id other v target sets rs h,
)

-- At the version of the row that is found, the UPDATE changes a row.
pub row_count_ne_zero :
    (id : String) (rs : List CaseRow) {r : CaseRow}
    → find_case id rs ≡ some r
    → row_count id r.version rs ≢ 0
unfolding find_case row_count
row_count_ne_zero id [] h = cc
row_count_ne_zero id (x ∷ rs) {r} h = ground (arith, row_count_ne_zero id rs {r = r})

module _ (id : String) (target : CaseState) (sets : Sets) (w : World) {r : CaseRow}
    (found : find_case id w.cases ≡ some r) where
  abbrev pub moved : World
  moved = record w { cases = update_rows id r.version (apply_sets target sets) w.cases }

  pub transition-allowed :
      is_allowed r.state target ≡ true → transition id target sets w ≡ (ok tt, moved)
  unfolding transition
  transition-allowed a = ground (arith, row_count_ne_zero id w.cases found)

  pub transition-illegal :
      is_allowed r.state target ≡ false
      → transition id target sets w ≡ (err (illegal_transition r.state target), w)
  unfolding transition
  transition-illegal a = ground arith

pub transition-missing :
    (id : String) (target : CaseState) (sets : Sets) (w : World)
    → find_case id w.cases ≡ none
    → transition id target sets w ≡ (err (key_error id), w)
unfolding transition
transition-missing id target sets w h = ground arith
