-- ===== src/Store/Writers.antt =====
-- The contract of `transition` (agent/state.py), and two writers that race for one case.
use downtime_aware_recovery.Common.{
  ℕ, String, ◌≡◌, ◌≢◌, refl, Bool, true, false, Option, none, some, List, [], ◌∷◌, arith,
}
use downtime_aware_recovery.Models.Enums.{CaseState}
use downtime_aware_recovery.State.{is_allowed}
use downtime_aware_recovery.Store.{CaseRow, World}
use downtime_aware_recovery.Store.Exec.{
  Result, ok, err, illegal_transition, key_error, concurrent_modification,
}
use downtime_aware_recovery.Store.Cases.{
  find_case, Sets, apply_sets, update_rows, row_count, write_state, transition,
}
use downtime_aware_recovery.Store.Lookup.{
  find_case-update_rows, find_case-update_rows_ne, transition-allowed, transition-illegal,
  transition-missing, row_count_ne_zero,
}

-- The two worlds differ in the table of cases at most.
pub record SameLog (w w' : World) : Type 0 where
  pub actions : w'.actions ≡ w.actions
  pub events : w'.events ≡ w.events
  pub windows : w'.windows ≡ w.windows
  pub reads : w'.reads ≡ w.reads

-- What `transition` promises of a case that is there, by whether the table permits the move.
abbrev pub Moves : String → CaseState → Sets → World → CaseRow → Bool → Result Unit × World → Type 0
Moves id target sets w r true (result, w') =
    (result ≡ ok tt)
    × (find_case id w'.cases ≡ some (apply_sets target sets r))
    × ((other : String) → other ≢ id → find_case other w'.cases ≡ find_case other w.cases)
    × SameLog w w'
Moves id target sets w r false (result, w') =
    (result ≡ err (illegal_transition r.state target)) × (w' ≡ w)

-- The same of any case: one that is missing is a `KeyError`.
abbrev pub Transitions :
    String → CaseState → Sets → World → Option CaseRow → Result Unit × World → Type 0
Transitions id target sets w none out = out ≡ (err (key_error id), w)
Transitions id target sets w (some r) out = Moves id target sets w r (is_allowed r.state target) out

-- `transition` moves a case exactly along the permitted edges: then it writes the new state, the
-- next version and the given columns into that case alone, and nothing else in the database; else
-- it raises and leaves the database as it was.
pub transition-Transitions :
    (id : String) (target : CaseState) (sets : Sets) (w : World)
    → Transitions id target sets w (find_case id w.cases) (transition id target sets w)
transition-Transitions id target sets w = go (find_case id w.cases) refl
  where
    moved :
        (r : CaseRow) (b : Bool)
        → find_case id w.cases ≡ some r
        → is_allowed r.state target ≡ b
        → Moves id target sets w r b (transition id target sets w)
    moved r true found a = rw (transition-allowed id target sets w found a) (
      refl,
      find_case-update_rows id target sets w.cases found,
      λ other ne. find_case-update_rows_ne id other r.version target sets w.cases ne,
      record { actions = refl; events = refl; windows = refl; reads = refl },
    )
    moved r false found a = rw (transition-illegal id target sets w found a) (refl, refl)

    go :
        (o : Option CaseRow)
        → find_case id w.cases ≡ o
        → Transitions id target sets w o (transition id target sets w)
    go none e = transition-missing id target sets w e
    go (some r) e = moved r (is_allowed r.state target) e refl

row_count-update_rows :
    (id : String) (v : ℕ) (target : CaseState) (sets : Sets) (rs : List CaseRow)
    → row_count id v (update_rows id v (apply_sets target sets) rs) ≡ 0
unfolding row_count update_rows apply_sets
row_count-update_rows id v target sets [] = refl
row_count-update_rows id v target sets (x ∷ rs) =
    ground (arith, row_count-update_rows id v target sets rs)

update_rows-none :
    (id : String) (v : ℕ) (f : CaseRow → CaseRow) (rs : List CaseRow)
    → row_count id v rs ≡ 0
    → update_rows id v f rs ≡ rs
unfolding row_count update_rows
update_rows-none id v f [] h = refl
update_rows-none id v f (x ∷ rs) h = ground (arith, update_rows-none id v f rs)

-- Two writers have read a case at the same version, and both write. The first write succeeds, the
-- second raises, and the database is as the first left it.
pub stale_write_refused :
    (id : String) (a b : CaseState) (sa sb : Sets) (w : World) {r : CaseRow}
    → find_case id w.cases ≡ some r
    → let first = write_state id r.version a sa w in
      (first.0 ≡ ok tt)
      × (write_state id r.version b sb first.1 ≡ (err (concurrent_modification id), first.1))
unfolding write_state
stale_write_refused id a b sa sb w {r} found = (
  ground (arith, row_count_ne_zero id w.cases found),
  ground (
    arith,
    row_count-update_rows id r.version a sa w.cases,
    update_rows-none id r.version (apply_sets b sb)
        (update_rows id r.version (apply_sets a sa) w.cases),
  ),
)
