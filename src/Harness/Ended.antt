-- ===== src/Harness/Ended.antt =====
-- What the replay of evalharness/run.py starts from, and how it leaves a case.
use downtime_aware_recovery.Common.{
  ℕ, ◌+◌, ◌≤◌, ◌≡◌, ◌≢◌, sym, ◌∙◌, ap, String, Bool, true, not, ◌||◌, List, [], ◌∷◌, some, none,
  arith, Option, All, ◌&&◌, leb,
}
use downtime_aware_recovery.Clock.{set_clock}
use downtime_aware_recovery.Models.Enums.{executing, CaseState, detected, diagnosed, same_state}
use downtime_aware_recovery.Models.Payment.{Time}
use downtime_aware_recovery.Policy.{Rules, enabled}
use downtime_aware_recovery.Pipeline.Cap.{method_cap}
use downtime_aware_recovery.Pipeline.Book.{Book}
use downtime_aware_recovery.Pipeline.Dispatch.{DecisionTrace}
use downtime_aware_recovery.Pipeline.Frame.{IsFramed, count_results-events_of}
use downtime_aware_recovery.Pipeline.Endings.{Settled, fits, counts}
use downtime_aware_recovery.Store.Cases.{find_case}
use downtime_aware_recovery.Store.{CaseRow, World}
use downtime_aware_recovery.Store.Exec.{ok}
use downtime_aware_recovery.Audit.Counting.{Readable, count_results}
use downtime_aware_recovery.Harness.{is_selected, Truth}

-- The case is none of the rows.
abbrev pub IsAway : String → List CaseRow → Type 0
IsAway id rows = All (λ r. id ≢ r.case_id) rows

-- No two rows are of one case.
abbrev pub AreApart : List CaseRow → Type 0
AreApart [] = Unit
AreApart (r ∷ rs) = IsAway r.case_id rs × AreApart rs

-- The rows are in the order of their times, none of which is before the given one.
abbrev pub IsAscending : Time → List CaseRow → Type 0
IsAscending t [] = Unit
IsAscending t (r ∷ rs) = (t ≤ r.created_at) × IsAscending r.created_at rs

-- Each row is stored, and its case can be replayed.
abbrev pub IsReady : List CaseRow → World → Type 0
IsReady rows w = All (λ r. (n : ℕ) × Book r.case_id r n w) rows

-- In none of the states in which a run begins or that it passes through.
abbrev pub is_over : CaseState → Bool
is_over s = not (same_state s detected || same_state s diagnosed || same_state s executing)

-- If the attempt cap is enabled and the row was within the cap of its method, so is this number of
-- attempts.
abbrev pub keeps_cap : Rules → CaseRow → ℕ → Bool
keeps_cap rules r attempts =
    not (enabled rules "ATTEMPT_CAP" && leb r.attempts (method_cap rules r.method))
    || leb attempts (method_cap rules r.method)

-- The case is stored; if it was replayed, it is over; and at most one attempt was spent, none of them
-- beyond the cap.
abbrev pub HasEnded : Rules → Truth → CaseRow → World → Type 0
HasEnded rules truth r w =
    (r' : CaseRow) × (find_case r.case_id w.cases ≡ some r')
    × ((not (is_selected truth r) || is_over r'.state) ≡ true)
    × (r'.attempts ≤ r.attempts + 1)
    × (keeps_cap rules r r'.attempts ≡ true)

abbrev pub HaveEnded : Rules → Truth → List CaseRow → World → Type 0
HaveEnded rules truth rows w = All (λ r. HasEnded rules truth r w) rows

pub Book-framed :
    (id : String) (r : CaseRow) (n : ℕ) (w w' : World)
    → IsFramed id w w'
    → Readable w'.events
    → Book id r n w
    → Book id r n w'
Book-framed id r n w w' f readable b = record {
  found = f.same_row ∙ b.found;
  counted =
      sym (count_results-events_of id w'.events)
      ∙ ap (count_results id) f.same_events
      ∙ count_results-events_of id w.events
      ∙ b.counted;
  can_replay = readable;
}

pub IsReady-framed :
    (id : String) (rows : List CaseRow) (w w' : World)
    → IsAway id rows
    → ((other : String) → other ≢ id → IsFramed other w w')
    → Readable w'.events
    → IsReady rows w
    → IsReady rows w'
IsReady-framed id [] w w' a f readable ready = tt
IsReady-framed id (r ∷ rs) w w' (a, as') f readable ((n, b), ready) = (
  (n, Book-framed r.case_id r n w w' (f r.case_id (λ e. a (sym e))) readable b),
  IsReady-framed id rs w w' as' f readable ready,
)

pub set_clock-forward : (shown t : Time) → shown ≤ t → set_clock shown t ≡ ok t
unfolding set_clock
set_clock-forward shown t h = ground arith

fits_over : (o : Option Bool) (s : CaseState) → fits o s ≡ true → is_over s ≡ true
fits_over none s h = ground arith
fits_over (some b) s h = ground arith

one_more : (o : Option Bool) (n : ℕ) → counts o n ≤ n + 1
one_more none n = omega arith
one_more (some b) n = omega arith

pub Settled-HasEnded :
    (rules : Rules) (truth : Truth) (r : CaseRow) (n : ℕ) (t : DecisionTrace) (w : World)
    → Settled r.case_id r n t w
    → ((r' : CaseRow)
        → find_case r.case_id w.cases ≡ some r'
        → keeps_cap rules r r'.attempts ≡ true)
    → HasEnded rules truth r w
Settled-HasEnded rules truth r n t w (r', book, state, fit, counted, cohort, named) kept =
    let over = fits_over t.action_succeeded t.final_state fit in
    (
      r',
      book.found,
      rw (state, over) (ground arith),
      rw counted (one_more t.action_succeeded r.attempts),
      kept r' book.found,
    )
