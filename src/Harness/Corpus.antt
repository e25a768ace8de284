-- ===== src/Harness/Corpus.antt =====
-- The replay of a whole corpus by evalharness/run.py, in the order of the query.
use downtime_aware_recovery.Common.{
  ℕ, ◌≡◌, ◌≤◌, ◌≢◌, sym, List, [], ◌∷◌, All, Bool, if◌then◌else◌, Bool-cases, inl, inr, leb, arith,
  true, false,
}
use downtime_aware_recovery.Models.Payment.{Time}
use downtime_aware_recovery.Policy.{Rules}
use downtime_aware_recovery.Pipeline.Acts.{IsPort}
use downtime_aware_recovery.Pipeline.Book.{Returns, Book}
use downtime_aware_recovery.Pipeline.Dispatch.{ExecutorPort}
use downtime_aware_recovery.Pipeline.Stages.{DiagnosisPort}
use downtime_aware_recovery.Store.{Columns, Env, CaseRow, World}
use downtime_aware_recovery.Store.Exec.{Result, ok, err}
use downtime_aware_recovery.Harness.{
  is_earlier, replay_rows, replay_corpus, insert_row, by_created_at, Truth,
}
use downtime_aware_recovery.Harness.Ended.{
  IsAway, AreApart, IsAscending, IsReady, HaveEnded, HasEnded,
}
use downtime_aware_recovery.Harness.Rows.{replay_rows-HaveEnded}

-- The times of two rows are in the order of their texts.
abbrev pub is_timely : Columns → CaseRow → CaseRow → Bool
is_timely columns r s =
    if is_earlier columns r s then leb r.created_at s.created_at else leb s.created_at r.created_at

abbrev pub AreTimely : Columns → List CaseRow → Type 0
AreTimely columns [] = Unit
AreTimely columns (r ∷ rs) = All (λ s. is_timely columns r s ≡ true) rs × AreTimely columns rs

module _ (columns : Columns) where
  timely-before :
      (r s : CaseRow)
      → is_timely columns r s ≡ true
      → is_earlier columns r s ≡ true
      → r.created_at ≤ s.created_at
  timely-before r s agrees le = ground arith

  timely-after :
      (r s : CaseRow)
      → is_timely columns r s ≡ true
      → is_earlier columns r s ≡ false
      → s.created_at ≤ r.created_at
  timely-after r s agrees gt = ground arith

module _ (columns : Columns) (P : CaseRow → Type 0) where
  All-insert_row :
      (r : CaseRow) (rows : List CaseRow) → P r → All P rows → All P (insert_row columns r rows)
  unfolding insert_row
  All-insert_row r [] p ps = (p, ps)
  All-insert_row r (s ∷ ss) p (q, qs) = elim (Bool-cases (is_earlier columns r s)) [
    | inl h ↦ rw h (p, (q, qs))
    | inr h ↦ rw h (q, All-insert_row r ss p qs)
  ]

  All-by_created_at : (rows : List CaseRow) → All P rows → All P (by_created_at columns rows)
  unfolding by_created_at
  All-by_created_at [] ps = tt
  All-by_created_at (r ∷ rs) (p, ps) =
      All-insert_row r (by_created_at columns rs) p (All-by_created_at rs ps)

  either-All :
      (b : Bool) (r s : CaseRow) (ss rest : List CaseRow)
      → All P (if b then r ∷ s ∷ ss else s ∷ rest)
      → (All P rest → P r × All P ss)
      → P r × All P (s ∷ ss)
  either-All true r s ss rest ps k = ps
  either-All false r s ss rest (q, ps) k = let both = k ps in (both.0, (q, both.1))

  insert_row-All :
      (r : CaseRow) (rows : List CaseRow) → All P (insert_row columns r rows) → P r × All P rows
  unfolding insert_row
  insert_row-All r [] ps = ps
  insert_row-All r (s ∷ ss) ps =
      either-All (is_earlier columns r s) r s ss (insert_row columns r ss) ps (insert_row-All r ss)

  by_created_at-All : (rows : List CaseRow) → All P (by_created_at columns rows) → All P rows
  unfolding by_created_at
  by_created_at-All [] ps = tt
  by_created_at-All (r ∷ rs) ps =
      let both = insert_row-All r (by_created_at columns rs) ps in
      (both.0, by_created_at-All rs both.1)

module _ (columns : Columns) where
  AreApart-insert_row :
      (r : CaseRow) (rows : List CaseRow)
      → IsAway r.case_id rows
      → AreApart rows
      → AreApart (insert_row columns r rows)
  unfolding insert_row
  AreApart-insert_row r [] a apart = (tt, tt)
  AreApart-insert_row r (s ∷ ss) (a, as') (b, apart) = elim (Bool-cases (is_earlier columns r s)) [
    | inl h ↦ rw h ((a, as'), (b, apart))
    | inr h ↦ rw h (
      All-insert_row columns (λ x. s.case_id ≢ x.case_id) r ss (λ e. a (sym e)) b,
      AreApart-insert_row r ss as' apart,
    )
  ]

  AreApart-by_created_at :
      (rows : List CaseRow) → AreApart rows → AreApart (by_created_at columns rows)
  unfolding by_created_at
  AreApart-by_created_at [] apart = tt
  AreApart-by_created_at (r ∷ rs) (away, apart) =
      AreApart-insert_row r (by_created_at columns rs)
        (All-by_created_at columns (λ x. r.case_id ≢ x.case_id) rs away)
        (AreApart-by_created_at rs apart)

  IsAscending-insert_row :
      (t : Time) (r : CaseRow) (rows : List CaseRow)
      → t ≤ r.created_at
      → All (λ s. is_timely columns r s ≡ true) rows
      → IsAscending t rows
      → IsAscending t (insert_row columns r rows)
  unfolding insert_row
  IsAscending-insert_row t r [] h timely a = (h, tt)
  IsAscending-insert_row t r (s ∷ ss) h (agrees, timely) (b, ascending) =
      elim (Bool-cases (is_earlier columns r s)) [
        | inl le ↦ rw le (h, (timely-before columns r s agrees le, ascending))
        | inr gt ↦ rw gt (
          b,
          IsAscending-insert_row s.created_at r ss (timely-after columns r s agrees gt) timely
              ascending,
        )
      ]

  IsAscending-by_created_at :
      (t : Time) (rows : List CaseRow)
      → All (λ r. t ≤ r.created_at) rows
      → AreTimely columns rows
      → IsAscending t (by_created_at columns rows)
  unfolding by_created_at
  IsAscending-by_created_at t [] h timely = tt
  IsAscending-by_created_at t (r ∷ rs) (h, hs) (agrees, timely) =
      IsAscending-insert_row t r (by_created_at columns rs) h
        (All-by_created_at columns (λ s. is_timely columns r s ≡ true) rs agrees)
        (IsAscending-by_created_at t rs hs timely)

  ended-by_created_at :
      (rules : Rules) (truth : Truth) (rows : List CaseRow) (out : Result Unit × World)
      → Returns (λ _. HaveEnded rules truth (by_created_at columns rows)) out
      → Returns (λ _. HaveEnded rules truth rows) out
  ended-by_created_at rules truth rows (ok u, w) h =
      by_created_at-All columns (λ r. HasEnded rules truth r w) rows h
  ended-by_created_at rules truth rows (err e, w) h = absurd h

-- If no two stored rows are of one case, their times stand in the order of the texts of their column
-- `created_at`, none is from before the time at which the clock starts, and the events can be
-- replayed, then the replay of the corpus returns: neither the clock nor a run raises. Every case is
-- then still stored, with at most one more attempt. Every case with ground truth that was in DETECTED
-- is in none of the states DETECTED, DIAGNOSED and EXECUTING. If the attempt cap is enabled, every
-- case that was within the cap of its method still is. All this holds whatever the diagnosis
-- proposes. The executor, with whatever clock, is one that leaves cases and events alone and answers
-- with a result, a refusal or an uncertain outcome.
pub replay_corpus-HaveEnded :
    (columns : Columns) (env : Env) (rules : Rules) (port : DiagnosisPort)
    (executor : Env → ExecutorPort)
    → ((e : Env) → IsPort (executor e))
    → (truth : Truth) (start : Time) (w : World) → AreApart w.cases
    → AreTimely columns w.cases
    → All (λ r. start ≤ r.created_at) w.cases
    → IsReady w.cases w
    → Returns
        (λ _. HaveEnded rules truth w.cases)
        (replay_corpus columns env rules port executor truth start w)
unfolding replay_corpus
replay_corpus-HaveEnded columns env rules port executor laws truth start w apart timely late ready =
    let rows = by_created_at columns w.cases in
    let ended =
      (replay_rows-HaveEnded env rules port executor laws truth rows start
          (AreApart-by_created_at columns w.cases apart)
          (IsAscending-by_created_at columns start w.cases late timely)).at
        w (All-by_created_at columns (λ r. (n : ℕ) × Book r.case_id r n w) w.cases ready) in
    ended-by_created_at columns rules truth w.cases
      (replay_rows env rules port executor truth rows start w) ended
