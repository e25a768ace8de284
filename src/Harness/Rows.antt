-- ===== src/Harness/Rows.antt =====
-- The loop of evalharness/run.py: what it leaves alone, and how it leaves the cases that it replays.
use downtime_aware_recovery.Common.{
  ℕ, ◌≤◌, ◌≡◌, refl, sym, ◌∙◌, ap, String, true, false, ◌||◌, List, [], ◌∷◌, some, arith, subst,
  Bool-cases, inl, inr, ◌&&◌, leb,
}
use downtime_aware_recovery.Clock.{set_clock}
use downtime_aware_recovery.Models.Enums.{detected, diagnosed, same_state}
use downtime_aware_recovery.Models.Payment.{Time}
use downtime_aware_recovery.Policy.{Rules, enabled}
use downtime_aware_recovery.Pipeline.Acts.{IsPort}
use downtime_aware_recovery.Pipeline.Book.{Book, Returns, Triple, bind-Triple}
use downtime_aware_recovery.Pipeline.Dispatch.{ExecutorPort, DecisionTrace}
use downtime_aware_recovery.Pipeline.Frame.{IsFramed, IsFramed-IsTrack, process_case-IsFramed}
use downtime_aware_recovery.Pipeline.Stages.{DiagnosisPort}
use downtime_aware_recovery.Pipeline.Process.{process_case}
use downtime_aware_recovery.Pipeline.Endings.{Settled}
use downtime_aware_recovery.Pipeline.Ingested.{lift-Triple}
use downtime_aware_recovery.Pipeline.Prepares.{given}
use downtime_aware_recovery.Pipeline.Settles.{process_case_settles}
use downtime_aware_recovery.State.{is_allowed}
use downtime_aware_recovery.Store.Cases.{find_case}
use downtime_aware_recovery.Store.{Env, CaseRow, World}
use downtime_aware_recovery.Store.Exec.{Result, ok, err, ◌>>=◌, lift}
use downtime_aware_recovery.Store.Respects.{Respects, >>=-Respects, if-Respects, lift-Respects}
use downtime_aware_recovery.Harness.{replay_rows, is_selected, at_time, Truth}
use downtime_aware_recovery.Pipeline.Cap.{cap_never_breached, method_cap, Within}
use downtime_aware_recovery.Harness.Ended.{
  IsAway, AreApart, IsAscending, IsReady, keeps_cap, HasEnded, HaveEnded, IsReady-framed,
  set_clock-forward, Settled-HasEnded,
}

module _ (env : Env) (rules : Rules) (port : DiagnosisPort) (executor : Env → ExecutorPort)
    (laws : (e : Env) → IsPort (executor e)) (truth : Truth) where
  replay_rows-Respects :
      (other : String) (rows : List CaseRow) (shown : Time)
      → IsAway other rows
      → Respects (IsFramed other) (replay_rows env rules port executor truth rows shown)
  unfolding replay_rows
  replay_rows-Respects other [] shown a = record {
    at = λ w. record { same_row = refl; same_events = refl };
  }
  replay_rows-Respects other (r ∷ rs) shown (a, as') =
      let track = IsFramed-IsTrack env r.case_id other a in
      if-Respects env r.case_id (IsFramed other) track (is_selected truth r) _ _
        (>>=-Respects env r.case_id (IsFramed other) track (lift (set_clock shown r.created_at)) _
          (lift-Respects env r.case_id (IsFramed other) track (set_clock shown r.created_at))
          λ t.
            >>=-Respects env r.case_id (IsFramed other) track
              (process_case (at_time t env) rules port (executor (at_time t env)) r.case_id) _
              (record {
                at = λ w.
                    process_case-IsFramed (at_time t env) rules port (executor (at_time t env))
                      (laws (at_time t env)) r.case_id other w a;
              })
              λ _. replay_rows-Respects other rs t as')
        (replay_rows-Respects other rs shown as')

  -- What holds once the first row has been replayed.
  abbrev Midway : CaseRow → List CaseRow → World → Type 0
  Midway r rs w = IsReady rs w × HasEnded rules truth r w

  selected-detected : (r : CaseRow) → is_selected truth r ≡ true → r.state ≡ detected
  selected-detected r h = ground arith

  may_start :
      (r : CaseRow)
      → is_selected truth r ≡ true
      → (same_state r.state diagnosed || is_allowed r.state diagnosed) ≡ true
  unfolding is_allowed
  may_start r h = rw (selected-detected r h) refl

  capped-kept :
      (r : CaseRow) (t : Time) (n : ℕ) (w : World) (trace : DecisionTrace) (w1 : World)
      → is_selected truth r ≡ true
      → Book r.case_id r n w
      → (ok trace, w1)
        ≡ process_case (at_time t env) rules port (executor (at_time t env)) r.case_id w
      → (r' : CaseRow) → find_case r.case_id w1.cases ≡ some r'
      → keeps_cap rules r r'.attempts ≡ true
  capped-kept r t n w trace w1 h book e r' found =
      let cap = method_cap rules r.method in
      elim (Bool-cases (enabled rules "ATTEMPT_CAP" && leb r.attempts cap)) [
        | inr no_cap ↦ rw no_cap refl
        | inl both ↦
            let capped : enabled rules "ATTEMPT_CAP" ≡ true = (ground (arith, both)) in
            let bounded : r.attempts ≤ cap = (ground (arith, both)) in
            let (r'', there, within) = subst (Returns (λ _. Within r.case_id cap)) (sym e) (
              cap_never_breached (at_time t env) r.case_id rules port (executor (at_time t env))
                (laws (at_time t env)) capped r n w (may_start r h) bounded book) in
            let same : r'' ≡ r' = (ground (arith, there, found)) in
            rw both (ground (arith, within, ap (λ x. x.attempts) same))
      ]

  Settled-Midway :
      (r : CaseRow) (rs : List CaseRow) (t : Time) (n : ℕ) (w : World)
      → is_selected truth r ≡ true
      → Book r.case_id r n w
      → IsAway r.case_id rs
      → IsReady rs w
      → (out : Result DecisionTrace × World)
      → out ≡ process_case (at_time t env) rules port (executor (at_time t env)) r.case_id w
      → Returns (Settled r.case_id r n) out
      → Returns (λ _. Midway r rs) out
  Settled-Midway r rs t n w h book a ready (ok trace, w1) e settled = (
    IsReady-framed r.case_id rs w w1 a
        (λ other apart.
          subst (λ out. IsFramed other w out.1) (sym e)
            (process_case-IsFramed (at_time t env) rules port (executor (at_time t env))
              (laws (at_time t env)) r.case_id other w apart))
        settled.1.can_replay ready,
    Settled-HasEnded rules truth r n trace w1 settled (capped-kept r t n w trace w1 h book e),
  )
  Settled-Midway r rs t n w h book a ready (err x, w1) e settled = absurd settled

  process-Midway :
      (r : CaseRow) (rs : List CaseRow) (t : Time)
      → is_selected truth r ≡ true
      → IsAway r.case_id rs
      → Triple
          (IsReady (r ∷ rs))
          (process_case (at_time t env) rules port (executor (at_time t env)) r.case_id)
          (λ _. Midway r rs)
  process-Midway r rs t h a = record {
    at = λ w ((n, book), ready). Settled-Midway r rs t n w h book a ready _ refl (
        process_case_settles (at_time t env) r.case_id rules port (executor (at_time t env))
          (laws (at_time t env)) r n w (may_start r h) book);
  }

  framed-HasEnded :
      (r : CaseRow) (w w' : World)
      → IsFramed r.case_id w w'
      → HasEnded rules truth r w
      → HasEnded rules truth r w'
  framed-HasEnded r w w' f (r', found, over, spent, kept) =
      (r', f.same_row ∙ found, over, spent, kept)

  both-HaveEnded :
      (r : CaseRow) (rs : List CaseRow) (w : World) (out : Result Unit × World)
      → Returns (λ _. HaveEnded rules truth rs) out
      → IsFramed r.case_id w out.1
      → HasEnded rules truth r w
      → Returns (λ _. HaveEnded rules truth (r ∷ rs)) out
  both-HaveEnded r rs w (ok u, w') h f e = (framed-HasEnded r w w' f e, h)
  both-HaveEnded r rs w (err x, w') h f e = absurd h

  rest-HaveEnded :
      (r : CaseRow) (rs : List CaseRow) (t : Time)
      → IsAway r.case_id rs
      → Triple
          (IsReady rs)
          (replay_rows env rules port executor truth rs t)
          (λ _. HaveEnded rules truth rs)
      → Triple
          (Midway r rs)
          (replay_rows env rules port executor truth rs t)
          (λ _. HaveEnded rules truth (r ∷ rs))
  rest-HaveEnded r rs t a ih = record {
    at = λ w (ready, ended).
        both-HaveEnded r rs w (replay_rows env rules port executor truth rs t w) (ih.at w ready)
          ((replay_rows-Respects r.case_id rs t a).at w) ended;
  }

  skipped-HasEnded :
      (r : CaseRow) (n : ℕ) (w : World)
      → is_selected truth r ≡ false
      → Book r.case_id r n w
      → HasEnded rules truth r w
  skipped-HasEnded r n w h book = (r, book.found, rw h refl, omega arith, ground arith)

  IsAscending-earlier :
      (t t' : Time) (rows : List CaseRow) → t' ≤ t → IsAscending t rows → IsAscending t' rows
  IsAscending-earlier t t' [] h a = tt
  IsAscending-earlier t t' (r ∷ rs) h (b, as') = (omega (arith, h, b), as')

  -- If the rows are stored cases, no two of one case, in the order of their times and none before the
  -- time that the clock shows, then the loop returns: neither the clock nor a run raises. Every row is
  -- then still stored, with at most one more attempt, and every case that was replayed is in none of
  -- the states DETECTED, DIAGNOSED and EXECUTING. The executor, with whatever clock, is one that
  -- leaves cases and events alone and answers with a result, a refusal or an uncertain outcome.
  pub replay_rows-HaveEnded :
      (rows : List CaseRow) (shown : Time)
      → AreApart rows
      → IsAscending shown rows
      → Triple
          (IsReady rows)
          (replay_rows env rules port executor truth rows shown)
          (λ _. HaveEnded rules truth rows)
  unfolding replay_rows
  replay_rows-HaveEnded [] shown apart ascending = record { at = λ w ready. tt }
  replay_rows-HaveEnded (r ∷ rs) shown (away, apart) (forward, ascending) =
      elim (Bool-cases (is_selected truth r)) [
        | inl h ↦
            let later = replay_rows-HaveEnded rs r.created_at apart ascending in
            rw h (
              bind-Triple
                (lift-Triple (set_clock shown r.created_at) r.created_at
                  (set_clock-forward shown r.created_at forward))
                λ t.
                  given env r.case_id
                    (λ t.
                      process_case (at_time t env) rules port (executor (at_time t env)) r.case_id
                      >>= λ _. replay_rows env rules port executor truth rs t)
                    (bind-Triple (process-Midway r rs r.created_at h away)
                      λ _. rest-HaveEnded r rs r.created_at away later)
                    t)
        | inr h ↦
            let later =
              replay_rows-HaveEnded rs shown apart
                (IsAscending-earlier r.created_at shown rs forward ascending) in
            rw h (record {
              at = λ w ((n, book), ready).
                  (rest-HaveEnded r rs shown away later).at w
                    (ready, skipped-HasEnded r n w h book);
            })
      ]
