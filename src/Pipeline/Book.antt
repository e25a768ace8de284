-- ===== src/Pipeline/Book.antt =====
-- Total correctness of actions: from a database that satisfies `P` an action returns, and `Q` holds
-- of its value and of the database then. With it, the book-keeping of one case: the row that a
-- lookup finds, and the number of results in the log.
use downtime_aware_recovery.Common.{
  ℕ, String, ◌≡◌, refl, some, elem, true, ◌==◌, arith, if◌then◌else◌, suc, ◌∷◌, [], eq_refl,
}
use downtime_aware_recovery.Store.{World, Env, CaseRow}
use downtime_aware_recovery.Store.Exec.{Result, new_id, Exec, gets, now, ok, ◌>>=◌, err, pure}
use downtime_aware_recovery.Store.Cases.{get_case, find_case, Sets, transition, apply_sets}
use downtime_aware_recovery.Models.Enums.{CaseState}
use downtime_aware_recovery.Models.Json.{Json}
use downtime_aware_recovery.Models.Payment.{Time}
use downtime_aware_recovery.State.{is_allowed}
use downtime_aware_recovery.Audit.Counting.{
  count_results, Readable, readable_as, count_results-append, Readable-append,
}
use downtime_aware_recovery.Audit.{event_names, append, new_event}
use downtime_aware_recovery.Store.Lookup.{transition-allowed, find_case-update_rows}
use downtime_aware_recovery.Audit.Chain.{append-known, logged}

abbrev pub Returns : {A : Type 0} → (A → World → Type 0) → Result A × World → Type 0
Returns Q (ok a, w) = Q a w
Returns Q (err e, w) = ⊥

pub record Triple {A : Type 0} (P : World → Type 0) (m : Exec A) (Q : A → World → Type 0)
    : Type 0 where
  pub at : (w : World) → P w → Returns Q (m w)

module _ {A B : Type 0} {Q : A → World → Type 0} {R : B → World → Type 0} where
  bind-at :
      (f : A → Exec B) (out : Result A × World)
      → Returns Q out
      → ((a : A) → Triple (Q a) (f a) R)
      → Returns R
          (elim out.0 as (λ _. Result B × World) [ ok a ↦ f a out.1 | err e ↦ (err e, out.1) ])
  bind-at f (ok a, w) h k = (k a).at w h
  bind-at f (err e, w) h k = absurd h

  pub bind-Triple :
      {P : World → Type 0} {m : Exec A} {f : A → Exec B}
      → Triple P m Q
      → ((a : A) → Triple (Q a) (f a) R)
      → Triple P (m >>= f) R
  bind-Triple {m} {f} h k = record { at = λ w p. bind-at f (m w) (h.at w p) k }

pub pure-Triple :
    {A : Type 0} {P : World → Type 0} {Q : A → World → Type 0} (a : A)
    → ((w : World) → P w → Q a w)
    → Triple P (pure a) Q
pure-Triple a h = record { at = h }

-- What the program knows of a case between two steps.
pub record Book (id : String) (r : CaseRow) (n : ℕ) (w : World) : Type 0 where
  pub found : find_case id w.cases ≡ some r
  pub counted : count_results id w.events ≡ n
  pub can_replay : Readable w.events

get_case-found :
    (id : String) {r : CaseRow} (w : World)
    → find_case id w.cases ≡ some r
    → get_case id w ≡ (ok r, w)
unfolding get_case
get_case-found id w found = ground arith

module _ (env : Env) (id : String) (r : CaseRow) (n : ℕ) where
  pub now-Book : Triple (Book id r n) (now env) (λ _. Book id r n)
  now-Book = record {
    at = λ w b. record { found = b.found; counted = b.counted; can_replay = b.can_replay };
  }

  pub new_id-Book : Triple (Book id r n) (new_id env) (λ _. Book id r n)
  new_id-Book = record {
    at = λ w b. record { found = b.found; counted = b.counted; can_replay = b.can_replay };
  }

  pub gets-Book :
      {A : Type 0} (f : World → A)
      → Triple (Book id r n) (gets f) (λ a w. (a ≡ f w) × Book id r n w)
  gets-Book f = record { at = λ w b. (refl, b) }

  pub get_case-Book : Triple (Book id r n) (get_case id) (λ row w. (row ≡ r) × Book id r n w)
  get_case-Book = record { at = λ w b. rw (get_case-found id w b.found) (refl, b) }

  pub transition-Book :
      (target : CaseState) (sets : Sets)
      → is_allowed r.state target ≡ true
      → Triple (Book id r n) (transition id target sets) (λ _. Book id (apply_sets target sets r) n)
  transition-Book target sets a = record {
    at = λ w b. rw (transition-allowed id target sets w b.found a) (record {
      found = find_case-update_rows id target sets w.cases b.found;
      counted = b.counted;
      can_replay = b.can_replay;
    });
  }

  pub logged-Book :
      (actor event_type : String) (payload : Json) (ts : Time) (w : World)
      → readable_as event_type payload ≡ true
      → Book id r n w
      → Book id r
          (if event_type == "ACTION_RESULT" then suc n else n)
          (logged env (some id) actor event_type payload ts w)
  unfolding new_event
  logged-Book actor event_type payload ts w reads b =
      let e = new_event env (some id) actor event_type payload ts w.events in
      record {
        found = b.found;
        counted = ground (arith, count_results-append id w.events (e ∷ []), b.counted, eq_refl id);
        can_replay = Readable-append w.events (e ∷ []) b.can_replay (reads, tt);
      }

  -- A known event on the case; the results among the events are counted.
  pub log-Book :
      (actor event_type : String) (payload : Json) (ts : Time)
      → elem event_type event_names ≡ true
      → readable_as event_type payload ≡ true
      → Triple
          (Book id r n)
          (append env (some id) actor event_type payload ts)
          (λ _. Book id r (if event_type == "ACTION_RESULT" then suc n else n))
  log-Book actor event_type payload ts known reads = record {
    at = λ w b.
        rw (append-known env (some id) actor event_type payload ts w known)
          (logged-Book actor event_type payload ts w reads b);
  }
