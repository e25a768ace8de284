-- ===== src/Store/Respects.antt =====
-- Actions whose every run, also one that raises, relates the database before it to the one after it:
-- a rule for each primitive and for each way to combine them, over any relation that the steps on a
-- case respect.
use downtime_aware_recovery.Common.{ℕ, String, Bool, true, false, Option, none, some, if◌then◌else◌}
use downtime_aware_recovery.Store.{Env, World}
use downtime_aware_recovery.Store.Exec.{
  Error, pure, Result, new_id, Exec, now, gets, ◌>>=◌, or_raise, raise, lift, ok, err, key_error,
}
use downtime_aware_recovery.Store.Cases.{get_case, Sets, transition, find_case}
use downtime_aware_recovery.Models.Enums.{CaseState}
use downtime_aware_recovery.Models.Json.{Json}
use downtime_aware_recovery.Models.Payment.{Time}
use downtime_aware_recovery.Audit.{append}

pub record Respects {A : Type 0} (R : World → World → Type 0) (m : Exec A) : Type 0 where
  pub at : (w : World) → R w (m w).1

-- A relation that the steps on one case respect.
pub record IsTrack (env : Env) (id : String) (R : World → World → Type 0) : Type 0 where
  pub still : (w : World) → R w w
  pub chain : (a b c : World) → R a b → R b c → R a c
  pub reads : (w : World) (n : ℕ) → R w (record w { reads = n })
  pub logs :
      (actor event_type : String) (payload : Json) (ts : Time) (w : World)
      → R w (append env (some id) actor event_type payload ts w).1
  pub moves : (target : CaseState) (sets : Sets) (w : World) → R w (transition id target sets w).1

module _ (env : Env) (id : String) (R : World → World → Type 0) (track : IsTrack env id R) where
  pub pure-Respects : {A : Type 0} (a : A) → Respects R (pure a)
  pure-Respects a = record { at = λ w. track.still w }

  pub raise-Respects : {A : Type 0} (e : Error) → Respects R (raise {A = A} e)
  raise-Respects e = record { at = λ w. track.still w }

  pub gets-Respects : {A : Type 0} (f : World → A) → Respects R (gets f)
  gets-Respects f = record { at = λ w. track.still w }

  pub now-Respects : Respects R (now env)
  now-Respects = record { at = λ w. track.reads w _ }

  pub new_id-Respects : Respects R (new_id env)
  new_id-Respects = record { at = λ w. track.reads w _ }

  bind-at :
      {A B : Type 0} (f : A → Exec B) (a b : World) (r : Result A)
      → R a b
      → ((x : A) → Respects R (f x))
      → R a (let out : Result B × World = elim r [ ok x ↦ f x b | err e ↦ (err e, b) ] in out).1
  bind-at f a b (ok x) p k = track.chain a b _ p ((k x).at b)
  bind-at f a b (err e) p k = p

  pub >>=-Respects :
      {A B : Type 0} (m : Exec A) (f : A → Exec B)
      → Respects R m
      → ((x : A) → Respects R (f x))
      → Respects R (m >>= f)
  >>=-Respects m f p k = record { at = λ w. bind-at f w (m w).1 (m w).0 (p.at w) k }

  pub if-Respects :
      {A : Type 0} (c : Bool) (m k : Exec A)
      → Respects R m
      → Respects R k
      → Respects R (if c then m else k)
  if-Respects true m k p q = p
  if-Respects false m k p q = q

  pub append-Respects :
      (actor event_type : String) (payload : Json) (ts : Time)
      → Respects R (append env (some id) actor event_type payload ts)
  append-Respects actor event_type payload ts = record {
    at = λ w. track.logs actor event_type payload ts w;
  }

  pub transition-Respects :
      (target : CaseState) (sets : Sets) → Respects R (transition id target sets)
  transition-Respects target sets = record { at = λ w. track.moves target sets w }

  pub lift-Respects : {A : Type 0} (r : Result A) → Respects R (lift r)
  lift-Respects (ok a) = pure-Respects a
  lift-Respects (err e) = raise-Respects e

  pub or_raise-Respects : {A : Type 0} (o : Option A) (e : Error) → Respects R (or_raise o e)
  or_raise-Respects none e = raise-Respects e
  or_raise-Respects (some a) e = pure-Respects a

  pub get_case-Respects : Respects R (get_case id)
  unfolding get_case
  get_case-Respects =
      >>=-Respects (gets (λ w. w.cases)) _ (gets-Respects (λ w. w.cases))
        (λ rows. or_raise-Respects (find_case id rows) (key_error id))

pub ruleset respects_rules = (
  pure-Respects, raise-Respects, gets-Respects, now-Respects, new_id-Respects, >>=-Respects,
  if-Respects, append-Respects, transition-Respects, get_case-Respects,
)
