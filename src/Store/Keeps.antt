-- ===== src/Store/Keeps.antt =====
-- Actions whose every run, also one that raises, takes the database to a later one: a rule for each
-- primitive and for each way to combine them.
use mathlib.Core.List.{append-nil}
use downtime_aware_recovery.Common.{
  String, ◌≡◌, refl, Bool, Option, if◌then◌else◌, some, Bool-cases, none, true, elem, false, inl,
  [], inr, sym, ◌∷◌, ◌==◌, eq_iff, ◌∙◌,
}
use downtime_aware_recovery.Store.{Env, World, CaseRow}
use downtime_aware_recovery.Store.Exec.{
  Error, pure, Result, new_id, Exec, now, gets, ◌>>=◌, or_raise, raise, raise_if, lift, ok, err,
  key_error,
}
use downtime_aware_recovery.Store.Cases.{
  get_case, Sets, transition, find_case, update_rows, apply_sets,
}
use downtime_aware_recovery.Models.Enums.{CaseState}
use downtime_aware_recovery.Store.Evolves.{
  Evolves-refl, Evolves, Evolves-same, Evolves-trans, Later-refl, Later-apply_sets,
}
use downtime_aware_recovery.Models.Json.{Json}
use downtime_aware_recovery.Models.Payment.{Time}
use downtime_aware_recovery.Audit.{append, event_names, new_event}
use downtime_aware_recovery.State.{is_allowed}
use downtime_aware_recovery.Store.Lookup.{
  transition-missing, transition-allowed, transition-illegal, find_case-update_rows,
  find_case-update_rows_ne,
}
use downtime_aware_recovery.Audit.Chain.{append-known, append-verify_chain, append-unknown}

pub record Keeps {A : Type 0} (env : Env) (m : Exec A) : Type 0 where
  pub at : (w : World) → Evolves env w (m w).1

module _ (env : Env) where
  pub pure-Keeps : {A : Type 0} (a : A) → Keeps env (pure a)
  pure-Keeps a = record { at = λ w. Evolves-refl env w }

  pub raise-Keeps : {A : Type 0} (e : Error) → Keeps env (raise {A = A} e)
  raise-Keeps e = record { at = λ w. Evolves-refl env w }

  pub gets-Keeps : {A : Type 0} (f : World → A) → Keeps env (gets f)
  gets-Keeps f = record { at = λ w. Evolves-refl env w }

  pub now-Keeps : Keeps env (now env)
  now-Keeps = record { at = λ w. Evolves-same env w _ refl refl }

  pub new_id-Keeps : Keeps env (new_id env)
  new_id-Keeps = record { at = λ w. Evolves-same env w _ refl refl }

  bind-at :
      {A B : Type 0} (f : A → Exec B) (a b : World) (r : Result A)
      → Evolves env a b
      → ((x : A) → Keeps env (f x))
      → Evolves env a
          (let out : Result B × World = elim r [ ok x ↦ f x b | err e ↦ (err e, b) ] in out).1
  bind-at f a b (ok x) p k = Evolves-trans env p ((k x).at b)
  bind-at f a b (err e) p k = p

  pub >>=-Keeps :
      {A B : Type 0} (m : Exec A) (f : A → Exec B)
      → Keeps env m
      → ((x : A) → Keeps env (f x))
      → Keeps env (m >>= f)
  >>=-Keeps m f p k = record { at = λ w. bind-at f w (m w).1 (m w).0 (p.at w) k }

  pub or_raise-Keeps : {A : Type 0} (o : Option A) (e : Error) → Keeps env (or_raise o e)
  or_raise-Keeps none e = raise-Keeps e
  or_raise-Keeps (some a) e = pure-Keeps a

  pub lift-Keeps : {A : Type 0} (r : Result A) → Keeps env (lift r)
  lift-Keeps (ok a) = pure-Keeps a
  lift-Keeps (err e) = raise-Keeps e

  pub raise_if-Keeps : (c : Bool) (e : Error) → Keeps env (raise_if c e)
  raise_if-Keeps c e = record { at = λ w. Evolves-refl env w }

  pub if-Keeps :
      {A : Type 0} (c : Bool) (m k : Exec A)
      → Keeps env m
      → Keeps env k
      → Keeps env (if c then m else k)
  if-Keeps true m k p q = p
  if-Keeps false m k p q = q

  append-Evolves :
      (id : Option String) (actor event_type : String) (payload : Json) (ts : Time) (w : World)
      → Evolves env w (append env id actor event_type payload ts w).1
  append-Evolves id actor event_type payload ts w =
      let out = append env id actor event_type payload ts w in
      elim (Bool-cases (elem event_type event_names)) [
        | inl known ↦
            let e = append-known env id actor event_type payload ts w known in
            record {
              appended = (new_event env id actor event_type payload ts w.events ∷ [], rw e refl);
              verifies = λ h. (append-verify_chain env id actor event_type payload ts w h).0;
              followed = λ other r found. (r, rw e found, Later-refl r);
            }
        | inr unknown_type ↦
            rw (append-unknown env id actor event_type payload ts w unknown_type)
              (Evolves-refl env w)
      ]

  moved-Evolves :
      (id : String) (target : CaseState) (sets : Sets) (w : World) (r : CaseRow)
      → find_case id w.cases ≡ some r
      → is_allowed r.state target ≡ true
      → Evolves env w
          (record w { cases = update_rows id r.version (apply_sets target sets) w.cases })
  moved-Evolves id target sets w r found a = record {
    appended = ([], sym (append-nil w.events));
    verifies = λ h. h;
    followed = λ other s there. elim (Bool-cases (other == id)) [
      | inl same ↦
          let same_id : other ≡ id = (eq_iff other id).0 same in
          let same_row : s ≡ r = cc in
          (
            apply_sets target sets r,
            rw same_id (find_case-update_rows id target sets w.cases found),
            rw same_row (Later-apply_sets target sets r a),
          )
      | inr differ ↦ (
        s,
        find_case-update_rows_ne id other r.version target sets w.cases
              (λ e. cc ((eq_iff other id).1 e, differ))
            ∙ there,
        Later-refl s,
      )
    ];
  }

  transition-Evolves :
      (id : String) (target : CaseState) (sets : Sets) (w : World) (o : Option CaseRow)
      → find_case id w.cases ≡ o
      → Evolves env w (transition id target sets w).1
  transition-Evolves id target sets w none missing =
      rw (transition-missing id target sets w missing) (Evolves-refl env w)
  transition-Evolves id target sets w (some r) found =
      elim (Bool-cases (is_allowed r.state target)) [
        | inl a ↦
            rw (transition-allowed id target sets w found a)
              (moved-Evolves id target sets w r found a)
        | inr a ↦ rw (transition-illegal id target sets w found a) (Evolves-refl env w)
      ]

  pub append-Keeps :
      (id : Option String) (actor event_type : String) (payload : Json) (ts : Time)
      → Keeps env (append env id actor event_type payload ts)
  append-Keeps id actor event_type payload ts = record {
    at = λ w. append-Evolves id actor event_type payload ts w;
  }

  pub transition-Keeps :
      (id : String) (target : CaseState) (sets : Sets) → Keeps env (transition id target sets)
  transition-Keeps id target sets = record {
    at = λ w. transition-Evolves id target sets w (find_case id w.cases) refl;
  }

  pub get_case-Keeps : (id : String) → Keeps env (get_case id)
  unfolding get_case
  get_case-Keeps id =
      >>=-Keeps (gets (λ w. w.cases)) _ (gets-Keeps (λ w. w.cases))
        (λ rows. or_raise-Keeps (find_case id rows) (key_error id))

pub ruleset keeps_rules = (
  pure-Keeps, raise-Keeps, gets-Keeps, now-Keeps, new_id-Keeps, >>=-Keeps, or_raise-Keeps,
  lift-Keeps, raise_if-Keeps, if-Keeps, append-Keeps, transition-Keeps, get_case-Keeps,
)
