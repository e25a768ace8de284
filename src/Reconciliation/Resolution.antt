-- ===== src/Reconciliation/Resolution.antt =====
-- What `reconcile` (agent/reconciliation.py) does on each branch.
use downtime_aware_recovery.Common.{
  ◌∙◌, ap, ℕ, String, ◌≡◌, ◌⊎◌, refl, true, false, Option, none, some, arith, eq_refl, is_some,
  if◌then◌else◌, ◌+◌, inl, inr, nat_eq,
}
use downtime_aware_recovery.Reconciliation.{
  unresolved, is_event, resolve, target_state, reconciled_sets, resolved_payload, target_payload,
  reconcile, counted,
}
use downtime_aware_recovery.Store.{EventRow, Env, CaseRow, World}
use downtime_aware_recovery.Models.Enums.{ActionOutcome, quarantined, CaseState, same_state}
use downtime_aware_recovery.Models.Payment.{Time}
use downtime_aware_recovery.State.{is_allowed}
use downtime_aware_recovery.Store.Cases.{apply_sets, find_case, get_case}
use downtime_aware_recovery.Audit.{event_names, new_event, append}
use downtime_aware_recovery.Audit.Chain.{append-known}
use downtime_aware_recovery.Store.Exec.{ok, err, key_error, reconciliation_error, Error}
use downtime_aware_recovery.Models.Json.{Json, get}
use downtime_aware_recovery.Pipeline.Book.{
  Triple, Book, bind-Triple, transition-Book, logged-Book, pure-Triple, Returns,
}
use downtime_aware_recovery.Audit.Replay.{verify_counters}
use downtime_aware_recovery.Pipeline.Acts.{weaken}
use downtime_aware_recovery.Audit.Counting.{verify_counters-count, count_results}
use downtime_aware_recovery.Reconciliation.Unresolved.{unresolved-resolved, unresolved-other}

-- The book of a case with nothing to resolve.
abbrev pub Cleared : String → CaseRow → ℕ → World → Type 0
Cleared id r n w = Book id r n w × (unresolved id w.events ≡ none)

module _ (env : Env) (id : String) (r : CaseRow) (n : ℕ) (payload : Json) (ts : Time) where
  resolved-Triple :
      Triple
        (Book id r n)
        (append env (some id) "reconciliation" "RECONCILIATION_RESOLVED" payload ts)
        (λ _. Cleared id r n)
  unfolding event_names new_event is_event
  resolved-Triple = record {
    at = λ w b.
        let e =
          new_event env (some id) "reconciliation" "RECONCILIATION_RESOLVED" payload ts w.events in
        rw (append-known env (some id) "reconciliation" "RECONCILIATION_RESOLVED" payload ts w refl)
          (
            logged-Book env id r n "reconciliation" "RECONCILIATION_RESOLVED" payload ts w refl b,
            unresolved-resolved id w.events e (ground (arith, eq_refl id)) (ground arith),
          );
  }

  transition_logged-Triple :
      is_some (get "to" payload) ≡ true
      → Triple
          (Cleared id r n)
          (append env (some id) "reconciliation" "STATE_TRANSITION" payload ts)
          (λ _. Cleared id r n)
  unfolding event_names new_event is_event
  transition_logged-Triple reads = record {
    at = λ w b.
        let e = new_event env (some id) "reconciliation" "STATE_TRANSITION" payload ts w.events in
        rw (append-known env (some id) "reconciliation" "STATE_TRANSITION" payload ts w refl) (
          logged-Book env id r n "reconciliation" "STATE_TRANSITION" payload ts w reads b.0,
          unresolved-other id w.events e (ground arith) b.1,
        );
  }

module _ (env : Env) (id : String) (outcome : Option ActionOutcome) (ts : Time) where
  abbrev pub resolved_row : CaseRow → CaseRow
  resolved_row r = apply_sets (target_state outcome) (reconciled_sets outcome ts) r

  pub target_allowed : is_allowed quarantined (target_state outcome) ≡ true
  unfolding is_allowed target_state
  target_allowed = ground arith

  -- What holds after a case has been resolved.
  abbrev pub Resolved : CaseRow → ℕ → CaseState → World → Type 0
  Resolved r n s w = (s ≡ target_state outcome) × Cleared id (resolved_row r) n w

  resolve-Triple :
      (r : CaseRow) (n : ℕ) (e : EventRow)
      → r.state ≡ quarantined
      → Triple (Book id r n) (resolve env id outcome ts e) (Resolved r n)
  unfolding resolve
  resolve-Triple r n e q =
      bind-Triple
        (transition-Book env id r n (target_state outcome) (reconciled_sets outcome ts)
          (rw q target_allowed))
        λ _.
          bind-Triple (resolved-Triple env id (resolved_row r) n (resolved_payload outcome e) ts)
            λ _.
              bind-Triple
                (transition_logged-Triple env id (resolved_row r) n (target_payload outcome) ts
                  refl)
                λ _. pure-Triple (target_state outcome) (λ w c. (refl, c))

  pub reconcile-runs :
      (r : CaseRow) (e : EventRow) (w : World)
      → find_case id w.cases ≡ some r
      → r.state ≡ quarantined
      → unresolved id w.events ≡ some e
      → reconcile env id outcome ts w ≡ resolve env id outcome ts e w
  unfolding reconcile get_case
  reconcile-runs r e w found q open_event = ground arith

  reconcile-missing :
      (w : World)
      → find_case id w.cases ≡ none
      → reconcile env id outcome ts w ≡ (err (key_error id), w)
  unfolding reconcile get_case
  reconcile-missing w missing = ground arith

  pub reconcile-settled :
      (r : CaseRow) (w : World)
      → find_case id w.cases ≡ some r
      → same_state r.state quarantined ≡ false
      → reconcile env id outcome ts w ≡ (err reconciliation_error, w)
  unfolding reconcile get_case
  reconcile-settled r w found q = ground arith

  pub reconcile-certain :
      (r : CaseRow) (w : World)
      → find_case id w.cases ≡ some r
      → unresolved id w.events ≡ none
      → reconcile env id outcome ts w ≡ (err reconciliation_error, w)
  unfolding reconcile get_case
  reconcile-certain r w found none_open = ground arith

-- A quarantined case with an uncertain event that nothing later resolves is reconciled: the call
-- returns the state for the verified outcome, which the row then has; the row counts one attempt
-- more exactly if there was an outcome, while the log has as many results as before; and nothing
-- is left to resolve, so that another call raises and changes nothing.
pub reconcile_resolves :
    (env : Env) (id : String) (outcome again : Option ActionOutcome) (ts : Time) (r : CaseRow)
    (n : ℕ) (e : EventRow) (w : World)
    → r.state ≡ quarantined
    → unresolved id w.events ≡ some e
    → Book id r n w
    → Returns
        (λ s w'.
          Resolved env id outcome ts r n s w'
          × ((resolved_row env id outcome ts r).attempts
              ≡ (if is_some outcome then r.attempts + 1 else r.attempts))
          × (reconcile env id again ts w' ≡ (err reconciliation_error, w')))
        (reconcile env id outcome ts w)
unfolding apply_sets counted
reconcile_resolves env id outcome again ts r n e w q open_event b =
    rw (reconcile-runs env id outcome ts r e w b.found q open_event) (
      (weaken env id
          (λ s w' h. (
            h,
            refl,
            reconcile-certain env id again ts (resolved_row env id outcome ts r) w' h.1.0.found
                h.1.1,
          ))
          (resolve-Triple env id outcome ts r n e q)).at
        w b)

-- There is nothing to reconcile: the case is missing, it is not quarantined, or no uncertain event
-- of it is unresolved.
abbrev pub IsBlocked : String → World → Type 0
IsBlocked id w =
    (find_case id w.cases ≡ none)
    ⊎ ((r : CaseRow) × (find_case id w.cases ≡ some r)
        × ((same_state r.state quarantined ≡ false) ⊎ (unresolved id w.events ≡ none)))

-- A call of `reconcile` on a case that is missing, that is not quarantined, or of which no uncertain
-- event is unresolved, raises and leaves the database as it was, whatever the outcome is.
pub reconcile_blocked :
    (env : Env) (id : String) (outcome : Option ActionOutcome) (ts : Time) (w : World)
    → IsBlocked id w
    → (e : Error) × (reconcile env id outcome ts w ≡ (err e, w))
reconcile_blocked env id outcome ts w (inl missing) =
    (key_error id, reconcile-missing env id outcome ts w missing)
reconcile_blocked env id outcome ts w (inr (r, found, inl q)) =
    (reconciliation_error, reconcile-settled env id outcome ts r w found q)
reconcile_blocked env id outcome ts w (inr (r, found, inr none_open)) =
    (reconciliation_error, reconcile-certain env id outcome ts r w found none_open)

attempt_counted :
    (env : Env) (id : String) (o : ActionOutcome) (ts : Time) (r : CaseRow) (n : ℕ)
    → n ≡ r.attempts
    → nat_eq (resolved_row env id (some o) ts r).attempts n ≡ false
unfolding apply_sets counted
attempt_counted env id o ts r n h = ground arith

-- Where the check of the counters agreed on a case before `reconcile` resolved it with a verified
-- outcome, it disagrees afterwards: the row counts the attempt and the replay of the log does not.
pub reconcile_unbalances :
    (env : Env) (id : String) (o : ActionOutcome) (ts : Time) (r : CaseRow) (e : EventRow)
    (w : World)
    → r.state ≡ quarantined
    → unresolved id w.events ≡ some e
    → Book id r r.attempts w
    → Returns (λ s w'. verify_counters id w' ≡ (ok false, w')) (reconcile env id (some o) ts w)
reconcile_unbalances env id o ts r e w q open_event b =
    rw (reconcile-runs env id (some o) ts r e w b.found q open_event) (
      (weaken env id
          (λ s w' h.
            let book = h.1.0 in
            verify_counters-count id w' book.found book.can_replay
            ∙ ap (λ c. (ok c, w'))
                (attempt_counted env id o ts r (count_results id w'.events) book.counted))
          (resolve-Triple env id (some o) ts r r.attempts e q)).at
        w b)
