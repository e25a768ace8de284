-- ===== src/Reconciliation/Listing.antt =====
-- `find_uncertain_cases` against `reconcile` (agent/reconciliation.py).
use downtime_aware_recovery.Common.{
  ◌∷◌, [], ◌≡◌, refl, arith, eq_iff, false, inl, inr, Option-cases, Bool-cases, String, List, Bool,
  ◌&&◌, is_some, ◌==◌, not, none, some, ◌||◌, eq_refl, ◌∙◌, ap, Option, sym, elem, true,
}
use downtime_aware_recovery.Reconciliation.{
  uncertain_rows, unresolved, UncertainCase, is_quarantined, uncertain_row, find_uncertain_cases,
  is_event, add_row, is_resolved, reconcile, resolve, target_state, reconciled_sets,
  resolved_payload, target_payload,
}
use downtime_aware_recovery.Store.{CaseRow, EventRow, World, Env}
use downtime_aware_recovery.Store.Cases.{find_case, transition}
use downtime_aware_recovery.Store.Exec.{Exec, Result, err, ok, ◌>>=◌, ◌>>◌, pure}
use downtime_aware_recovery.Models.Enums.{same_state, quarantined, ActionOutcome, CaseState}
use downtime_aware_recovery.Models.Payment.{Time}
use downtime_aware_recovery.Reconciliation.Resolution.{
  reconcile-settled, reconcile-certain, reconcile-runs, target_allowed,
}
use downtime_aware_recovery.Models.Json.{Json}
use downtime_aware_recovery.Audit.{event_names, append}
use downtime_aware_recovery.Audit.Chain.{append-known}
use downtime_aware_recovery.Store.Lookup.{moved, transition-allowed}

-- Some row of the result is about this case.
abbrev pub is_listed : String → List UncertainCase → Bool
is_listed id [] = false
is_listed id (c ∷ cs) = let rest = is_listed id cs in c.case_id == id || rest

row-nobody :
    (id : String) (cases : List CaseRow) (e : EventRow) (es : List EventRow)
    → e.case_id ≡ none
    → (uncertain_row cases e es ≡ none) × (is_event id "ACTION_UNCERTAIN" e ≡ false)
unfolding uncertain_row is_event
row-nobody id cases e es h = ground arith

row-other :
    (id c : String) (cases : List CaseRow) (e : EventRow) (es : List EventRow)
    (rows : List UncertainCase)
    → e.case_id ≡ some c
    → (c == id) ≡ false
    → (is_listed id (add_row (uncertain_row cases e es) rows) ≡ is_listed id rows)
      × (is_event id "ACTION_UNCERTAIN" e ≡ false)
unfolding uncertain_row is_event
row-other id c cases e es rows h k = (ground arith, ground arith)

row-same :
    (id : String) (cases : List CaseRow) (e : EventRow) (es : List EventRow)
    (rows : List UncertainCase)
    → e.case_id ≡ some id
    → is_listed id (add_row (uncertain_row cases e es) rows) ≡ (
        (is_quarantined id cases && (is_event id "ACTION_UNCERTAIN" e && not (is_resolved id es)))
        || is_listed id rows)
unfolding uncertain_row is_event
row-same id cases e es rows h = ground (arith, eq_refl id)

unresolved-some :
    (id : String) (e : EventRow) (es : List EventRow)
    → is_some (unresolved id (e ∷ es)) ≡ (
        (is_event id "ACTION_UNCERTAIN" e && not (is_resolved id es)) || is_some (unresolved id es))
unfolding unresolved
unresolved-some id e es = ground arith

listed_rows :
    (id : String) (cases : List CaseRow) (es : List EventRow)
    → is_listed id (uncertain_rows cases es)
      ≡ (is_quarantined id cases && is_some (unresolved id es))
unfolding uncertain_rows
listed_rows id cases [] = unfold unresolved in ground arith
listed_rows id cases (e ∷ es) = elim (Option-cases e.case_id) [
  | inl nobody ↦
      let (a, b) = row-nobody id cases e es nobody in
      ground (arith, listed_rows id cases es, unresolved-some id e es)
  | inr (c, mine) ↦ elim (Bool-cases (c == id)) [
    | inl same ↦
        let mine' : e.case_id ≡ some id = cc (mine, (eq_iff c id).0 same) in
        ground (
          arith,
          listed_rows id cases es,
          row-same id cases e es (uncertain_rows cases es) mine',
          unresolved-some id e es,
        )
    | inr other ↦
        let (a, b) = row-other id c cases e es (uncertain_rows cases es) mine other in
        ground (arith, listed_rows id cases es, unresolved-some id e es)
  ]
]

quarantined-found :
    (id : String) (cases : List CaseRow) {r : CaseRow}
    → find_case id cases ≡ some r
    → is_quarantined id cases ≡ same_state r.state quarantined
unfolding is_quarantined
quarantined-found id cases found = ground arith

-- The call did not raise.
abbrev pub accepts : Result CaseState × World → Bool
accepts (ok s, w) = true
accepts (err e, w) = false

accepts-bind :
    {A : Type 0} (m : Exec A) (f : A → Exec CaseState) (w : World) (a : A) (w' : World)
    → m w ≡ (ok a, w')
    → accepts (f a w') ≡ true
    → accepts ((m >>= f) w) ≡ true
accepts-bind m f w a w' ran h =
    ap (λ out. accepts (elim out.0 [ ok b ↦ f b out.1 | err e ↦ (err e, out.1) ])) ran ∙ h

module _ (env : Env) (id : String) (outcome : Option ActionOutcome) (ts : Time) where
  logged-accepts :
      (event_type : String) (payload : Json) (k : Exec CaseState) (w : World)
      → elem event_type event_names ≡ true
      → ((w' : World) → accepts (k w') ≡ true)
      → accepts ((append env (some id) "reconciliation" event_type payload ts >> k) w) ≡ true
  logged-accepts event_type payload k w known h =
      accepts-bind (append env (some id) "reconciliation" event_type payload ts) (λ _. k) w _ _
        (append-known env (some id) "reconciliation" event_type payload ts w known) (h _)

  resolve-accepts :
      (e : EventRow) (w : World) (r : CaseRow)
      → find_case id w.cases ≡ some r
      → r.state ≡ quarantined
      → accepts (resolve env id outcome ts e w) ≡ true
  unfolding resolve event_names
  resolve-accepts e w r found q =
      let target = target_state outcome in
      let transitioned : Exec CaseState =
        append env (some id) "reconciliation" "STATE_TRANSITION" (target_payload outcome) ts
        >> pure target in
      let resolved : Exec CaseState =
        append env (some id) "reconciliation" "RECONCILIATION_RESOLVED" (resolved_payload outcome e)
          ts
        >> transitioned in
      accepts-bind (transition id target (reconciled_sets outcome ts)) (λ _. resolved) w tt
        (moved id target (reconciled_sets outcome ts) w found)
        (transition-allowed id target (reconciled_sets outcome ts) w found
          (rw q (target_allowed env id outcome ts)))
        (logged-accepts "RECONCILIATION_RESOLVED" (resolved_payload outcome e) transitioned
          (moved id target (reconciled_sets outcome ts) w found) refl
          λ w'.
            logged-accepts "STATE_TRANSITION" (target_payload outcome) (pure target) w' refl
              λ w2. refl)

  reconcile-accepts :
      (w : World) (r : CaseRow)
      → find_case id w.cases ≡ some r
      → accepts (reconcile env id outcome ts w)
        ≡ (same_state r.state quarantined && is_some (unresolved id w.events))
  reconcile-accepts w r found = elim (Bool-cases (same_state r.state quarantined)) [
    | inr q ↦ rw (q, reconcile-settled env id outcome ts r w found q) refl
    | inl q ↦ elim (Option-cases (unresolved id w.events)) [
      | inl nothing ↦ rw (q, nothing, reconcile-certain env id outcome ts r w found nothing) refl
      | inr (e, open_event) ↦
          let is_in : r.state ≡ quarantined = ground (arith, q) in
          rw (q, open_event, reconcile-runs env id outcome ts r e w found is_in open_event)
            (resolve-accepts e w r found is_in)
    ]
  ]

-- `find_uncertain_cases` returns, leaves the database as it was, and names a stored case exactly if a
-- call of `reconcile` on it, with whatever outcome, does not raise; that is, if the case is quarantined
-- and an uncertain event of it is unresolved.
pub find_uncertain_cases-lists :
    (env : Env) (id : String) (outcome : Option ActionOutcome) (ts : Time) (w : World) {r : CaseRow}
    → find_case id w.cases ≡ some r
    → (rows : List UncertainCase) × (find_uncertain_cases w ≡ (ok rows, w))
      × (is_listed id rows ≡ accepts (reconcile env id outcome ts w))
      × (is_listed id rows ≡ (same_state r.state quarantined && is_some (unresolved id w.events)))
unfolding find_uncertain_cases
find_uncertain_cases-lists env id outcome ts w {r} found =
    let rows = uncertain_rows w.cases w.events in
    let listed : is_listed id rows
        ≡ (same_state r.state quarantined && is_some (unresolved id w.events)) =
      listed_rows id w.cases w.events
      ∙ ap (λ b. b && is_some (unresolved id w.events)) (quarantined-found id w.cases found) in
    (rows, refl, listed ∙ sym (reconcile-accepts env id outcome ts w r found), listed)
