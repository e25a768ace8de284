-- ===== src/Reconciliation/Unresolved.antt =====
-- The unresolved uncertain event of a case (agent/reconciliation.py), as the log grows.
use downtime_aware_recovery.Common.{String, ◌≡◌, ◌⊎◌, true, false, none, List, [], ◌∷◌, ◌++◌, arith}
use downtime_aware_recovery.Reconciliation.{unresolved, is_resolved, is_event}
use downtime_aware_recovery.Store.{EventRow}

is_resolved-append :
    (id : String) (es fs : List EventRow)
    → is_resolved id fs ≡ true
    → is_resolved id (es ++ fs) ≡ true
unfolding is_resolved
is_resolved-append id [] fs h = h
is_resolved-append id (e ∷ es) fs h = ground (arith, is_resolved-append id es fs h)

is_resolved-grows :
    (id : String) (es fs : List EventRow)
    → is_resolved id es ≡ true
    → is_resolved id (es ++ fs) ≡ true
unfolding is_resolved
is_resolved-grows id [] fs h = cc
is_resolved-grows id (e ∷ es) fs h = ground (arith, is_resolved-grows id es fs)

-- An event that resolves the case leaves nothing to resolve before it.
pub unresolved-resolved :
    (id : String) (es : List EventRow) (e : EventRow)
    → is_event id "RECONCILIATION_RESOLVED" e ≡ true
    → is_event id "ACTION_UNCERTAIN" e ≡ false
    → unresolved id (es ++ e ∷ []) ≡ none
unfolding unresolved is_resolved
unresolved-resolved id [] e h k = ground arith
unresolved-resolved id (x ∷ es) e h k =
    ground (arith, unresolved-resolved id es e h k, is_resolved-append id es (e ∷ []))

unresolved-tail :
    (id : String) (x : EventRow) (es : List EventRow)
    → unresolved id (x ∷ es) ≡ none
    → (unresolved id es ≡ none)
      × ((is_event id "ACTION_UNCERTAIN" x ≡ false) ⊎ (is_resolved id es ≡ true))
unfolding unresolved
unresolved-tail id x es k = ground arith

-- An event of another kind leaves nothing to resolve if there was nothing.
pub unresolved-other :
    (id : String) (es : List EventRow) (e : EventRow)
    → is_event id "ACTION_UNCERTAIN" e ≡ false
    → unresolved id es ≡ none
    → unresolved id (es ++ e ∷ []) ≡ none
unfolding unresolved
unresolved-other id [] e h k = ground arith
unresolved-other id (x ∷ es) e h k =
    let (k', shut) = unresolved-tail id x es k in
    ground (arith, unresolved-other id es e h k', is_resolved-grows id es (e ∷ []))
