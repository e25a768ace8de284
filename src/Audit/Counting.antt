-- ===== src/Audit/Counting.antt =====
-- What `replay` of agent/audit.py counts.
use downtime_aware_recovery.Common.{
  ℕ, suc, ◌+◌, String, ◌≡◌, refl, Bool, true, false, ◌&&◌, some, List, [], ◌∷◌, ◌++◌, arith, ◌==◌,
  eq_iff, nat_eq, if◌then◌else◌, ◌||◌, Bool-cases, Option-cases, inl, inr, is_some,
}
use downtime_aware_recovery.Models.Json.{Json, get, is_set}
use downtime_aware_recovery.Models.Verdict.{ActionResult, dump_result}
use downtime_aware_recovery.Store.{CaseRow, EventRow, World}
use downtime_aware_recovery.Store.Exec.{ok}
use downtime_aware_recovery.Store.Cases.{find_case}
use downtime_aware_recovery.Audit.Replay.{
  Replayed, nothing_replayed, with_transition, read_result, is_of_case, replay_event, replay_from,
  replay, verify_counters,
}

-- The results of actions among the events of a case, counted by themselves.
abbrev pub is_result_of : String → EventRow → Bool
is_result_of id e = is_of_case id e && e.event_type == "ACTION_RESULT"

abbrev pub count_results : String → List EventRow → ℕ
count_results id [] = 0
count_results id (e ∷ es) =
    let rest = count_results id es in if is_result_of id e then suc rest else rest

-- An event that the loop of `replay` can read: the keys that it takes are there.
abbrev pub readable_as : String → Json → Bool
readable_as event_type payload =
    if event_type == "COHORT_ASSIGNED"
    then is_some (get "cohort" payload)
    else if event_type == "STATE_TRANSITION"
    then is_some (get "to" payload)
    else true

abbrev pub readable : EventRow → Bool
readable e = readable_as e.event_type e.payload

-- Every event can be read.
abbrev pub Readable : List EventRow → Type 0
Readable [] = Unit
Readable (e ∷ es) = (readable e ≡ true) × Readable es

pub Readable-append : (es fs : List EventRow) → Readable es → Readable fs → Readable (es ++ fs)
Readable-append [] fs h k = k
Readable-append (e ∷ es) fs h k = (h.0, Readable-append es fs h.1 k)

pub count_results-append :
    (id : String) (es fs : List EventRow)
    → count_results id (es ++ fs) ≡ count_results id es + count_results id fs
count_results-append id [] fs = omega arith
count_results-append id (e ∷ es) fs = ground (arith, count_results-append id es fs)

-- A text that is one of two different texts is not the other.
pub other_text : (t a b : String) → (a == b) ≡ false → (t == a) ≡ true → (t == b) ≡ false
other_text t a b d h = ground (arith, eq_iff t a, eq_iff t b, eq_iff a b)

-- The events whose payloads are the dumps that the pipeline writes for the result of an action.
abbrev pub HasDump : EventRow → Type 0
HasDump e = (e.event_type ≡ "ACTION_RESULT") → (r : ActionResult) × (e.payload ≡ dump_result r)

abbrev pub HaveDumps : List EventRow → Type 0
HaveDumps [] = Unit
HaveDumps (e ∷ es) = HasDump e × HaveDumps es

-- What one pass of the loop does: it counts a result, and it marks the case as recovered only if
-- the payload of a result says so.
abbrev Passes : EventRow → Replayed → Replayed → Type 0
Passes e s s' =
    (replay_event e s ≡ ok s')
    × (s'.attempts ≡ (if e.event_type == "ACTION_RESULT" then suc s.attempts else s.attempts))
    × (s'.recovered ≡ (
        if e.event_type == "ACTION_RESULT"
        then is_set "succeeded" e.payload || s.recovered
        else s.recovered))

replay_event-Passes :
    (e : EventRow) (s : Replayed) → readable e ≡ true → (s' : Replayed) × Passes e s s'
unfolding replay_event
replay_event-Passes e s h = elim (Bool-cases (e.event_type == "COHORT_ASSIGNED")) [
  | inl c ↦
      let o = other_text e.event_type "COHORT_ASSIGNED" "ACTION_RESULT" refl c in
      elim (Option-cases (get "cohort" e.payload)) [
        | inl missing ↦ (s, ground arith)
        | inr (v, found) ↦ (record s { cohort = some v }, ground arith)
      ]
  | inr nc ↦ elim (Bool-cases (e.event_type == "STATE_TRANSITION")) [
    | inl t ↦
        let o = other_text e.event_type "STATE_TRANSITION" "ACTION_RESULT" refl t in
        elim (Option-cases (get "to" e.payload)) [
          | inl missing ↦ (s, ground arith)
          | inr (v, found) ↦ (with_transition v e.payload s, ground arith)
        ]
    | inr nt ↦ elim (Bool-cases (e.event_type == "ACTION_RESULT")) [
      | inl r ↦ (read_result e.payload s, ground arith)
      | inr nr ↦ (s, ground arith)
    ]
  ]
]

-- The dump of a result has no key `succeeded`.
is_set-dump_result : (r : ActionResult) → is_set "succeeded" (dump_result r) ≡ false
unfolding dump_result
is_set-dump_result r = refl

pass_recovered :
    (e : EventRow) (s s' : Replayed)
    → Passes e s s'
    → HasDump e
    → s.recovered ≡ false
    → s'.recovered ≡ false
pass_recovered e s s' p d f = elim (Bool-cases (e.event_type == "ACTION_RESULT")) [
  | inl r ↦
      let (result, dumped) = d ((eq_iff e.event_type "ACTION_RESULT").0 r) in
      let unset : is_set "succeeded" e.payload ≡ false = rw dumped (is_set-dump_result result) in
      ground arith
  | inr nr ↦ ground arith
]

replay_from_counts :
    (id : String) (es : List EventRow) (s : Replayed)
    → Readable es
    → (s' : Replayed) × (replay_from id es s ≡ ok s')
      × (s'.attempts ≡ s.attempts + count_results id es)
      × (HaveDumps es → s.recovered ≡ false → s'.recovered ≡ false)
unfolding replay_from
replay_from_counts id [] s h = (s, refl, omega arith, λ d f. f)
replay_from_counts id (e ∷ es) s h = elim (Bool-cases (is_of_case id e)) [
  | inl mine ↦
      let (s1, p) = replay_event-Passes e s h.0 in
      let (s2, q, n, r) = replay_from_counts id es s1 h.1 in
      (s2, rw (mine, p.0) q, ground arith, λ d f. r d.1 (pass_recovered e s s1 p d.0 f))
  | inr not_mine ↦
      let (s2, q, n, r) = replay_from_counts id es s h.1 in
      (s2, ground arith, ground arith, λ d f. r d.1 f)
]

-- A log in which every event can be read is replayed without a raise, and the attempts are the
-- results of actions among the events of the case.
pub replay_counts :
    (id : String) (es : List EventRow)
    → Readable es
    → (s : Replayed) × (replay id es ≡ ok s) × (s.attempts ≡ count_results id es)
unfolding replay
replay_counts id es h =
    let (s, q, n, r) = replay_from_counts id es (nothing_replayed id) h in (s, q, omega arith)

-- A log in which every event can be read, and in which the payloads of the results are the dumps
-- that the pipeline writes, is replayed without a raise, but the case is not marked as recovered,
-- whatever the results were.
pub replay_never_recovers :
    (id : String) (es : List EventRow)
    → Readable es
    → HaveDumps es
    → (s : Replayed) × (replay id es ≡ ok s) × (s.recovered ≡ false)
unfolding replay
replay_never_recovers id es h d =
    let (s, q, n, r) = replay_from_counts id es (nothing_replayed id) h in (s, q, r d refl)

-- Where the log can be read, the check of the counters compares the attempts of the row with the
-- number of results.
pub verify_counters-count :
    (id : String) (w : World) {r : CaseRow}
    → find_case id w.cases ≡ some r
    → Readable w.events
    → verify_counters id w ≡ (ok (nat_eq r.attempts (count_results id w.events)), w)
unfolding verify_counters
verify_counters-count id w found h = let (s, q, n) = replay_counts id w.events h in ground arith
