-- ===== src/Audit/Chain.antt =====
-- Appending to the log of agent/audit.py: what `append` writes, and that the chain still verifies.
use downtime_aware_recovery.Common.{
  String, ◌≡◌, refl, Bool, true, false, Option, List, [], ◌∷◌, ◌++◌, arith, eq_refl, elem,
}
use downtime_aware_recovery.Models.Payment.{Time}
use downtime_aware_recovery.Models.Json.{Json}
use downtime_aware_recovery.Store.{EventRow, World, Env}
use downtime_aware_recovery.Store.Exec.{ok, err, value_error}
use downtime_aware_recovery.Audit.{
  genesis, event_names, last_hash, new_event, append, verify_from, verify_chain,
}

-- The log with one more event of a known type.
abbrev pub logged : Env → Option String → String → String → Json → Time → World → World
logged env case_id actor event_type payload ts w = record w {
  events = w.events ++ new_event env case_id actor event_type payload ts w.events ∷ [];
}

module _ (env : Env) (case_id : Option String) (actor event_type : String) (payload : Json)
    (ts : Time) (w : World) where
  pub append-known :
      elem event_type event_names ≡ true
      → append env case_id actor event_type payload ts w ≡ (
        ok (new_event env case_id actor event_type payload ts w.events).hash,
        logged env case_id actor event_type payload ts w,
      )
  unfolding append
  append-known h = rw h

  pub append-unknown :
      elem event_type event_names ≡ false
      → append env case_id actor event_type payload ts w ≡ (err value_error, w)
  unfolding append
  append-unknown h = rw h

verify_from-append :
    (env : Env) (prev : String) (es : List EventRow) (e : EventRow)
    → verify_from env prev es ≡ true
    → verify_from env (last_hash prev es) (e ∷ []) ≡ true
    → verify_from env prev (es ++ e ∷ []) ≡ true
unfolding last_hash verify_from
verify_from-append env prev [] e h k = k
verify_from-append env prev (x ∷ es) e h k = ground (arith, verify_from-append env x.hash es e)

new_event-verifies :
    (env : Env) (case_id : Option String) (actor event_type : String) (payload : Json) (ts : Time)
    (es : List EventRow)
    → verify_from env
        (last_hash genesis es)
        (new_event env case_id actor event_type payload ts es ∷ [])
      ≡ true
unfolding new_event verify_from
new_event-verifies env case_id actor event_type payload ts es = simp eq_refl

-- A log that verifies still verifies after any call of `append`, also one that raises, and a call
-- with a known event type adds one event behind those that are there.
pub append-verify_chain :
    (env : Env) (case_id : Option String) (actor event_type : String) (payload : Json) (ts : Time)
    (w : World)
    → verify_chain env w.events ≡ true
    → let (result, w') = append env case_id actor event_type payload ts w in
      (verify_chain env w'.events ≡ true)
      × (w'.events ≡ (elim (elem event_type event_names) [
        | true ↦ w.events ++ new_event env case_id actor event_type payload ts w.events ∷ []
        | false ↦ w.events
      ]))
unfolding verify_chain
append-verify_chain env case_id actor event_type payload ts w h =
    go (elem event_type event_names) refl
  where
    go :
        (b : Bool)
        → elem event_type event_names ≡ b
        → let (result, w') = append env case_id actor event_type payload ts w in
          (verify_chain env w'.events ≡ true)
          × (w'.events ≡ (elim b [
            | true ↦ w.events ++ new_event env case_id actor event_type payload ts w.events ∷ []
            | false ↦ w.events
          ]))
    go true e = rw (append-known env case_id actor event_type payload ts w e) (
      verify_from-append env genesis w.events _ h
          (new_event-verifies env case_id actor event_type payload ts w.events),
      refl,
    )
    go false e = rw (append-unknown env case_id actor event_type payload ts w e) (h, refl)
