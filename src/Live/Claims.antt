-- ===== src/Live/Claims.antt =====
-- When agent/executors/live.py reports that it has created a payment link.
use downtime_aware_recovery.Common.{
  ◌≡◌, ◌||◌, subst, refl, true, false, Bool, String, Option, none, some, ℕ, not, if◌then◌else◌,
  arith, nat_eq,
}
use downtime_aware_recovery.Models.Enums.{
  ActionOutcome, succeeded, failed, same_action, retry, is_succeeded,
}
use downtime_aware_recovery.Contracts.Codes.{not_authorized, action_mismatch}
use downtime_aware_recovery.Models.Json.{bad_decision, bad_action, Json}
use downtime_aware_recovery.Models.Verdict.{Verdict, ActionResult, is_executable, result_succeeded}
use downtime_aware_recovery.Store.{Env, World}
use downtime_aware_recovery.Store.Exec.{Exec, ok, refused, raise}
use downtime_aware_recovery.Pipeline.Yields.{Yields, raise-Yields, Given}
use downtime_aware_recovery.Live.{
  Gateway, Posted, response, timeout, network_error, Response, live_execute, on_posted, on_response,
  on_created, on_bad_request, on_described, on_other, finish, lost, send, link_payload, is_object,
  bad_request_data, is_created, is_duplicate,
}

-- A fresh success needs a response that says so: this is what a result owes to the last response.
abbrev owed : ℕ → ActionResult → Bool
owed status r = not (result_succeeded r) || r.replayed || is_created status

abbrev pub status_of : Posted → ℕ
status_of (response r) = r.status
status_of p = 0

either-Yields :
    {P : ActionResult → Type 0} (b : Bool) {m n : Exec ActionResult}
    → (b ≡ true → Yields P m)
    → Yields P n
    → Yields P (if b then m else n)
either-Yields true y z = y refl
either-Yields false y z = z

module _ (env : Env) (gateway : Gateway) (v : Verdict) (status : ℕ) where
  Owes : Exec ActionResult → Type 0
  Owes m = Yields (λ r. owed status r ≡ true) m

  finish-Owes :
      (o : ActionOutcome) (replayed : Bool) (detail : String)
      → (not (is_succeeded o) || replayed || is_created status) ≡ true
      → Owes (finish env v o replayed detail)
  unfolding finish Owes
  finish-Owes o replayed detail h = record { at = λ w. h }

  lost-Owes : (e : String) → Owes (lost e)
  unfolding lost Owes
  lost-Owes e = raise-Yields _

  on_created-Owes :
      (r : Response) (json : Option Json)
      → is_created status ≡ true
      → Owes (on_created env gateway v r json)
  unfolding on_created Owes
  on_created-Owes r none c = lost-Owes _
  on_created-Owes r (some body) c =
      either-Yields (is_object body) (λ _. finish-Owes succeeded false _ c) (lost-Owes _)

  on_described-Owes :
      (r : Response) (body : Json) (described : Option String)
      → Owes (on_described env gateway v r body described)
  unfolding on_described Owes
  on_described-Owes r body none = lost-Owes _
  on_described-Owes r body (some e) =
      either-Yields (is_duplicate e) (λ _. finish-Owes succeeded true _ refl)
        (finish-Owes failed false _ refl)

  on_bad_request-Owes :
      (r : Response) (body : Option Json) → Owes (on_bad_request env gateway v r body)
  unfolding on_bad_request Owes
  on_bad_request-Owes r none = lost-Owes _
  on_bad_request-Owes r (some body) = on_described-Owes r body _

on_posted-Owes :
    (env : Env) (gateway : Gateway) (v : Verdict) (p : Posted)
    → Owes env gateway v (status_of p) (on_posted env gateway v p)
unfolding on_posted on_response on_other Owes
on_posted-Owes env gateway v (response r) =
    either-Yields (is_created r.status) (λ c. on_created-Owes env gateway v r.status r r.json c)
      (either-Yields (nat_eq r.status 400)
        (λ _. on_bad_request-Owes env gateway v r.status r (bad_request_data r)) (raise-Yields _))
on_posted-Owes env gateway v (timeout e) = raise-Yields _
on_posted-Owes env gateway v (network_error e) = lost-Owes env gateway v 0 e

-- The last of at most three posts for a verdict.
abbrev pub last_post : Env → Gateway → Verdict → Posted
last_post env gateway v = send gateway (link_payload env v 100000 "Payment Recovery Retry") 2 0

module _ (env : Env) (gateway : Gateway) (v : Verdict) (w : World) (r : ActionResult) where
  answer : Bool → Bool → Exec ActionResult
  answer executable retries =
      if not executable
      then raise (refused not_authorized bad_decision)
      else if not retries
      then raise (refused action_mismatch (bad_action v.action))
      else on_posted env gateway v (last_post env gateway v)

  answer-owed :
      (executable retries : Bool)
      → (answer executable retries w).0 ≡ ok r
      → (executable ≡ true)
        × (retries ≡ true)
        × (owed (status_of (last_post env gateway v)) r ≡ true)
  unfolding answer Owes
  answer-owed false retries h = ground arith
  answer-owed true false h = ground arith
  answer-owed true true h = (
    refl,
    refl,
    subst (Given (λ r. owed (status_of (last_post env gateway v)) r ≡ true)) h
        ((on_posted-Owes env gateway v (last_post env gateway v)).at w),
  )

-- If the live executor returns a result that succeeded and is no replay, then the verdict is
-- executable and its action is RETRY, and the server answered the last post with 200 or 201.
pub fresh_success-IsCreated :
    (env : Env) (gateway : Gateway) (v : Verdict) (w : World) (r : ActionResult)
    → (live_execute env gateway v w).0 ≡ ok r
    → result_succeeded r ≡ true
    → r.replayed ≡ false
    → (is_executable v ≡ true)
      × (v.action ≡ retry)
      × (is_created (status_of (last_post env gateway v)) ≡ true)
unfolding live_execute answer
fresh_success-IsCreated env gateway v w r h s f =
    let (e, a, owes) =
      answer-owed env gateway v w r (is_executable v) (same_action v.action retry) h in
    (e, ground (arith, a), ground (arith, owes, s, f))
