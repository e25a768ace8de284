-- ===== src/Live.antt =====
-- agent/executors/live.py: `LiveRazorpayExecutor.execute`. What the HTTP client gives for each post is
-- a parameter, and so are the texts of JSON values and of the exceptions of the client; sleeping,
-- latencies and the application log are left out.
pub mod Port
pub mod Claims
use Prim.Native.String.{◌++◌ as join}
use downtime_aware_recovery.Common.{
  ℕ, zero, suc, String, Bool, true, false, ◌&&◌, ◌||◌, not, Option, none, some, [], ◌∷◌, nat_eq,
  if◌then◌else◌,
}
use text.Mathlib.Text.{starts_with}
use downtime_aware_recovery.Text.{contains, take}
use downtime_aware_recovery.Models.Enums.{
  retry, ActionOutcome, succeeded, failed, live, same_action,
}
use downtime_aware_recovery.Models.Json.{
  Json, Message, Fields, get, obj, int, bool, str, message, dict, bad_decision, bad_action,
  formatted,
}
use downtime_aware_recovery.Models.Verdict.{
  Verdict, ActionResult, is_executable, verdict_key, decimal,
}
use downtime_aware_recovery.Contracts.Codes.{
  not_authorized, action_mismatch, provider_error, execution_timeout, status_unknown,
}
use downtime_aware_recovery.Store.{Env}
use downtime_aware_recovery.Store.Exec.{Exec, ◌>>=◌, pure, raise, now, refused, uncertain}

-- A response: `resp.json()` is none where it raises, and `content_type` is the header, if there is one.
pub record Response : Type 0 where
  pub status : ℕ
  pub content_type : Option String
  pub json : Option Json
  pub text : String

-- What `client.post` gives: a response, one of the three timeouts that the code names, or another
-- exception; the last two with their texts.
pub data Posted : Type 0 where
  response : Response → Posted
  timeout network_error : String → Posted

-- The client, by the payload and the number of the attempt, and `str` of a value of a JSON document
-- other than a text, where none stands for Python's None.
pub record Gateway : Type 0 where
  pub post : Json → ℕ → Posted
  pub shown : Option Json → String
  -- the text of the exception that reading the body of a response raises
  pub broken : Response → String

-- `str(data.get(…))`.
abbrev pub text_of : Gateway → Option Json → String
text_of gateway (some (str s)) = s
text_of gateway v = gateway.shown v

abbrev pub is_object : Json → Bool
is_object (obj fields) = true
is_object _ = false

-- `payload`. The pipeline calls `execute` with the verdict alone, so that `amount_paise` and
-- `description` have their defaults.
unfoldable pub link_payload : Env → Verdict → ℕ → String → Json
link_payload env v amount_paise description = dict (
    ("amount", int amount_paise)
    ∷ ("currency", str "INR")
    ∷ ("accept_partial", bool false)
    ∷ ("description", str description)
    ∷ ("reference_id", str (take 40 (verdict_key env.sha256 v)))
    ∷ (
      "notes",
      dict (
          ("case_id", str v.case_id)
          ∷ ("idempotency_key", str (verdict_key env.sha256 v))
          ∷ ("reason", message v.reason)
          ∷ []),
    )
    ∷ [])

-- The loop: `left` posts besides the next one, which is attempt `k`. The last response stands even if
-- it says 429.
unfoldable pub send : Gateway → Json → ℕ → ℕ → Posted
send gateway payload zero k = gateway.post payload k
send gateway payload (suc left) k =
    let again = send gateway payload left (suc k) in
    elim (gateway.post payload k) [
      | response r ↦ if nat_eq r.status 429 then again else response r
      | timeout e ↦ timeout e
      | network_error e ↦ network_error e
    ]

abbrev pub live_result : Env → Verdict → ActionOutcome → ℕ → Bool → String → ActionResult
live_result env v outcome at replayed detail = record {
  case_id = v.case_id;
  action = v.action;
  idempotency_key = verdict_key env.sha256 v;
  outcome = outcome;
  executed_at = at;
  mode = live;
  replayed = replayed;
  detail = formatted detail;
}

-- A result, with the time of its making.
unfoldable pub finish : Env → Verdict → ActionOutcome → Bool → String → Exec ActionResult
finish env v outcome replayed detail = do
  at ← now env
  pure (live_result env v outcome at replayed detail)

-- The last handler: any exception that is not a refusal or one of the timeouts.
unfoldable pub lost : String → Exec ActionResult
lost e =
    raise
      (uncertain status_unknown (formatted (join "Network error contacting Razorpay API: " e)) "")

-- 200 and 201, by `resp.json()`. A body that is no JSON document, or none with `get`, raises.
unfoldable pub on_created : Env → Gateway → Verdict → Response → Option Json → Exec ActionResult
on_created env gateway v r none = lost (gateway.broken r)
on_created env gateway v r (some body) =
    if is_object body
    then finish env v succeeded false (
        join "Razorpay Payment Link: " (
          join (text_of gateway (get "id" body))
            (join " (" (join (text_of gateway (get "short_url" body)) ")"))))
    else lost (gateway.broken r)

-- `str(data.get("error", {}).get("description", ""))`, and none where it raises.
unfoldable pub error_description : Gateway → Json → Option String
error_description gateway body = elim (get "error" body) [
  | none ↦ some ""
  | some e ↦
      let described = elim (get "description" e) as (λ _. String) [
        | none ↦ ""
        | some d ↦ text_of gateway (some d)
      ] in
      if is_object e then some described else none
]

-- `data` of a 400, and none where `resp.json()` raises.
unfoldable pub bad_request_data : Response → Option Json
bad_request_data r = elim r.content_type [
  | none ↦ some (dict (("text", str r.text) ∷ []))
  | some t ↦
      if starts_with t "application/json" then r.json else some (dict (("text", str r.text) ∷ []))
]

abbrev pub is_duplicate : String → Bool
is_duplicate e = contains "already exists" e && contains "reference_id" e

-- The branch on `err_desc`, if there is one.
unfoldable pub on_described :
    Env → Gateway → Verdict → Response → Json → Option String → Exec ActionResult
on_described env gateway v r body none = lost (gateway.broken r)
on_described env gateway v r body (some e) =
    if is_duplicate e
    then finish env v succeeded true (join "Idempotent replay: " e)
    else finish env v failed false (join "Razorpay HTTP 400: " (gateway.shown (some body)))

-- 400, by `data`.
unfoldable pub on_bad_request : Env → Gateway → Verdict → Response → Option Json → Exec ActionResult
on_bad_request env gateway v r none = lost (gateway.broken r)
on_bad_request env gateway v r (some body) =
    on_described env gateway v r body
      (if is_object body then error_description gateway body else some "")

-- Any other status.
unfoldable pub on_other : Response → Exec ActionResult
on_other r = raise (
    refused provider_error
      (formatted (join "Razorpay returned status " (join (decimal r.status) (join ": " r.text)))))

abbrev pub is_created : ℕ → Bool
is_created status = nat_eq status 200 || nat_eq status 201

unfoldable pub on_response : Env → Gateway → Verdict → Response → Exec ActionResult
on_response env gateway v r =
    if is_created r.status
    then on_created env gateway v r r.json
    else if nat_eq r.status 400
    then on_bad_request env gateway v r (bad_request_data r)
    else on_other r

-- What follows the posts.
unfoldable pub on_posted : Env → Gateway → Verdict → Posted → Exec ActionResult
on_posted env gateway v (response r) = on_response env gateway v r
on_posted env gateway v (timeout e) =
    raise (uncertain execution_timeout (formatted (join "Timeout contacting Razorpay API: " e)) "")
on_posted env gateway v (network_error e) = lost e

-- `LiveRazorpayExecutor.execute`, with the defaults of its keywords.
unfoldable pub live_execute : Env → Gateway → Verdict → Exec ActionResult
live_execute env gateway v =
    if not (is_executable v)
    then raise (refused not_authorized bad_decision)
    else if not (same_action v.action retry)
    then raise (refused action_mismatch (bad_action v.action))
    else on_posted env gateway v
        (send gateway (link_payload env v 100000 "Payment Recovery Retry") 2 0)
