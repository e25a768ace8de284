-- ===== src/Dashboard/Transactions.antt =====
-- agent/dashboard.py: `get_transactions_summary`, the list of cases page by page. A limit and an
-- offset are not negative.
use downtime_aware_recovery.Common.{
  ◌∷◌, [], none, some, zero, suc, ℕ, String, Bool, Option, List, ◌==◌, ◌&&◌, ◌||◌, true, false,
  if◌then◌else◌, is_some, length, or_default, not, ◌*◌,
}
use downtime_aware_recovery.Store.Exec.{Exec, ◌>>=◌, pure, gets, lift, Result, ok, err, type_error}
use downtime_aware_recovery.Store.{Columns, text_le, ActionRow, CaseRow, EventRow}
use downtime_aware_recovery.Models.Payment.{ErrorObj, Instrument}
use downtime_aware_recovery.Models.Json.{
  Json, dict, field, null, obj, real, truthy, bool, end, get, str, int, arr, nil, Fields,
}
use downtime_aware_recovery.Logger.{Redactor, sanitize_data}
use downtime_aware_recovery.Dashboard.{Sqlite, take, rounded, rupees}
use downtime_aware_recovery.Models.Verdict.{concat}
use downtime_aware_recovery.Text.{has_text, strip, lower}
use downtime_aware_recovery.Metrics.{last_event}
use downtime_aware_recovery.Config.Settings.{upper}
use downtime_aware_recovery.Models.Enums.{cohort_value, method_value, state_value}

pub record Query : Type 0 where
  pub limit : ℕ
  pub offset : ℕ
  pub search : Option String
  pub cohort_filter : Option String
  pub method_filter : Option String
  pub state_filter : Option String

-- `filter and filter.upper() != "ALL"`, with what the column has to be.
unfoldable pub passes : Option String → (String → String) → String → Bool
passes none change column = true
passes (some f) change column =
    if has_text f && not (upper f == "ALL") then column == change f else true

-- The three `LIKE`s on `%search%`.
unfoldable pub found : Sqlite → Option String → CaseRow → Bool
found sql none c = true
found sql (some s) c =
    let pattern = concat ("%" ∷ strip s ∷ "%" ∷ []) in
    if has_text s
    then sql.like c.case_id pattern || sql.like c.order_id pattern || sql.like c.customer_id pattern
    else true

-- The `WHERE` clause.
unfoldable pub is_match : Sqlite → Query → CaseRow → Bool
is_match sql q c =
    found sql q.search c
    && passes q.cohort_filter upper (cohort_value c.cohort)
    && passes q.method_filter lower (method_value c.method)
    && passes q.state_filter upper (state_value c.state)

unfoldable pub matching : Sqlite → Query → List CaseRow → List CaseRow
matching sql q [] = []
matching sql q (c ∷ cs) =
    let rest = matching sql q cs in if is_match sql q c then c ∷ rest else rest

-- `ORDER BY created_at DESC, case_id DESC`.
unfoldable pub comes_first : Columns → CaseRow → CaseRow → Bool
comes_first columns a b =
    let s = columns.created_at a.case_id in
    let t = columns.created_at b.case_id in
    not (text_le s t) || s == t && text_le b.case_id a.case_id

unfoldable pub insert_case : Columns → CaseRow → List CaseRow → List CaseRow
insert_case columns c [] = c ∷ []
insert_case columns c (d ∷ ds) =
    let rest = insert_case columns c ds in if comes_first columns c d then c ∷ d ∷ ds else d ∷ rest

unfoldable pub newest_first : Columns → List CaseRow → List CaseRow
newest_first columns [] = []
newest_first columns (c ∷ cs) = insert_case columns c (newest_first columns cs)

-- `OFFSET n`.
unfoldable pub skip {ℓ} : {A : Type ℓ} → ℕ → List A → List A
skip zero xs = xs
skip (suc n) [] = []
skip (suc n) (x ∷ xs) = skip n xs

-- The rows of the page.
unfoldable pub page : Sqlite → Query → List CaseRow → List CaseRow
page sql q cases = take q.limit (skip q.offset (newest_first sql.columns (matching sql q cases)))

-- The action of a case that is scheduled last.
unfoldable pub last_scheduled : Columns → String → List ActionRow → Option ActionRow
last_scheduled columns id [] = none
last_scheduled columns id (a ∷ as') =
    let rest = last_scheduled columns id as' in
    let latest = elim rest as (λ _. Option ActionRow) [
      | none ↦ some a
      | some b ↦
          if text_le (columns.scheduled_at b.idempotency_key)
            (columns.scheduled_at a.idempotency_key)
          then some a
          else some b
    ] in
    if a.case_id == id then latest else rest

-- `json.loads` of the column `error`, and of `instrument`, which leaves out what is None.
unfoldable pub error_json : ErrorObj → Json
error_json e = dict (
    ("code", str e.code)
    ∷ ("description", str e.description)
    ∷ ("reason", str e.reason)
    ∷ ("source", str e.source)
    ∷ ("step", str e.step)
    ∷ [])

abbrev pub with_field : String → Option String → Fields → Fields
with_field k none fs = fs
with_field k (some v) fs = field k (str v) fs

unfoldable pub instrument_json : Instrument → Json
instrument_json i = obj (
    with_field "bank" i.bank (
      with_field "network" i.network
        (with_field "type" i.card_type (with_field "vpa_handle" i.vpa_handle end))))

-- `payload.get(k)` and `payload.get(k, default)`.
abbrev pub get_null : String → Json → Json
get_null k p = or_default null (get k p)

abbrev pub get_default : String → Json → Json → Json
get_default k default p = or_default default (get k p)

-- `a or b`.
abbrev pub or_else : Json → Json → Json
or_else a b = if truthy a then a else b

-- `f(payload) if payload else default`.
abbrev pub if_payload : Option Json → Json → (Json → Json) → Json
if_payload none default f = default
if_payload (some p) default f = if truthy p then f p else default

-- `round(x * 100, 1)`; what is no number cannot be rounded.
unfoldable pub percent : Json → Result Json
percent (real n) = ok (real (rounded 100000 (100 * n) 1))
percent (int n) = ok (int (100 * n))
percent (bool false) = ok (int 0)
percent (bool true) = ok (int 100)
percent _ = err type_error

-- `round(diag_payload.get("confidence", 0.0) * 100, 1) if diag_payload else None`.
unfoldable pub shown_confidence : Option Json → Result Json
shown_confidence none = ok null
shown_confidence (some p) =
    if truthy p then percent (get_default "confidence" (real 0) p) else ok null

abbrev pub payload_of : Option EventRow → Option Json
payload_of none = none
payload_of (some e) = some e.payload

abbrev pub has_executed : Option ActionRow → Bool
has_executed none = false
has_executed (some a) = is_some a.executed_at

abbrev pub success_shown : Option ActionRow → Json
success_shown none = null
success_shown (some a) = if is_some a.executed_at then bool (or_default false a.succeeded) else null

-- The dictionary of one case, before it is sanitized.
unfoldable pub summary_fields : CaseRow → Option Json → Option Json → Option ActionRow → Json → Json
summary_fields c diagnosis verdict action confidence =
    let error = error_json c.error in
    let instrument = instrument_json c.instrument in
    dict (
      ("case_id", str c.case_id)
      ∷ ("order_id", str c.order_id)
      ∷ ("customer_id", str c.customer_id)
      ∷ ("created_at", int c.created_at)
      ∷ ("method", str (method_value c.method))
      ∷ ("amount_paise", int c.amount_paise)
      ∷ ("amount_rupees", real (rupees c.amount_paise))
      ∷ ("is_recurring", bool c.is_recurring)
      ∷ ("attempts", int c.attempts)
      ∷ ("cohort", str (cohort_value c.cohort))
      ∷ ("state", str (state_value c.state))
      ∷ ("error_reason", get_default "reason" (str "unknown") error)
      ∷ ("error_code", get_default "code" (str "") error)
      ∷ (
        "instrument_type",
        or_else (get_null "type" instrument) (
            or_else (get_null "network" instrument)
              (or_else (get_null "bank" instrument) (str "standard"))),
      )
      ∷ ("ai_recoverability", if_payload diagnosis (str "N/A") (get_null "recoverability"))
      ∷ ("ai_confidence", confidence)
      ∷ ("ai_proposed_action", if_payload diagnosis null (get_null "proposed_action"))
      ∷ ("policy_decision", if_payload verdict (str "N/A") (get_null "decision"))
      ∷ ("policy_action", if_payload verdict null (get_null "action"))
      ∷ ("policy_reason", if_payload verdict null (get_null "reason"))
      ∷ ("fired_rules", if_payload verdict (arr nil) (get_default "fired_rules" (arr nil)))
      ∷ ("action_executed", bool (has_executed action))
      ∷ ("action_succeeded", success_shown action)
      ∷ [])

-- The body of the loop over the rows of the page.
unfoldable pub case_summary : Columns → Redactor → CaseRow → Exec Json
case_summary columns r c = do
  diagnosis ← gets (λ w. payload_of (last_event c.case_id "DIAGNOSIS_RETURNED" w.events))
  verdict ← gets (λ w. payload_of (last_event c.case_id "POLICY_VERDICT" w.events))
  action ← gets (λ w. last_scheduled columns c.case_id w.actions)
  confidence ← lift (shown_confidence diagnosis)
  pure (sanitize_data r none (summary_fields c diagnosis verdict action confidence))

unfoldable pub case_summaries : Columns → Redactor → List CaseRow → Exec (List Json)
case_summaries columns r [] = pure []
case_summaries columns r (c ∷ cs) = do
  s ← case_summary columns r c
  rest ← case_summaries columns r cs
  pure (s ∷ rest)

pub record Summaries : Type 0 where
  pub total : ℕ
  pub limit : ℕ
  pub offset : ℕ
  pub transactions : List Json

unfoldable pub get_transactions_summary : Sqlite → Redactor → Query → Exec Summaries
get_transactions_summary sql r q = do
  total ← gets (λ w. length (matching sql q w.cases))
  rows ← gets (λ w. page sql q w.cases)
  transactions ← case_summaries sql.columns r rows
  pure (record { total = total; limit = q.limit; offset = q.offset; transactions = transactions })
