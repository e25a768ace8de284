-- ===== src/Store/Cases.antt =====
-- agent/state.py: the operations on the table of cases.
use downtime_aware_recovery.Common.{
  ℕ, suc, ◌+◌, String, Bool, false, not, ◌&&◌, Option, none, some, List, [], ◌∷◌, ◌++◌, ◌==◌,
  nat_eq, is_some, if◌then◌else◌,
}
use downtime_aware_recovery.Models.Enums.{Cohort, CaseState, detected}
use downtime_aware_recovery.Models.Payment.{Time, PaymentFailure}
use downtime_aware_recovery.Models.Json.{Message}
use downtime_aware_recovery.State.{is_allowed}
use downtime_aware_recovery.Store.{CaseRow}
use downtime_aware_recovery.Store.Exec.{
  Exec, ◌>>=◌, ◌>>◌, gets, or_raise, raise_if, modify, key_error, integrity_error,
  illegal_transition, concurrent_modification,
}

-- `SELECT * FROM cases WHERE case_id = ?`, the first row.
unfoldable pub find_case : String → List CaseRow → Option CaseRow
find_case id [] = none
find_case id (r ∷ rs) = if id == r.case_id then some r else find_case id rs

unfoldable pub get_case : String → Exec CaseRow
get_case id = do rows ← gets (λ w. w.cases); or_raise (find_case id rows) (key_error id)

unfoldable pub new_row : PaymentFailure → Cohort → CaseRow
new_row pf cohort = record {
  case_id = pf.case_id;
  customer_id = pf.customer_id;
  order_id = pf.order_id;
  created_at = pf.created_at;
  method = pf.method;
  instrument = pf.instrument;
  amount_paise = pf.amount_paise;
  is_recurring = pf.is_recurring;
  mandate_id = pf.mandate_id;
  error = pf.error;
  cohort = cohort;
  state = detected;
  attempts = 0;
  last_attempt_at = none;
  abandon_reason = none;
  version = 0;
}

-- The insert fails on a case id that is there already.
unfoldable pub create_case : PaymentFailure → Cohort → Exec Unit
unfolding new_row
create_case pf cohort = do
  rows ← gets (λ w. w.cases)
  raise_if (is_some (find_case pf.case_id rows)) integrity_error
  modify (λ w. record w { cases = w.cases ++ new_row pf cohort ∷ [] })

unfoldable pub to_payment_failure : CaseRow → PaymentFailure
to_payment_failure row = record {
  case_id = row.case_id;
  customer_id = row.customer_id;
  order_id = row.order_id;
  created_at = row.created_at;
  method = row.method;
  instrument = row.instrument;
  amount_paise = row.amount_paise;
  is_recurring = row.is_recurring;
  mandate_id = row.mandate_id;
  attempt_no = row.attempts + 1;
  error = row.error;
}

-- The keyword arguments of `transition`.
pub record Sets : Type 0 where
  pub increment_attempt : Bool
  pub abandon_reason : Option Message
  pub last_attempt_at : Option Time

-- Their defaults.
abbrev pub no_sets : Sets
no_sets = record { increment_attempt = false; abandon_reason = none; last_attempt_at = none }

-- A column that is set only if a value is given.
abbrev pub or_keep {ℓ} : {A : Type ℓ} → Option A → Option A → Option A
or_keep none old = old
or_keep (some a) old = some a

-- The SET clause of the UPDATE.
unfoldable pub apply_sets : CaseState → Sets → CaseRow → CaseRow
apply_sets target sets row = record row {
  state = target;
  version = row.version + 1;
  attempts = if sets.increment_attempt then row.attempts + 1 else row.attempts;
  abandon_reason = or_keep sets.abandon_reason row.abandon_reason;
  last_attempt_at = or_keep sets.last_attempt_at row.last_attempt_at;
}

-- `WHERE case_id = ? AND version = ?`.
abbrev pub is_target : String → ℕ → CaseRow → Bool
is_target id version r = id == r.case_id && nat_eq r.version version

unfoldable pub update_rows : String → ℕ → (CaseRow → CaseRow) → List CaseRow → List CaseRow
update_rows id version f [] = []
update_rows id version f (r ∷ rs) =
    (if is_target id version r then f r else r) ∷ update_rows id version f rs

unfoldable pub row_count : String → ℕ → List CaseRow → ℕ
row_count id version [] = 0
row_count id version (r ∷ rs) =
    let rest = row_count id version rs in if is_target id version r then suc rest else rest

-- The UPDATE and the test of its `rowcount`, at the version that was read.
unfoldable pub write_state : String → ℕ → CaseState → Sets → Exec Unit
write_state id version target sets = do
  count ← gets (λ w. row_count id version w.cases)
  modify (λ w. record w { cases = update_rows id version (apply_sets target sets) w.cases })
  raise_if (nat_eq count 0) (concurrent_modification id)

-- The reading half of `transition`: the row, if the transition is permitted from its state.
unfoldable pub check_transition : String → CaseState → Exec CaseRow
unfolding get_case
check_transition id target = do
  row ← get_case id
  raise_if (not (is_allowed row.state target)) (illegal_transition row.state target)
  gets (λ w. row)

unfoldable pub transition : String → CaseState → Sets → Exec Unit
unfolding check_transition write_state
transition id target sets = do
  row ← check_transition id target
  write_state id row.version target sets
