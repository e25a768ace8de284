-- ===== src/Contracts/Codes.antt =====
-- The closed sets of refusal and uncertainty codes (agent/executors/contracts.py).
use downtime_aware_recovery.Common.{String, Bool, true, false, not}

pub data ActionErrorCode : Type 0 where
  not_authorized action_mismatch invalid_params unknown_case illegal_state : ActionErrorCode
  duplicate_in_flight provider_error provider_rejected : ActionErrorCode

pub data UncertaintyCode : Type 0 where
  execution_timeout status_unknown : UncertaintyCode

abbrev pub error_code_value : ActionErrorCode → String
error_code_value not_authorized = "NOT_AUTHORIZED"
error_code_value action_mismatch = "ACTION_MISMATCH"
error_code_value invalid_params = "INVALID_PARAMS"
error_code_value unknown_case = "UNKNOWN_CASE"
error_code_value illegal_state = "ILLEGAL_STATE"
error_code_value duplicate_in_flight = "DUPLICATE_IN_FLIGHT"
error_code_value provider_error = "PROVIDER_ERROR"
error_code_value provider_rejected = "PROVIDER_REJECTED"

abbrev pub uncertainty_value : UncertaintyCode → String
uncertainty_value execution_timeout = "EXECUTION_TIMEOUT"
uncertainty_value status_unknown = "STATUS_UNKNOWN"

-- Membership in `TERMINAL_ERROR_CODES`.
abbrev pub is_terminal_code : ActionErrorCode → Bool
is_terminal_code not_authorized = true
is_terminal_code action_mismatch = true
is_terminal_code invalid_params = true
is_terminal_code unknown_case = true
is_terminal_code illegal_state = true
is_terminal_code provider_rejected = true
is_terminal_code _ = false

-- `ActionRefused.retryable`.
abbrev pub retryable : ActionErrorCode → Bool
retryable c = not (is_terminal_code c)
