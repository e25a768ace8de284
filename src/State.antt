-- ===== src/State.antt =====
-- agent/state.py: `VALID_TRANSITIONS` and what is derived from it.
pub mod Graph
use downtime_aware_recovery.Common.{Bool, true, false, List, [], ◌∷◌, is_empty, ◌||◌, if◌then◌else◌}
use downtime_aware_recovery.Models.Enums.{
  CaseState, detected, diagnosed, scheduled, executing, failed_attempt, recovered, abandoned,
  holdout_closed, quarantined, same_state,
}

-- `VALID_TRANSITIONS[state]`, also `allowed_transitions`.
unfoldable pub valid_transitions : CaseState → List CaseState
valid_transitions detected = diagnosed ∷ abandoned ∷ quarantined ∷ []
valid_transitions diagnosed = scheduled ∷ abandoned ∷ holdout_closed ∷ quarantined ∷ []
valid_transitions scheduled = executing ∷ abandoned ∷ []
valid_transitions executing = recovered ∷ failed_attempt ∷ abandoned ∷ scheduled ∷ quarantined ∷ []
valid_transitions failed_attempt = diagnosed ∷ scheduled ∷ abandoned ∷ []
valid_transitions recovered = []
valid_transitions abandoned = []
valid_transitions holdout_closed = []
valid_transitions quarantined = recovered ∷ failed_attempt ∷ diagnosed ∷ abandoned ∷ []

abbrev pub member : CaseState → List CaseState → Bool
member s [] = false
member s (t ∷ ts) = same_state s t || member s ts

-- The keys of the table, in its order.
abbrev pub all_states : List CaseState
all_states =
    detected ∷ diagnosed ∷ scheduled ∷ executing ∷ failed_attempt ∷ recovered ∷ abandoned
    ∷ holdout_closed ∷ quarantined ∷ []

keep_terminal : List CaseState → List CaseState
keep_terminal [] = []
keep_terminal (s ∷ ss) =
    let rest = keep_terminal ss in if is_empty (valid_transitions s) then s ∷ rest else rest

-- `TERMINAL_STATES`, derived from the table.
unfoldable pub terminal_states : List CaseState
unfolding keep_terminal valid_transitions
terminal_states = keep_terminal all_states

unfoldable pub is_terminal : CaseState → Bool
unfolding terminal_states
is_terminal s = member s terminal_states

-- `target in VALID_TRANSITIONS[current]`.
unfoldable pub is_allowed : CaseState → CaseState → Bool
unfolding valid_transitions
is_allowed current target = member target (valid_transitions current)
