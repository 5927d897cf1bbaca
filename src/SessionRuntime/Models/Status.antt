-- ===== src/SessionRuntime/Models/Status.antt =====
-- The enumerations of internal/aigc/sessionruntime/models.go.
use dora_agent.Base.{Bool, String, false, str_eq, true, ℕ}

pub data InputType : Type 0 where
  user_message_type resume_requested_type approval_continuation_type batch_continuation_type :
      InputType

-- The constants' values.
unfoldable pub input_type_text : InputType → String
input_type_text user_message_type = "user_message"
input_type_text resume_requested_type = "resume_requested"
input_type_text approval_continuation_type = "approval_continuation_result"
input_type_text batch_continuation_type = "batch_continuation_result"

abbrev pub priority_user_message : ℕ
priority_user_message = 300

abbrev pub priority_resume_requested : ℕ
priority_resume_requested = 200

abbrev pub priority_approval_continuation : ℕ
priority_approval_continuation = 200

abbrev pub priority_batch_continuation : ℕ
priority_batch_continuation = 100

pub data InputStatus : Type 0 where
  pending claimed running retry_wait resolved dead : InputStatus

pub data TurnStatus : Type 0 where
  prepared turn_running waiting_interrupt committing committed turn_retry_wait turn_dead :
      TurnStatus

abbrev pub is_terminal_input_status : InputStatus → Bool
is_terminal_input_status resolved = true
is_terminal_input_status dead = true
is_terminal_input_status _ = false

abbrev pub is_terminal_turn_status : TurnStatus → Bool
is_terminal_turn_status waiting_interrupt = true
is_terminal_turn_status committed = true
is_terminal_turn_status turn_dead = true
is_terminal_turn_status _ = false

-- Tests against constants: status == pending || status == retry_wait, and so on.
abbrev pub is_waiting : InputStatus → Bool
is_waiting pending = true
is_waiting retry_wait = true
is_waiting _ = false

abbrev pub is_held : InputStatus → Bool
is_held claimed = true
is_held running = true
is_held _ = false

abbrev pub is_user_message : InputType → Bool
is_user_message user_message_type = true
is_user_message _ = false

-- A text type in Go: any other text is a value too.
pub data ContinuationExecutor : Type 0 where
  runner_resume deterministic : ContinuationExecutor
  other_executor : String → ContinuationExecutor

pub data ContinuationStatus : Type 0 where
  requested continuation_claimed applied failed : ContinuationStatus

abbrev pub input_type_eq : InputType → InputType → Bool
input_type_eq user_message_type user_message_type = true
input_type_eq resume_requested_type resume_requested_type = true
input_type_eq approval_continuation_type approval_continuation_type = true
input_type_eq batch_continuation_type batch_continuation_type = true
input_type_eq _ _ = false

abbrev pub executor_eq : ContinuationExecutor → ContinuationExecutor → Bool
executor_eq runner_resume runner_resume = true
executor_eq deterministic deterministic = true
executor_eq (other_executor a) (other_executor b) = str_eq a b
executor_eq _ _ = false

pub data Error : Type 0 where
  -- A plain validation error, with its text.
  invalid : String → Error
  input_not_found no_input_available lease_held fence_rejected invalid_transition : Error
  turn_not_found continuation_not_found continuation_claimed_err idempotency_conflict : Error
