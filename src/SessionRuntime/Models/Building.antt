-- ===== src/SessionRuntime/Models/Building.antt =====
-- How internal/aigc/sessionruntime/models.go builds the typed inputs and binds them to a place in the
-- chat history. A pointer to an input is the input. NewResumeRequested is in Approval.Outboxes.
use dora_agent.Base.{
  Codec, Result, String, decimal, false, if◌then◌else◌, is_blank, not, ok, refl, require,
  trim_space, ℕ, ◌&◌, ◌>>◌, ◌≡◌,
}
use dora_agent.SessionRuntime.Models.Inputs.{
  ApprovalContinuationResult, BatchContinuationResult, ResumeRequested, SessionInput, UserMessage,
  approval_continuation, batch_continuation, input_context_message_seq, input_identity, negative,
  resume_requested, user_message, validate_approval, validate_typed_input,
}
use dora_agent.SessionRuntime.Models.Status.{Error, invalid}

-- The event id that a constructor is given, or the input id where it is blank.
abbrev event_or_input : String → String → String
event_or_input event_id input_id = if is_blank event_id then input_id else event_id

unfoldable pub new_user_message : String → String → UserMessage
new_user_message message_id event_id =
    let input_id = "message:" & trim_space message_id in
    record {
      input_id = input_id;
      event_id = event_or_input event_id input_id;
      message_id = trim_space message_id;
      context_message_seq = 0;
    }

unfoldable pub new_approval_continuation_result :
    String → ℕ → ℕ → String → ApprovalContinuationResult
new_approval_continuation_result approval_id decision_version execution_epoch event_id =
    let input_id =
      "approval:" & trim_space approval_id & ":continuation-result:" & decimal decision_version in
    record {
      input_id = input_id;
      event_id = event_or_input event_id input_id;
      approval_id = trim_space approval_id;
      decision_version = decision_version;
      execution_epoch = execution_epoch;
      requested_decision = "";
      effective_status = "";
      artifact_type = "";
      artifact_id = "";
      artifact_version = 0;
      storyboard_id = "";
      storyboard_version = 0;
      command_kind = "";
      command_result = "";
      context_message_seq = 0;
    }

unfoldable pub new_interrupt_resume_requested :
    String → ℕ → String → String → String → String → String → ResumeRequested
new_interrupt_resume_requested mapping_id epoch checkpoint_id interrupt_id content data_json
      event_id =
    let input_id = "checkpoint:" & trim_space mapping_id & ":resume:" & decimal epoch in
    record {
      input_id = input_id;
      event_id = event_or_input event_id input_id;
      approval_id = "";
      decision_version = 0;
      mapping_id = trim_space mapping_id;
      mapping_epoch = epoch;
      checkpoint_id = trim_space checkpoint_id;
      interrupt_id = trim_space interrupt_id;
      content = content;
      data_json = data_json;
    }

unfoldable pub new_batch_continuation_result : String → ℕ → String → BatchContinuationResult
new_batch_continuation_result batch_id result_version event_id =
    let input_id = "batch:" & trim_space batch_id & ":continuation:" & decimal result_version in
    record {
      input_id = input_id;
      event_id = event_or_input event_id input_id;
      result_version = result_version;
      operation_id = "";
      batch_id = trim_space batch_id;
      stage_status = "";
      approval_id = "";
      needs_agent_explanation = false;
      context_message_seq = 0;
      result = "";
    }

-- The input with the last message that its turn may read.
unfoldable pub bound_input : SessionInput → ℕ → SessionInput
bound_input (user_message v) seq = user_message (record v { context_message_seq = seq })
bound_input (resume_requested v) seq = resume_requested v
bound_input (approval_continuation v) seq =
    approval_continuation (record v { context_message_seq = seq })
bound_input (batch_continuation v) seq = batch_continuation (record v { context_message_seq = seq })

unfoldable pub with_context_message_seq : SessionInput → ℕ → Result Error SessionInput
with_context_message_seq input seq = do
  require (not (negative seq)) (invalid "context message sequence cannot be negative")
  ok (bound_input input seq)

pub bound_identity :
    (input : SessionInput) (seq : ℕ) → input_identity (bound_input input seq) ≡ input_identity input
unfolding input_identity bound_input
bound_identity (user_message v) seq = refl
bound_identity (resume_requested v) seq = refl
bound_identity (approval_continuation v) seq = refl
bound_identity (batch_continuation v) seq = refl

pub bound_validation :
    (c : Codec) (input : SessionInput) (seq : ℕ)
    → negative seq ≡ false
    → negative (input_context_message_seq input) ≡ false
    → validate_typed_input c (bound_input input seq) ≡ validate_typed_input c input
unfolding validate_typed_input validate_approval bound_input input_context_message_seq
bound_validation c (user_message v) seq h g = rw (h, g) refl
bound_validation c (resume_requested v) seq h g = refl
bound_validation c (approval_continuation v) seq h g = rw (h, g) refl
bound_validation c (batch_continuation v) seq h g = rw (h, g) refl
