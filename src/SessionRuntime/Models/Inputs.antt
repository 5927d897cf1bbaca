-- ===== src/SessionRuntime/Models/Inputs.antt =====
-- The typed inputs of internal/aigc/sessionruntime/models.go: their identity, their validation and
-- their encoding. A pointer to an input is the input; nil is `none`.
use dora_agent.Base.{
  Bool, Codec, List, Option, Result, Scalar, String, [], decimal, err, flag, if◌then◌else◌,
  is_blank, is_empty, lt64, nat_eq, none, not, number, ok, or_fail, pos64, raw, require, some, text,
  trim_space, ℕ, ◌&&◌, ◌&◌, ◌>>=◌, ◌>>◌, ◌||◌, ◌∷◌,
}
use dora_agent.SessionRuntime.Models.Status.{
  Error, InputType, approval_continuation_type, batch_continuation_type, invalid,
  priority_approval_continuation, priority_batch_continuation, priority_resume_requested,
  priority_user_message, resume_requested_type, user_message_type,
}

pub record UserMessage : Type 0 where
  pub input_id : String
  pub event_id : String
  pub message_id : String
  pub context_message_seq : ℕ

pub record ResumeRequested : Type 0 where
  pub input_id : String
  pub event_id : String
  pub approval_id : String
  pub decision_version : ℕ
  pub mapping_id : String
  pub mapping_epoch : ℕ
  pub checkpoint_id : String
  pub interrupt_id : String
  pub content : String
  pub data_json : String

pub record ApprovalContinuationResult : Type 0 where
  pub input_id : String
  pub event_id : String
  pub approval_id : String
  pub decision_version : ℕ
  pub execution_epoch : ℕ
  pub requested_decision : String
  pub effective_status : String
  pub artifact_type : String
  pub artifact_id : String
  pub artifact_version : ℕ
  pub storyboard_id : String
  pub storyboard_version : ℕ
  pub command_kind : String
  pub command_result : String
  pub context_message_seq : ℕ

pub record BatchContinuationResult : Type 0 where
  pub input_id : String
  pub event_id : String
  pub result_version : ℕ
  pub operation_id : String
  pub batch_id : String
  pub stage_status : String
  pub approval_id : String
  pub needs_agent_explanation : Bool
  pub context_message_seq : ℕ
  pub result : String

pub data SessionInput : Type 0 where
  user_message : UserMessage → SessionInput
  resume_requested : ResumeRequested → SessionInput
  approval_continuation : ApprovalContinuationResult → SessionInput
  batch_continuation : BatchContinuationResult → SessionInput

pub record InputIdentity : Type 0 where
  pub input_id : String
  pub event_id : String
  pub input_type : InputType
  pub source_id : String
  pub priority : ℕ

-- fmt.Sprintf("%s:%d", id, version).
abbrev pub versioned : String → ℕ → String
versioned id version = id & ":" & decimal version

unfoldable pub resume_identity : ResumeRequested → InputIdentity
resume_identity v =
    let mapping_id = trim_space v.mapping_id in
    if is_blank v.approval_id
    then record {
      input_id = "checkpoint:" & mapping_id & ":resume:" & decimal v.mapping_epoch;
      event_id = v.event_id;
      input_type = resume_requested_type;
      source_id = versioned mapping_id v.mapping_epoch;
      priority = priority_resume_requested;
    }
    else record {
      input_id = v.input_id;
      event_id = v.event_id;
      input_type = resume_requested_type;
      source_id = versioned v.approval_id v.decision_version;
      priority = priority_resume_requested;
    }

unfoldable pub input_identity : SessionInput → InputIdentity
unfolding resume_identity
input_identity (user_message v) = record {
  input_id = v.input_id;
  event_id = v.event_id;
  input_type = user_message_type;
  source_id = v.message_id;
  priority = priority_user_message;
}
input_identity (resume_requested v) = resume_identity v
input_identity (approval_continuation v) = record {
  input_id = v.input_id;
  event_id = v.event_id;
  input_type = approval_continuation_type;
  source_id = versioned v.approval_id v.decision_version;
  priority = priority_approval_continuation;
}
input_identity (batch_continuation v) = record {
  input_id = v.input_id;
  event_id = v.event_id;
  input_type = batch_continuation_type;
  source_id = versioned v.batch_id v.result_version;
  priority = priority_batch_continuation;
}

unfoldable pub input_context_message_seq : SessionInput → ℕ
input_context_message_seq (user_message v) = v.context_message_seq
input_context_message_seq (resume_requested v) = 0
input_context_message_seq (approval_continuation v) = v.context_message_seq
input_context_message_seq (batch_continuation v) = v.context_message_seq

abbrev pub negative : ℕ → Bool
negative n = lt64 n 0

module _ (c : Codec) where
  unfoldable pub validate_approval_resume : ResumeRequested → Result Error (Unit {0})
  validate_approval_resume v = do
    require (pos64 v.decision_version)
        (invalid "approval id and positive decision version are required")
    require
        (is_blank v.checkpoint_id
          && is_blank v.interrupt_id
          && is_empty v.content
          && is_empty v.data_json)
        (invalid "approval resume cannot include generic interrupt fields")

  unfoldable pub validate_generic_resume : ResumeRequested → Result Error (Unit {0})
  validate_generic_resume v = do
    require (nat_eq v.decision_version 0)
        (invalid "generic interrupt resume cannot include approval fields")
    require (not (is_blank v.checkpoint_id) && not (is_blank v.interrupt_id))
        (invalid "checkpoint id and interrupt id are required")
    require (c.valid v.data_json) (invalid "generic interrupt resume data must be valid JSON")

  unfoldable pub validate_resume : ResumeRequested → Result Error (Unit {0})
  unfolding validate_approval_resume validate_generic_resume
  validate_resume v = do
    require (not (is_blank v.mapping_id) && pos64 v.mapping_epoch)
        (invalid "mapping id and positive mapping epoch are required")
    if not (is_blank v.approval_id) then validate_approval_resume v else validate_generic_resume v

  unfoldable pub validate_approval : ApprovalContinuationResult → Result Error (Unit {0})
  validate_approval v = do
    require (not (is_blank v.approval_id) && pos64 v.decision_version && pos64 v.execution_epoch) (
        invalid "approval id, positive decision version, and positive execution epoch are required")
    require (not (is_blank v.requested_decision) && not (is_blank v.effective_status))
        (invalid "requested decision and effective status are required")
    require (not (negative v.context_message_seq))
        (invalid "context message sequence cannot be negative")
    require (is_empty v.command_result || c.valid v.command_result)
        (invalid "approval command result must be valid JSON")

  unfoldable pub validate_typed_input : SessionInput → Result Error (Unit {0})
  unfolding validate_resume validate_approval
  validate_typed_input (user_message v) = do
    require (not (is_blank v.message_id)) (invalid "message id is required")
    require (not (negative v.context_message_seq))
        (invalid "context message sequence cannot be negative")
  validate_typed_input (resume_requested v) = validate_resume v
  validate_typed_input (batch_continuation v) = do
    require (not (is_blank v.batch_id) && pos64 v.result_version)
        (invalid "batch id and positive result version are required")
    require (not (negative v.context_message_seq))
        (invalid "context message sequence cannot be negative")
  validate_typed_input (approval_continuation v) = validate_approval v

-- The fields that the struct tags of an input name; `omitempty` leaves out an empty one.
abbrev pub opt_text : String → String → List (String × Scalar) → List (String × Scalar)
opt_text k s rest = if is_empty s then rest else (k, text s) ∷ rest

abbrev pub opt_number : String → ℕ → List (String × Scalar) → List (String × Scalar)
opt_number k n rest = if nat_eq n 0 then rest else (k, number n) ∷ rest

abbrev pub opt_raw : String → String → List (String × Scalar) → List (String × Scalar)
opt_raw k s rest = if is_empty s then rest else (k, raw s) ∷ rest

unfoldable pub input_fields : SessionInput → List (String × Scalar)
input_fields (user_message v) =
    ("input_id", text v.input_id)
    ∷ ("event_id", text v.event_id)
    ∷ ("message_id", text v.message_id)
    ∷ opt_number "context_message_seq" v.context_message_seq []
input_fields (resume_requested v) =
    ("input_id", text v.input_id)
    ∷ ("event_id", text v.event_id)
    ∷ ("approval_id", text v.approval_id)
    ∷ ("decision_version", number v.decision_version)
    ∷ ("mapping_id", text v.mapping_id)
    ∷ ("mapping_epoch", number v.mapping_epoch)
    ∷ opt_text "checkpoint_id" v.checkpoint_id (
        opt_text "interrupt_id" v.interrupt_id
          (opt_text "content" v.content (opt_raw "data" v.data_json [])))
input_fields (approval_continuation v) =
    ("input_id", text v.input_id)
    ∷ ("event_id", text v.event_id)
    ∷ ("approval_id", text v.approval_id)
    ∷ ("decision_version", number v.decision_version)
    ∷ ("execution_epoch", number v.execution_epoch)
    ∷ ("requested_decision", text v.requested_decision)
    ∷ ("effective_status", text v.effective_status)
    ∷ opt_text "artifact_type" v.artifact_type (
        opt_text "artifact_id" v.artifact_id (
          opt_number "artifact_version" v.artifact_version (
            opt_text "storyboard_id" v.storyboard_id (
              opt_number "storyboard_version" v.storyboard_version (
                opt_text "command_kind" v.command_kind (
                  opt_raw "command_result" v.command_result
                    (opt_number "context_message_seq" v.context_message_seq [])))))))
input_fields (batch_continuation v) =
    ("input_id", text v.input_id)
    ∷ ("event_id", text v.event_id)
    ∷ ("result_version", number v.result_version)
    ∷ ("operation_id", text v.operation_id)
    ∷ ("batch_id", text v.batch_id)
    ∷ ("stage_status", text v.stage_status)
    ∷ opt_text "approval_id" v.approval_id (
        ("needs_agent_explanation", flag v.needs_agent_explanation)
        ∷ opt_number "context_message_seq" v.context_message_seq (opt_raw "result" v.result []))

module _ (c : Codec) where
  unfoldable pub encode_input : Option SessionInput → Result Error (InputIdentity × String)
  encode_input none = err (invalid "session input is required")
  encode_input (some input) = do
    let given = input_identity input
    let identity : InputIdentity = record given {
      input_id = trim_space given.input_id;
      event_id = trim_space given.event_id;
      source_id = trim_space given.source_id;
    }
    require
        (not (is_empty identity.input_id)
          && not (is_empty identity.event_id)
          && not (is_empty identity.source_id))
        (invalid "input id, event id, and source id are required")
    require (pos64 identity.priority) (invalid "input priority must be positive")
    validate_typed_input c input
    written ← or_fail (c.marshal (input_fields input)) (invalid "marshal session input")
    ok (identity, written)
