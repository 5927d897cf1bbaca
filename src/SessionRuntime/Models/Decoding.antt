-- ===== src/SessionRuntime/Models/Decoding.antt =====
-- DecodeInput of internal/aigc/sessionruntime/models.go. An input type is one of the four constants, so
-- the case of an unsupported type does not arise.
use dora_agent.Base.{
  Bool, Codec, Option, Result, Scalar, String, Table, [], false, flag, lookup, none, number, ok,
  or_fail, raw, some, text, true, ℕ, ◌&&◌, ◌>>=◌, ◌∷◌, ◌≡◌,
}
use dora_agent.SessionRuntime.Models.Inputs.{
  SessionInput, approval_continuation, batch_continuation, resume_requested, user_message,
}
use dora_agent.SessionRuntime.Models.Status.{
  Error, InputType, approval_continuation_type, batch_continuation_type, invalid,
  resume_requested_type, user_message_type,
}

-- The type of a struct's field, as far as the inputs have them.
pub data FieldType : Type 0 where
  text_field number_field flag_field raw_field : FieldType

-- json.Unmarshal into a struct whose tags name these fields: the fields that it sets, or an error.
abbrev pub Reader : Type 0
Reader = Table FieldType → String → Option (Table Scalar)

abbrev pub type_of : Scalar → FieldType
type_of (text s) = text_field
type_of (number n) = number_field
type_of (flag b) = flag_field
type_of (raw s) = raw_field

abbrev pub field_type_eq : Option FieldType → FieldType → Bool
field_type_eq (some text_field) text_field = true
field_type_eq (some number_field) number_field = true
field_type_eq (some flag_field) flag_field = true
field_type_eq (some raw_field) raw_field = true
field_type_eq _ _ = false

-- The value of a field, or Go's zero value.
abbrev pub text_of : Option Scalar → String
text_of (some (text s)) = s
text_of _ = ""

abbrev pub number_of : Option Scalar → ℕ
number_of (some (number n)) = n
number_of _ = 0

abbrev pub flag_of : Option Scalar → Bool
flag_of (some (flag b)) = b
flag_of _ = false

abbrev pub raw_of : Option Scalar → String
raw_of (some (raw s)) = s
raw_of _ = ""

unfoldable pub struct_fields : InputType → Table FieldType
struct_fields user_message_type =
    ("input_id", text_field)
    ∷ ("event_id", text_field)
    ∷ ("message_id", text_field)
    ∷ ("context_message_seq", number_field)
    ∷ []
struct_fields resume_requested_type =
    ("input_id", text_field)
    ∷ ("event_id", text_field)
    ∷ ("approval_id", text_field)
    ∷ ("decision_version", number_field)
    ∷ ("mapping_id", text_field)
    ∷ ("mapping_epoch", number_field)
    ∷ ("checkpoint_id", text_field)
    ∷ ("interrupt_id", text_field)
    ∷ ("content", text_field)
    ∷ ("data", raw_field)
    ∷ []
struct_fields approval_continuation_type =
    ("input_id", text_field)
    ∷ ("event_id", text_field)
    ∷ ("approval_id", text_field)
    ∷ ("decision_version", number_field)
    ∷ ("execution_epoch", number_field)
    ∷ ("requested_decision", text_field)
    ∷ ("effective_status", text_field)
    ∷ ("artifact_type", text_field)
    ∷ ("artifact_id", text_field)
    ∷ ("artifact_version", number_field)
    ∷ ("storyboard_id", text_field)
    ∷ ("storyboard_version", number_field)
    ∷ ("command_kind", text_field)
    ∷ ("command_result", raw_field)
    ∷ ("context_message_seq", number_field)
    ∷ []
struct_fields batch_continuation_type =
    ("input_id", text_field)
    ∷ ("event_id", text_field)
    ∷ ("result_version", number_field)
    ∷ ("operation_id", text_field)
    ∷ ("batch_id", text_field)
    ∷ ("stage_status", text_field)
    ∷ ("approval_id", text_field)
    ∷ ("needs_agent_explanation", flag_field)
    ∷ ("context_message_seq", number_field)
    ∷ ("result", raw_field)
    ∷ []

-- The input with these fields.
unfoldable pub struct_of : InputType → Table Scalar → SessionInput
struct_of user_message_type f = user_message (record {
  input_id = text_of (lookup "input_id" f);
  event_id = text_of (lookup "event_id" f);
  message_id = text_of (lookup "message_id" f);
  context_message_seq = number_of (lookup "context_message_seq" f);
})
struct_of resume_requested_type f = resume_requested (record {
  input_id = text_of (lookup "input_id" f);
  event_id = text_of (lookup "event_id" f);
  approval_id = text_of (lookup "approval_id" f);
  decision_version = number_of (lookup "decision_version" f);
  mapping_id = text_of (lookup "mapping_id" f);
  mapping_epoch = number_of (lookup "mapping_epoch" f);
  checkpoint_id = text_of (lookup "checkpoint_id" f);
  interrupt_id = text_of (lookup "interrupt_id" f);
  content = text_of (lookup "content" f);
  data_json = raw_of (lookup "data" f);
})
struct_of approval_continuation_type f = approval_continuation (record {
  input_id = text_of (lookup "input_id" f);
  event_id = text_of (lookup "event_id" f);
  approval_id = text_of (lookup "approval_id" f);
  decision_version = number_of (lookup "decision_version" f);
  execution_epoch = number_of (lookup "execution_epoch" f);
  requested_decision = text_of (lookup "requested_decision" f);
  effective_status = text_of (lookup "effective_status" f);
  artifact_type = text_of (lookup "artifact_type" f);
  artifact_id = text_of (lookup "artifact_id" f);
  artifact_version = number_of (lookup "artifact_version" f);
  storyboard_id = text_of (lookup "storyboard_id" f);
  storyboard_version = number_of (lookup "storyboard_version" f);
  command_kind = text_of (lookup "command_kind" f);
  command_result = raw_of (lookup "command_result" f);
  context_message_seq = number_of (lookup "context_message_seq" f);
})
struct_of batch_continuation_type f = batch_continuation (record {
  input_id = text_of (lookup "input_id" f);
  event_id = text_of (lookup "event_id" f);
  result_version = number_of (lookup "result_version" f);
  operation_id = text_of (lookup "operation_id" f);
  batch_id = text_of (lookup "batch_id" f);
  stage_status = text_of (lookup "stage_status" f);
  approval_id = text_of (lookup "approval_id" f);
  needs_agent_explanation = flag_of (lookup "needs_agent_explanation" f);
  context_message_seq = number_of (lookup "context_message_seq" f);
  result = raw_of (lookup "result" f);
})

unfoldable pub decode_input : Reader → InputType → String → Result Error SessionInput
decode_input unmarshal input_type payload = do
  fields ← or_fail (unmarshal (struct_fields input_type) payload) (invalid "decode session input")
  ok (struct_of input_type fields)

abbrev pub is_unset : Option Scalar → Bool
is_unset none = true
is_unset (some v) = false

-- Whether every field is one of these, of its type, and stands once.
unfoldable pub fits : Table FieldType → Table Scalar → Bool
fits types [] = true
fits types ((k, v) ∷ m) =
    field_type_eq (lookup k types) (type_of v) && is_unset (lookup k m) && fits types m

-- Whether raw JSON among the fields is written without a change.
unfoldable pub raws_copied : (String → Bool) → Table Scalar → Bool
raws_copied copied [] = true
raws_copied copied ((k, raw s) ∷ m) = copied s && raws_copied copied m
raws_copied copied ((k, _) ∷ m) = raws_copied copied m

-- Documented of encoding/json: the members of an object that json.Marshal wrote are read back into
-- the fields that have their names and types. Texts are valid UTF-8.
-- json.Marshal copies raw JSON that is compact and has no character that it escapes; which one is so
-- is a parameter.
pub record ReaderLaws (c : Codec) (unmarshal : Reader) (copied : String → Bool) : Type 0 where
  pub read_back :
      (types : Table FieldType) (fields : Table Scalar) (s : String)
      → c.marshal fields ≡ some s
      → fits types fields ≡ true
      → raws_copied copied fields ≡ true
      → unmarshal types s ≡ some fields
