-- ===== src/SessionRuntime/Entry/Tests.antt =====
-- A message of internal/aigc/sessionruntime that is bound to its place in the history and enqueued.
use dora_agent.Base.{arith, err, half, insert, lookup, refl, trim_space, true, ◌≡◌}
use dora_agent.SessionRuntime.Entry.Bound.{bound_row}
use dora_agent.SessionRuntime.Models.Building.{
  bound_input, new_user_message, with_context_message_seq,
}
use dora_agent.SessionRuntime.Models.Inputs.{
  SessionInput, encode_input, input_context_message_seq, input_fields, input_identity, user_message,
  validate_typed_input,
}
use dora_agent.SessionRuntime.Models.Records.{InputRecord}
use dora_agent.SessionRuntime.Models.Status.{invalid}
use dora_agent.SessionRuntime.Scenarios.{plain_codec}
use dora_agent.SessionRuntime.Store.Lane.{
  admit_input, append_input, enqueue_input, requested_record,
}
use dora_agent.SessionRuntime.Store.State.{Clock, input_source_identity, new_store}

abbrev third : SessionInput
third = user_message (new_user_message " m3 " "")

third_bound : SessionInput
unfolding bound_input
third_bound = bound_input third 7

third_row : InputRecord
unfolding input_identity third_bound
third_row = record (requested_record "s1" (input_identity third_bound) "{}" 7) {
  enqueue_seq = 1;
  available_at = 5;
  created_at = 5;
  updated_at = 5;
}

abbrev clock : Clock
clock = record { now = 5; recheck = 5 }

negative_seq_refused :
    with_context_message_seq third half
    ≡ err (invalid "context message sequence cannot be negative")
unfolding with_context_message_seq
negative_seq_refused = refl

bound_row_example :
    (third_row.context_message_seq ≡ 7)
    × (third_row.session_id ≡ "s1")
    × (third_row.input_id ≡ "message:m3")
    × (third_row.source_id ≡ "m3")
    × (third_row.event_id ≡ "message:m3")
unfolding third_row trim_space new_user_message with_context_message_seq enqueue_input encode_input
    admit_input append_input requested_record validate_typed_input input_context_message_seq
    input_source_identity input_fields lookup insert new_store
bound_row_example =
    bound_row plain_codec " s1" third third_bound 7 clock new_store _
      (record { input = third_row; enqueued = true }) (ground arith) refl refl
