-- ===== src/SessionRuntime/Store/Lane.antt =====
-- EnqueueInput, MarkInputRunning, RetryInput, ResolveInput and DeadInput of
-- internal/aigc/sessionruntime/memory_store.go: how an input enters its session's lane and leaves it.
use mathlib.Core.Option
use dora_agent.Base.{
  Codec, Option, Result, String, add64, err, false, if◌then◌else◌, insert, is_empty, lookup, none,
  not, number_or_zero, ok, pos64, require, some, trim_space, true, ℕ, ◌>>=◌, ◌>>◌,
}
use dora_agent.SessionRuntime.Models.Inputs.{
  InputIdentity, SessionInput, encode_input, input_context_message_seq,
}
use dora_agent.SessionRuntime.Models.Records.{EnqueueResult, Failure, Fence, InputRecord}
use dora_agent.SessionRuntime.Models.Status.{
  Error, dead, idempotency_conflict, invalid, pending, resolved, retry_wait, running,
}
use dora_agent.SessionRuntime.Store.Fencing.{claimed_input, validate_fence}
use dora_agent.SessionRuntime.Store.State.{
  Clock, Store, capped_lease_until, input_source_identity, not_before, put_input,
  record_terminal_failure, same_input,
}

-- The record that EnqueueInput compares with what stands in the store.
unfoldable pub requested_record : String → InputIdentity → String → ℕ → InputRecord
requested_record session_id identity payload context_seq = record {
  input_id = identity.input_id;
  session_id = session_id;
  input_type = identity.input_type;
  source_id = identity.source_id;
  event_id = identity.event_id;
  payload = payload;
  priority = identity.priority;
  enqueue_seq = 0;
  context_message_seq = context_seq;
  status = pending;
  turn_id = "";
  claim_owner = "";
  claim_fence = 0;
  lease_until = none;
  attempts = 0;
  available_at = 0;
  error_code = "";
  error_message = "";
  created_at = 0;
  updated_at = 0;
  resolved_at = none;
}

-- The rows that a claimed input becomes: running, retried, resolved, dead.
abbrev pub running_record : ℕ → ℕ → InputRecord → InputRecord
running_record until now input = record input {
  status = running;
  lease_until = some until;
  error_code = "";
  error_message = "";
  updated_at = now;
}

abbrev pub retried_record : ℕ → String → String → ℕ → InputRecord → InputRecord
retried_record available_at code message now input = record input {
  status = retry_wait;
  available_at = not_before available_at now;
  claim_owner = "";
  claim_fence = 0;
  lease_until = none;
  error_code = code;
  error_message = message;
  updated_at = now;
}

abbrev pub finished_record : ℕ → InputRecord → InputRecord
finished_record now input = record input {
  status = resolved;
  claim_owner = "";
  claim_fence = 0;
  lease_until = none;
  error_code = "";
  error_message = "";
  resolved_at = some now;
  updated_at = now;
}

abbrev pub killed_record : String → String → ℕ → InputRecord → InputRecord
killed_record code message now input = record input {
  status = dead;
  claim_owner = "";
  claim_fence = 0;
  lease_until = none;
  error_code = code;
  error_message = message;
  updated_at = now;
}

-- A new input gets the next number of its session.
unfoldable pub append_input : String → InputRecord → ℕ → Store → Store × EnqueueResult
append_input source_key wanted now s =
    let seq = add64 (number_or_zero (lookup wanted.session_id s.input_counters)) 1 in
    let input : InputRecord = record wanted {
      enqueue_seq = seq;
      status = pending;
      available_at = now;
      created_at = now;
      updated_at = now;
    } in
    (
      record s {
        input_counters = insert wanted.session_id seq s.input_counters;
        inputs = insert input.input_id input s.inputs;
        input_sources = insert source_key input.input_id s.input_sources;
      },
      record { input = input; enqueued = true },
    )

module _ (c : Codec) where
  -- A known input is returned if it is the same one.
  unfoldable pub replay_input :
      InputRecord → InputRecord → Store → Result Error (Store × EnqueueResult)
  replay_input existing wanted s =
      if same_input c existing wanted
      then ok (s, record { input = existing; enqueued = false })
      else err idempotency_conflict

  -- A source that names an input with no row reads Go's zero record, which is not the same.
  unfoldable pub replay_source :
      Option InputRecord → InputRecord → Store → Result Error (Store × EnqueueResult)
  unfolding replay_input
  replay_source none wanted s = err idempotency_conflict
  replay_source (some existing) wanted s = replay_input existing wanted s

  unfoldable pub admit_input : InputRecord → ℕ → Store → Result Error (Store × EnqueueResult)
  unfolding replay_input replay_source append_input
  admit_input wanted now s =
      let source_key = input_source_identity wanted.session_id wanted.input_type wanted.source_id in
      elim (lookup wanted.input_id s.inputs) [
        | some existing ↦ replay_input existing wanted s
        | none ↦ elim (lookup source_key s.input_sources) [
          | some existing_id ↦ replay_source (lookup existing_id s.inputs) wanted s
          | none ↦ ok (append_input source_key wanted now s)
        ]
      ]

  unfoldable pub enqueue_input :
      String → Option SessionInput → Clock → Store → Result Error (Store × EnqueueResult)
  enqueue_input session input clock s = do
    let session_id = trim_space session
    require (not (is_empty session_id)) (invalid "session id is required")
    encoded ← encode_input c input
    admit_input
        (requested_record session_id encoded.0 encoded.1
          (number_or_zero (Option.map input_context_message_seq input)))
        clock.now s

-- MarkInputRunning is transitionInput to running with no failure.
unfoldable pub mark_input_running :
    Fence → String → ℕ → Clock → Store → Result Error (Store × InputRecord)
mark_input_running fence input_id ttl clock s = do
  require (pos64 ttl) (invalid "input lease ttl must be positive")
  lease ← validate_fence fence clock.now s
  input ← claimed_input fence input_id clock.recheck s
  let until = capped_lease_until clock.now ttl lease.lease_until
  let input' = running_record until clock.now input
  ok (put_input input' s, input')

unfoldable pub retry_input :
    Fence → String → ℕ → Failure → Clock → Store → Result Error (Store × InputRecord)
retry_input fence input_id available_at failure clock s = do
  lease ← validate_fence fence clock.now s
  input ← claimed_input fence input_id clock.recheck s
  let input' =
      retried_record available_at (trim_space failure.code) (trim_space failure.message) clock.now
        input
  ok (put_input input' s, input')

unfoldable pub resolve_input : Fence → String → Clock → Store → Result Error (Store × InputRecord)
resolve_input fence input_id clock s = do
  lease ← validate_fence fence clock.now s
  input ← claimed_input fence input_id clock.recheck s
  let input' = finished_record clock.now input
  ok (put_input input' s, input')

module _ (c : Codec) where
  unfoldable pub dead_input :
      Fence → String → Failure → Clock → Store → Result Error (Store × InputRecord)
  dead_input fence input_id failure clock s = do
    lease ← validate_fence fence clock.now s
    input ← claimed_input fence input_id clock.recheck s
    let input' =
        killed_record (trim_space failure.code) (trim_space failure.message) clock.now input
    ok (put_input input' (record_terminal_failure c input' input.turn_id s), input')
