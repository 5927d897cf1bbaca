-- ===== src/SessionRuntime/Store/Turns.antt =====
-- GetOrCreateTurn, BeginTurn and the freezing of a turn's context, of
-- internal/aigc/sessionruntime/memory_store.go.
use dora_agent.Base.{
  Bool, Codec, Result, String, Table, [], err, false, if◌then◌else◌, insert, is_empty, lookup, lt64,
  none, not, ok, or_fail, pos64, require, some, str_eq, trim_space, true, zero_byte, ℕ, ◌&&◌, ◌&◌,
  ◌>>=◌, ◌>>◌, ◌∷◌,
}
use dora_agent.SessionRuntime.Models.Records.{Fence, InputRecord, TurnRun, TurnSpec}
use dora_agent.SessionRuntime.Models.Status.{
  Error, TurnStatus, idempotency_conflict, invalid, invalid_transition, is_terminal_input_status,
  is_user_message, prepared, running, turn_not_found, turn_retry_wait, turn_running,
}
use dora_agent.SessionRuntime.Store.Fencing.{claimed_input, turn_and_claimed_input, validate_fence}
use dora_agent.SessionRuntime.Store.State.{Clock, Store, put_input, put_turn, text_or_empty}

-- StableTurnID and StableRunnerRunID of models.go.
unfoldable pub stable_turn_id : Codec → String → String → String
stable_turn_id c session_id input_id =
    "turn_" & c.sum_hex 16 (trim_space session_id & zero_byte & trim_space input_id)

unfoldable pub stable_runner_run_id : Codec → String → String → String
stable_runner_run_id c session_id input_id =
    "run_"
    & c.sum_hex 16 ("runner" & zero_byte & trim_space session_id & zero_byte & trim_space input_id)

abbrev pub or_default : String → String → String
or_default s d = if is_empty s then d else s

unfoldable pub prepared_turn : Codec → Fence → TurnSpec → String → ℕ → InputRecord → TurnRun
unfolding stable_runner_run_id
prepared_turn c fence spec turn_id now input = record {
  turn_id = turn_id;
  input_id = input.input_id;
  session_id = input.session_id;
  runner_run_id =
      or_default (trim_space spec.runner_run_id)
        (stable_runner_run_id c input.session_id input.input_id);
  parent_turn_id = trim_space spec.parent_turn_id;
  claim_fence = fence.fence_token;
  kind = input.input_type;
  status = prepared;
  runner_checkpoint_id = trim_space spec.runner_checkpoint_id;
  attempt = input.attempts;
  context_message_seq = input.context_message_seq;
  context_seq_frozen = is_user_message input.input_type && pos64 input.context_message_seq;
  output_payload = "";
  output_digest = "";
  error_code = "";
  error_message = "";
  created_at = now;
  updated_at = now;
  committed_at = none;
}

-- An index entry always has its turn; a missing one, which Go would answer with a zero row, is an
-- error here.
unfoldable pub known_turn : String → Store → Result Error (Store × (TurnRun × Bool))
known_turn turn_id s = do
  turn ← or_fail (lookup turn_id s.turns) turn_not_found
  ok (s, (turn, false))

-- The input of a new turn.
abbrev pub turned_record : String → ℕ → InputRecord → InputRecord
turned_record turn_id now input = record input { turn_id = turn_id; updated_at = now }

module _ (c : Codec) where
  -- A turn id that another turn has is a conflict.
  unfoldable pub create_turn :
      Fence → TurnSpec → InputRecord → ℕ → Store → Result Error (Store × (TurnRun × Bool))
  create_turn fence spec input now s =
      let turn_id =
        or_default (trim_space spec.turn_id) (stable_turn_id c input.session_id input.input_id) in
      let turn = prepared_turn c fence spec turn_id now input in
      let input' = turned_record turn_id now input in
      elim (lookup turn_id s.turns) [
        | some existing ↦ err idempotency_conflict
        | none ↦ ok (
          record s {
            inputs = insert input.input_id input' s.inputs;
            turns = insert turn_id turn s.turns;
            turn_by_input = insert input.input_id turn_id s.turn_by_input;
          },
          (turn, true),
        )
      ]

  unfoldable pub get_or_create_turn :
      Fence → String → TurnSpec → Clock → Store → Result Error (Store × (TurnRun × Bool))
  unfolding create_turn known_turn
  get_or_create_turn fence input_id spec clock s = do
    lease ← validate_fence fence clock.now s
    input ← claimed_input fence input_id clock.recheck s
    let turn_id = text_or_empty (lookup input.input_id s.turn_by_input)
    if is_empty turn_id then create_turn fence spec input clock.now s else known_turn turn_id s

-- The statuses from which a turn begins: prepared, retry_wait and running.
abbrev pub can_begin : TurnStatus → Bool
can_begin prepared = true
can_begin turn_retry_wait = true
can_begin turn_running = true
can_begin _ = false

-- running and retry_wait: context, checkpoint and output may be written.
abbrev pub can_write : TurnStatus → Bool
can_write turn_running = true
can_write turn_retry_wait = true
can_write _ = false

abbrev pub begun_turn : Fence → InputRecord → ℕ → TurnRun → TurnRun
begun_turn fence input now turn = record turn {
  status = turn_running;
  claim_fence = fence.fence_token;
  attempt = input.attempts;
  error_code = "";
  error_message = "";
  updated_at = now;
}

abbrev pub begun_record : ℕ → InputRecord → InputRecord
begun_record now input = record input { status = running; updated_at = now }

unfoldable pub begin_turn : Fence → String → Clock → Store → Result Error (Store × TurnRun)
begin_turn fence turn_id clock s = do
  lease ← validate_fence fence clock.now s
  found ← turn_and_claimed_input fence turn_id clock.recheck s
  let turn = found.0
  let input = found.1
  require (can_begin turn.status) invalid_transition
  let turn' = begun_turn fence input clock.now turn
  let input' = begun_record clock.now input
  ok (put_input input' (put_turn turn' s), turn')

abbrev pub context_turn : ℕ → ℕ → TurnRun → TurnRun
context_turn through_seq now turn = record turn {
  context_message_seq = through_seq;
  context_seq_frozen = true;
  updated_at = now;
}

-- A frozen context is kept; else `through_seq` is written.
unfoldable pub freeze_context : TurnRun → ℕ → ℕ → Store → Result Error (Store × TurnRun)
freeze_context turn through_seq now s =
    if turn.context_seq_frozen
    then ok (s, turn)
    else if can_write turn.status
    then ok (put_turn (context_turn through_seq now turn) s, context_turn through_seq now turn)
    else err invalid_transition

unfoldable pub freeze_turn_context_message_seq :
    Fence → String → ℕ → Clock → Store → Result Error (Store × TurnRun)
unfolding freeze_context
freeze_turn_context_message_seq fence turn_id through_seq clock s = do
  require (not (lt64 through_seq 0)) (invalid "context message sequence cannot be negative")
  lease ← validate_fence fence clock.now s
  found ← turn_and_claimed_input fence turn_id clock.recheck s
  freeze_context found.0 through_seq clock.now s

-- The greatest context sequence of the session's user messages that have ended, from 0.
unfoldable pub terminal_user_seq : String → ℕ → Table InputRecord → ℕ
terminal_user_seq session_id best [] = best
terminal_user_seq session_id best ((k, r) ∷ m) =
    terminal_user_seq session_id
      (if str_eq r.session_id session_id
          && is_user_message r.input_type
          && is_terminal_input_status r.status
          && lt64 best r.context_message_seq
        then r.context_message_seq
        else best)
      m

unfoldable pub freeze_turn_context_from_inputs :
    Fence → String → Clock → Store → Result Error (Store × TurnRun)
unfolding freeze_context
freeze_turn_context_from_inputs fence turn_id clock s = do
  lease ← validate_fence fence clock.now s
  found ← turn_and_claimed_input fence turn_id clock.recheck s
  freeze_context found.0 (terminal_user_seq fence.session_id 0 s.inputs) clock.now s
