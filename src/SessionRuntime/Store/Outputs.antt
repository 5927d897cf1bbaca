-- ===== src/SessionRuntime/Store/Outputs.antt =====
-- SaveTurnCheckpoint and SaveTurnOutput of internal/aigc/sessionruntime/memory_store.go.
use dora_agent.Base.{
  Codec, Result, String, err, if◌then◌else◌, is_empty, lookup, not, ok, or_fail, require, str_eq,
  trim_space, ℕ, ◌&&◌, ◌>>=◌, ◌>>◌, ◌||◌,
}
use dora_agent.SessionRuntime.Models.Records.{Fence, TurnRun}
use dora_agent.SessionRuntime.Models.Status.{
  Error, fence_rejected, idempotency_conflict, invalid, invalid_transition, turn_not_found,
}
use dora_agent.SessionRuntime.Store.Fencing.{claimed_input, turn_and_claimed_input, validate_fence}
use dora_agent.SessionRuntime.Store.State.{Clock, Store, json_equal, put_turn}
use dora_agent.SessionRuntime.Store.Turns.{can_write}

abbrev pub checkpoint_turn : String → ℕ → TurnRun → TurnRun
checkpoint_turn checkpoint_id now turn = record turn {
  runner_checkpoint_id = checkpoint_id;
  updated_at = now;
}

abbrev pub output_turn : String → String → ℕ → TurnRun → TurnRun
output_turn payload digest now turn = record turn {
  output_payload = payload;
  output_digest = digest;
  updated_at = now;
}

unfoldable pub save_turn_checkpoint :
    Fence → String → String → Clock → Store → Result Error (Store × TurnRun)
save_turn_checkpoint fence turn_id checkpoint clock s = do
  let checkpoint_id = trim_space checkpoint
  require (not (is_empty checkpoint_id)) (invalid "runner checkpoint id is required")
  lease ← validate_fence fence clock.now s
  found ← turn_and_claimed_input fence turn_id clock.recheck s
  let turn = found.0
  require (can_write turn.status) invalid_transition
  let turn' = checkpoint_turn checkpoint_id clock.now turn
  ok (put_turn turn' s, turn')

module _ (c : Codec) where
  -- The first output is kept: the same one again is a replay, another one a conflict.
  unfoldable pub write_output :
      TurnRun → String → String → ℕ → Store → Result Error (Store × TurnRun)
  write_output turn payload digest now s =
      if not (is_empty turn.output_payload)
      then (if not (str_eq turn.output_digest digest)
            || not (json_equal c turn.output_payload payload)
          then err idempotency_conflict
          else ok (s, turn))
      else ok
          (put_turn (output_turn payload digest now turn) s, output_turn payload digest now turn)

  unfoldable pub save_turn_output :
      Fence → String → String → String → Clock → Store → Result Error (Store × TurnRun)
  unfolding write_output
  save_turn_output fence turn_id payload digest clock s = do
    require (not (is_empty payload) && c.valid payload)
        (invalid "turn output payload must be non-empty valid JSON")
    lease ← validate_fence fence clock.now s
    turn ← or_fail (lookup (trim_space turn_id) s.turns) turn_not_found
    require (str_eq turn.session_id fence.session_id) fence_rejected
    require (can_write turn.status) invalid_transition
    input ← claimed_input fence turn.input_id clock.recheck s
    write_output turn payload (trim_space digest) clock.now s
