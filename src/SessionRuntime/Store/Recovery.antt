-- ===== src/SessionRuntime/Store/Recovery.antt =====
-- RecoverExpiredInputs of internal/aigc/sessionruntime/memory_store.go.
use dora_agent.Base.{
  Bool, Option, Result, String, Table, [], add64, if◌then◌else◌, insert, is_empty, lookup, nat_eq,
  none, not, ok, some, str_eq, ℕ, ◌&&◌, ◌>>=◌, ◌∷◌,
}
use dora_agent.SessionRuntime.Models.Records.{Fence, InputRecord, TurnRun}
use dora_agent.SessionRuntime.Models.Status.{
  Error, is_held, is_terminal_turn_status, retry_wait, turn_retry_wait,
}
use dora_agent.SessionRuntime.Store.Fencing.{validate_fence}
use dora_agent.SessionRuntime.Store.State.{Clock, Store, unexpired}

-- Claimed or running in the fence's session, and not by an unexpired claim of this very fence.
unfoldable pub is_lost : Fence → ℕ → InputRecord → Bool
is_lost fence now r =
    str_eq r.session_id fence.session_id
    && is_held r.status
    && not (
        str_eq r.claim_owner fence.owner_id
        && nat_eq r.claim_fence fence.fence_token
        && unexpired r.lease_until now)

unfoldable pub recovered_record : ℕ → InputRecord → InputRecord
recovered_record now r = record r {
  status = retry_wait;
  available_at = now;
  claim_owner = "";
  claim_fence = 0;
  lease_until = none;
  error_code = "claim_recovered";
  error_message = "previous runtime claim expired or was fenced";
  updated_at = now;
}

-- The inputs after the loop: each lost one waits for a retry.
unfoldable pub recovered_inputs : Fence → ℕ → Table InputRecord → Table InputRecord
recovered_inputs fence now [] = []
recovered_inputs fence now ((id, r) ∷ m) =
    (id, if is_lost fence now r then recovered_record now r else r) ∷ recovered_inputs fence now m

-- A turn that a lost input has, and that has not ended, waits for the retry too. Where the row of a
-- turn that turn_by_input names is missing, Go would write a zero row. That case is left alone here:
-- get_or_create_turn alone writes turn_by_input, together with the row, and nothing deletes a row.
unfoldable pub recovered_turn : Option TurnRun → ℕ → String → Table TurnRun → Table TurnRun
recovered_turn none now turn_id turns = turns
recovered_turn (some turn) now turn_id turns =
    if is_terminal_turn_status turn.status
    then turns
    else insert turn_id
        (record turn {
          status = turn_retry_wait;
          error_code = "claim_recovered";
          error_message = "previous runtime claim expired or was fenced";
          updated_at = now;
        })
        turns

unfoldable pub turn_of_input : Option String → ℕ → Table TurnRun → Table TurnRun
unfolding recovered_turn
turn_of_input none now turns = turns
turn_of_input (some turn_id) now turns =
    if is_empty turn_id then turns else recovered_turn (lookup turn_id turns) now turn_id turns

unfoldable pub recovered_turns :
    Fence → ℕ → Table String → Table InputRecord → Table TurnRun → Table TurnRun
unfolding turn_of_input
recovered_turns fence now by_input [] turns = turns
recovered_turns fence now by_input ((id, r) ∷ m) turns =
    recovered_turns fence now by_input m
      (if is_lost fence now r then turn_of_input (lookup id by_input) now turns else turns)

unfoldable pub count_lost : Fence → ℕ → Table InputRecord → ℕ
count_lost fence now [] = 0
count_lost fence now ((id, r) ∷ m) =
    let rest = count_lost fence now m in if is_lost fence now r then add64 rest 1 else rest

unfoldable pub recover_expired_inputs : Fence → Clock → Store → Result Error (Store × ℕ)
recover_expired_inputs fence clock s = do
  lease ← validate_fence fence clock.now s
  ok (
    record s {
      inputs = recovered_inputs fence clock.now s.inputs;
      turns = recovered_turns fence clock.now s.turn_by_input s.inputs s.turns;
    },
    count_lost fence clock.now s.inputs,
  )
