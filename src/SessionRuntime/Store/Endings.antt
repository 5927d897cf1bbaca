-- ===== src/SessionRuntime/Store/Endings.antt =====
-- How a turn leaves its run, in internal/aigc/sessionruntime/memory_store.go: WaitForInterrupt,
-- RetryTurnAt, CommitTurn and DeadTurn.
use dora_agent.Base.{
  Bool, Codec, Option, Result, String, err, false, if◌then◌else◌, is_empty, lookup, none, not, ok,
  or_fail, require, some, str_eq, trim_space, true, ℕ, ◌&&◌, ◌>>=◌, ◌>>◌, ◌||◌,
}
use dora_agent.SessionRuntime.Models.Records.{Failure, Fence, InputRecord, TurnRun}
use dora_agent.SessionRuntime.Models.Status.{
  Error, TurnStatus, committed, committing, idempotency_conflict, invalid, invalid_transition,
  prepared, resolved, turn_dead, turn_not_found, turn_retry_wait, turn_running, waiting_interrupt,
}
use dora_agent.SessionRuntime.Store.Fencing.{claimed_input, turn_and_claimed_input, validate_fence}
use dora_agent.SessionRuntime.Store.Lane.{killed_record, retried_record}
use dora_agent.SessionRuntime.Store.State.{
  Clock, Store, put_input, put_turn, record_terminal_failure,
}

-- The input of a turn that has ended: resolved, with no claim.
abbrev pub resolved_record : ℕ → InputRecord → InputRecord
resolved_record now input = record input {
  status = resolved;
  claim_owner = "";
  claim_fence = 0;
  lease_until = none;
  resolved_at = some now;
  updated_at = now;
}

abbrev pub is_waiting_interrupt : TurnStatus → Bool
is_waiting_interrupt waiting_interrupt = true
is_waiting_interrupt _ = false

abbrev pub is_running_turn : TurnStatus → Bool
is_running_turn turn_running = true
is_running_turn _ = false

abbrev pub is_committed : TurnStatus → Bool
is_committed committed = true
is_committed _ = false

abbrev pub is_dead_turn : TurnStatus → Bool
is_dead_turn turn_dead = true
is_dead_turn _ = false

-- prepared, running and retry_wait.
abbrev pub can_retry : TurnStatus → Bool
can_retry prepared = true
can_retry turn_running = true
can_retry turn_retry_wait = true
can_retry _ = false

-- running and committing.
abbrev pub can_commit : TurnStatus → Bool
can_commit turn_running = true
can_commit committing = true
can_commit _ = false

abbrev pub suspended_turn : String → ℕ → TurnRun → TurnRun
suspended_turn checkpoint_id now turn = record turn {
  status = waiting_interrupt;
  runner_checkpoint_id = checkpoint_id;
  updated_at = now;
}

abbrev pub retried_turn : String → String → ℕ → TurnRun → TurnRun
retried_turn code message now turn = record turn {
  status = turn_retry_wait;
  error_code = code;
  error_message = message;
  updated_at = now;
}

abbrev pub committed_turn : String → ℕ → TurnRun → TurnRun
committed_turn digest now turn = record turn {
  status = committed;
  output_digest = digest;
  committed_at = some now;
  updated_at = now;
}

abbrev pub killed_turn : String → String → ℕ → TurnRun → TurnRun
killed_turn code message now turn = record turn {
  status = turn_dead;
  error_code = code;
  error_message = message;
  updated_at = now;
}

unfoldable pub suspend_turn :
    Fence → TurnRun → String → Clock → Store → Result Error (Store × TurnRun)
suspend_turn fence turn checkpoint_id clock s = do
  input ← claimed_input fence turn.input_id clock.recheck s
  require (is_running_turn turn.status) invalid_transition
  let turn' = suspended_turn checkpoint_id clock.now turn
  ok (put_input (resolved_record clock.now input) (put_turn turn' s), turn')

-- A turn that waits at this very checkpoint is returned, at another one it is a conflict.
unfoldable pub wait_for_interrupt :
    Fence → String → String → Clock → Store → Result Error (Store × TurnRun)
unfolding suspend_turn
wait_for_interrupt fence turn_id checkpoint clock s = do
  let checkpoint_id = trim_space checkpoint
  require (not (is_empty checkpoint_id)) (invalid "runner checkpoint id is required")
  lease ← validate_fence fence clock.now s
  turn ← or_fail (lookup (trim_space turn_id) s.turns) turn_not_found
  if is_waiting_interrupt turn.status
      then (if str_eq turn.runner_checkpoint_id checkpoint_id
          then ok (s, turn)
          else err idempotency_conflict)
      else suspend_turn fence turn checkpoint_id clock s

unfoldable pub retry_turn_at :
    Fence → String → ℕ → Failure → Clock → Store → Result Error (Store × TurnRun)
retry_turn_at fence turn_id available_at failure clock s = do
  lease ← validate_fence fence clock.now s
  found ← turn_and_claimed_input fence turn_id clock.recheck s
  let turn = found.0
  let input = found.1
  require (can_retry turn.status) invalid_transition
  let code = trim_space failure.code
  let message = trim_space failure.message
  let turn' = retried_turn code message clock.now turn
  let input' = retried_record available_at code message clock.now input
  ok (put_input input' (put_turn turn' s), turn')

-- RetryTurn is RetryTurnAt at Go's zero time.
unfoldable pub retry_turn :
    Fence → String → Failure → Clock → Store → Result Error (Store × TurnRun)
retry_turn fence turn_id failure clock s = retry_turn_at fence turn_id 0 failure clock s

unfoldable pub finish_commit :
    Fence → TurnRun → String → Clock → Store → Result Error (Store × TurnRun)
finish_commit fence turn digest clock s = do
  require (is_empty turn.output_payload || str_eq turn.output_digest digest) idempotency_conflict
  input ← claimed_input fence turn.input_id clock.recheck s
  require (can_commit turn.status) invalid_transition
  let turn' = committed_turn digest clock.now turn
  ok (put_input (resolved_record clock.now input) (put_turn turn' s), turn')

unfoldable pub commit_turn :
    Fence → String → String → Clock → Store → Result Error (Store × TurnRun)
unfolding finish_commit
commit_turn fence turn_id output_digest clock s = do
  let digest = trim_space output_digest
  lease ← validate_fence fence clock.now s
  turn ← or_fail (lookup (trim_space turn_id) s.turns) turn_not_found
  if is_committed turn.status
      then (if str_eq turn.output_digest digest then ok (s, turn) else err idempotency_conflict)
      else finish_commit fence turn digest clock s

module _ (c : Codec) where
  -- A dead turn makes sure of its event, if its input is there.
  unfoldable pub ensure_failure_event : Option InputRecord → String → Store → Store
  ensure_failure_event none turn_id s = s
  ensure_failure_event (some input) turn_id s = record_terminal_failure c input turn_id s

  unfoldable pub kill_turn :
      Fence → TurnRun → Failure → Clock → Store → Result Error (Store × TurnRun)
  kill_turn fence turn failure clock s = do
    input ← claimed_input fence turn.input_id clock.recheck s
    require (not (is_committed turn.status) && not (is_waiting_interrupt turn.status))
        invalid_transition
    let code = trim_space failure.code
    let message = trim_space failure.message
    let turn' = killed_turn code message clock.now turn
    let input' = killed_record code message clock.now input
    ok (put_input input' (put_turn turn' (record_terminal_failure c input turn.turn_id s)), turn')

  unfoldable pub dead_turn :
      Fence → String → Failure → Clock → Store → Result Error (Store × TurnRun)
  unfolding ensure_failure_event kill_turn
  dead_turn fence turn_id failure clock s = do
    lease ← validate_fence fence clock.now s
    turn ← or_fail (lookup (trim_space turn_id) s.turns) turn_not_found
    if is_dead_turn turn.status
        then ok (ensure_failure_event (lookup turn.input_id s.inputs) turn.turn_id s, turn)
        else kill_turn fence turn failure clock s
