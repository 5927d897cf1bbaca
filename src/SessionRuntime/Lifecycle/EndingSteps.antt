-- ===== src/SessionRuntime/Lifecycle/EndingSteps.antt =====
-- The operations that end or suspend a turn keep the rows of a store.
use dora_agent.Base.{
  Codec, Option, String, arith, false, is_empty, lookup, none, not, some, str_eq, trim_space, ℕ,
  ◌&&◌, ◌||◌, ◌≡◌,
}
use dora_agent.SessionRuntime.Lifecycle.Keeps.{
  Keeps, Keeps-record_terminal_failure, Keeps-refl, Keyed,
}
use dora_agent.SessionRuntime.Lifecycle.Rules.{
  KeepsOk, KeepsOk-bind, KeepsOk-if, KeepsOk-require, claimed_input-found, found_turn, put_both,
  put_both_after_failure, turn_and_claimed_input-found,
}
use dora_agent.SessionRuntime.Models.Records.{Failure, Fence, InputRecord, TurnRun}
use dora_agent.SessionRuntime.Store.Endings.{
  can_commit, can_retry, commit_turn, committed_turn, dead_turn, ensure_failure_event,
  finish_commit, is_committed, is_dead_turn, is_running_turn, is_waiting_interrupt, kill_turn,
  killed_turn, resolved_record, retried_turn, retry_turn_at, suspend_turn, suspended_turn,
  wait_for_interrupt,
}
use dora_agent.SessionRuntime.Store.Fencing.{validate_fence}
use dora_agent.SessionRuntime.Store.Lane.{killed_record, retried_record}
use dora_agent.SessionRuntime.Store.State.{Clock, Store}

module _ (clock : Clock) (s : Store) (v : Keyed s) (fence : Fence) where
  pub suspend_turn-Keeps :
      (turn : TurnRun) (checkpoint_id : String)
      → lookup turn.turn_id s.turns ≡ some turn
      → KeepsOk s (suspend_turn fence turn checkpoint_id clock s)
  unfolding suspend_turn
  suspend_turn-Keeps turn checkpoint_id t = KeepsOk-bind s _ _ λ input e.
      let (i, held) = claimed_input-found fence turn.input_id clock.recheck s input v e in
      KeepsOk-require s (is_running_turn turn.status) _ _ λ allowed.
        put_both s turn (suspended_turn checkpoint_id clock.now turn) input
          (resolved_record clock.now input) v t (ground (arith, allowed)) i (ground (arith, held))

  pub wait_for_interrupt-Keeps :
      (id checkpoint : String) → KeepsOk s (wait_for_interrupt fence id checkpoint clock s)
  unfolding wait_for_interrupt
  wait_for_interrupt-Keeps id checkpoint =
      KeepsOk-require s (not (is_empty (trim_space checkpoint))) _ _ λ _.
        KeepsOk-bind s (validate_fence fence clock.now s) _ λ lease _. KeepsOk-bind s _ _ λ turn e.
          KeepsOk-if s (is_waiting_interrupt turn.status) _ _
            (λ _.
              KeepsOk-if s (str_eq turn.runner_checkpoint_id (trim_space checkpoint)) _ _
                (λ _. Keeps-refl s v) (λ _. tt))
            λ _. suspend_turn-Keeps turn (trim_space checkpoint) (found_turn s id turn v e)

  pub retry_turn_at-Keeps :
      (id : String) (available_at : ℕ) (failure : Failure)
      → KeepsOk s (retry_turn_at fence id available_at failure clock s)
  unfolding retry_turn_at
  retry_turn_at-Keeps id available_at failure =
      KeepsOk-bind s (validate_fence fence clock.now s) _ λ lease _. KeepsOk-bind s _ _ λ p e.
        let (t, i, held) = turn_and_claimed_input-found fence id clock.recheck s p v e in
        let code = trim_space failure.code in
        let message = trim_space failure.message in
        KeepsOk-require s (can_retry p.0.status) _ _ λ allowed.
          put_both s p.0 (retried_turn code message clock.now p.0) p.1
            (retried_record available_at code message clock.now p.1) v t (ground (arith, allowed)) i
            (ground (arith, held))

  finish_commit-Keeps :
      (turn : TurnRun) (digest : String)
      → lookup turn.turn_id s.turns ≡ some turn
      → KeepsOk s (finish_commit fence turn digest clock s)
  unfolding finish_commit
  finish_commit-Keeps turn digest t =
      KeepsOk-require s (is_empty turn.output_payload || str_eq turn.output_digest digest) _ _
        λ same. KeepsOk-bind s _ _ λ input e.
          let (i, held) = claimed_input-found fence turn.input_id clock.recheck s input v e in
          KeepsOk-require s (can_commit turn.status) _ _ λ allowed.
            put_both s turn (committed_turn digest clock.now turn) input
              (resolved_record clock.now input) v t (ground (arith, allowed, same)) i
              (ground (arith, held))

  pub commit_turn-Keeps :
      (id output_digest : String) → KeepsOk s (commit_turn fence id output_digest clock s)
  unfolding commit_turn
  commit_turn-Keeps id output_digest =
      KeepsOk-bind s (validate_fence fence clock.now s) _ λ lease _. KeepsOk-bind s _ _ λ turn e.
        KeepsOk-if s (is_committed turn.status) _ _
          (λ _.
            KeepsOk-if s (str_eq turn.output_digest (trim_space output_digest)) _ _
              (λ _. Keeps-refl s v) (λ _. tt))
          λ _. finish_commit-Keeps turn (trim_space output_digest) (found_turn s id turn v e)

module _ (c : Codec) (clock : Clock) (s : Store) (v : Keyed s) (fence : Fence) where
  ensure_failure_event-Keeps :
      (o : Option InputRecord) (turn_id : String) → Keeps s (ensure_failure_event c o turn_id s)
  unfolding ensure_failure_event
  ensure_failure_event-Keeps none turn_id = Keeps-refl s v
  ensure_failure_event-Keeps (some input) turn_id =
      Keeps-record_terminal_failure c input turn_id s v

  kill_turn-Keeps :
      (turn : TurnRun) (failure : Failure)
      → lookup turn.turn_id s.turns ≡ some turn
      → is_dead_turn turn.status ≡ false
      → KeepsOk s (kill_turn c fence turn failure clock s)
  unfolding kill_turn
  kill_turn-Keeps turn failure t alive = KeepsOk-bind s _ _ λ input e.
      let (i, held) = claimed_input-found fence turn.input_id clock.recheck s input v e in
      let code = trim_space failure.code in
      let message = trim_space failure.message in
      KeepsOk-require s (not (is_committed turn.status) && not (is_waiting_interrupt turn.status)) _
        _
        λ allowed.
          put_both_after_failure c s turn (killed_turn code message clock.now turn) input
            (killed_record code message clock.now input) input turn.turn_id v t
            (ground (arith, allowed, alive)) i (ground (arith, held))

  pub dead_turn-Keeps :
      (id : String) (failure : Failure) → KeepsOk s (dead_turn c fence id failure clock s)
  unfolding dead_turn
  dead_turn-Keeps id failure = KeepsOk-bind s (validate_fence fence clock.now s) _ λ lease _.
      KeepsOk-bind s _ _ λ turn e.
        KeepsOk-if s (is_dead_turn turn.status) _ _
          (λ _. ensure_failure_event-Keeps (lookup turn.input_id s.inputs) turn.turn_id)
          λ alive. kill_turn-Keeps turn failure (found_turn s id turn v e) alive
