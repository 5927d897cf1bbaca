-- ===== src/SessionRuntime/Lifecycle/LaneSteps.antt =====
-- The operations on claimed inputs keep the rows of a store.
use dora_agent.Base.{Codec, String, arith, pos64, trim_space, ℕ}
use dora_agent.SessionRuntime.Lifecycle.Keeps.{Keeps-put_input, Keyed}
use dora_agent.SessionRuntime.Lifecycle.Rules.{
  KeepsOk, KeepsOk-bind, KeepsOk-require, claimed_input-found, put_after_failure,
}
use dora_agent.SessionRuntime.Models.Records.{Failure, Fence}
use dora_agent.SessionRuntime.Store.Fencing.{validate_fence}
use dora_agent.SessionRuntime.Store.Lane.{
  dead_input, finished_record, killed_record, mark_input_running, resolve_input, retried_record,
  retry_input, running_record,
}
use dora_agent.SessionRuntime.Store.State.{Clock, Store, capped_lease_until}

module _ (clock : Clock) (s : Store) (v : Keyed s) (fence : Fence) (id : String) where
  pub mark_input_running-Keeps : (ttl : ℕ) → KeepsOk s (mark_input_running fence id ttl clock s)
  unfolding mark_input_running
  mark_input_running-Keeps ttl = KeepsOk-require s (pos64 ttl) _ _ λ _.
      KeepsOk-bind s (validate_fence fence clock.now s) _ λ lease _. KeepsOk-bind s _ _ λ input e.
        let (here, held) = claimed_input-found fence id clock.recheck s input v e in
        Keeps-put_input s input
          (running_record (capped_lease_until clock.now ttl lease.lease_until) clock.now input) v
          here (ground (arith, held))

  pub retry_input-Keeps :
      (available_at : ℕ) (failure : Failure)
      → KeepsOk s (retry_input fence id available_at failure clock s)
  unfolding retry_input
  retry_input-Keeps available_at failure =
      KeepsOk-bind s (validate_fence fence clock.now s) _ λ lease _. KeepsOk-bind s _ _ λ input e.
        let (here, held) = claimed_input-found fence id clock.recheck s input v e in
        Keeps-put_input s input
          (retried_record available_at (trim_space failure.code) (trim_space failure.message)
            clock.now input)
          v here (ground (arith, held))

  pub resolve_input-Keeps : KeepsOk s (resolve_input fence id clock s)
  unfolding resolve_input
  resolve_input-Keeps = KeepsOk-bind s (validate_fence fence clock.now s) _ λ lease _.
      KeepsOk-bind s _ _ λ input e.
        let (here, held) = claimed_input-found fence id clock.recheck s input v e in
        Keeps-put_input s input (finished_record clock.now input) v here (ground (arith, held))

  pub dead_input-Keeps :
      (c : Codec) (failure : Failure) → KeepsOk s (dead_input c fence id failure clock s)
  unfolding dead_input
  dead_input-Keeps c failure = KeepsOk-bind s (validate_fence fence clock.now s) _ λ lease _.
      KeepsOk-bind s _ _ λ input e.
        let (here, held) = claimed_input-found fence id clock.recheck s input v e in
        let input' =
          killed_record (trim_space failure.code) (trim_space failure.message) clock.now input in
        put_after_failure c s input input' input' input.turn_id v here (ground (arith, held))
