-- ===== src/SessionRuntime/Steps.antt =====
-- The operations of the store of internal/aigc/sessionruntime as one type, and what a sequence of
-- them does. Each step reads the clock anew; results are dropped.
use dora_agent.Base.{Codec, List, Option, Result, String, [], err, none, ok, some, ℕ, ◌∷◌}
use dora_agent.SessionRuntime.Models.Inputs.{SessionInput}
use dora_agent.SessionRuntime.Models.Records.{ClaimOptions, Failure, Fence, InputRecord, TurnSpec}
use dora_agent.SessionRuntime.Models.Status.{Error}
use dora_agent.SessionRuntime.Store.Claims.{claim_next}
use dora_agent.SessionRuntime.Store.Endings.{
  commit_turn, dead_turn, retry_turn_at, wait_for_interrupt,
}
use dora_agent.SessionRuntime.Store.Lane.{
  dead_input, enqueue_input, mark_input_running, resolve_input, retry_input,
}
use dora_agent.SessionRuntime.Store.Leases.{
  acquire_lease, handoff_lease, release_lease, renew_lease,
}
use dora_agent.SessionRuntime.Store.Outputs.{save_turn_checkpoint, save_turn_output}
use dora_agent.SessionRuntime.Store.Recovery.{recover_expired_inputs}
use dora_agent.SessionRuntime.Store.State.{Clock, Store}
use dora_agent.SessionRuntime.Store.Turns.{
  begin_turn, freeze_turn_context_from_inputs, freeze_turn_context_message_seq, get_or_create_turn,
}

pub data Op : Type 0 where
  enqueues : String → Option SessionInput → Op
  claims : ClaimOptions → Op
  marks_running : Fence → String → ℕ → Op
  retries_input : Fence → String → ℕ → Failure → Op
  resolves : Fence → String → Op
  kills_input : Fence → String → Failure → Op
  recovers : Fence → Op
  acquires : String → String → ℕ → Op
  renews : Fence → ℕ → Op
  hands_off : Fence → String → ℕ → Op
  releases : Fence → Op
  gets_turn : Fence → String → TurnSpec → Op
  begins : Fence → String → Op
  freezes_at : Fence → String → ℕ → Op
  freezes_from_inputs : Fence → String → Op
  saves_checkpoint : Fence → String → String → Op
  saves_output : Fence → String → String → String → Op
  waits : Fence → String → String → Op
  retries_turn : Fence → String → ℕ → Failure → Op
  commits : Fence → String → String → Op
  kills_turn : Fence → String → Failure → Op

-- An error leaves the store.
abbrev pub after_ok : {A : Type 0} → Store → Result Error (Store × A) → Store
after_ok s (ok p) = p.0
after_ok s (err e) = s

-- A claim may change the store and fail. The fuel of its loop does not run out.
abbrev pub after_claim : Store → Option (Store × Result Error InputRecord) → Store
after_claim s none = s
after_claim s (some p) = p.0

module _ (c : Codec) where
  unfoldable pub step : Clock → Op → Store → Store
  step t (enqueues session input) s = after_ok s (enqueue_input c session input t s)
  step t (claims o) s = after_claim s (claim_next c o t s)
  step t (marks_running f id ttl) s = after_ok s (mark_input_running f id ttl t s)
  step t (retries_input f id at failure) s = after_ok s (retry_input f id at failure t s)
  step t (resolves f id) s = after_ok s (resolve_input f id t s)
  step t (kills_input f id failure) s = after_ok s (dead_input c f id failure t s)
  step t (recovers f) s = after_ok s (recover_expired_inputs f t s)
  step t (acquires session owner ttl) s = after_ok s (acquire_lease session owner ttl t s)
  step t (renews f ttl) s = after_ok s (renew_lease f ttl t s)
  step t (hands_off f owner ttl) s = after_ok s (handoff_lease f owner ttl t s)
  step t (releases f) s = after_ok s (release_lease f t s)
  step t (gets_turn f id spec) s = after_ok s (get_or_create_turn c f id spec t s)
  step t (begins f id) s = after_ok s (begin_turn f id t s)
  step t (freezes_at f id seq) s = after_ok s (freeze_turn_context_message_seq f id seq t s)
  step t (freezes_from_inputs f id) s = after_ok s (freeze_turn_context_from_inputs f id t s)
  step t (saves_checkpoint f id checkpoint) s =
      after_ok s (save_turn_checkpoint f id checkpoint t s)
  step t (saves_output f id payload digest) s =
      after_ok s (save_turn_output c f id payload digest t s)
  step t (waits f id checkpoint) s = after_ok s (wait_for_interrupt f id checkpoint t s)
  step t (retries_turn f id at failure) s = after_ok s (retry_turn_at f id at failure t s)
  step t (commits f id digest) s = after_ok s (commit_turn f id digest t s)
  step t (kills_turn f id failure) s = after_ok s (dead_turn c f id failure t s)

  unfoldable pub run : List (Clock × Op) → Store → Store
  run [] s = s
  run ((t, op) ∷ ops) s = run ops (step t op s)
