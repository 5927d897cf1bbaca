-- ===== src/SessionRuntime/Continuation/Steps.antt =====
-- The operations on continuations as one type, and what a sequence of them does to a store. Each
-- step reads the clock anew; results are dropped.
use dora_agent.Base.{Codec, List, Option, String, [], none, some, ℕ, ◌∷◌}
use dora_agent.SessionRuntime.Models.Records.{
  CommandLedger, Continuation, ContinuationClaim, Failure,
}
use dora_agent.SessionRuntime.Steps.{after_ok}
use dora_agent.SessionRuntime.Store.Commands.{apply_continuation}
use dora_agent.SessionRuntime.Store.Continuations.{
  claim_continuation, fail_continuation, fallback_continuation, request_continuation,
}
use dora_agent.SessionRuntime.Store.State.{Clock, Store}

pub data ContinuationOp : Type 0 where
  requests : Continuation → ContinuationOp
  takes : ContinuationClaim → ℕ → ContinuationOp
  applies : ContinuationClaim → List CommandLedger → ContinuationOp
  fails : ContinuationClaim → Failure → ContinuationOp
  falls_back : String → ℕ → ℕ → ContinuationOp

-- The claim that an operation is made under.
abbrev pub claim_of_op : ContinuationOp → Option ContinuationClaim
claim_of_op (requests r) = none
claim_of_op (takes q ttl) = some q
claim_of_op (applies q commands) = some q
claim_of_op (fails q failure) = some q
claim_of_op (falls_back id version epoch) = none

module _ (c : Codec) where
  unfoldable pub move : Clock → ContinuationOp → Store → Store
  move t (requests r) s = after_ok s (request_continuation r t s)
  move t (takes q ttl) s = after_ok s (claim_continuation q ttl t s)
  move t (applies q commands) s = after_ok s (apply_continuation c q commands t s)
  move t (fails q failure) s = after_ok s (fail_continuation q failure t s)
  move t (falls_back id version epoch) s = after_ok s (fallback_continuation id version epoch t s)

  unfoldable pub moves : List (Clock × ContinuationOp) → Store → Store
  moves [] s = s
  moves ((t, op) ∷ ops) s = moves ops (move t op s)
