-- ===== src/SessionRuntime/Store/Fencing.antt =====
-- The checks that guard every fenced operation: validateFenceLocked, claimedInputLocked and
-- turnAndClaimedInputLocked of internal/aigc/sessionruntime/memory_store.go.
use dora_agent.Base.{
  Bool, Option, Result, String, err, if◌then◌else◌, is_empty, lookup, nat_eq, none, not, ok,
  or_fail, pos64, require, some, str_eq, trim_space, ℕ, ◌&&◌, ◌>>=◌, ◌>>◌,
}
use dora_agent.SessionRuntime.Models.Records.{Fence, InputRecord, RuntimeLease, TurnRun}
use dora_agent.SessionRuntime.Models.Status.{
  Error, fence_rejected, input_not_found, invalid_transition, is_held, turn_not_found,
}
use dora_agent.SessionRuntime.Store.State.{Store, after, unexpired}

-- The lease must be the fence's, by owner and token, and must not have run out.
abbrev pub lease_matches : RuntimeLease → String → String → ℕ → ℕ → Bool
lease_matches lease session_id owner_id token now =
    not (is_empty session_id)
    && not (is_empty owner_id)
    && pos64 token
    && str_eq lease.owner_id owner_id
    && nat_eq lease.fence_token token
    && after lease.lease_until now

abbrev pub checked_lease : Option RuntimeLease → String → String → ℕ → ℕ → Result Error RuntimeLease
checked_lease none session_id owner_id token now = err fence_rejected
checked_lease (some lease) session_id owner_id token now =
    if lease_matches lease session_id owner_id token now then ok lease else err fence_rejected

unfoldable pub validate_fence : Fence → ℕ → Store → Result Error RuntimeLease
validate_fence fence now s =
    let session_id = trim_space fence.session_id in
    checked_lease (lookup session_id s.leases) session_id (trim_space fence.owner_id)
      fence.fence_token now

-- The input must be claimed under this fence, unexpired, and claimed or running: the only
-- statuses that a caller allows.
unfoldable pub claimed_input : Fence → String → ℕ → Store → Result Error InputRecord
claimed_input fence input_id recheck s = do
  input ← or_fail (lookup (trim_space input_id) s.inputs) input_not_found
  require
      (str_eq input.session_id fence.session_id
        && str_eq input.claim_owner fence.owner_id
        && nat_eq input.claim_fence fence.fence_token)
      fence_rejected
  require (unexpired input.lease_until recheck) fence_rejected
  require (is_held input.status) invalid_transition
  ok input

unfoldable pub turn_and_claimed_input :
    Fence → String → ℕ → Store → Result Error (TurnRun × InputRecord)
turn_and_claimed_input fence turn_id recheck s = do
  turn ← or_fail (lookup (trim_space turn_id) s.turns) turn_not_found
  require (str_eq turn.session_id fence.session_id) fence_rejected
  input ← claimed_input fence turn.input_id recheck s
  ok (turn, input)
