-- ===== src/SessionRuntime/Store/Continuations.antt =====
-- The continuations of approvals in internal/aigc/sessionruntime/memory_store.go:
-- RequestContinuation, GetContinuation, ClaimContinuation, FailContinuation, FallbackContinuation.
use dora_agent.Base.{
  Bool, Option, Result, String, add64, decimal, err, false, if◌then◌else◌, insert, is_blank,
  is_empty, lookup, nat_eq, none, not, ok, or_fail, pos64, require, some, str_eq, trim_space, true,
  zero_byte, ℕ, ◌&&◌, ◌&◌, ◌+◌, ◌>>=◌, ◌>>◌, ◌||◌,
}
use dora_agent.SessionRuntime.Models.Records.{Continuation, ContinuationClaim, Failure}
use dora_agent.SessionRuntime.Models.Status.{
  ContinuationExecutor, ContinuationStatus, Error, applied, continuation_claimed,
  continuation_claimed_err, continuation_not_found, deterministic, executor_eq, failed,
  fence_rejected, idempotency_conflict, invalid, invalid_transition, other_executor, requested,
  runner_resume,
}
use dora_agent.SessionRuntime.Store.State.{Clock, Store, unexpired}

-- fmt.Sprintf("%s\x00%d", ...).
unfoldable pub continuation_identity : String → ℕ → String
continuation_identity approval_id version = trim_space approval_id & zero_byte & decimal version

abbrev pub is_known_executor : ContinuationExecutor → Bool
is_known_executor (other_executor t) = false
is_known_executor _ = true

abbrev pub is_runner : ContinuationExecutor → Bool
is_runner runner_resume = true
is_runner _ = false

abbrev pub is_applied : ContinuationStatus → Bool
is_applied applied = true
is_applied _ = false

abbrev pub is_claimed_continuation : ContinuationStatus → Bool
is_claimed_continuation continuation_claimed = true
is_claimed_continuation _ = false

-- requested, claimed and failed.
abbrev pub can_claim_continuation : ContinuationStatus → Bool
can_claim_continuation requested = true
can_claim_continuation continuation_claimed = true
can_claim_continuation failed = true
can_claim_continuation _ = false

unfoldable pub normalize_continuation : Continuation → Result Error Continuation
normalize_continuation r = do
  let approval_id = trim_space r.approval_id
  let session_id = trim_space r.session_id
  require (not (is_empty approval_id) && not (is_empty session_id) && pos64 r.decision_version)
      (invalid "approval id, session id, and positive decision version are required")
  require (is_known_executor r.executor) (invalid "invalid continuation executor")
  require (pos64 r.execution_epoch) (invalid "execution epoch must be positive")
  ok (record r { approval_id = approval_id; session_id = session_id })

-- Checks trimmed copies; the claim itself stays as it is.
unfoldable pub validate_continuation_claim : ContinuationClaim → Result Error (Unit {0})
validate_continuation_claim q = do
  require
      (not (is_blank q.approval_id)
        && pos64 q.decision_version
        && pos64 q.execution_epoch
        && not (is_blank q.lease_owner))
      (invalid "approval id, decision version, execution epoch, and lease owner are required")
  require (is_known_executor q.executor) (invalid "invalid continuation executor")

abbrev pub same_executor : Continuation → ContinuationClaim → Bool
same_executor r q = executor_eq r.executor q.executor && nat_eq r.execution_epoch q.execution_epoch

-- Claimed, with a lease that has not run out.
abbrev pub is_leased : Continuation → ℕ → Bool
is_leased r now = is_claimed_continuation r.status && unexpired r.lease_until now

unfoldable pub validate_continuation_lease :
    Continuation → ContinuationClaim → ℕ → Result Error (Unit {0})
validate_continuation_lease r q now =
    require (same_executor r q && is_leased r now && str_eq r.lease_owner q.lease_owner)
      fence_rejected

abbrev pub claim_identity : ContinuationClaim → String
claim_identity q = continuation_identity q.approval_id q.decision_version

abbrev pub put_continuation : String → Continuation → Store → Store
put_continuation key r s = record s { continuations = insert key r s.continuations }

unfoldable pub find_continuation : String → Store → Result Error Continuation
find_continuation key s = or_fail (lookup key s.continuations) continuation_not_found

-- What stands there already is returned if it says the same, and is a conflict if not.
abbrev pub requested_again :
    Continuation → Continuation → Store → Result Error (Store × (Continuation × Bool))
requested_again existing r s =
    if not (str_eq existing.session_id r.session_id)
      || not (executor_eq existing.executor r.executor)
      || not (nat_eq existing.execution_epoch r.execution_epoch)
    then err idempotency_conflict
    else ok (s, (existing, false))

abbrev pub requested_continuation : ℕ → Continuation → Continuation
requested_continuation now r = record r { status = requested; created_at = now; updated_at = now }

unfoldable pub admit_continuation :
    String
    → Option Continuation
    → Continuation
    → ℕ
    → Store
    → Result Error (Store × (Continuation × Bool))
admit_continuation key (some existing) r now s = requested_again existing r s
admit_continuation key none r now s =
    ok (put_continuation key (requested_continuation now r) s, (requested_continuation now r, true))

unfoldable pub request_continuation :
    Continuation → Clock → Store → Result Error (Store × (Continuation × Bool))
unfolding admit_continuation
request_continuation continuation clock s = do
  r ← normalize_continuation continuation
  let key = continuation_identity r.approval_id r.decision_version
  admit_continuation key (lookup key s.continuations) r clock.now s

unfoldable pub get_continuation : String → ℕ → Store → Result Error Continuation
get_continuation approval_id version s =
    find_continuation (continuation_identity approval_id version) s

abbrev pub claimed_continuation : ContinuationClaim → ℕ → ℕ → Continuation → Continuation
claimed_continuation q ttl now r = record r {
  status = continuation_claimed;
  lease_owner = q.lease_owner;
  lease_until = some (now + ttl);
  error_code = "";
  error_message = "";
  updated_at = now;
}

-- An applied continuation is returned as it is.
unfoldable pub take_continuation :
    ContinuationClaim → ℕ → Continuation → ℕ → Store → Result Error (Store × Continuation)
take_continuation q ttl r now s = do
  require (same_executor r q) fence_rejected
  if is_applied r.status then ok (s, r) else (do
    require (not (is_leased r now)) continuation_claimed_err
    require (can_claim_continuation r.status) invalid_transition
    let r' = claimed_continuation q ttl now r
    ok (put_continuation (claim_identity q) r' s, r'))

unfoldable pub claim_continuation :
    ContinuationClaim → ℕ → Clock → Store → Result Error (Store × Continuation)
unfolding take_continuation
claim_continuation q ttl clock s = do
  valid ← validate_continuation_claim q
  require (pos64 ttl) (invalid "continuation lease ttl must be positive")
  r ← find_continuation (claim_identity q) s
  take_continuation q ttl r clock.now s

abbrev pub failed_continuation : Failure → ℕ → Continuation → Continuation
failed_continuation failure now r = record r {
  status = failed;
  lease_until = none;
  error_code = trim_space failure.code;
  error_message = trim_space failure.message;
  updated_at = now;
}

unfoldable pub fail_continuation :
    ContinuationClaim → Failure → Clock → Store → Result Error (Store × Continuation)
fail_continuation q failure clock s = do
  valid ← validate_continuation_claim q
  r ← find_continuation (claim_identity q) s
  lease ← validate_continuation_lease r q clock.recheck
  let r' = failed_continuation failure clock.now r
  ok (put_continuation (claim_identity q) r' s, r')

-- The deterministic executor takes over, in the next epoch.
abbrev pub fallen_back_continuation : ℕ → Continuation → Continuation
fallen_back_continuation now r = record r {
  executor = deterministic;
  execution_epoch = add64 r.execution_epoch 1;
  status = requested;
  lease_owner = "";
  lease_until = none;
  error_code = "";
  error_message = "";
  updated_at = now;
}

unfoldable pub hand_over :
    String → ℕ → Continuation → ℕ → Store → Result Error (Store × Continuation)
hand_over key expected_epoch r now s = do
  require (is_runner r.executor && nat_eq r.execution_epoch expected_epoch) fence_rejected
  require (not (is_leased r now)) continuation_claimed_err
  let r' = fallen_back_continuation now r
  ok (put_continuation key r' s, r')

unfoldable pub fall_back :
    String → ℕ → Continuation → ℕ → Store → Result Error (Store × Continuation)
unfolding hand_over
fall_back key expected_epoch r now s =
    if is_applied r.status then ok (s, r) else hand_over key expected_epoch r now s

unfoldable pub fallback_continuation :
    String → ℕ → ℕ → Clock → Store → Result Error (Store × Continuation)
unfolding fall_back
fallback_continuation approval_id version expected_epoch clock s = do
  let key = continuation_identity approval_id version
  r ← find_continuation key s
  fall_back key expected_epoch r clock.now s
