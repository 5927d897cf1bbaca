-- ===== src/SessionRuntime/Store/Leases.antt =====
-- The session lease of internal/aigc/sessionruntime/memory_store.go: AcquireLease, RenewLease,
-- HandoffLease and ReleaseLease. An error leaves the store as it was, so an operation returns the
-- new store with its result.
use dora_agent.Base.{
  Option, Result, String, add64, err, if◌then◌else◌, insert, is_empty, lookup, none, not, ok, pos64,
  require, some, str_eq, trim_space, ℕ, ◌&&◌, ◌+◌, ◌>>=◌, ◌>>◌,
}
use dora_agent.SessionRuntime.Models.Records.{Fence, RuntimeLease}
use dora_agent.SessionRuntime.Models.Status.{Error, invalid, lease_held}
use dora_agent.SessionRuntime.Store.Fencing.{validate_fence}
use dora_agent.SessionRuntime.Store.State.{Clock, Store, after}

-- The lease that AcquireLease writes over what stands there; none while another owner holds it.
abbrev pub taken_lease : Option RuntimeLease → String → String → ℕ → ℕ → Result Error RuntimeLease
taken_lease none session_id owner_id ttl now = ok (record {
  session_id = session_id;
  owner_id = owner_id;
  fence_token = 1;
  lease_until = now + ttl;
  updated_at = now;
})
taken_lease (some lease) session_id owner_id ttl now =
    if not (str_eq lease.owner_id owner_id) && after lease.lease_until now
    then err lease_held
    else ok (record {
      session_id = session_id;
      owner_id = owner_id;
      fence_token =
          if str_eq lease.owner_id owner_id then lease.fence_token else add64 lease.fence_token 1;
      lease_until = now + ttl;
      updated_at = now;
    })

unfoldable pub acquire_lease :
    String → String → ℕ → Clock → Store → Result Error (Store × RuntimeLease)
acquire_lease session owner ttl clock s = do
  let session_id = trim_space session
  let owner_id = trim_space owner
  require (not (is_empty session_id) && not (is_empty owner_id) && pos64 ttl)
      (invalid "session id, owner id, and positive ttl are required")
  lease ← taken_lease (lookup session_id s.leases) session_id owner_id ttl clock.now
  ok (record s { leases = insert session_id lease s.leases }, lease)

unfoldable pub renew_lease : Fence → ℕ → Clock → Store → Result Error (Store × RuntimeLease)
renew_lease fence ttl clock s = do
  require (pos64 ttl) (invalid "lease ttl must be positive")
  lease ← validate_fence fence clock.now s
  let renewed : RuntimeLease = record lease {
    lease_until = clock.now + ttl;
    updated_at = clock.now;
  }
  ok (record s { leases = insert fence.session_id renewed s.leases }, renewed)

unfoldable pub handoff_lease :
    Fence → String → ℕ → Clock → Store → Result Error (Store × RuntimeLease)
handoff_lease fence new_owner ttl clock s = do
  let new_owner_id = trim_space new_owner
  require (not (is_empty new_owner_id) && pos64 ttl)
      (invalid "new owner id and positive ttl are required")
  lease ← validate_fence fence clock.now s
  let handed : RuntimeLease = record lease {
    owner_id = new_owner_id;
    fence_token =
        if str_eq new_owner_id lease.owner_id then lease.fence_token else add64 lease.fence_token 1;
    lease_until = clock.now + ttl;
    updated_at = clock.now;
  }
  ok (record s { leases = insert fence.session_id handed s.leases }, handed)

unfoldable pub release_lease : Fence → Clock → Store → Result Error (Store × Unit {0})
release_lease fence clock s = do
  lease ← validate_fence fence clock.now s
  let released : RuntimeLease = record lease { lease_until = clock.now; updated_at = clock.now }
  ok (record s { leases = insert fence.session_id released s.leases }, tt)
