-- ===== src/SessionRuntime/Fences/Acquisition.antt =====
-- AcquireLease and ReleaseLease: who holds a session, and what a fence is worth afterwards.
use dora_agent.Base.{
  >>=-eq-ok, Option, String, ap, arith, err, false, half, if◌then◌else◌, insert, is_blank, is_empty,
  lookup, lookup-insert, lookup-insert_self, ltb, none, not, ok, pos64, refl, require, some, subst,
  sym, trim_space, trim_space_idem, true, word, ℕ, ◌&&◌, ◌+◌, ◌<◌, ◌∙◌, ◌≡◌, ◌≢◌, ◌≤◌,
}
use dora_agent.SessionRuntime.Fences.Stale.{lower_token-rejected}
use dora_agent.SessionRuntime.Models.Records.{Fence, RuntimeLease, fence_of}
use dora_agent.SessionRuntime.Models.Status.{fence_rejected}
use dora_agent.SessionRuntime.Store.Fencing.{checked_lease, validate_fence}
use dora_agent.SessionRuntime.Store.Leases.{acquire_lease, release_lease, taken_lease}
use dora_agent.SessionRuntime.Store.State.{Clock, Store}

-- Another owner gets the lease only once it has run out, and then with the next token: from then on
-- the fence of the former lease is rejected at any time, as long as the token does not wrap around.
pub takeover_fences_out :
    (session owner : String) (ttl : ℕ) (clock : Clock) (s s' : Store) (l l' : RuntimeLease)
    → lookup (trim_space session) s.leases ≡ some l
    → l.owner_id ≢ trim_space owner
    → l.fence_token + 1 < word
    → acquire_lease session owner ttl clock s ≡ ok (s', l')
    → (now : ℕ) (f : Fence) → trim_space f.session_id ≡ trim_space session
    → f.fence_token ≡ l.fence_token
    → (l.lease_until ≤ clock.now)
      × (l'.fence_token ≡ l.fence_token + 1)
      × (validate_fence f now s' ≡ err fence_rejected)
unfolding acquire_lease
takeover_fences_out session owner ttl clock s s' l l' found other small h now f k t =
    let (u, a, h1) =
      >>=-eq-ok (require (not (is_blank session) && not (is_blank owner) && pos64 ttl) _) _ h in
    let (q, e, h2) =
      >>=-eq-ok
        (taken_lease (lookup (trim_space session) s.leases) (trim_space session) (trim_space owner)
          ttl clock.now)
        _ h1 in
    let e' : taken_lease (some l) (trim_space session) (trim_space owner) ttl clock.now ≡ ok q =
      subst (λ o. taken_lease o (trim_space session) (trim_space owner) ttl clock.now ≡ ok q) found
        e in
    let same : q ≡ l' = cc h2 in
    let written : record s { leases = insert (trim_space session) q s.leases } ≡ s' = cc h2 in
    let grown : q.fence_token ≡ l.fence_token + 1 = ground arith in
    (
      ground arith,
      subst (λ x. x.fence_token ≡ l.fence_token + 1) same grown,
      subst (λ x. validate_fence f now x ≡ err fence_rejected) written
          (lower_token-rejected f now _ q
            (subst (λ x. lookup x (insert (trim_space session) q s.leases) ≡ some q) (sym k)
              (lookup-insert_self (trim_space session) q s.leases))
            (omega arith)),
    )

taken_facts :
    (o : Option RuntimeLease) (session owner : String) (ttl now : ℕ) (q : RuntimeLease)
    → ((l : RuntimeLease) → o ≡ some l → (0 < l.fence_token) × (l.fence_token + 1 < half))
    → taken_lease o session owner ttl now ≡ ok q
    → (q.session_id ≡ session)
      × (q.owner_id ≡ owner)
      × (q.lease_until ≡ now + ttl)
      × (pos64 q.fence_token ≡ true)
taken_facts none session owner ttl now q b h = ground arith
taken_facts (some l) session owner ttl now q b h = ground (arith, b l refl)

checked_lease-own :
    (q : RuntimeLease) (session owner : String) (now : ℕ)
    → is_empty session ≡ false
    → is_empty owner ≡ false
    → q.owner_id ≡ owner
    → pos64 q.fence_token ≡ true
    → checked_lease (some q) session owner q.fence_token now
      ≡ (if ltb now q.lease_until then ok q else err fence_rejected)
checked_lease-own q session owner now a b e p = ground arith

written_fence_valid :
    (s : Store) (q : RuntimeLease) (session owner : String) (now : ℕ)
    → q.session_id ≡ trim_space session
    → q.owner_id ≡ trim_space owner
    → is_blank session ≡ false
    → is_blank owner ≡ false
    → pos64 q.fence_token ≡ true
    → validate_fence (fence_of q) now (record s { leases = insert (trim_space session) q s.leases })
      ≡ (if ltb now q.lease_until then ok q else err fence_rejected)
unfolding validate_fence fence_of
written_fence_valid s q session owner now d e a b p =
    let same_session : trim_space q.session_id ≡ trim_space session =
      ap trim_space d ∙ trim_space_idem session in
    let same_owner : trim_space q.owner_id ≡ trim_space owner =
      ap trim_space e ∙ trim_space_idem owner in
    rw (same_session, same_owner, lookup-insert_self (trim_space session) q s.leases)
      (checked_lease-own q (trim_space session) (trim_space owner) now a b e p)

-- The fence of a lease that was acquired is valid until the lease runs out, and not from then on.
-- The condition on the lease that stood there says that its token is positive and does not wrap.
pub acquired_fence_valid :
    (session owner : String) (ttl : ℕ) (clock : Clock) (s s' : Store) (l : RuntimeLease)
    → ((q : RuntimeLease)
        → lookup (trim_space session) s.leases ≡ some q
        → (0 < q.fence_token) × (q.fence_token + 1 < half))
    → acquire_lease session owner ttl clock s ≡ ok (s', l)
    → (now : ℕ)
    → validate_fence (fence_of l) now s'
      ≡ (if ltb now (clock.now + ttl) then ok l else err fence_rejected)
unfolding acquire_lease
acquired_fence_valid session owner ttl clock s s' l b h now =
    let (u, a, h1) =
      >>=-eq-ok (require (not (is_blank session) && not (is_blank owner) && pos64 ttl) _) _ h in
    let (q, e, h2) =
      >>=-eq-ok
        (taken_lease (lookup (trim_space session) s.leases) (trim_space session) (trim_space owner)
          ttl clock.now)
        _ h1 in
    let facts = taken_facts (lookup (trim_space session) s.leases) _ _ ttl clock.now q b e in
    let same : q ≡ l = cc h2 in
    let written : record s { leases = insert (trim_space session) q s.leases } ≡ s' = cc h2 in
    let valid =
      written_fence_valid s q session owner now facts.0 facts.1 (ground arith) (ground arith)
        facts.3 in
    let valid_until : validate_fence (fence_of q) now s'
        ≡ (if ltb now (clock.now + ttl) then ok q else err fence_rejected) =
      subst
        (λ x.
          validate_fence (fence_of q) now x
          ≡ (if ltb now (clock.now + ttl) then ok q else err fence_rejected))
        written
        (subst
          (λ x.
            validate_fence (fence_of q) now
              (record s { leases = insert (trim_space session) q s.leases })
            ≡ (if ltb now x then ok q else err fence_rejected))
          facts.2 valid) in
    subst
      (λ x.
        validate_fence (fence_of x) now s'
        ≡ (if ltb now (clock.now + ttl) then ok x else err fence_rejected))
      same valid_until

release_write :
    (fence : Fence) (clock : Clock) (s s' : Store) (u : Unit {0})
    → release_lease fence clock s ≡ ok (s', u)
    → (l : RuntimeLease) × (s'.leases
        ≡ insert fence.session_id
            (record l { lease_until = clock.now; updated_at = clock.now })
            s.leases)
unfolding release_lease
release_write fence clock s s' u h =
    let (l, e, h2) = >>=-eq-ok (validate_fence fence clock.now s) _ h in
    let new : RuntimeLease = record l { lease_until = clock.now; updated_at = clock.now } in
    let written : record s { leases = insert fence.session_id new s.leases } ≡ s' = cc h2 in
    (l, ap (λ x. x.leases) (sym written))

-- In the store that a release under a trimmed session id leaves, the fence is rejected at every time
-- from the release on.
pub released_fence_invalid :
    (fence : Fence) (clock : Clock) (s s' : Store) (u : Unit {0})
    → trim_space fence.session_id ≡ fence.session_id
    → release_lease fence clock s ≡ ok (s', u)
    → (now : ℕ) → clock.now ≤ now
    → validate_fence fence now s' ≡ err fence_rejected
unfolding validate_fence
released_fence_invalid fence clock s s' u t h now later =
    let (l, e) = release_write fence clock s s' u h in
    rw (t, e, lookup-insert_self fence.session_id) (ground arith)

-- Under a session id with spaces around it ReleaseLease succeeds and releases nothing: the fence is
-- worth at any time what it was worth before.
pub padded_release_keeps_fence :
    (fence : Fence) (clock : Clock) (s s' : Store) (u : Unit {0})
    → fence.session_id ≢ trim_space fence.session_id
    → release_lease fence clock s ≡ ok (s', u)
    → (now : ℕ) → validate_fence fence now s' ≡ validate_fence fence now s
unfolding validate_fence
padded_release_keeps_fence fence clock s s' u padded h now =
    let (l, e) = release_write fence clock s s' u h in
    let same : lookup (trim_space fence.session_id) s'.leases
        ≡ lookup (trim_space fence.session_id) s.leases =
      rw e (
        ground (
          arith,
          lookup-insert fence.session_id (trim_space fence.session_id)
              (record l { lease_until = clock.now; updated_at = clock.now }) s.leases,
        )) in
    rw same
