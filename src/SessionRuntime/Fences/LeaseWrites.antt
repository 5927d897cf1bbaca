-- ===== src/SessionRuntime/Fences/LeaseWrites.antt =====
-- What the four lease operations write: under a trimmed session id a lease keeps its owner and its
-- token, or gets the next token.
use dora_agent.Base.{
  >>=-eq-ok, Option, String, String_discrete, add64, arith, if◌then◌else◌, inl, inr, insert,
  is_blank, lookup, lookup-insert, lookup-insert_self, none, not, ok, pos64, refl, require, some,
  str_eq, subst, sym, trim_space, ℕ, ◌&&◌, ◌+◌, ◌∙◌, ◌≡◌, ◌⊎◌,
}
use dora_agent.SessionRuntime.Models.Records.{Fence, RuntimeLease}
use dora_agent.SessionRuntime.Store.Fencing.{validate_fence}
use dora_agent.SessionRuntime.Store.Leases.{
  acquire_lease, handoff_lease, release_lease, renew_lease, taken_lease,
}
use dora_agent.SessionRuntime.Store.State.{Clock, Store}

abbrev pub Newer : RuntimeLease → RuntimeLease → Type 0
Newer l l' =
    ((l'.owner_id ≡ l.owner_id) × (l'.fence_token ≡ l.fence_token))
    ⊎ (l'.fence_token ≡ add64 l.fence_token 1)

-- Every lease under a trimmed session id is there afterwards, the same or newer.
abbrev pub LeasesTo : Store → Store → Type 0
LeasesTo s s' =
    (k : String) (l : RuntimeLease)
    → trim_space k ≡ k
    → lookup k s.leases ≡ some l
    → (l' : RuntimeLease) × (lookup k s'.leases ≡ some l') × Newer l l'

pub same_leases-LeasesTo : (s s' : Store) → s'.leases ≡ s.leases → LeasesTo s s'
same_leases-LeasesTo s s' e k l t h =
    (l, subst (λ m. lookup k m ≡ some l) (sym e) h, inl (refl, refl))

insert-LeasesTo :
    (s : Store) (key : String) (new : RuntimeLease)
    → ((l : RuntimeLease) → trim_space key ≡ key → lookup key s.leases ≡ some l → Newer l new)
    → LeasesTo s (record s { leases = insert key new s.leases })
insert-LeasesTo s key new newer k l t h = elim (String_discrete key k) [
  | yes p ↦ (
    new,
    subst (λ x. lookup x (insert key new s.leases) ≡ some new) p
        (lookup-insert_self key new s.leases),
    newer l (subst (λ x. trim_space x ≡ x) (sym p) t)
        (subst (λ x. lookup x s.leases ≡ some l) (sym p) h),
  )
  | no p ↦ (l, ground (arith, lookup-insert key k new s.leases), inl (refl, refl))
]

-- A valid fence names the lease under its trimmed session id.
pub validate_fence-found :
    (fence : Fence) (now : ℕ) (s : Store) (lease : RuntimeLease)
    → validate_fence fence now s ≡ ok lease
    → lookup (trim_space fence.session_id) s.leases ≡ some lease
unfolding validate_fence
validate_fence-found fence now s lease h = ground arith

-- The lease that is written again under the fence's own session id.
fenced-LeasesTo :
    (fence : Fence) (now : ℕ) (s : Store) (lease new : RuntimeLease)
    → validate_fence fence now s ≡ ok lease
    → Newer lease new
    → LeasesTo s (record s { leases = insert fence.session_id new s.leases })
fenced-LeasesTo fence now s lease new h newer = insert-LeasesTo s fence.session_id new λ l t e.
    let found = validate_fence-found fence now s lease h in
    let same : lease ≡ l = cc (sym found ∙ subst (λ x. lookup x s.leases ≡ some l) (sym t) e) in
    subst (λ x. Newer x new) same newer

-- The rows of inputs and turns are untouched, and the leases only get newer.
abbrev pub WritesLeases : Store → Store → Type 0
WritesLeases s s' = (s'.inputs ≡ s.inputs) × (s'.turns ≡ s.turns) × LeasesTo s s'

taken-Newer :
    (o : Option RuntimeLease) (session owner : String) (ttl now : ℕ) (l new : RuntimeLease)
    → o ≡ some l
    → taken_lease o session owner ttl now ≡ ok new
    → Newer l new
taken-Newer none session owner ttl now l new h e = cc h
taken-Newer (some q) session owner ttl now l new h e = elim (String_discrete q.owner_id owner) [
  | yes p ↦ inl (ground arith)
  | no p ↦ inr (ground arith)
]

pub acquire_lease-LeasesTo :
    (session owner : String) (ttl : ℕ) (clock : Clock) (s s' : Store) (lease : RuntimeLease)
    → acquire_lease session owner ttl clock s ≡ ok (s', lease)
    → WritesLeases s s'
unfolding acquire_lease
acquire_lease-LeasesTo session owner ttl clock s s' lease h =
    let (u, a, h1) =
      >>=-eq-ok (require (not (is_blank session) && not (is_blank owner) && pos64 ttl) _) _ h in
    let (l, e, h2) =
      >>=-eq-ok
        (taken_lease (lookup (trim_space session) s.leases) (trim_space session) (trim_space owner)
          ttl clock.now)
        _ h1 in
    let written : record s { leases = insert (trim_space session) l s.leases } ≡ s' = cc h2 in
    subst (WritesLeases s) written (
      refl,
      refl,
      insert-LeasesTo s (trim_space session) l
          λ q t f. taken-Newer (lookup (trim_space session) s.leases) _ _ ttl clock.now q l f e,
    )

pub renew_lease-LeasesTo :
    (fence : Fence) (ttl : ℕ) (clock : Clock) (s s' : Store) (lease : RuntimeLease)
    → renew_lease fence ttl clock s ≡ ok (s', lease)
    → WritesLeases s s'
unfolding renew_lease
renew_lease-LeasesTo fence ttl clock s s' lease h =
    let (u, a, h1) = >>=-eq-ok (require (pos64 ttl) _) _ h in
    let (l, e, h2) = >>=-eq-ok (validate_fence fence clock.now s) _ h1 in
    let new : RuntimeLease = record l { lease_until = clock.now + ttl; updated_at = clock.now } in
    let written : record s { leases = insert fence.session_id new s.leases } ≡ s' = cc h2 in
    subst (WritesLeases s) written
      (refl, refl, fenced-LeasesTo fence clock.now s l new e (inl (refl, refl)))

handed-Newer :
    (l new : RuntimeLease) (owner : String)
    → new.owner_id ≡ owner
    → new.fence_token ≡ (if str_eq owner l.owner_id then l.fence_token else add64 l.fence_token 1)
    → Newer l new
handed-Newer l new owner h e = elim (String_discrete owner l.owner_id) [
  | yes p ↦ inl (ground arith)
  | no p ↦ inr (ground arith)
]

pub handoff_lease-LeasesTo :
    (fence : Fence) (owner : String) (ttl : ℕ) (clock : Clock) (s s' : Store) (lease : RuntimeLease)
    → handoff_lease fence owner ttl clock s ≡ ok (s', lease)
    → WritesLeases s s'
unfolding handoff_lease
handoff_lease-LeasesTo fence owner ttl clock s s' lease h =
    let (u, a, h1) = >>=-eq-ok (require (not (is_blank owner) && pos64 ttl) _) _ h in
    let (l, e, h2) = >>=-eq-ok (validate_fence fence clock.now s) _ h1 in
    let written : record s { leases = insert fence.session_id lease s.leases } ≡ s' = cc h2 in
    subst (WritesLeases s) written (
      refl,
      refl,
      fenced-LeasesTo fence clock.now s l lease e
          (handed-Newer l lease (trim_space owner) (cc h2) (cc h2)),
    )

pub release_lease-LeasesTo :
    (fence : Fence) (clock : Clock) (s s' : Store) (u : Unit {0})
    → release_lease fence clock s ≡ ok (s', u)
    → WritesLeases s s'
unfolding release_lease
release_lease-LeasesTo fence clock s s' u h =
    let (l, e, h2) = >>=-eq-ok (validate_fence fence clock.now s) _ h in
    let new : RuntimeLease = record l { lease_until = clock.now; updated_at = clock.now } in
    let written : record s { leases = insert fence.session_id new s.leases } ≡ s' = cc h2 in
    subst (WritesLeases s) written
      (refl, refl, fenced-LeasesTo fence clock.now s l new e (inl (refl, refl)))
