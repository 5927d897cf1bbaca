-- ===== src/SessionRuntime/Lifecycle/Claim.antt =====
-- ClaimNext: it always returns, and it claims the head of the lane.
use dora_agent.Base.{
  Bool-cases, Codec, Has, Option, Result, String, add64, arith, err, false, inl, inr, length, lt64,
  none, ok, pos64, refl, some, subst, suc, true, ℕ, ◌≡◌, ◌≢◌, ◌≤◌, ◌⊎◌,
}
use dora_agent.SessionRuntime.Lifecycle.Deaths.{InputsStay, open_count-le}
use dora_agent.SessionRuntime.Lifecycle.Heads.{
  NotBefore, first_candidate_from-first, started_head_from-none,
}
use dora_agent.SessionRuntime.Lifecycle.Keeps.{Keeps, Keeps-refl, Keyed}
use dora_agent.SessionRuntime.Lifecycle.Selection.{
  IsNext, Selected, select_input-Selected, started_head-found,
}
use dora_agent.SessionRuntime.Models.Records.{ClaimOptions, InputRecord, RuntimeLease}
use dora_agent.SessionRuntime.Models.Status.{Error, claimed, is_waiting}
use dora_agent.SessionRuntime.Store.Claims.{
  claim_next, claim_with, claimed_record, finish_claim, goes_before, is_candidate, is_started,
  select_input, started_head,
}
use dora_agent.SessionRuntime.Store.Fencing.{validate_fence}
use dora_agent.SessionRuntime.Store.State.{Clock, Store, capped_lease_until, put_input}

-- What a claim may do: fail and keep the store, or claim the next input of a store that it keeps.
abbrev pub ClaimKeeps :
    ClaimOptions → ℕ → Store → Option (Store × Result Error InputRecord) → Type 0
ClaimKeeps o now s none = ⊥
ClaimKeeps o now s (some (s', err e)) = Keeps s s'
ClaimKeeps o now s (some (s', ok r')) =
    (t : Store) × (r : InputRecord) × (lease : RuntimeLease) × Keeps s t
    × InputsStay o s t
    × IsNext o now t r
    × (validate_fence o.fence now s ≡ ok lease)
    × (r' ≡ claimed_record o lease now r)
    × (s' ≡ put_input r' t)

finish_claim-Keeps :
    (o : ClaimOptions) (lease : RuntimeLease) (now : ℕ) (s : Store)
    (x : Option (Store × Result Error InputRecord))
    → validate_fence o.fence now s ≡ ok lease
    → Selected o now s x
    → ClaimKeeps o now s
        (elim x [ none ↦ none | some (s', r) ↦ some (finish_claim o lease now s' r) ])
unfolding finish_claim
finish_claim-Keeps o lease now s none e h = h
finish_claim-Keeps o lease now s (some (t, err x)) e h = h
finish_claim-Keeps o lease now s (some (t, ok r)) e h = (t, r, lease, h.0, h.1, h.2, e, refl, refl)

claim_with-Keeps :
    (c : Codec) (o : ClaimOptions) (now : ℕ) (s : Store) (m : Result Error RuntimeLease)
    → Keyed s
    → validate_fence o.fence now s ≡ m
    → ClaimKeeps o now s (claim_with c o m now s)
unfolding claim_with
claim_with-Keeps c o now s (err e) v h = Keeps-refl s v
claim_with-Keeps c o now s (ok lease) v h =
    finish_claim-Keeps o lease now s (select_input c (suc (length s.inputs)) o now s) h (
      select_input-Selected c o now (suc (length s.inputs)) s v
        (omega (arith, open_count-le s.inputs)))

pub claim_next-Keeps :
    (c : Codec) (o : ClaimOptions) (clock : Clock) (s : Store)
    → Keyed s
    → ClaimKeeps o clock.now s (claim_next c o clock s)
unfolding claim_next
claim_next-Keeps c o clock s v = elim (Bool-cases (pos64 o.claim_ttl)) [
  | inl p ↦ rw p (claim_with-Keeps c o clock.now s (validate_fence o.fence clock.now s) v refl)
  | inr p ↦ rw p (Keeps-refl s v)
]

-- ClaimNext returns: the fuel of its loop is enough, from every store whose rows stand under their
-- ids.
pub claim_next_returns :
    (c : Codec) (o : ClaimOptions) (clock : Clock) (s : Store)
    → Keyed s
    → claim_next c o clock s ≢ none
claim_next_returns c o clock s v h =
    subst (ClaimKeeps o clock.now s) h (claim_next-Keeps c o clock s v)

not_before-order :
    (q r : InputRecord)
    → goes_before q r ≡ false
    → (lt64 r.priority q.priority ≡ false)
      × (q.priority ≡ r.priority → lt64 q.enqueue_seq r.enqueue_seq ≡ false)
unfolding goes_before
not_before-order q r h = (ground arith, λ e. ground arith)

-- From a store s whose rows stand under their ids, a successful claim takes an input r of a store t.
-- It writes r back as claimed by the owner and the token of the fence, until the claim's end but no
-- longer than the lease, with one more attempt and no error, and otherwise as it was, and writes
-- nothing else. The store t has the leases and counters of s and its turns, developed as any step may
-- develop them. It has every input of s, as it was or dead of its attempts, and no others. The input r
-- waited, was available, and belongs to the fence's session. Either it was started already, or no
-- input of the session is started and no candidate has a higher priority, nor the same priority and
-- a lower sequence number.
pub claim_next_takes_head :
    (c : Codec) (o : ClaimOptions) (clock : Clock) (s s' : Store) (r' : InputRecord)
    → Keyed s
    → claim_next c o clock s ≡ some (s', ok r')
    → (t : Store) × (r : InputRecord) × (lease : RuntimeLease) × Keeps s t
      × InputsStay o s t
      × (validate_fence o.fence clock.now s ≡ ok lease)
      × Has t.inputs r.input_id r
      × (is_waiting r.status ≡ true)
      × (r.available_at ≤ clock.now)
      × (r.session_id ≡ o.fence.session_id)
      × (r' ≡ record r {
        status = claimed;
        claim_owner = o.fence.owner_id;
        claim_fence = o.fence.fence_token;
        lease_until = some (capped_lease_until clock.now o.claim_ttl lease.lease_until);
        attempts = add64 r.attempts 1;
        updated_at = clock.now;
        error_code = "";
        error_message = "";
      })
      × (s' ≡ put_input r' t)
      × ((is_started r ≡ true)
          ⊎ ((k : String) (q : InputRecord)
              → Has t.inputs k q
              → q.session_id ≡ o.fence.session_id
              → (is_started q ≡ false)
                × (is_candidate o.fence.session_id clock.now q ≡ true
                    → (lt64 r.priority q.priority ≡ false)
                      × (q.priority ≡ r.priority → lt64 q.enqueue_seq r.enqueue_seq ≡ false))))
unfolding claimed_record started_head
claim_next_takes_head c o clock s s' r' v h =
    let (t, r, lease, k, stay, n, fenced, e, put) =
      subst (ClaimKeeps o clock.now s) h (claim_next-Keeps c o clock s v) in
    (
      t,
      r,
      lease,
      k,
      stay,
      fenced,
      n.0,
      n.1,
      n.2,
      n.3,
      e,
      put,
      elim n.4 [
        | inl head ↦ inl (started_head-found o.fence.session_id t r k.keyed head).1.1
        | inr (nobody, first) ↦ inr λ j q here same. (
          started_head_from-none o.fence.session_id t.inputs j q nobody here same,
          λ candidate. not_before-order q r (
              subst (NotBefore q) first (
                first_candidate_from-first o.fence.session_id clock.now none t.inputs j q here
                  candidate)),
        )
      ],
    )
