-- ===== src/SessionRuntime/Lifecycle/Development.antt =====
-- A step either keeps the rows of a store, or claims, or lets an input in, or writes a lease.
use dora_agent.Base.{
  Bool-cases, Codec, Has, Option, Option-cases, Result, Result-cases, String, add64, ap, err, false,
  inl, inr, insert, is_blank, lookup, none, ok, refl, some, true, ℕ, ◌≡◌, ◌⊎◌,
}
use dora_agent.SessionRuntime.Fences.LeaseWrites.{
  LeasesTo, acquire_lease-LeasesTo, handoff_lease-LeasesTo, release_lease-LeasesTo,
  renew_lease-LeasesTo,
}
use dora_agent.SessionRuntime.Lifecycle.Claim.{ClaimKeeps, claim_next-Keeps}
use dora_agent.SessionRuntime.Lifecycle.EndingSteps.{
  commit_turn-Keeps, dead_turn-Keeps, retry_turn_at-Keeps, wait_for_interrupt-Keeps,
}
use dora_agent.SessionRuntime.Lifecycle.Keeps.{Keeps, Keeps-refl, Keyed}
use dora_agent.SessionRuntime.Lifecycle.LaneSteps.{
  dead_input-Keeps, mark_input_running-Keeps, resolve_input-Keeps, retry_input-Keeps,
}
use dora_agent.SessionRuntime.Lifecycle.RecoverySteps.{recover_expired_inputs-Keeps}
use dora_agent.SessionRuntime.Lifecycle.Rules.{KeepsOk}
use dora_agent.SessionRuntime.Lifecycle.TurnSteps.{
  begin_turn-Keeps, freeze_turn_context_from_inputs-Keeps, freeze_turn_context_message_seq-Keeps,
  get_or_create_turn-Keeps, save_turn_checkpoint-Keeps, save_turn_output-Keeps,
}
use dora_agent.SessionRuntime.Models.Inputs.{SessionInput, encode_input}
use dora_agent.SessionRuntime.Models.Records.{ClaimOptions, Fence, InputRecord}
use dora_agent.SessionRuntime.Models.Status.{Error, is_held, is_waiting}
use dora_agent.SessionRuntime.Steps.{
  Op, acquires, after_claim, after_ok, begins, claims, commits, enqueues, freezes_at,
  freezes_from_inputs, gets_turn, hands_off, kills_input, kills_turn, marks_running, recovers,
  releases, renews, resolves, retries_input, retries_turn, saves_checkpoint, saves_output, step,
  waits,
}
use dora_agent.SessionRuntime.Store.Claims.{claim_next, claimed_record, started_head}
use dora_agent.SessionRuntime.Store.Lane.{
  admit_input, enqueue_input, replay_input, replay_source, requested_record,
}
use dora_agent.SessionRuntime.Store.Leases.{
  acquire_lease, handoff_lease, release_lease, renew_lease,
}
use dora_agent.SessionRuntime.Store.State.{
  Clock, Store, input_source_identity, put_input, same_input,
}

-- What a step does to the rows.
pub data Develops (s : Store) : Store → Type 0 where
  keeps : {s' : Store} → Keeps s s' → Develops s s'
  -- The next input r of a kept store t is claimed.
  claims_next :
      {s' : Store} (t : Store) (r r' : InputRecord) (session_id : String)
      → Keeps s t
      → Has t.inputs r.input_id r
      → is_waiting r.status ≡ true
      → r'.input_id ≡ r.input_id
      → r'.session_id ≡ r.session_id
      → r'.enqueue_seq ≡ r.enqueue_seq
      → r'.attempts ≡ add64 r.attempts 1
      → r.session_id ≡ session_id
      → (started_head session_id t ≡ some r) ⊎ (started_head session_id t ≡ none)
      → s' ≡ put_input r' t
      → Develops s s'
  -- An input with a new id and no attempt is let in.
  lets_in :
      {s' : Store} (r : InputRecord)
      → r.attempts ≡ 0
      → is_held r.status ≡ false
      → s'.inputs ≡ insert r.input_id r s.inputs
      → s'.turns ≡ s.turns
      → s'.leases ≡ s.leases
      → Develops s s'
  writes_lease :
      {s' : Store} → s'.inputs ≡ s.inputs → s'.turns ≡ s.turns → LeasesTo s s' → Develops s s'

module _ (s : Store) (v : Keyed s) where
  pub keeps_ok :
      {A : Type 0} (r : Result Error (Store × A)) → KeepsOk s r → Develops s (after_ok s r)
  keeps_ok (ok p) k = keeps k
  keeps_ok (err e) k = keeps (Keeps-refl s v)

  pub claim-Develops :
      (o : ClaimOptions) (now : ℕ) (x : Option (Store × Result Error InputRecord))
      → ClaimKeeps o now s x
      → Develops s (after_claim s x)
  unfolding claimed_record
  claim-Develops o now none k = absurd k
  claim-Develops o now (some (s', err e)) k = keeps k
  claim-Develops o now (some (s', ok r')) (t, r, lease, k, _, n, _, e, put) =
      claims_next t r r' o.fence.session_id k n.0 n.1 (ap (λ x. x.input_id) e)
        (ap (λ x. x.session_id) e) (ap (λ x. x.enqueue_seq) e) (ap (λ x. x.attempts) e) n.3
        (elim n.4 [ inl h ↦ inl h | inr h ↦ inr h.0 ]) put

  acquire-Develops :
      (session owner : String) (ttl : ℕ) (clock : Clock)
      → Develops s (after_ok s (acquire_lease session owner ttl clock s))
  acquire-Develops session owner ttl clock =
      elim (Result-cases (acquire_lease session owner ttl clock s)) [
        | inl (x, e) ↦ rw e (keeps (Keeps-refl s v))
        | inr (p, e) ↦
            let (i, t, n) = acquire_lease-LeasesTo session owner ttl clock s p.0 p.1 e in
            rw e (writes_lease i t n)
      ]

  renew-Develops :
      (fence : Fence) (ttl : ℕ) (clock : Clock)
      → Develops s (after_ok s (renew_lease fence ttl clock s))
  renew-Develops fence ttl clock = elim (Result-cases (renew_lease fence ttl clock s)) [
    | inl (x, e) ↦ rw e (keeps (Keeps-refl s v))
    | inr (p, e) ↦
        let (i, t, n) = renew_lease-LeasesTo fence ttl clock s p.0 p.1 e in
        rw e (writes_lease i t n)
  ]

  handoff-Develops :
      (fence : Fence) (owner : String) (ttl : ℕ) (clock : Clock)
      → Develops s (after_ok s (handoff_lease fence owner ttl clock s))
  handoff-Develops fence owner ttl clock =
      elim (Result-cases (handoff_lease fence owner ttl clock s)) [
        | inl (x, e) ↦ rw e (keeps (Keeps-refl s v))
        | inr (p, e) ↦
            let (i, t, n) = handoff_lease-LeasesTo fence owner ttl clock s p.0 p.1 e in
            rw e (writes_lease i t n)
      ]

  release-Develops :
      (fence : Fence) (clock : Clock) → Develops s (after_ok s (release_lease fence clock s))
  release-Develops fence clock = elim (Result-cases (release_lease fence clock s)) [
    | inl (x, e) ↦ rw e (keeps (Keeps-refl s v))
    | inr (p, e) ↦
        let (i, t, n) = release_lease-LeasesTo fence clock s p.0 p.1 e in rw e (writes_lease i t n)
  ]

  replay-Develops :
      (c : Codec) (existing wanted : InputRecord)
      → Develops s (after_ok s (replay_input c existing wanted s))
  unfolding replay_input
  replay-Develops c existing wanted = elim (Bool-cases (same_input c existing wanted)) [
    | inl e ↦ rw e (keeps (Keeps-refl s v))
    | inr e ↦ rw e (keeps (Keeps-refl s v))
  ]

  replay_source-Develops :
      (c : Codec) (o : Option InputRecord) (wanted : InputRecord)
      → Develops s (after_ok s (replay_source c o wanted s))
  unfolding replay_source
  replay_source-Develops c none wanted = keeps (Keeps-refl s v)
  replay_source-Develops c (some existing) wanted = replay-Develops c existing wanted

  admit-Develops :
      (c : Codec) (wanted : InputRecord) (now : ℕ)
      → wanted.attempts ≡ 0
      → Develops s (after_ok s (admit_input c wanted now s))
  unfolding admit_input
  admit-Develops c wanted now fresh = elim (Option-cases (lookup wanted.input_id s.inputs)) [
    | inr (existing, e) ↦ rw (e, admit_input) (replay-Develops c existing wanted)
    | inl e ↦ elim (Option-cases (lookup source_key s.input_sources)) [
      | inr (id, f) ↦ rw (e, f, admit_input) (replay_source-Develops c (lookup id s.inputs) wanted)
      | inl f ↦ rw (e, f, admit_input) (lets_in _ fresh refl refl refl refl)
    ]
  ]
    where
      source_key : String
      source_key = input_source_identity wanted.session_id wanted.input_type wanted.source_id

  pub enqueue-Develops :
      (c : Codec) (session : String) (input : Option SessionInput) (clock : Clock)
      → Develops s (after_ok s (enqueue_input c session input clock s))
  unfolding enqueue_input requested_record
  enqueue-Develops c session input clock = elim (Bool-cases (is_blank session)) [
    | inl e ↦ rw e (keeps (Keeps-refl s v))
    | inr e ↦ rw e (elim (Result-cases (encode_input c input)) [
      | inl (x, f) ↦ rw f (keeps (Keeps-refl s v))
      | inr (p, f) ↦ rw f (admit-Develops c _ clock.now refl)
    ])
  ]

  -- Every operation develops the store so.
  pub step-Develops : (c : Codec) (t : Clock) (op : Op) → Develops s (step c t op s)
  unfolding step
  step-Develops c t (enqueues session input) = enqueue-Develops c session input t
  step-Develops c t (claims o) =
      claim-Develops o t.now (claim_next c o t s) (claim_next-Keeps c o t s v)
  step-Develops c t (marks_running f id ttl) = keeps_ok _ (mark_input_running-Keeps t s v f id ttl)
  step-Develops c t (retries_input f id at failure) =
      keeps_ok _ (retry_input-Keeps t s v f id at failure)
  step-Develops c t (resolves f id) = keeps_ok _ (resolve_input-Keeps t s v f id)
  step-Develops c t (kills_input f id failure) = keeps_ok _ (dead_input-Keeps t s v f id c failure)
  step-Develops c t (recovers f) = keeps_ok _ (recover_expired_inputs-Keeps f t s v)
  step-Develops c t (acquires session owner ttl) = acquire-Develops session owner ttl t
  step-Develops c t (renews f ttl) = renew-Develops f ttl t
  step-Develops c t (hands_off f owner ttl) = handoff-Develops f owner ttl t
  step-Develops c t (releases f) = release-Develops f t
  step-Develops c t (gets_turn f id spec) = keeps_ok _ (get_or_create_turn-Keeps c t s v f id spec)
  step-Develops c t (begins f id) = keeps_ok _ (begin_turn-Keeps c t s v f id)
  step-Develops c t (freezes_at f id seq) =
      keeps_ok _ (freeze_turn_context_message_seq-Keeps c t s v f id seq)
  step-Develops c t (freezes_from_inputs f id) =
      keeps_ok _ (freeze_turn_context_from_inputs-Keeps c t s v f id)
  step-Develops c t (saves_checkpoint f id checkpoint) =
      keeps_ok _ (save_turn_checkpoint-Keeps c t s v f id checkpoint)
  step-Develops c t (saves_output f id payload digest) =
      keeps_ok _ (save_turn_output-Keeps c t s v f id payload digest)
  step-Develops c t (waits f id checkpoint) =
      keeps_ok _ (wait_for_interrupt-Keeps t s v f id checkpoint)
  step-Develops c t (retries_turn f id at failure) =
      keeps_ok _ (retry_turn_at-Keeps t s v f id at failure)
  step-Develops c t (commits f id digest) = keeps_ok _ (commit_turn-Keeps t s v f id digest)
  step-Develops c t (kills_turn f id failure) = keeps_ok _ (dead_turn-Keeps c t s v f id failure)
