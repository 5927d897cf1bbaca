-- ===== src/Approval/Effects.antt =====
-- What each operation of internal/aigc/approval/memory_store.go does to the approvals, the decisions,
-- the continuations and the keys of the outbox.
use dora_agent.Approval.Announced.{Announced, OutboxTo, OutboxTo-same, put_outbox-OutboxTo}
use dora_agent.Approval.Commands.{DecisionRequest}
use dora_agent.Approval.Models.{
  Approval, ApprovalOutbox, approval_key_conflict, is_pending_approval, is_primary_review_approval,
  review_eq, review_interrupt,
}
use dora_agent.Approval.Modes.{
  decided_continuation, fallen_back_approval, hand_over_continuation, put_handed_over,
}
use dora_agent.Approval.Outboxes.{Prepared, new_fallback_outbox, prepare_decision}
use dora_agent.Approval.State.{
  ApprovalStore, append_outbox, append_to_outbox, continuation_key, find_primary_review,
  known_outbox, put_outbox, same_outbox,
}
use dora_agent.Approval.Store.{put_approval, put_decision}
use dora_agent.Base.{
  >>=-eq-ok, Codec, Option, Option-cases, String, Table, arith, inl, inr, insert, lookup,
  lookup-insert_self, none, ok, refl, require, required, some, str_eq_sound, subst, sym, true, ℕ,
  ◌∙◌, ◌≡◌,
}
use dora_agent.SessionRuntime.Models.Records.{Continuation}

-- None of these tables changed, and the outbox keeps its events.
pub record Quiet (s s' : ApprovalStore) : Type 0 where
  pub approvals : s'.approvals ≡ s.approvals
  pub decisions : s'.decisions ≡ s.decisions
  pub decision_keys : s'.decision_by_key ≡ s.decision_by_key
  pub continuations : s'.continuations ≡ s.continuations
  pub outbox : OutboxTo s s'

pub Quiet-refl : (s : ApprovalStore) → Quiet s s
Quiet-refl s = record {
  approvals = refl;
  decisions = refl;
  decision_keys = refl;
  continuations = refl;
  outbox = OutboxTo-same _ _ refl refl;
}

pub outbox_rows-Quiet :
    (rows : Table ApprovalOutbox) (s : ApprovalStore)
    → OutboxTo s (record s { outbox = rows })
    → Quiet s (record s { outbox = rows })
outbox_rows-Quiet rows s to = record {
  approvals = refl;
  decisions = refl;
  decision_keys = refl;
  continuations = refl;
  outbox = to;
}

-- The approval x is written under its id, and the other tables stay.
pub record Written (x : Approval) (s s' : ApprovalStore) : Type 0 where
  pub approvals : s'.approvals ≡ insert x.id x s.approvals
  pub decisions : s'.decisions ≡ s.decisions
  pub decision_keys : s'.decision_by_key ≡ s.decision_by_key
  pub continuations : s'.continuations ≡ s.continuations
  pub outbox : OutboxTo s s'

pub put_approval-Written : (x : Approval) (s : ApprovalStore) → Written x s (put_approval x s)
put_approval-Written x s = record {
  approvals = refl;
  decisions = refl;
  decision_keys = refl;
  continuations = refl;
  outbox = OutboxTo-same _ _ refl refl;
}

abbrev pub IsPending : Approval → Type 0
IsPending a = (is_pending_approval a.status ≡ true) × (a.decision_version ≡ 0)

-- A new approval, with which a session has one primary review at most.
abbrev pub Opened : ApprovalStore → ApprovalStore → Type 0
Opened s s' =
    (x : Approval) × (lookup x.id s.approvals ≡ none)
    × IsPending x
    × (is_primary_review_approval x ≡ true → find_primary_review x.session_id s.approvals ≡ none)
    × Written x s s'

abbrev pub bound_approval : Approval → String → ℕ → ℕ → Approval
bound_approval a mapping epoch now = record a {
  checkpoint_mapping_id = mapping;
  mapping_epoch = epoch;
  updated_at = now;
}

abbrev pub Bound : ApprovalStore → ApprovalStore → Type 0
Bound s s' =
    (key : String) × (a : Approval) × (mapping : String) × (epoch : ℕ) × (now : ℕ) × (lookup key
        s.approvals
      ≡ some a)
    × (is_pending_approval a.status ≡ true)
    × Written (bound_approval a mapping epoch now) s s'

-- The outbox has an event under the key of this one, of its type and aggregate, and has kept what it
-- had; the other tables stay.
pub record OutboxGrown (event : ApprovalOutbox) (s s' : ApprovalStore) : Type 0 where
  pub approvals : s'.approvals ≡ s.approvals
  pub decisions : s'.decisions ≡ s.decisions
  pub decision_keys : s'.decision_by_key ≡ s.decision_by_key
  pub continuations : s'.continuations ≡ s.continuations
  pub outbox : event.id ≡ event.idempotency_key → OutboxTo s s'
  pub there : Announced s' event.idempotency_key event.event_type event.aggregate_id

abbrev pub Decided : Codec → ApprovalStore → ApprovalStore → Type 0
Decided c s s' =
    (a : Approval) × (r : DecisionRequest) × (p : Prepared) × (s₁ : ApprovalStore) × (lookup
        r.approval_id s.approvals
      ≡ some a)
    × (lookup r.idempotency_key s.decision_by_key ≡ none)
    × (prepare_decision c a r ≡ ok p)
    × (lookup (continuation_key p.approval.id p.approval.decision_version) s.decisions ≡ none)
    × OutboxGrown p.outbox s s₁
    × (s' ≡ put_decision (continuation_key p.approval.id p.approval.decision_version) p s₁)

abbrev pub Switched : Codec → ApprovalStore → ApprovalStore → Type 0
Switched c s s' =
    (key : String) × (given : Approval) × (now : ℕ) × (current : Option Continuation) × (k : Option
      Continuation)
    × (event : ApprovalOutbox) × (s₁ : ApprovalStore) × (lookup key s.approvals ≡ some given)
    × (review_eq given.review_mode review_interrupt ≡ true)
    × (decided_continuation (fallen_back_approval now given) s ≡ ok current)
    × (hand_over_continuation current (fallen_back_approval now given) now ≡ ok k)
    × (new_fallback_outbox c (fallen_back_approval now given) k now ≡ ok event)
    × OutboxGrown event s s₁
    × (s'
        ≡ put_approval (fallen_back_approval now given)
            (put_handed_over k (fallen_back_approval now given) s₁))

-- What an operation did.
pub data Effect (c : Codec) (s s' : ApprovalStore) : Type 0 where
  effect_quiet : Quiet s s' → Effect c s s'
  effect_opened : Opened s s' → Effect c s s'
  effect_bound : Bound s s' → Effect c s s'
  effect_decided : Decided c s s' → Effect c s s'
  effect_switched : Switched c s s' → Effect c s s'

-- An event that is known has a row of its type and aggregate.
known_outbox-facts :
    (found : Option ApprovalOutbox) (event : ApprovalOutbox) (s s₁ : ApprovalStore)
    → known_outbox found event s ≡ ok s₁
    → (s ≡ s₁)
      × ((e : ApprovalOutbox) × (found ≡ some e)
          × (e.event_type ≡ event.event_type)
          × (e.aggregate_id ≡ event.aggregate_id))
unfolding known_outbox
known_outbox-facts none event s s₁ h = cc h
known_outbox-facts (some existing) event s s₁ h =
    let (u, e, q) = >>=-eq-ok (require (same_outbox existing event) approval_key_conflict) _ h in
    let same = required _ _ u e in
    (cc q, (existing, refl, str_eq_sound _ _ (ground arith), str_eq_sound _ _ (ground arith)))

new_key-Grown :
    (event : ApprovalOutbox) (s s₁ : ApprovalStore)
    → lookup event.idempotency_key s.outbox_by_key ≡ none
    → append_to_outbox none event s ≡ ok s₁
    → OutboxGrown event s s₁
unfolding append_to_outbox
new_key-Grown event s s₁ e h =
    let q : put_outbox event s ≡ s₁ = cc h in
    subst (OutboxGrown event s) q (record {
      approvals = refl;
      decisions = refl;
      decision_keys = refl;
      continuations = refl;
      outbox = put_outbox-OutboxTo s event e;
      there = (
        event.id,
        event,
        lookup-insert_self event.idempotency_key event.id s.outbox_by_key,
        lookup-insert_self event.id event s.outbox,
        refl,
        refl,
      );
    })

known_key-Grown :
    (event : ApprovalOutbox) (s s₁ : ApprovalStore) (id : String)
    → lookup event.idempotency_key s.outbox_by_key ≡ some id
    → append_to_outbox (some id) event s ≡ ok s₁
    → OutboxGrown event s s₁
unfolding append_to_outbox
known_key-Grown event s s₁ id e h =
    let (q, (row, found, t, g)) = known_outbox-facts (lookup id s.outbox) event s s₁ h in
    subst (OutboxGrown event s) q (record {
      approvals = refl;
      decisions = refl;
      decision_keys = refl;
      continuations = refl;
      outbox = λ _. OutboxTo-same s s refl refl;
      there = (id, row, e, found, t, g);
    })

pub append_outbox-Grown :
    (event : ApprovalOutbox) (s s₁ : ApprovalStore)
    → append_outbox event s ≡ ok s₁
    → OutboxGrown event s s₁
unfolding append_outbox
append_outbox-Grown event s s₁ h =
    elim (Option-cases (lookup event.idempotency_key s.outbox_by_key)) [
      | inl e ↦ new_key-Grown event s s₁ e (sym (rw e refl) ∙ h)
      | inr (id, e) ↦ known_key-Grown event s s₁ id e (sym (rw e refl) ∙ h)
    ]
