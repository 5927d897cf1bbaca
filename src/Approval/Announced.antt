-- ===== src/Approval/Announced.antt =====
-- The outbox of internal/aigc/approval/memory_store.go keeps the events that it has.
use dora_agent.Approval.Models.{ApprovalOutbox}
use dora_agent.Approval.State.{ApprovalStore, put_outbox}
use dora_agent.Base.{
  Option-cases, String, String_discrete, ap, arith, found_before, inl, inr, insert, lookup,
  lookup-insert, lookup-insert_kept, lookup-insert_self, none, some, sym, ◌∙◌, ◌≡◌,
}

-- An event under this key is in the outbox, of this type and for this aggregate.
abbrev pub Announced : ApprovalStore → String → String → String → Type 0
Announced s key event_type aggregate_id =
    (id : String) × (e : ApprovalOutbox) × (lookup key s.outbox_by_key ≡ some id)
    × (lookup id s.outbox ≡ some e)
    × (e.event_type ≡ event_type)
    × (e.aggregate_id ≡ aggregate_id)

pub Announced-at :
    (s : ApprovalStore) {k k' t t' g g' : String}
    → k ≡ k'
    → t ≡ t'
    → g ≡ g'
    → Announced s k t g
    → Announced s k' t' g'
Announced-at s p q r (id, e, f, h, i, j) =
    (id, e, ap (λ k. lookup k s.outbox_by_key) (sym p) ∙ f, h, i ∙ q, j ∙ r)

-- The rows of the outbox stand under their ids, which are keys that the index has.
abbrev pub IsIndexed : ApprovalStore → Type 0
IsIndexed s =
    (id : String) (e : ApprovalOutbox)
    → lookup id s.outbox ≡ some e
    → (e.id ≡ id) × ((j : String) × (lookup id s.outbox_by_key ≡ some j))

-- The outbox stays indexed, and what was announced stays so.
pub record OutboxTo (s s' : ApprovalStore) : Type 0 where
  pub indexed : IsIndexed s → IsIndexed s'
  pub announced :
      IsIndexed s
      → (key event_type aggregate_id : String) → Announced s key event_type aggregate_id
      → Announced s' key event_type aggregate_id

pub OutboxTo-same :
    (s s' : ApprovalStore)
    → s'.outbox ≡ s.outbox
    → s'.outbox_by_key ≡ s.outbox_by_key
    → OutboxTo s s'
OutboxTo-same s s' rows keys = record {
  indexed = λ v id e h.
      let (own, (j, f)) = v id e (ap (lookup id) (sym rows) ∙ h) in
      (own, (j, ap (lookup id) keys ∙ f));
  announced = λ v key t g (id, e, f, h, i, j).
      (id, e, ap (lookup key) keys ∙ f, ap (lookup id) rows ∙ h, i, j);
}

-- A row changes in what is not its id, its type and its aggregate.
pub OutboxTo-changed :
    (s : ApprovalStore) (id at : String) (e e' : ApprovalOutbox)
    → lookup id s.outbox ≡ some e
    → (IsIndexed s → at ≡ id)
    → (e'.id ≡ e.id) × (e'.event_type ≡ e.event_type) × (e'.aggregate_id ≡ e.aggregate_id)
    → OutboxTo s (record s { outbox = insert at e' s.outbox })
OutboxTo-changed s id at e e' found place (same_id, same_type, same_aggregate) = record {
  indexed = λ v k x h. elim (found_before at k e' x s.outbox h) [
    | inl (p, q) ↦
        let (own, (j, f)) = v id e found in
        let there : id ≡ k = sym (place v) ∙ p in
        (
          ap (λ (y : ApprovalOutbox). y.id) (sym q) ∙ same_id ∙ own ∙ there,
          (j, ap (λ y. lookup y s.outbox_by_key) (sym there) ∙ f),
        )
    | inr (old, n) ↦ v k x old
  ];
  announced = λ v key t g (i, x, f, h, type_is, aggregate_is). elim (String_discrete at i) [
    | yes p ↦
        let x_is : x ≡ e = cc (sym (place v) ∙ p, found, h) in
        (
          i,
          e',
          f,
          ap (λ y. lookup y (insert at e' s.outbox)) (sym p) ∙ lookup-insert_self at e' s.outbox,
          same_type ∙ ap (λ (y : ApprovalOutbox). y.event_type) (sym x_is) ∙ type_is,
          same_aggregate ∙ ap (λ (y : ApprovalOutbox). y.aggregate_id) (sym x_is) ∙ aggregate_is,
        )
    | no n ↦ (i, x, f, ground (arith, lookup-insert at i e' s.outbox) ∙ h, type_is, aggregate_is)
  ];
}

-- A row under a key that is new, where ids are keys.
pub put_outbox-OutboxTo :
    (s : ApprovalStore) (event : ApprovalOutbox)
    → lookup event.idempotency_key s.outbox_by_key ≡ none
    → event.id ≡ event.idempotency_key
    → OutboxTo s (put_outbox event s)
put_outbox-OutboxTo s event fresh id_is = record {
  indexed = λ v k x h. elim (found_before event.id k event x s.outbox h) [
    | inl (p, q) ↦ (
      ap (λ (y : ApprovalOutbox). y.id) (sym q) ∙ p,
      (
        event.id,
        ap (λ y. lookup y (insert event.idempotency_key event.id s.outbox_by_key))
              (sym (sym id_is ∙ p))
            ∙ lookup-insert_self event.idempotency_key event.id s.outbox_by_key,
      ),
    )
    | inr (old, n) ↦
        let (own, (j, f)) = v k x old in
        (own, (j, lookup-insert_kept event.idempotency_key k event.id j s.outbox_by_key fresh f))
  ];
  announced = λ v key t g (i, x, f, h, type_is, aggregate_is). (
    i,
    x,
    lookup-insert_kept event.idempotency_key key event.id i s.outbox_by_key fresh f,
    lookup-insert_kept event.id i event x s.outbox (no_row v) h,
    type_is,
    aggregate_is,
  );
}
  where
    no_row : IsIndexed s → lookup event.id s.outbox ≡ none
    no_row v = elim (Option-cases (lookup event.id s.outbox)) [
      | inl n ↦ n
      | inr (e, found) ↦
          let (own, (j, f)) = v event.id e found in
          cc (ap (λ y. lookup y s.outbox_by_key) (sym id_is), fresh, f)
    ]
