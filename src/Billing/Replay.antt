-- ===== src/Billing/Replay.antt =====
-- A mutation sent again under its idempotency key, in internal/aigc/billing/memory_store.go.
use dora_agent.Base.{
  Has, String, String_discrete, Table, [], ap, arith, inl, inr, lookup, lookup-insert_self, none,
  ok, refl, some, str_eq, str_eq_refl, subst, sym, trim_space, trim_space_idem, true, ℕ, ◌∙◌, ◌∷◌,
  ◌≡◌,
}
use dora_agent.Billing.Balance.{mutate-cases, mutate-valid, mutate_duplicate-key}
use dora_agent.Billing.Models.{
  Kind, MutationRequest, MutationResult, Transaction, all_in, equal_breakdown, kind_charge,
  kind_credit, kind_eq, kind_refund, normalize_mutation_request, replay_field,
  validate_idempotent_replay, validate_request,
}
use dora_agent.Billing.Store.{
  MemoryStore, mutate, mutate_or_replay, new_transaction, replay_mutation,
}

-- No key stands twice, as in a Go map.
abbrev pub DistinctKeys : Table ℕ → Type 0
DistinctKeys [] = Unit {0}
DistinctKeys ((k, v) ∷ m) = (lookup k m ≡ none) × DistinctKeys m

lookup_distinct :
    (m : Table ℕ) (k : String) (v : ℕ) → DistinctKeys m → Has m k v → lookup k m ≡ some v
unfolding lookup
lookup_distinct [] k v d h = absurd h
lookup_distinct ((j, w) ∷ m) k v d (inl (a, b)) = ground arith
lookup_distinct ((j, w) ∷ m) k v d (inr h) =
    let below = lookup_distinct m k v d.1 h in
    elim (String_discrete j k) [ yes p ↦ cc (below, d.0, p) | no p ↦ ground arith ]

all_in_intro :
    (left right : Table ℕ)
    → ((k : String) (v : ℕ) → Has left k v → lookup k right ≡ some v)
    → all_in left right ≡ true
unfolding all_in
all_in_intro [] right h = refl
all_in_intro ((k, v) ∷ left) right h =
    let here = h k v (inl (refl, refl)) in
    let rest = all_in_intro left right (λ j w g. h j w (inr g)) in ground arith

equal_breakdown_refl : (m : Table ℕ) → DistinctKeys m → equal_breakdown m m ≡ true
unfolding equal_breakdown
equal_breakdown_refl m d =
    let all = all_in_intro m m (λ k v h. lookup_distinct m k v d h) in ground arith

own_field : (x : String) → str_eq (trim_space (trim_space x)) (trim_space x) ≡ true
own_field x = rw (trim_space_idem x) (str_eq_refl (trim_space x))

own_kind : (kind : Kind) → kind_eq kind kind ≡ true
own_kind kind_credit = refl
own_kind kind_charge = refl
own_kind kind_refund = refl

-- A request agrees with the transaction that it wrote.
own_replay :
    (r : MutationRequest) (kind : Kind) (delta balance now : ℕ)
    → DistinctKeys r.breakdown
    → validate_idempotent_replay (new_transaction r kind delta balance now) kind r ≡ ok tt
unfolding validate_idempotent_replay replay_field new_transaction normalize_mutation_request
own_replay r kind delta balance now d =
    rw
      (
        own_kind kind,
        own_field r.user_id,
        own_field r.reference_id,
        own_field r.operation_id,
        own_field r.batch_id,
        own_field r.job_id,
        equal_breakdown_refl r.breakdown d,
      )
      (ground arith)

known_key :
    (request : MutationRequest) (kind : Kind) (now now' : ℕ) (s : MemoryStore) (id : String)
    → lookup (trim_space request.idempotency_key) s.by_key ≡ some id
    → mutate request kind now' s ≡ mutate request kind now s
unfolding mutate mutate_or_replay normalize_mutation_request
known_key request kind now now' s id e = rw e refl

replay_row :
    (kind : Kind) (r : MutationRequest) (s : MemoryStore) (x : Transaction)
    → validate_idempotent_replay x kind r ≡ ok tt
    → replay_mutation (some x) kind r s ≡ ok (s, record { transaction = x; duplicate = true })
unfolding replay_mutation
replay_row kind r s x h = rw h refl

-- A key that stands for a transaction which the request agrees with.
found_again :
    (request : MutationRequest) (kind : Kind) (now : ℕ) (s : MemoryStore) (id : String)
    (x : Transaction)
    → validate_request (normalize_mutation_request request) kind ≡ ok tt
    → lookup (trim_space request.idempotency_key) s.by_key ≡ some id
    → lookup id s.transactions ≡ some x
    → validate_idempotent_replay x kind (normalize_mutation_request request) ≡ ok tt
    → mutate request kind now s ≡ ok (s, record { transaction = x; duplicate = true })
unfolding mutate mutate_or_replay normalize_mutation_request
found_again request kind now s id x v e f same =
    rw (v, e, f) (replay_row kind (normalize_mutation_request request) s x same)

-- A mutation is idempotent: after a successful one, the same request at any time returns the same
-- transaction, says that it is a duplicate, and leaves the store as it is. No key stands twice in the
-- request's breakdown, as in a Go map.
pub mutate_idempotent :
    (request : MutationRequest) (kind : Kind) (now now' : ℕ) (s s' : MemoryStore)
    (result : MutationResult)
    → DistinctKeys request.breakdown
    → mutate request kind now s ≡ ok (s', result)
    → mutate request kind now' s'
      ≡ ok (s', record { transaction = result.transaction; duplicate = true })
unfolding new_transaction normalize_mutation_request
mutate_idempotent request kind now now' s s' result d h =
    elim (mutate-cases request kind now s s' result h) [
      | inl (same, again) ↦
          let (id, e) = mutate_duplicate-key request kind now s s' result h again in
          subst
            (λ x.
              mutate request kind now' x
              ≡ ok (x, record { transaction = result.transaction; duplicate = true }))
            (sym same) (known_key request kind now now' s id e ∙ h ∙ cc (same, again))
      | inr m ↦
          let tx = result.transaction in
          let id : tx.id ≡ trim_space (trim_space request.transaction_id) =
            ap (λ x. x.id) m.transaction in
          let key : tx.idempotency_key ≡ trim_space request.idempotency_key =
            ap (λ x. x.idempotency_key) m.transaction ∙ trim_space_idem request.idempotency_key in
          found_again request kind now' s' tx.id tx (mutate-valid request kind now s s' result h)
            (subst (λ k. lookup k s'.by_key ≡ some tx.id) key
              (rw m.written (lookup-insert_self tx.idempotency_key tx.id s.by_key)))
            (rw m.written (lookup-insert_self tx.id tx s.transactions))
            (subst
              (λ x. validate_idempotent_replay x kind (normalize_mutation_request request) ≡ ok tt)
              (sym m.transaction) (own_replay (normalize_mutation_request request) kind _ _ now d))
    ]
