-- ===== src/Billing/Runs.antt =====
-- Sequences of operations on the store of internal/aigc/billing/memory_store.go, and its refunds.
use dora_agent.Base.{
  Bool-cases, Has, List, Option, Result, String, [], add64, arith, err, false, half, inl, inr,
  is_blank, lookup, lt64, none, not, ok, refl, some, subst, sym, trim_space, true, ℕ, ◌&&◌, ◌+◌,
  ◌<◌, ◌∷◌, ◌≡◌, ◌≤◌, ◌⊎◌,
}
use dora_agent.Billing.Balance.{mutate-cases}
use dora_agent.Billing.Models.{
  Account, BillingError, Kind, MutationRequest, MutationResult, Transaction, is_charge, is_refund,
  kind_refund, normalize_mutation_request, validate_request,
}
use dora_agent.Billing.RefundSteps.{mutate-RefundsBounded}
use dora_agent.Billing.Refunds.{RefundsBounded, quarter, refund_total, refunded_from-refund_total}
use dora_agent.Billing.Store.{
  MemoryStore, check_mutation, ensure_account, is_charge_of, moved_account, mutate, mutate_account,
  mutate_or_replay, new_memory_store, new_transaction, opened_account, recorded,
}

pub data BillingOp : Type 0 where
  opens : String → ℕ → BillingOp
  mutates : MutationRequest → Kind → BillingOp

-- An error leaves the store.
abbrev pub stored : {A : Type 0} → MemoryStore → Result BillingError (MemoryStore × A) → MemoryStore
stored s (err e) = s
stored s (ok p) = p.0

unfoldable pub bill : ℕ → BillingOp → MemoryStore → MemoryStore
bill now (opens user initial) s = stored s (ensure_account user initial now s)
bill now (mutates request kind) s = stored s (mutate request kind now s)

unfoldable pub bills : List (ℕ × BillingOp) → MemoryStore → MemoryStore
bills [] s = s
bills ((now, op) ∷ ops) s = bills ops (bill now op s)

-- Each mutation moves less than 2 ^ 62 points, and has a new transaction id or a known key.
abbrev pub Orderly : List (ℕ × BillingOp) → MemoryStore → Type 0
Orderly [] s = Unit {0}
Orderly ((now, opens user initial) ∷ ops) s = Orderly ops (bill now (opens user initial) s)
Orderly ((now, mutates request kind) ∷ ops) s =
    (request.points < quarter)
    × ((lookup (trim_space request.transaction_id) s.transactions ≡ none)
        ⊎ ((id : String) × (lookup (trim_space request.idempotency_key) s.by_key ≡ some id)))
    × Orderly ops (bill now (mutates request kind) s)

opened_transactions :
    (m : Option Account) (user : String) (initial now : ℕ) (s : MemoryStore)
    → (opened_account m user initial now s).0.transactions ≡ s.transactions
opened_transactions none user initial now s = refl
opened_transactions (some a) user initial now s = refl

RefundsBounded-transactions :
    (s s' : MemoryStore) → s'.transactions ≡ s.transactions → RefundsBounded s → RefundsBounded s'
RefundsBounded-transactions s s' e v = record {
  small =
      subst (λ m. (k : String) (t : Transaction) → Has m k t → t.points < quarter) (sym e) v.small;
  bounded =
      subst
        (λ m.
          (k : String) (t : Transaction)
          → lookup k m ≡ some t
          → is_charge t.kind ≡ true
          → refund_total k m ≤ t.points)
        (sym e) v.bounded;
  named =
      subst
        (λ m.
          (k : String) (t : Transaction)
          → Has m k t
          → is_refund t.kind ≡ true
          → (x : Transaction) × (lookup t.reference_id m ≡ some x))
        (sym e) v.named;
}

opens-RefundsBounded :
    (user : String) (initial now : ℕ) (s : MemoryStore)
    → RefundsBounded s
    → RefundsBounded (bill now (opens user initial) s)
unfolding bill ensure_account
opens-RefundsBounded user initial now s v =
    elim (Bool-cases (not (is_blank user) && not (lt64 initial 0))) [
      | inl y ↦ rw y (
          RefundsBounded-transactions s _
            (opened_transactions (lookup (trim_space user) s.accounts) (trim_space user) initial now
              s)
            v)
      | inr n ↦ rw n v
    ]

stored-RefundsBounded :
    (s : MemoryStore) (m : Result BillingError (MemoryStore × MutationResult))
    → RefundsBounded s
    → ((s' : MemoryStore) (result : MutationResult) → m ≡ ok (s', result) → RefundsBounded s')
    → RefundsBounded (stored s m)
stored-RefundsBounded s (err e) v h = v
stored-RefundsBounded s (ok (s', result)) v h = h s' result refl

mutates-RefundsBounded :
    (request : MutationRequest) (kind : Kind) (now : ℕ) (s : MemoryStore)
    → RefundsBounded s
    → request.points < quarter
    → (lookup (trim_space request.transaction_id) s.transactions ≡ none)
      ⊎ ((id : String) × (lookup (trim_space request.idempotency_key) s.by_key ≡ some id))
    → RefundsBounded (bill now (mutates request kind) s)
unfolding bill
mutates-RefundsBounded request kind now s v w (inl fresh) =
    stored-RefundsBounded s (mutate request kind now s) v
      λ s' result h. mutate-RefundsBounded request kind now s s' result v w fresh h
mutates-RefundsBounded request kind now s v w (inr (id, known)) =
    stored-RefundsBounded s (mutate request kind now s) v λ s' result h.
      elim (mutate-cases request kind now s s' result h) [
        | inl (same, _) ↦ subst RefundsBounded (sym same) v
        | inr m ↦ cc (known, m.new_key)
      ]

bills-RefundsBounded :
    (ops : List (ℕ × BillingOp)) (s : MemoryStore)
    → RefundsBounded s
    → Orderly ops s
    → RefundsBounded (bills ops s)
unfolding bills
bills-RefundsBounded [] s v o = v
bills-RefundsBounded ((now, opens user initial) ∷ ops) s v o =
    bills-RefundsBounded ops _ (opens-RefundsBounded user initial now s v) o
bills-RefundsBounded ((now, mutates request kind) ∷ ops) s v (w, fresh, o) =
    bills-RefundsBounded ops _ (mutates-RefundsBounded request kind now s v w fresh) o

new_memory_store-RefundsBounded : RefundsBounded new_memory_store
unfolding new_memory_store lookup
new_memory_store-RefundsBounded = record {
  small = λ k t h. absurd h;
  bounded = λ k t h y. cc h;
  named = λ k t h y. absurd h;
}

-- After any operations on a new store, each of whose mutations moves less than 2 ^ 62 points and has
-- a new transaction id or a known idempotency key, the refunds that name a charge do not exceed its
-- points together.
pub refunds_within_charge :
    (ops : List (ℕ × BillingOp)) (k : String) (t : Transaction)
    → Orderly ops new_memory_store
    → lookup k (bills ops new_memory_store).transactions ≡ some t
    → is_charge t.kind ≡ true
    → refund_total k (bills ops new_memory_store).transactions ≤ t.points
refunds_within_charge ops k t o h y =
    (bills-RefundsBounded ops new_memory_store new_memory_store-RefundsBounded o).bounded k t h y

-- The sum that a refund is checked by wraps around: if the refunds so far and the new one come to
-- 2 ^ 63 or more, each below that, the refund is accepted, whatever the points of the charge.
pub overflowing_refund_accepted :
    (request : MutationRequest) (now : ℕ) (s : MemoryStore) (a : Account) (t : Transaction)
    → validate_request (normalize_mutation_request request) kind_refund ≡ ok tt
    → lookup (trim_space request.idempotency_key) s.by_key ≡ none
    → lookup (trim_space request.user_id) s.accounts ≡ some a
    → lookup (trim_space request.reference_id) s.transactions ≡ some t
    → is_charge_of (some t) (trim_space request.user_id) ≡ true
    → t.points < half
    → request.points < half
    → refund_total (trim_space request.reference_id) s.transactions < half
    → half ≤ refund_total (trim_space request.reference_id) s.transactions + request.points
    → (s' : MemoryStore) × (result : MutationResult) × (mutate request kind_refund now s
        ≡ ok (s', result))
      × (result.duplicate ≡ false)
unfolding mutate mutate_or_replay mutate_account check_mutation normalize_mutation_request
overflowing_refund_accepted request now s a t v new account charged own p q b o =
    let counted =
      refunded_from-refund_total (trim_space request.reference_id) 0 s.transactions (omega arith) in
    let passes : lt64 t.points
          (add64 (0 + refund_total (trim_space request.reference_id) s.transactions) request.points)
        ≡ false =
      ground arith in
    let r = normalize_mutation_request request in
    let a' = moved_account request.points now a in
    let tx = new_transaction r kind_refund request.points a'.balance now in
    (
      recorded r a' tx s,
      record { transaction = tx; duplicate = false },
      rw (v, new, account, charged, own, counted, passes) refl,
      refl,
    )
