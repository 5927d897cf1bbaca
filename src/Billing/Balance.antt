-- ===== src/Billing/Balance.antt =====
-- What a mutation of internal/aigc/billing/memory_store.go does to the balance of its account.
use dora_agent.Base.{
  >>=-eq-ok, Option, Option-cases, String, add64, ap, arith, false, half, inl, inr, insert, lookup,
  lookup-insert, lookup-insert_self, lt64, none, ok, or_fail, or_fail-some, pos64, pos64_bounds,
  refl, some, subst, sym, trim_space, true, word, ℕ, ◌+◌, ◌<◌, ◌∙◌, ◌≡◌, ◌≢◌, ◌≤◌, ◌⊎◌,
}
use dora_agent.Billing.Models.{
  Account, Kind, MutationRequest, MutationResult, Transaction, account_not_found, kind_charge,
  kind_credit, kind_refund, normalize_mutation_request, validate_idempotent_replay,
  validate_request,
}
use dora_agent.Billing.Store.{
  MemoryStore, check_mutation, delta_of, moved_account, mutate, mutate_account, mutate_or_replay,
  new_transaction, recorded, replay_mutation,
}

-- A mutation under a new key: what it checked and wrote.
pub record Mutated (request : MutationRequest) (kind : Kind) (now : ℕ) (s s' : MemoryStore)
    (result : MutationResult) : Type 0 where
  pub account : Account
  pub found : lookup (trim_space request.user_id) s.accounts ≡ some account
  pub positive : pos64 request.points ≡ true
  pub new_key : lookup (trim_space request.idempotency_key) s.by_key ≡ none
  pub checked : check_mutation kind (normalize_mutation_request request) account s ≡ ok tt
  pub transaction :
      result.transaction
      ≡ new_transaction
          (normalize_mutation_request request)
          kind
          (delta_of kind request.points)
          (add64 account.balance (delta_of kind request.points))
          now
  pub written :
      s'
      ≡ recorded
          (normalize_mutation_request request)
          (moved_account (delta_of kind request.points) now account)
          result.transaction
          s

valid_positive :
    (r : MutationRequest) (kind : Kind) (u : Unit {0})
    → validate_request r kind ≡ ok u
    → pos64 r.points ≡ true
unfolding validate_request
valid_positive r kind u h = ground arith

mutate_account-Mutated :
    (request : MutationRequest) (kind : Kind) (now : ℕ) (s s' : MemoryStore)
    (result : MutationResult)
    → pos64 request.points ≡ true
    → lookup (trim_space request.idempotency_key) s.by_key ≡ none
    → mutate_account kind (normalize_mutation_request request) now s ≡ ok (s', result)
    → Mutated request kind now s s' result
unfolding mutate_account normalize_mutation_request
mutate_account-Mutated request kind now s s' result p n h =
    let (a, e, h1) = >>=-eq-ok (or_fail (lookup (trim_space request.user_id) s.accounts) _) _ h in
    let (u, c, h2) =
      >>=-eq-ok (check_mutation kind (normalize_mutation_request request) a s) _ h1 in
    let tx : Transaction =
      new_transaction (normalize_mutation_request request) kind (delta_of kind request.points)
        (add64 a.balance (delta_of kind request.points)) now in
    let row : record { transaction = tx; duplicate = false } ≡ result = cc h2 in
    let same : tx ≡ result.transaction = ap (λ (x : MutationResult). x.transaction) row in
    let store : recorded (normalize_mutation_request request)
          (moved_account (delta_of kind request.points) now a) tx s
        ≡ s' =
      cc h2 in
    record {
      account = a;
      found = or_fail-some (lookup (trim_space request.user_id) s.accounts) _ a e;
      positive = p;
      new_key = n;
      checked = c;
      transaction = sym same;
      written =
          sym store
          ∙ ap
              (λ x.
                recorded (normalize_mutation_request request)
                  (moved_account (delta_of kind request.points) now a) x s)
              same;
    }

replay-duplicate :
    (m : Option Transaction) (kind : Kind) (r : MutationRequest) (s s' : MemoryStore)
    (result : MutationResult)
    → replay_mutation m kind r s ≡ ok (s', result)
    → (s' ≡ s) × (result.duplicate ≡ true) × (m ≡ some result.transaction)
unfolding replay_mutation
replay-duplicate none kind r s s' result h = cc
replay-duplicate (some t) kind r s s' result h =
    let (u, a, h1) = >>=-eq-ok (validate_idempotent_replay t kind r) _ h in
    let row : record { transaction = t; duplicate = true } ≡ result = cc h1 in
    (
      cc h1,
      ap (λ (x : MutationResult). x.duplicate) (sym row),
      ap (λ (x : MutationResult). some x.transaction) row,
    )

-- A successful mutation is a replay, which changes nothing, or it writes.
pub mutate-cases :
    (request : MutationRequest) (kind : Kind) (now : ℕ) (s s' : MemoryStore)
    (result : MutationResult)
    → mutate request kind now s ≡ ok (s', result)
    → ((s' ≡ s) × (result.duplicate ≡ true)) ⊎ Mutated request kind now s s' result
unfolding mutate mutate_or_replay normalize_mutation_request
mutate-cases request kind now s s' result h =
    let (u, v, h1) = >>=-eq-ok (validate_request (normalize_mutation_request request) kind) _ h in
    elim (Option-cases (lookup (trim_space request.idempotency_key) s.by_key)) [
      | inl e ↦ inr (
          mutate_account-Mutated request kind now s s' result
            (valid_positive (normalize_mutation_request request) kind u v) e (sym (rw e refl) ∙ h1))
      | inr (id, e) ↦
          let (a, b, _) =
            replay-duplicate (lookup id s.transactions) kind (normalize_mutation_request request) s
              s' result (sym (rw e refl) ∙ h1) in
          inl (a, b)
    ]

-- The balance after a mutation, without wrapping around.
abbrev pub NewBalance : Kind → ℕ → ℕ → ℕ → Type 0
NewBalance kind_charge balance points balance' = balance' + points ≡ balance
NewBalance _ balance points balance' = balance' ≡ balance + points

-- A credit or a refund leaves room in an int64.
abbrev pub HasRoom : Kind → ℕ → ℕ → Type 0
HasRoom kind_charge balance points = Unit {0}
HasRoom _ balance points = balance + points < half

charged_balance :
    (kind : Kind) (r : MutationRequest) (a : Account) (s : MemoryStore)
    → a.balance < half
    → r.points < word
    → pos64 r.points ≡ true
    → HasRoom kind a.balance r.points
    → check_mutation kind r a s ≡ ok tt
    → NewBalance kind a.balance r.points (add64 a.balance (delta_of kind r.points))
      × (add64 a.balance (delta_of kind r.points) < half)
unfolding check_mutation
charged_balance kind_credit r a s b w p room h = (omega arith, omega arith)
charged_balance kind_refund r a s b w p room h = (omega arith, omega arith)
charged_balance kind_charge r a s b w p room h =
    let (low, high) = pos64_bounds r.points w p in
    let enough : lt64 a.balance r.points ≡ false = ground arith in
    let le : r.points ≤ a.balance = ground arith in (omega arith, omega arith)

-- A mutation under a new key moves the points between the account and the outside, exactly: the
-- balance of an account that is not negative falls by the points of a charge and never below zero,
-- and rises by those of a credit or a refund, if they leave room in an int64. The transaction tells
-- the new balance, and no other account changes.
pub mutate_moves_balance :
    (request : MutationRequest) (kind : Kind) (now : ℕ) (s s' : MemoryStore)
    (result : MutationResult) (a : Account)
    → request.points < word
    → lookup (trim_space request.user_id) s.accounts ≡ some a
    → a.balance < half
    → HasRoom kind a.balance request.points
    → mutate request kind now s ≡ ok (s', result)
    → result.duplicate ≡ false
    → (a' : Account) × (lookup (trim_space request.user_id) s'.accounts ≡ some a')
      × (a'.balance < half)
      × NewBalance kind a.balance request.points a'.balance
      × (result.transaction.balance_after ≡ a'.balance)
      × ((user : String)
          → user ≢ trim_space request.user_id
          → lookup user s'.accounts ≡ lookup user s.accounts)
unfolding normalize_mutation_request new_transaction
mutate_moves_balance request kind now s s' result a w found b room h fresh =
    elim (mutate-cases request kind now s s' result h) [
      | inl (same, again) ↦ cc (again, fresh)
      | inr m ↦
          let eq : a ≡ m.account = cc (found, m.found) in
          let new = moved_account (delta_of kind request.points) now m.account in
          let moved =
            charged_balance kind (normalize_mutation_request request) m.account s
              (subst (λ x. x.balance < half) eq b) w m.positive
              (subst (λ x. HasRoom kind x.balance request.points) eq room) m.checked in
          let accounts : s'.accounts ≡ insert (trim_space request.user_id) new s.accounts =
            ap (λ x. x.accounts) m.written in
          (
            new,
            rw accounts (lookup-insert_self (trim_space request.user_id) new s.accounts),
            moved.1,
            subst (λ x. NewBalance kind x.balance request.points new.balance) (sym eq) moved.0,
            ap (λ x. x.balance_after) m.transaction,
            λ user other.
                rw accounts
                  (ground (arith, lookup-insert (trim_space request.user_id) user new s.accounts)),
          )
    ]

pub mutate-valid :
    (request : MutationRequest) (kind : Kind) (now : ℕ) (s s' : MemoryStore)
    (result : MutationResult)
    → mutate request kind now s ≡ ok (s', result)
    → validate_request (normalize_mutation_request request) kind ≡ ok tt
unfolding mutate
mutate-valid request kind now s s' result h =
    let (u, v, h1) = >>=-eq-ok (validate_request (normalize_mutation_request request) kind) _ h in v

new_not_duplicate :
    (r : MutationRequest) (kind : Kind) (now : ℕ) (s s' : MemoryStore) (result : MutationResult)
    → mutate_account kind r now s ≡ ok (s', result)
    → result.duplicate ≡ false
unfolding mutate_account
new_not_duplicate r kind now s s' result h =
    let (a, e, h1) = >>=-eq-ok (or_fail (lookup r.user_id s.accounts) account_not_found) _ h in
    let (u, c, h2) = >>=-eq-ok (check_mutation kind r a s) _ h1 in cc h2

-- What is a duplicate has a key that is known.
pub mutate_duplicate-key :
    (request : MutationRequest) (kind : Kind) (now : ℕ) (s s' : MemoryStore)
    (result : MutationResult)
    → mutate request kind now s ≡ ok (s', result)
    → result.duplicate ≡ true
    → (id : String) × (lookup (trim_space request.idempotency_key) s.by_key ≡ some id)
unfolding mutate mutate_or_replay normalize_mutation_request
mutate_duplicate-key request kind now s s' result h again =
    let (u, v, h1) = >>=-eq-ok (validate_request (normalize_mutation_request request) kind) _ h in
    elim (Option-cases (lookup (trim_space request.idempotency_key) s.by_key)) [
      | inl e ↦
          let fresh =
            new_not_duplicate (normalize_mutation_request request) kind now s s' result
              (sym (rw e refl) ∙ h1) in
          cc (fresh, again)
      | inr f ↦ f
    ]
