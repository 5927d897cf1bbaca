-- ===== src/Billing/Tests.antt =====
-- Runs of the billing store on concrete requests, and the theorems at them.
use dora_agent.Base.{
  List, Option, String, String_discrete, [], arith, false, half, inl, insert, lookup, map, none, ok,
  refl, some, trim_space, true, word, ℕ, ◌%◌, ◌+◌, ◌-◌, ◌<◌, ◌∷◌, ◌≡◌, ◌≢◌, ◌≤◌,
}
use dora_agent.Billing.Balance.{mutate_moves_balance}
use dora_agent.Billing.Ledger.{balance_is_sum, ledger_sum}
use dora_agent.Billing.Models.{
  Account, MutationRequest, MutationResult, Transaction, kind_charge, kind_refund,
  normalize_mutation_request, validate_request,
}
use dora_agent.Billing.Refunds.{refund_total}
use dora_agent.Billing.Replay.{mutate_idempotent}
use dora_agent.Billing.Runs.{
  BillingOp, bill, bills, mutates, opens, overflowing_refund_accepted, refunds_within_charge,
}
use dora_agent.Billing.Store.{
  MemoryStore, check_mutation, ensure_account, mutate, mutate_account, mutate_or_replay,
  new_memory_store, new_transaction, refunded_from, replay_mutation,
}

abbrev request_of : String → String → String → ℕ → MutationRequest
request_of id key reference points = record {
  transaction_id = id;
  user_id = " alice ";
  idempotency_key = key;
  reference_id = reference;
  operation_id = "";
  batch_id = "";
  job_id = "";
  points = points;
  breakdown = ("image", points) ∷ [];
  metadata = [];
}

abbrev charge_request : MutationRequest
charge_request = request_of "c1" "charge:1" "" 30

abbrev refund_request : MutationRequest
refund_request = request_of "r1" "refund:1" "c1" 10

-- Alice has 100 points, is charged 30 and gets 10 back.
abbrev opening : List (ℕ × BillingOp)
opening =
    (1, opens "alice" 100)
    ∷ (2, mutates charge_request kind_charge)
    ∷ (3, mutates refund_request kind_refund)
    ∷ []

abbrev later : List (ℕ × BillingOp)
later = (2, mutates charge_request kind_charge) ∷ (3, mutates refund_request kind_refund) ∷ []

opened_store : MemoryStore
unfolding bills bill ensure_account mutate mutate_or_replay mutate_account check_mutation
    replay_mutation refunded_from normalize_mutation_request validate_request new_transaction
    new_memory_store lookup insert trim_space String_discrete
opened_store = bills ((1, opens "alice" 100) ∷ []) new_memory_store

charged_store : MemoryStore
unfolding opened_store
charged_store = bill 2 (mutates charge_request kind_charge) opened_store

refunded_store : MemoryStore
unfolding charged_store
refunded_store = bill 3 (mutates refund_request kind_refund) charged_store

balances : MemoryStore → List (String × ℕ)
balances s = map (λ p. (p.0, p.1.balance)) s.accounts

charged_balances : balances charged_store ≡ ("alice", 70) ∷ []
unfolding charged_store balances
charged_balances = refl

refunded_balances : balances refunded_store ≡ ("alice", 80) ∷ []
unfolding refunded_store balances
refunded_balances = refl

refunded_result : MutationResult
refunded_result = record {
  transaction = new_transaction (normalize_mutation_request refund_request) kind_refund 10 80 3;
  duplicate = false;
}

alice_row : Option Account → Account
alice_row none = record { user_id = ""; balance = 0; version = 0; created_at = 0; updated_at = 0 }
alice_row (some a) = a

alice_charged : Account
unfolding charged_store alice_row
alice_charged = alice_row (lookup "alice" charged_store.accounts)

mutate_moves_balance_example :
    (a' : Account) × (lookup "alice" refunded_store.accounts ≡ some a')
    × (a'.balance < half)
    × (a'.balance ≡ 70 + 10)
    × (refunded_result.transaction.balance_after ≡ a'.balance)
    × ((user : String)
        → user ≢ "alice"
        → lookup user refunded_store.accounts ≡ lookup user charged_store.accounts)
unfolding refunded_store refunded_result alice_charged
mutate_moves_balance_example =
    mutate_moves_balance refund_request kind_refund 3 charged_store refunded_store refunded_result
      alice_charged (omega arith) refl (omega arith) (omega arith) refl refl

mutate_idempotent_example :
    mutate refund_request kind_refund 9 refunded_store
    ≡ ok (refunded_store, record { transaction = refunded_result.transaction; duplicate = true })
unfolding refunded_store refunded_result
mutate_idempotent_example =
    mutate_idempotent refund_request kind_refund 3 9 charged_store refunded_store refunded_result
      (refl, tt) refl

charge_row : Option Transaction → Transaction
charge_row none = new_transaction charge_request kind_charge 0 0 0
charge_row (some t) = t

refunds_within_charge_example :
    refund_total "c1" (bills opening new_memory_store).transactions
    ≤ (charge_row (lookup "c1" (bills opening new_memory_store).transactions)).points
unfolding refunded_store charge_row
refunds_within_charge_example =
    refunds_within_charge opening "c1"
      (charge_row (lookup "c1" (bills opening new_memory_store).transactions))
      (omega arith, inl refl, (omega arith, inl refl, tt)) refl refl

balance_is_sum_example :
    (a' : Account) × (lookup "alice" (bills later opened_store).accounts ≡ some a')
    × ((a'.balance + 0) % word ≡ (100 + ledger_sum "alice" refunded_store.transactions) % word)
unfolding refunded_store ledger_sum alice_row
balance_is_sum_example =
    balance_is_sum later opened_store "alice" (alice_row (lookup "alice" opened_store.accounts))
      refl (omega arith, inl refl, (omega arith, inl refl, tt))

-- A refund of 2 ^ 63 - 1 points on the charge of 30, of which 10 have been given back.
abbrev huge_request : MutationRequest
huge_request = request_of "r2" "refund:2" "c1" (half - 1)

overflowing_refund_accepted_example :
    (s' : MemoryStore) × (result : MutationResult) × (mutate huge_request kind_refund 4
        refunded_store
      ≡ ok (s', result))
    × (result.duplicate ≡ false)
unfolding refunded_store charge_row alice_row refund_total
overflowing_refund_accepted_example =
    overflowing_refund_accepted huge_request 4 refunded_store
      (alice_row (lookup "alice" refunded_store.accounts))
      (charge_row (lookup "c1" refunded_store.transactions)) refl refl refl refl refl (omega arith)
      (omega arith) (omega arith) (omega arith)

-- A refund of 20 under the id of the first one replaces it, so that another 10 pass: 40 points go back
-- for a charge of 30.
reused_id_store : MemoryStore
unfolding refunded_store
reused_id_store = bill 5 (mutates (request_of "r1" "refund:3" "c1" 20) kind_refund) refunded_store

reused_id_forgets_refund :
    balances (bill 6 (mutates (request_of "r4" "refund:4" "c1" 10) kind_refund) reused_id_store)
    ≡ ("alice", 110) ∷ []
unfolding reused_id_store balances
reused_id_forgets_refund = refl
