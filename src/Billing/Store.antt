-- ===== src/Billing/Store.antt =====
-- MemoryStore of internal/aigc/billing/memory_store.go, and CheckAvailablePoints of store.go.
use dora_agent.Base.{
  Bool, Option, Result, String, Table, [], add64, err, false, if◌then◌else◌, insert, is_blank,
  lookup, lt64, neg64, none, not, ok, or_fail, require, some, str_eq, trim_space, true, ℕ, ◌&&◌,
  ◌>>=◌, ◌>>◌, ◌∷◌,
}
use dora_agent.Billing.Models.{
  Account, BillingError, Kind, MutationRequest, MutationResult, Transaction, account_not_found,
  insufficient_points, invalid_request, is_charge, is_refund, key_conflict, kind_charge,
  kind_credit, kind_refund, normalize_mutation_request, refund_exceeds_charge,
  transaction_not_found, validate_idempotent_replay, validate_request,
}

pub record MemoryStore : Type 0 where
  pub accounts : Table Account
  pub transactions : Table Transaction
  pub by_key : Table String

unfoldable pub new_memory_store : MemoryStore
new_memory_store = record { accounts = []; transactions = []; by_key = [] }

abbrev pub opened_account : Option Account → String → ℕ → ℕ → MemoryStore → MemoryStore × Account
opened_account (some account) user initial now s = (s, account)
opened_account none user initial now s =
    let account : Account = record {
      user_id = user;
      balance = initial;
      version = 1;
      created_at = now;
      updated_at = now;
    } in
    (record s { accounts = insert user account s.accounts }, account)

unfoldable pub ensure_account :
    String → ℕ → ℕ → MemoryStore → Result BillingError (MemoryStore × Account)
ensure_account user_id initial now s = do
  require (not (is_blank user_id) && not (lt64 initial 0))
      (invalid_request "valid user id and non-negative initial balance are required")
  ok (opened_account (lookup (trim_space user_id) s.accounts) (trim_space user_id) initial now s)

unfoldable pub get_account : String → MemoryStore → Result BillingError Account
get_account user_id s = or_fail (lookup (trim_space user_id) s.accounts) account_not_found

-- The points that refunds of this charge have given back, from the ones counted so far.
unfoldable pub refunded_from : String → ℕ → Table Transaction → ℕ
refunded_from reference refunded [] = refunded
refunded_from reference refunded ((k, t) ∷ m) =
    refunded_from reference
      (if is_refund t.kind && str_eq t.reference_id reference
        then add64 refunded t.points
        else refunded)
      m

abbrev pub is_charge_of : Option Transaction → String → Bool
is_charge_of none user = false
is_charge_of (some t) user = is_charge t.kind && str_eq t.user_id user

abbrev pub points_of : Option Transaction → ℕ
points_of none = 0
points_of (some t) = t.points

-- What a charge and a refund check before they write.
unfoldable pub check_mutation :
    Kind → MutationRequest → Account → MemoryStore → Result BillingError (Unit {0})
check_mutation kind_credit r account s = ok tt
check_mutation kind_charge r account s =
    require (not (lt64 account.balance r.points)) insufficient_points
check_mutation kind_refund r account s = do
  let charged = lookup r.reference_id s.transactions
  require (is_charge_of charged r.user_id) transaction_not_found
  require
      (not
        (lt64 (points_of charged) (add64 (refunded_from r.reference_id 0 s.transactions) r.points)))
      refund_exceeds_charge

abbrev pub delta_of : Kind → ℕ → ℕ
delta_of kind_charge points = neg64 points
delta_of _ points = points

unfoldable pub new_transaction : MutationRequest → Kind → ℕ → ℕ → ℕ → Transaction
new_transaction r kind delta balance_after now = record {
  id = trim_space r.transaction_id;
  user_id = trim_space r.user_id;
  kind = kind;
  idempotency_key = trim_space r.idempotency_key;
  reference_id = trim_space r.reference_id;
  operation_id = trim_space r.operation_id;
  batch_id = trim_space r.batch_id;
  job_id = trim_space r.job_id;
  points = r.points;
  delta = delta;
  balance_after = balance_after;
  breakdown = r.breakdown;
  metadata = r.metadata;
  created_at = now;
}

abbrev pub moved_account : ℕ → ℕ → Account → Account
moved_account delta now account = record account {
  balance = add64 account.balance delta;
  version = add64 account.version 1;
  updated_at = now;
}

abbrev pub recorded : MutationRequest → Account → Transaction → MemoryStore → MemoryStore
recorded r account transaction s = record s {
  accounts = insert r.user_id account s.accounts;
  transactions = insert transaction.id transaction s.transactions;
  by_key = insert transaction.idempotency_key transaction.id s.by_key;
}

-- A mutation under a new key.
unfoldable pub mutate_account :
    Kind → MutationRequest → ℕ → MemoryStore → Result BillingError (MemoryStore × MutationResult)
mutate_account kind r now s = do
  account ← or_fail (lookup r.user_id s.accounts) account_not_found
  checked ← check_mutation kind r account s
  let delta = delta_of kind r.points
  let account' = moved_account delta now account
  let transaction = new_transaction r kind delta account'.balance now
  ok (recorded r account' transaction s, record { transaction = transaction; duplicate = false })

-- A known key. The zero transaction of a missing row differs in its kind.
unfoldable pub replay_mutation :
    Option Transaction
    → Kind
    → MutationRequest
    → MemoryStore
    → Result BillingError (MemoryStore × MutationResult)
replay_mutation none kind r s = err (key_conflict "kind")
replay_mutation (some existing) kind r s = do
  same ← validate_idempotent_replay existing kind r
  ok (s, record { transaction = existing; duplicate = true })

unfoldable pub mutate_or_replay :
    Option String
    → Kind
    → MutationRequest
    → ℕ
    → MemoryStore
    → Result BillingError (MemoryStore × MutationResult)
mutate_or_replay none kind r now s = mutate_account kind r now s
mutate_or_replay (some id) kind r now s = replay_mutation (lookup id s.transactions) kind r s

unfoldable pub mutate :
    MutationRequest → Kind → ℕ → MemoryStore → Result BillingError (MemoryStore × MutationResult)
unfolding mutate_or_replay
mutate request kind now s = do
  let r = normalize_mutation_request request
  valid ← validate_request r kind
  mutate_or_replay (lookup r.idempotency_key s.by_key) kind r now s

unfoldable pub credit :
    MutationRequest → ℕ → MemoryStore → Result BillingError (MemoryStore × MutationResult)
credit request now s = mutate request kind_credit now s

unfoldable pub charge :
    MutationRequest → ℕ → MemoryStore → Result BillingError (MemoryStore × MutationResult)
charge request now s = mutate request kind_charge now s

unfoldable pub refund :
    MutationRequest → ℕ → MemoryStore → Result BillingError (MemoryStore × MutationResult)
refund request now s = mutate request kind_refund now s

-- Without a store there is nothing to check.
unfoldable pub check_available_points :
    Option MemoryStore → String → ℕ → Result BillingError (Unit {0})
check_available_points none user_id points = ok tt
check_available_points (some s) user_id points = do
  account ← get_account user_id s
  require (not (lt64 account.balance points)) insufficient_points
