-- ===== src/Billing/Models.antt =====
-- The records of internal/aigc/billing/models.go, the checks of a request, and its comparison with
-- the transaction that its idempotency key is bound to.
use dora_agent.Base.{
  Bool, Option, Result, String, Table, [], err, false, if◌then◌else◌, is_blank, length, lookup,
  nat_eq, none, not, ok, pos64, require, some, str_eq, trim_space, true, ℕ, ◌&&◌, ◌>>◌, ◌∷◌,
}

pub data Kind : Type 0 where
  kind_credit kind_charge kind_refund : Kind

abbrev pub kind_eq : Kind → Kind → Bool
kind_eq kind_credit kind_credit = true
kind_eq kind_charge kind_charge = true
kind_eq kind_refund kind_refund = true
kind_eq _ _ = false

pub data BillingError : Type 0 where
  -- A plain validation error, with its text.
  invalid_request : String → BillingError
  account_not_found transaction_not_found insufficient_points refund_exceeds_charge : BillingError
  -- ErrIdempotencyConflict, with the field that differs.
  key_conflict : String → BillingError

pub record Account : Type 0 where
  pub user_id : String
  pub balance : ℕ
  pub version : ℕ
  pub created_at : ℕ
  pub updated_at : ℕ

-- A value of the metadata is only carried along: it is named by a text.
pub record Transaction : Type 0 where
  pub id : String
  pub user_id : String
  pub kind : Kind
  pub idempotency_key : String
  pub reference_id : String
  pub operation_id : String
  pub batch_id : String
  pub job_id : String
  pub points : ℕ
  pub delta : ℕ
  pub balance_after : ℕ
  pub breakdown : Table ℕ
  pub metadata : Table String
  pub created_at : ℕ

pub record MutationRequest : Type 0 where
  pub transaction_id : String
  pub user_id : String
  pub idempotency_key : String
  pub reference_id : String
  pub operation_id : String
  pub batch_id : String
  pub job_id : String
  pub points : ℕ
  pub breakdown : Table ℕ
  pub metadata : Table String

pub record MutationResult : Type 0 where
  pub transaction : Transaction
  pub duplicate : Bool

abbrev pub is_refund : Kind → Bool
is_refund kind_refund = true
is_refund _ = false

abbrev pub is_charge : Kind → Bool
is_charge kind_charge = true
is_charge _ = false

unfoldable pub validate_request : MutationRequest → Kind → Result BillingError (Unit {0})
validate_request r kind = do
  require (not (is_blank r.transaction_id)) (invalid_request "billing transaction id is required")
  require (not (is_blank r.user_id)) (invalid_request "billing user id is required")
  require (not (is_blank r.idempotency_key)) (invalid_request "billing idempotency key is required")
  require (pos64 r.points) (invalid_request "billing points must be positive")
  require (not (is_refund kind && is_blank r.reference_id))
      (invalid_request "refund reference transaction id is required")

unfoldable pub normalize_mutation_request : MutationRequest → MutationRequest
normalize_mutation_request r = record r {
  transaction_id = trim_space r.transaction_id;
  user_id = trim_space r.user_id;
  idempotency_key = trim_space r.idempotency_key;
  reference_id = trim_space r.reference_id;
  operation_id = trim_space r.operation_id;
  batch_id = trim_space r.batch_id;
  job_id = trim_space r.job_id;
}

abbrev pub has_value : Option ℕ → ℕ → Bool
has_value none value = false
has_value (some other) value = nat_eq other value

unfoldable pub all_in : Table ℕ → Table ℕ → Bool
all_in [] right = true
all_in ((key, value) ∷ left) right = has_value (lookup key right) value && all_in left right

unfoldable pub equal_breakdown : Table ℕ → Table ℕ → Bool
unfolding all_in
equal_breakdown left right = nat_eq (length left) (length right) && all_in left right

-- The first field, in the code's order, in which the request differs from the transaction. The kind
-- is a constant of this package, which TrimSpace leaves alone.
unfoldable pub replay_field : Transaction → Kind → MutationRequest → Option String
replay_field existing kind request =
    let r = normalize_mutation_request request in
    if not (kind_eq existing.kind kind)
    then some "kind"
    else if not (str_eq (trim_space existing.user_id) r.user_id)
    then some "user_id"
    else if not (nat_eq existing.points r.points)
    then some "points"
    else if not (str_eq (trim_space existing.reference_id) r.reference_id)
    then some "reference_id"
    else if not (str_eq (trim_space existing.operation_id) r.operation_id)
    then some "operation_id"
    else if not (str_eq (trim_space existing.batch_id) r.batch_id)
    then some "batch_id"
    else if not (str_eq (trim_space existing.job_id) r.job_id)
    then some "job_id"
    else if not (equal_breakdown existing.breakdown r.breakdown)
    then some "breakdown"
    else none

abbrev pub conflict_of : Option String → Result BillingError (Unit {0})
conflict_of none = ok tt
conflict_of (some field) = err (key_conflict field)

unfoldable pub validate_idempotent_replay :
    Transaction → Kind → MutationRequest → Result BillingError (Unit {0})
validate_idempotent_replay existing kind request = conflict_of (replay_field existing kind request)
