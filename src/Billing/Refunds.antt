-- ===== src/Billing/Refunds.antt =====
-- The refunds of a charge in internal/aigc/billing/memory_store.go.
use dora_agent.Base.{
  >>=-eq-ok, Bool-cases, Has, Has-of_lookup, Option-cases, String, Table, [], add64, and_left,
  arith, if◌then◌else◌, inl, inr, lookup, lt64, not, ok, refl, require, required, some, str_eq,
  subst, true, word, ℕ, ◌&&◌, ◌+◌, ◌<◌, ◌^◌, ◌∷◌, ◌≡◌, ◌≢◌, ◌≤◌,
}
use dora_agent.Billing.Models.{
  Account, Kind, MutationRequest, Transaction, is_charge, is_refund, kind_charge, kind_credit,
  kind_refund, transaction_not_found,
}
use dora_agent.Billing.Store.{MemoryStore, check_mutation, is_charge_of, points_of, refunded_from}

-- The points of the refunds that name this charge, without wrapping around.
unfoldable pub refund_total : String → Table Transaction → ℕ
refund_total reference [] = 0
refund_total reference ((k, t) ∷ m) =
    (if is_refund t.kind && str_eq t.reference_id reference then t.points else 0)
    + refund_total reference m

pub refunded_from-refund_total :
    (reference : String) (refunded : ℕ) (m : Table Transaction)
    → refunded + refund_total reference m < word
    → refunded_from reference refunded m ≡ refunded + refund_total reference m
unfolding refunded_from refund_total
refunded_from-refund_total reference refunded [] h = omega arith
refunded_from-refund_total reference refunded ((k, t) ∷ m) h =
    elim (Bool-cases (is_refund t.kind && str_eq t.reference_id reference)) [
      | inl y ↦
          let fits : refunded + t.points + refund_total reference m < word = ground arith in
          let same : add64 refunded t.points ≡ refunded + t.points = omega arith in
          let rest = refunded_from-refund_total reference (refunded + t.points) m fits in
          rw (y, same, rest) (omega arith)
      | inr n ↦
          let fits : refunded + refund_total reference m < word = ground arith in
          rw (n, refunded_from-refund_total reference refunded m fits) (omega arith)
    ]

pub no_refunds :
    (k : String) (m : Table Transaction)
    → ((j : String) (t : Transaction) → Has m j t → is_refund t.kind ≡ true → t.reference_id ≢ k)
    → refund_total k m ≡ 0
unfolding refund_total
no_refunds k [] h = refl
no_refunds k ((j, t) ∷ m) h =
    let rest = no_refunds k m (λ i x g. h i x (inr g)) in
    let here = h j t (inl (refl, refl)) in
    elim (Bool-cases (is_refund t.kind)) [
      | inl y ↦ let other = here y in ground arith
      | inr n ↦ ground arith
    ]

abbrev pub quarter : ℕ
quarter = 2 ^ 62

-- No transaction moves 2 ^ 62 points or more, no charge is refunded beyond its points, and every
-- refund names a transaction that is there.
pub record RefundsBounded (s : MemoryStore) : Type 0 where
  pub small : (k : String) (t : Transaction) → Has s.transactions k t → t.points < quarter
  pub bounded :
      (k : String) (t : Transaction)
      → lookup k s.transactions ≡ some t
      → is_charge t.kind ≡ true
      → refund_total k s.transactions ≤ t.points
  pub named :
      (k : String) (t : Transaction)
      → Has s.transactions k t
      → is_refund t.kind ≡ true
      → (x : Transaction) × (lookup t.reference_id s.transactions ≡ some x)

-- What the check of a refund means for its charge.
pub refund_fits :
    (r : MutationRequest) (a : Account) (s : MemoryStore) (t : Transaction)
    → RefundsBounded s
    → r.points < quarter
    → lookup r.reference_id s.transactions ≡ some t
    → check_mutation kind_refund r a s ≡ ok tt
    → r.points + refund_total r.reference_id s.transactions ≤ t.points
unfolding check_mutation
refund_fits r a s t v w found h =
    let (u, e, h1) =
      >>=-eq-ok
        (require (is_charge_of (lookup r.reference_id s.transactions) r.user_id)
          transaction_not_found)
        _ h in
    let charged : is_charge_of (some t) r.user_id ≡ true =
      subst (λ o. is_charge_of o r.user_id ≡ true) found (required _ _ u e) in
    let total = v.bounded r.reference_id t found (and_left _ _ charged) in
    let points = v.small r.reference_id t (Has-of_lookup r.reference_id t s.transactions found) in
    let counted = refunded_from-refund_total r.reference_id 0 s.transactions (omega arith) in
    let passed : not (
          lt64 (points_of (lookup r.reference_id s.transactions))
            (add64 (refunded_from r.reference_id 0 s.transactions) r.points))
        ≡ true =
      required _ _ tt h1 in
    let passed' : not
          (lt64 t.points (add64 (0 + refund_total r.reference_id s.transactions) r.points))
        ≡ true =
      subst (λ x. not (lt64 t.points (add64 x r.points)) ≡ true) counted
        (subst
          (λ o.
            not
              (lt64 (points_of o) (add64 (refunded_from r.reference_id 0 s.transactions) r.points))
            ≡ true)
          found passed) in
    ground arith

pub refund_names :
    (r : MutationRequest) (a : Account) (s : MemoryStore)
    → check_mutation kind_refund r a s ≡ ok tt
    → (t : Transaction) × (lookup r.reference_id s.transactions ≡ some t)
unfolding check_mutation
refund_names r a s h =
    let (u, e, h1) =
      >>=-eq-ok
        (require (is_charge_of (lookup r.reference_id s.transactions) r.user_id)
          transaction_not_found)
        _ h in
    elim (Option-cases (lookup r.reference_id s.transactions)) [
      | inl n ↦ cc (subst (λ o. is_charge_of o r.user_id ≡ true) n (required _ _ u e))
      | inr f ↦ f
    ]

pub refund_kind : (kind : Kind) → is_refund kind ≡ true → kind ≡ kind_refund
refund_kind kind_refund h = refl
refund_kind kind_credit h = cc
refund_kind kind_charge h = cc
