-- ===== src/Billing/RefundSteps.antt =====
-- The refunds of a charge through a mutation of internal/aigc/billing/memory_store.go.
use dora_agent.Base.{
  Bool-cases, Has, String, String_discrete, and_left, and_right, ap, arith, erase, erase_fresh,
  if◌then◌else◌, inl, inr, insert, lookup, none, ok, some, str_eq, str_eq_sound, subst, sym,
  trim_space, trim_space_idem, true, ℕ, ◌&&◌, ◌+◌, ◌<◌, ◌∙◌, ◌∷◌, ◌≡◌, ◌≤◌,
}
use dora_agent.Billing.Balance.{Mutated, mutate-cases}
use dora_agent.Billing.Models.{
  Kind, MutationRequest, MutationResult, Transaction, is_charge, is_refund, kind_refund,
  normalize_mutation_request,
}
use dora_agent.Billing.Refunds.{
  RefundsBounded, no_refunds, quarter, refund_fits, refund_kind, refund_names, refund_total,
}
use dora_agent.Billing.Store.{MemoryStore, check_mutation, mutate, new_transaction}

-- The transactions after a mutation whose id is new: one in front.
front :
    (request : MutationRequest) (kind : Kind) (now : ℕ) (s s' : MemoryStore)
    (result : MutationResult)
    → Mutated request kind now s s' result
    → lookup (trim_space request.transaction_id) s.transactions ≡ none
    → s'.transactions ≡ (trim_space request.transaction_id, result.transaction) ∷ s.transactions
unfolding insert new_transaction normalize_mutation_request
front request kind now s s' result m fresh =
    let id : result.transaction.id ≡ trim_space request.transaction_id =
      ap (λ x. x.id) m.transaction ∙ trim_space_idem request.transaction_id in
    let rest : erase (trim_space request.transaction_id) s.transactions ≡ s.transactions =
      erase_fresh (trim_space request.transaction_id) s.transactions fresh in
    ap (λ x. x.transactions) m.written
    ∙ ap (λ k. insert k result.transaction s.transactions) id
    ∙ ap (λ x. (trim_space request.transaction_id, result.transaction) ∷ x) rest

module _ (request : MutationRequest) (kind : Kind) (now : ℕ) (s s' : MemoryStore)
    (result : MutationResult) (m : Mutated request kind now s s' result) (v : RefundsBounded s)
    (w : request.points < quarter)
    (fresh : lookup (trim_space request.transaction_id) s.transactions ≡ none) where
  the_kind : result.transaction.kind ≡ kind
  unfolding new_transaction
  the_kind = ap (λ x. x.kind) m.transaction

  the_points : result.transaction.points ≡ request.points
  unfolding new_transaction normalize_mutation_request
  the_points = ap (λ x. x.points) m.transaction

  the_reference : result.transaction.reference_id ≡ trim_space request.reference_id
  unfolding new_transaction normalize_mutation_request
  the_reference = ap (λ x. x.reference_id) m.transaction ∙ trim_space_idem request.reference_id

  front_total :
      (k : String)
      → refund_total k s'.transactions
        ≡ (if is_refund result.transaction.kind && str_eq result.transaction.reference_id k
            then result.transaction.points
            else 0)
          + refund_total k s.transactions
  unfolding refund_total
  front_total k = ap (refund_total k) (front request kind now s s' result m fresh)

  front_lookup :
      (k : String)
      → lookup k s'.transactions ≡ (
          if str_eq (trim_space request.transaction_id) k
          then some result.transaction
          else lookup k s.transactions)
  unfolding lookup
  front_lookup k = ap (lookup k) (front request kind now s s' result m fresh)

  front_small : (k : String) (t : Transaction) → Has s'.transactions k t → t.points < quarter
  front_small k t h = elim (subst (λ x. Has x k t) (front request kind now s s' result m fresh) h) [
    | inl (_, e) ↦ subst (λ (x : Transaction). x.points < quarter) e (ground (arith, the_points))
    | inr old ↦ v.small k t old
  ]

  still_there :
      (k : String) (x : Transaction)
      → lookup k s.transactions ≡ some x
      → lookup k s'.transactions ≡ some x
  still_there k x h = elim (String_discrete (trim_space request.transaction_id) k) [
    | yes p ↦ cc (fresh, h, p)
    | no p ↦ front_lookup k ∙ ground arith
  ]

  the_check :
      is_refund result.transaction.kind ≡ true
      → check_mutation kind_refund (normalize_mutation_request request) m.account s ≡ ok tt
  the_check y =
      subst (λ x. check_mutation x (normalize_mutation_request request) m.account s ≡ ok tt)
        (sym the_kind ∙ refund_kind result.transaction.kind y) m.checked

  front_named :
      (k : String) (t : Transaction)
      → Has s'.transactions k t
      → is_refund t.kind ≡ true
      → (x : Transaction) × (lookup t.reference_id s'.transactions ≡ some x)
  unfolding normalize_mutation_request
  front_named k t h y =
      elim (subst (λ x. Has x k t) (front request kind now s s' result m fresh) h) [
        | inl (_, e) ↦
            let own : is_refund result.transaction.kind ≡ true =
              subst (λ (x : Transaction). is_refund x.kind ≡ true) (sym e) y in
            let (x, found) =
              refund_names (normalize_mutation_request request) m.account s (the_check own) in
            let reference : t.reference_id ≡ trim_space request.reference_id =
              ap (λ (x : Transaction). x.reference_id) (sym e) ∙ the_reference in
            (
              x,
              subst (λ z. lookup z s'.transactions ≡ some x) (sym reference)
                  (still_there _ x found),
            )
        | inr old ↦ let (x, found) = v.named k t old y in (x, still_there _ x found)
      ]

  -- The id of the new transaction has no refunds.
  none_yet : refund_total (trim_space request.transaction_id) s.transactions ≡ 0
  none_yet =
      no_refunds (trim_space request.transaction_id) s.transactions
        λ j t h y same. let (x, found) = v.named j t h y in cc (fresh, found, same)

  front_bounded :
      (k : String) (t : Transaction)
      → lookup k s'.transactions ≡ some t
      → is_charge t.kind ≡ true
      → refund_total k s'.transactions ≤ t.points
  unfolding normalize_mutation_request
  front_bounded k t h y = elim (String_discrete (trim_space request.transaction_id) k) [
    | yes p ↦
        let own : some result.transaction ≡ some t = sym (front_lookup k ∙ ground arith) ∙ h in
        let e : result.transaction ≡ t = cc own in
        let zero_total : refund_total k s.transactions ≡ 0 =
          subst (λ x. refund_total x s.transactions ≡ 0) p none_yet in
        let charge : is_charge result.transaction.kind ≡ true =
          subst (λ (x : Transaction). is_charge x.kind ≡ true) (sym e) y in
        rw (front_total k, zero_total) (ground arith)
    | no p ↦
        let old : lookup k s.transactions ≡ some t = sym (front_lookup k ∙ ground arith) ∙ h in
        let before = v.bounded k t old y in
        elim (Bool-cases
          (is_refund result.transaction.kind && str_eq result.transaction.reference_id k)) [
            | inl z ↦
                let at : trim_space request.reference_id ≡ k =
                  sym the_reference ∙ str_eq_sound _ _ (and_right _ _ z) in
                let fits =
                  refund_fits (normalize_mutation_request request) m.account s t v w
                    (subst (λ x. lookup x s.transactions ≡ some t) (sym at) old)
                    (the_check (and_left _ _ z)) in
                let fits' : request.points + refund_total k s.transactions ≤ t.points =
                  subst (λ x. request.points + refund_total x s.transactions ≤ t.points) at fits in
                rw (front_total k, z, the_points) fits'
            | inr z ↦ rw (front_total k, z) (omega arith)
          ]
  ]

-- Refunds never exceed the charge that they name: this stays so under every mutation that moves less
-- than 2 ^ 62 points and whose transaction id is new.
pub mutate-RefundsBounded :
    (request : MutationRequest) (kind : Kind) (now : ℕ) (s s' : MemoryStore)
    (result : MutationResult)
    → RefundsBounded s
    → request.points < quarter
    → lookup (trim_space request.transaction_id) s.transactions ≡ none
    → mutate request kind now s ≡ ok (s', result)
    → RefundsBounded s'
mutate-RefundsBounded request kind now s s' result v w fresh h =
    elim (mutate-cases request kind now s s' result h) [
      | inl (same, _) ↦ subst RefundsBounded (sym same) v
      | inr m ↦ record {
        small = front_small request kind now s s' result m v w fresh;
        bounded = front_bounded request kind now s s' result m v w fresh;
        named = front_named request kind now s s' result m v w fresh;
      }
    ]
