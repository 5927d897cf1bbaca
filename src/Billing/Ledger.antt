-- ===== src/Billing/Ledger.antt =====
-- The balances of internal/aigc/billing/memory_store.go against its transactions.
use dora_agent.Base.{
  Bool-cases, List, Option, Result-cases, String, String_discrete, Table, [], ap, arith,
  erase_fresh, false, if◌then◌else◌, inl, inr, insert, is_blank, lookup, lookup-insert,
  lookup-insert_kept, lookup-insert_self, lt64, none, not, refl, some, str_eq, str_eq_complete,
  subst, sym, trim_space, trim_space_idem, true, word, ℕ, ◌%◌, ◌&&◌, ◌+◌, ◌∙◌, ◌∷◌, ◌≡◌, ◌⊎◌,
}
use dora_agent.Billing.Balance.{Mutated, mutate-cases}
use dora_agent.Billing.Models.{
  Account, Kind, MutationRequest, MutationResult, Transaction, normalize_mutation_request,
}
use dora_agent.Billing.Runs.{BillingOp, Orderly, bill, bills, mutates, opens}
use dora_agent.Billing.Store.{
  MemoryStore, delta_of, ensure_account, moved_account, mutate, new_transaction, opened_account,
}

-- The deltas of a user's transactions together, each as its bit pattern.
unfoldable pub ledger_sum : String → Table Transaction → ℕ
ledger_sum user [] = 0
ledger_sum user ((k, t) ∷ m) = (if str_eq t.user_id user then t.delta else 0) + ledger_sum user m

-- The account of a user, which differs from the one with this balance by the transactions since the
-- ledger had this sum.
abbrev pub Balanced : String → ℕ → ℕ → MemoryStore → Type 0
Balanced user balance sum s =
    (a : Account) × (lookup user s.accounts ≡ some a)
    × ((a.balance + sum) % word ≡ (balance + ledger_sum user s.transactions) % word)

opened-Balanced :
    (m : Option Account) (key user : String) (initial now balance sum : ℕ) (s : MemoryStore)
    → lookup key s.accounts ≡ m
    → Balanced user balance sum s
    → Balanced user balance sum (opened_account m key initial now s).0
opened-Balanced (some x) key user initial now balance sum s e v = v
opened-Balanced none key user initial now balance sum s e (a, found, same) =
    (a, lookup-insert_kept key user _ a s.accounts e found, same)

opens-Balanced :
    (name user : String) (initial now balance sum : ℕ) (s : MemoryStore)
    → Balanced user balance sum s
    → Balanced user balance sum (bill now (opens name initial) s)
unfolding bill ensure_account
opens-Balanced name user initial now balance sum s v =
    elim (Bool-cases (not (is_blank name) && not (lt64 initial 0))) [
      | inl y ↦ rw y (
          opened-Balanced (lookup (trim_space name) s.accounts) (trim_space name) user initial now
            balance sum s refl v)
      | inr n ↦ rw n v
    ]

-- A new transaction adds its delta to the ledger of its user.
ledger_sum-new :
    (user : String) (t : Transaction) (m : Table Transaction)
    → lookup t.id m ≡ none
    → ledger_sum user (insert t.id t m)
      ≡ (if str_eq t.user_id user then t.delta else 0) + ledger_sum user m
unfolding ledger_sum insert
ledger_sum-new user t m e = rw (erase_fresh t.id m e) refl

-- The deltas of a user's transactions after a mutation whose transaction id is new.
ledger_sum-Mutated :
    (request : MutationRequest) (kind : Kind) (now : ℕ) (s s' : MemoryStore)
    (result : MutationResult) (user : String)
    → lookup (trim_space request.transaction_id) s.transactions ≡ none
    → Mutated request kind now s s' result
    → ledger_sum user s'.transactions
      ≡ (if str_eq (trim_space request.user_id) user then delta_of kind request.points else 0)
        + ledger_sum user s.transactions
unfolding new_transaction normalize_mutation_request
ledger_sum-Mutated request kind now s s' result user fresh m =
    let t = result.transaction in
    let t_id : t.id ≡ trim_space request.transaction_id =
      ap (λ x. x.id) m.transaction ∙ trim_space_idem request.transaction_id in
    let t_user : t.user_id ≡ trim_space request.user_id =
      ap (λ x. x.user_id) m.transaction ∙ trim_space_idem request.user_id in
    let t_delta : t.delta ≡ delta_of kind request.points = ap (λ x. x.delta) m.transaction in
    ap (λ x. ledger_sum user x.transactions) m.written
    ∙ ledger_sum-new user t s.transactions (ap (λ i. lookup i s.transactions) t_id ∙ fresh)
    ∙ rw (t_user, t_delta) refl

Mutated-Balanced :
    (request : MutationRequest) (kind : Kind) (now : ℕ) (s s' : MemoryStore)
    (result : MutationResult) (user : String) (balance sum : ℕ)
    → lookup (trim_space request.transaction_id) s.transactions ≡ none
    → Mutated request kind now s s' result
    → Balanced user balance sum s
    → Balanced user balance sum s'
unfolding normalize_mutation_request
Mutated-Balanced request kind now s s' result user balance sum fresh m (a, found, same) =
    let id = trim_space request.user_id in
    let moved = moved_account (delta_of kind request.points) now m.account in
    let total = ledger_sum-Mutated request kind now s s' result user fresh m in
    let written : s'.accounts ≡ insert id moved s.accounts = ap (λ x. x.accounts) m.written in
    elim (String_discrete id user) [
      | yes e ↦
          let here : a ≡ m.account = cc (ap (λ u. lookup u s.accounts) e, found, m.found) in
          let b : a.balance ≡ m.account.balance = ap (λ x. x.balance) here in
          let mine : str_eq id user ≡ true = str_eq_complete id user e in
          let sums : ledger_sum user s'.transactions
              ≡ delta_of kind request.points + ledger_sum user s.transactions =
            total ∙ rw mine refl in
          (
            moved,
            ap (lookup user) written
                ∙ ap (λ u. lookup u (insert id moved s.accounts)) (sym e)
                ∙ lookup-insert_self id moved s.accounts,
            omega arith,
          )
      | no n ↦
          let other : str_eq id user ≡ false = ground arith in
          let sums : ledger_sum user s'.transactions ≡ ledger_sum user s.transactions =
            total ∙ rw other (omega arith) in
          (
            a,
            ap (lookup user) written ∙ ground (arith, lookup-insert id user moved s.accounts),
            omega arith,
          )
    ]

mutates-Balanced :
    (request : MutationRequest) (kind : Kind) (now : ℕ) (s : MemoryStore) (user : String)
    (balance sum : ℕ)
    → (lookup (trim_space request.transaction_id) s.transactions ≡ none)
      ⊎ ((id : String) × (lookup (trim_space request.idempotency_key) s.by_key ≡ some id))
    → Balanced user balance sum s
    → Balanced user balance sum (bill now (mutates request kind) s)
unfolding bill
mutates-Balanced request kind now s user balance sum new v =
    elim (Result-cases (mutate request kind now s)) [
      | inl (x, e) ↦ rw e v
      | inr ((s', result), e) ↦ rw e (elim (mutate-cases request kind now s s' result e) [
        | inl (same, _) ↦ subst (Balanced user balance sum) (sym same) v
        | inr m ↦ elim new [
          | inl fresh ↦ Mutated-Balanced request kind now s s' result user balance sum fresh m v
          | inr (id, known) ↦ cc (known, m.new_key)
        ]
      ])
    ]

bills-Balanced :
    (ops : List (ℕ × BillingOp)) (s : MemoryStore) (user : String) (balance sum : ℕ)
    → Orderly ops s
    → Balanced user balance sum s
    → Balanced user balance sum (bills ops s)
unfolding bills
bills-Balanced [] s user balance sum o v = v
bills-Balanced ((now, opens name initial) ∷ ops) s user balance sum o v =
    bills-Balanced ops _ user balance sum o (opens-Balanced name user initial now balance sum s v)
bills-Balanced ((now, mutates request kind) ∷ ops) s user balance sum (w, new, o) v =
    bills-Balanced ops _ user balance sum o
      (mutates-Balanced request kind now s user balance sum new v)

-- A balance is what the ledger says: through any operations, each of whose mutations has a new
-- transaction id or a known idempotency key and moves less than 2 ^ 62 points, an account stays, and
-- its balance changes by the deltas of the user's transactions that were added, modulo 2 ^ 64.
pub balance_is_sum :
    (ops : List (ℕ × BillingOp)) (s : MemoryStore) (user : String) (a : Account)
    → lookup user s.accounts ≡ some a
    → Orderly ops s
    → (a' : Account) × (lookup user (bills ops s).accounts ≡ some a')
      × ((a'.balance + ledger_sum user s.transactions) % word
          ≡ (a.balance + ledger_sum user (bills ops s).transactions) % word)
balance_is_sum ops s user a found o =
    bills-Balanced ops s user a.balance (ledger_sum user s.transactions) o (a, found, refl)
