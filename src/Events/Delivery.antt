-- ===== src/Events/Delivery.antt =====
-- What the relay of internal/aigc/events/relay.go delivers.
use dora_agent.Base.{
  Bool, Bool-cases, List, [], ap, append_assoc, arith, drop, drop-append, half, inl, inr, length,
  length-append, suc, sym, take, true, zero, ℕ, ◌++◌, ◌+◌, ◌<◌, ◌∙◌, ◌∷◌, ◌≡◌, ◌≤◌, ◌⊎◌,
}
use dora_agent.Events.Log.{NumberedFrom}
use dora_agent.Events.Models.{SessionEvent}
use dora_agent.Events.Relay.{RelayState, consume_rows, taken}

-- The log is numbered from 1 on and shorter than 2 ^ 63.
abbrev pub ShortLog : List SessionEvent → Type 0
ShortLog rows = NumberedFrom 0 rows × (length rows < half)

-- What was consumed and what is left make up all that is behind the start.
pub record Delivered (start : ℕ) (rows : List SessionEvent) (r : RelayState) : Type 0 where
  pub not_before : start ≤ r.cursor
  pub whole : r.consumed ++ drop r.cursor rows ≡ drop start rows
  pub inside : ((r.cursor ≡ start) × (r.consumed ≡ [])) ⊎ (r.cursor ≤ length rows)

drop-next :
    (n : ℕ) (xs : List SessionEvent) (m : ℕ) (x : SessionEvent) (ys : List SessionEvent)
    → NumberedFrom m xs
    → m + length xs < half
    → drop n xs ≡ x ∷ ys
    → (x.seq ≡ suc (m + n)) × (drop (suc n) xs ≡ ys) × (suc n ≤ length xs)
drop-next zero [] m x ys h b e = cc e
drop-next zero (y ∷ xs) m x ys (h, hs) b e =
    let q : y ≡ x = cc e in
    let r : y.seq ≡ x.seq = ap (λ z. z.seq) q in (omega arith, cc e, omega arith)
drop-next (suc n) [] m x ys h b e = cc e
drop-next (suc n) (y ∷ xs) m x ys (h, hs) b e =
    let (p, q, r) = drop-next n xs (suc m) x ys hs (omega arith) e in (omega arith, q, omega arith)

-- One row taken.
pub taken-Delivered :
    (start : ℕ) (rows : List SessionEvent) (row : SessionEvent) (rest : List SessionEvent)
    (r : RelayState)
    → ShortLog rows
    → drop r.cursor rows ≡ row ∷ rest
    → Delivered start rows r
    → Delivered start rows (taken row r) × (drop row.seq rows ≡ rest)
taken-Delivered start rows row rest r (n, b) e d =
    let (p, q, l) = drop-next r.cursor rows 0 row rest n (omega arith) e in
    let place : row.seq ≡ suc r.cursor = p ∙ omega arith in
    let left : drop row.seq rows ≡ rest = ap (λ m. drop m rows) place ∙ q in
    let before = d.not_before in
    (
      record {
        not_before = omega arith;
        whole =
            append_assoc r.consumed (row ∷ []) (drop row.seq rows)
            ∙ ap (λ xs. r.consumed ++ row ∷ xs) left
            ∙ ap (λ xs. r.consumed ++ xs) (sym e)
            ∙ d.whole;
        inside = inr (omega arith);
      },
      left,
    )

stopped-Delivered :
    (start : ℕ) (rows : List SessionEvent) (r : RelayState)
    → Delivered start rows r
    → Delivered start rows (record r { stopped = true })
stopped-Delivered start rows r d = record {
  not_before = d.not_before;
  whole = d.whole;
  inside = d.inside;
}

pub waiting-Delivered :
    (start : ℕ) (rows : List SessionEvent) (r : RelayState) (b : Bool)
    → Delivered start rows r
    → Delivered start rows (record r { waits = b })
waiting-Delivered start rows r b d = record {
  not_before = d.not_before;
  whole = d.whole;
  inside = d.inside;
}

pub consume_rows-Delivered :
    (n : ℕ) (left : List SessionEvent) (accepts : SessionEvent → Bool) (start : ℕ)
    (rows : List SessionEvent) (r : RelayState)
    → ShortLog rows
    → drop r.cursor rows ≡ left
    → Delivered start rows r
    → Delivered start rows (consume_rows accepts (take n left) r)
unfolding consume_rows
consume_rows-Delivered zero left accepts start rows r s e d = d
consume_rows-Delivered (suc n) [] accepts start rows r s e d = d
consume_rows-Delivered (suc n) (row ∷ left) accepts start rows r s e d =
    let (d', e') = taken-Delivered start rows row left r s e d in
    elim (Bool-cases (accepts row)) [
      | inl a ↦ rw a (consume_rows-Delivered n left accepts start rows (taken row r) s e' d')
      | inr a ↦ rw a (stopped-Delivered start rows r d)
    ]

-- The log grew by a row.
pub longer-Delivered :
    (start : ℕ) (rows : List SessionEvent) (row : SessionEvent) (r : RelayState)
    → Delivered start rows r
    → Delivered start (rows ++ row ∷ []) r
longer-Delivered start rows row r d =
    let n = length-append rows (row ∷ []) in
    let before = d.not_before in
    elim d.inside [
      | inl (e, none_yet) ↦ record {
        not_before = before;
        whole =
            ap (λ xs. xs ++ drop r.cursor (rows ++ row ∷ [])) none_yet
            ∙ ap (λ m. drop m (rows ++ row ∷ [])) e;
        inside = inl (e, none_yet);
      }
      | inr l ↦ record {
        not_before = before;
        whole =
            ap (λ xs. r.consumed ++ xs) (drop-append r.cursor rows (row ∷ []) l)
            ∙ sym (append_assoc r.consumed (drop r.cursor rows) (row ∷ []))
            ∙ ap (λ xs. xs ++ row ∷ []) d.whole
            ∙ sym (drop-append start rows (row ∷ []) (omega arith));
        inside = inr (omega arith);
      }
    ]
