-- ===== src/Events/Tailing.antt =====
-- Tail of internal/aigc/events/memory_store.go: its binary search finds the cursor's place.
use dora_agent.Base.{
  Bool, List, [], ap, arith, drop, drop_all, false, get_elem?, half, if◌then◌else◌, inl, inr,
  le_cases, length, lt64, ltb-cases, refl, suc, sym, true, word, zero, ℕ, ◌+◌, ◌/◌, ◌<◌, ◌∙◌, ◌∷◌,
  ◌≡◌, ◌≤◌,
}
use dora_agent.Events.Log.{NumberedFrom}
use dora_agent.Events.Models.{SessionEvent}
use dora_agent.Events.Store.{search, search_from, seq_after}
use dora_agent.SessionRuntime.Store.State.{after}

-- The position is the first one at or after low that the test accepts, below high if there is one.
search_from-first :
    (fuel : ℕ) (found : ℕ → Bool) (low high place : ℕ)
    → ((i : ℕ) → i < place → i < high → found i ≡ false)
    → ((i : ℕ) → place ≤ i → i < high → found i ≡ true)
    → low ≤ place
    → place ≤ high
    → high ≤ low + fuel
    → search_from fuel found low high ≡ place
unfolding search_from
search_from-first zero found low high place below above a b f = omega arith
search_from-first (suc fuel) found low high place below above a b f = elim (ltb-cases low high) [
  | inr (e, g) ↦ rw e (omega arith)
  | inl (e, g) ↦ elim (le_cases place ((low + high) / 2)) [
    | inl p ↦
        let q = above ((low + high) / 2) p (omega arith) in
        let rest =
          search_from-first fuel found low ((low + high) / 2) place
            (λ i u v. below i u (omega arith)) (λ i u v. above i u (omega arith)) a p
            (omega arith) in
        rw (e, q) rest
    | inr p ↦
        let q = below ((low + high) / 2) p (omega arith) in
        let rest =
          search_from-first fuel found (suc ((low + high) / 2)) high place below above (omega arith)
            b (omega arith) in
        rw (e, q) rest
  ]
]

lt64_small : (a i : ℕ) → a ≤ i → suc i < half → lt64 a (suc i) ≡ true
lt64_small a i h b = ground arith

lt64_not : (a i : ℕ) → suc i ≤ a → a < half → lt64 a (suc i) ≡ false
lt64_not a i h b = ground arith

lt64_negative : (a i : ℕ) → half ≤ a → a < word → suc i < half → lt64 a (suc i) ≡ true
lt64_negative a i h w b = ground arith

seq_after-numbered :
    (rows : List SessionEvent) (n i after : ℕ)
    → NumberedFrom n rows
    → n + length rows < half
    → i < length rows
    → seq_after (get_elem? rows i) after ≡ lt64 after (suc (n + i))
seq_after-numbered [] n i after h b l = absurd (omega arith)
seq_after-numbered (row ∷ rows) n zero after (e, h) b l =
    let q : row.seq ≡ suc (n + 0) = e ∙ omega arith in rw q refl
seq_after-numbered (row ∷ rows) n (suc i) after (e, h) b l =
    seq_after-numbered rows (suc n) i after h (omega arith) (omega arith)
    ∙ ap (λ m. lt64 after (suc m)) (omega arith)

-- The rows whose number is greater.
unfoldable pub rows_after : ℕ → List SessionEvent → List SessionEvent
rows_after after [] = []
rows_after after (row ∷ rows) =
    let rest = rows_after after rows in if lt64 after row.seq then row ∷ rest else rest

rows_after-all :
    (rows : List SessionEvent) (n after : ℕ)
    → NumberedFrom n rows
    → n + length rows < half
    → ((i : ℕ) → n ≤ i → suc i < half → lt64 after (suc i) ≡ true)
    → rows_after after rows ≡ rows
unfolding rows_after
rows_after-all [] n after h b t = refl
rows_after-all (row ∷ rows) n after (e, h) b t =
    let q : row.seq ≡ suc n = e ∙ omega arith in
    let u = t n (omega arith) (omega arith) in
    let rest = rows_after-all rows (suc n) after h (omega arith) (λ i l m. t i (omega arith) m) in
    rw (q, u, rest) refl

pub rows_after-drop :
    (rows : List SessionEvent) (n d : ℕ)
    → NumberedFrom n rows
    → n + length rows < half
    → n + d < half
    → rows_after (n + d) rows ≡ drop d rows
unfolding rows_after
rows_after-drop rows n zero h b t =
    rows_after-all rows n (n + 0) h b (λ i l m. lt64_small (n + 0) i (omega arith) m)
rows_after-drop [] n (suc d) h b t = refl
rows_after-drop (row ∷ rows) n (suc d) (e, h) b t =
    let q : row.seq ≡ suc n = e ∙ omega arith in
    let u : lt64 (n + suc d) (suc n) ≡ false = ground arith in
    let rest = rows_after-drop rows (suc n) d h (omega arith) (omega arith) in
    let m : n + suc d ≡ suc n + d = omega arith in rw (q, u) (ap (λ a. rows_after a rows) m ∙ rest)

search-place :
    (rows : List SessionEvent) (after place : ℕ)
    → NumberedFrom 0 rows
    → length rows < half
    → ((i : ℕ) → i < place → i < length rows → lt64 after (suc i) ≡ false)
    → ((i : ℕ) → place ≤ i → i < length rows → lt64 after (suc i) ≡ true)
    → place ≤ length rows
    → search (length rows) (λ i. seq_after (get_elem? rows i) after) ≡ place
unfolding search
search-place rows after place h b below above l =
    let from_start : (i : ℕ)
        → i < length rows
        → seq_after (get_elem? rows i) after ≡ lt64 after (suc i) =
      λ i v.
        seq_after-numbered rows 0 i after h (omega arith) v
        ∙ ap (λ m. lt64 after (suc m)) (omega arith) in
    search_from-first (length rows) (λ i. seq_after (get_elem? rows i) after) 0 (length rows) place
      (λ i u v. from_start i v ∙ below i u v) (λ i u v. from_start i v ∙ above i u v) (omega arith)
      l (omega arith)

-- What the search cuts off is what has no greater number.
pub drop-search :
    (rows : List SessionEvent) (after : ℕ)
    → NumberedFrom 0 rows
    → length rows < half
    → after < word
    → drop (search (length rows) (λ i. seq_after (get_elem? rows i) after)) rows
      ≡ rows_after after rows
drop-search rows after h b w = elim (le_cases half after) [
  | inl neg ↦
      let p =
        search-place rows after 0 h b (λ i u v. absurd (omega arith))
          (λ i u v. lt64_negative after i neg w (omega arith)) (omega arith) in
      rw p
        (sym (rows_after-all rows 0 after h (omega arith) (λ i l m. lt64_negative after i neg w m)))
  | inr pos ↦ elim (le_cases after (length rows)) [
    | inl inside ↦
        let p =
          search-place rows after after h b (λ i u v. lt64_not after i (omega arith) pos)
            (λ i u v. lt64_small after i u (omega arith)) inside in
        rw p (
          sym (rows_after-drop rows 0 after h (omega arith) (omega arith))
          ∙ ap (λ a. rows_after a rows) (omega arith))
    | inr ahead ↦
        let p =
          search-place rows after (length rows) h b (λ i u v. lt64_not after i (omega arith) pos)
            (λ i u v. absurd (omega arith)) (omega arith) in
        let q = drop_all (length rows) rows (omega arith) in
        let r = drop_all after rows (omega arith) in
        rw (p, q)
          (sym r
            ∙ sym (rows_after-drop rows 0 after h (omega arith) (omega arith))
            ∙ ap (λ a. rows_after a rows) (omega arith))
  ]
]
