-- ===== src/SessionRuntime/Lifecycle/OneStarted.antt =====
-- A session has one started input at a time.
use dora_agent.Base.{
  Codec, Has, Has-of_insert, List, String, [], ap, arith, half, inl, inr, insert, length, none,
  some, subst, suc, sym, true, word, ℕ, ◌+◌, ◌<◌, ◌∙◌, ◌∷◌, ◌≡◌, ◌≢◌, ◌≤◌, ◌⊎◌,
}
use dora_agent.SessionRuntime.Lifecycle.Development.{
  Develops, claims_next, keeps, lets_in, step-Develops, writes_lease,
}
use dora_agent.SessionRuntime.Lifecycle.Evolution.{InputEvolves-is_started}
use dora_agent.SessionRuntime.Lifecycle.Heads.{started_head_from-none}
use dora_agent.SessionRuntime.Lifecycle.Keeps.{Keeps, Keyed}
use dora_agent.SessionRuntime.Lifecycle.Rows.{Develops-Keyed, new_store-Keyed}
use dora_agent.SessionRuntime.Lifecycle.Selection.{started_head-found}
use dora_agent.SessionRuntime.Models.Records.{InputRecord}
use dora_agent.SessionRuntime.Models.Status.{is_held}
use dora_agent.SessionRuntime.Steps.{Op, run, step}
use dora_agent.SessionRuntime.Store.Claims.{is_started, started_head}
use dora_agent.SessionRuntime.Store.State.{Clock, Store, new_store}

-- The rows stand under their ids, no input has more than n attempts, and two started inputs of one
-- session are one.
pub record Lane (n : ℕ) (s : Store) : Type 0 where
  pub keyed : Keyed s
  pub few_attempts : (k : String) (r : InputRecord) → Has s.inputs k r → r.attempts ≤ n
  pub held_attempts :
      (k : String) (r : InputRecord) → Has s.inputs k r → is_held r.status ≡ true → 0 < r.attempts
  pub one_started :
      (k j : String) (q r : InputRecord)
      → Has s.inputs k q
      → Has s.inputs j r
      → is_started q ≡ true
      → is_started r ≡ true
      → q.session_id ≡ r.session_id
      → k ≡ j

pub new_store-Lane : Lane 0 new_store
unfolding new_store
new_store-Lane = record {
  keyed = new_store-Keyed;
  few_attempts = λ k r h. absurd h;
  held_attempts = λ k r h. absurd h;
  one_started = λ k j q r h g. absurd h;
}

Lane-mono : (n m : ℕ) {s : Store} → n ≤ m → Lane n s → Lane m s
Lane-mono n m h l = record {
  keyed = l.keyed;
  few_attempts = λ k r here. omega (arith, l.few_attempts k r here);
  held_attempts = l.held_attempts;
  one_started = l.one_started;
}

pub Keeps-Lane : {n : ℕ} {s s' : Store} → Keeps s s' → Lane n s → Lane n s'
Keeps-Lane k l = record {
  keyed = k.keyed;
  few_attempts = λ j r here.
      let (q, hq, e) = k.inputs_from j r here in
      omega (arith, l.few_attempts j q hq, e.same_attempts);
  held_attempts = λ j r here held.
      let (q, hq, e) = k.inputs_from j r here in
      omega (arith, l.held_attempts j q hq (e.held held), e.same_attempts);
  one_started = λ i j q r hq hr sq sr same.
      let (q', hq', eq) = k.inputs_from i q hq in
      let (r', hr', er) = k.inputs_from j r hr in
      l.one_started i j q' r' hq' hr' (InputEvolves-is_started eq sq)
        (InputEvolves-is_started er sr) (sym eq.same_session ∙ same ∙ er.same_session);
}

-- A new row r stands alone: no started input of its session stands under another id.
Alone : Store → InputRecord → Type 0
Alone s r =
    (k : String) (q : InputRecord)
    → Has s.inputs k q
    → is_started q ≡ true
    → is_started r ≡ true
    → q.session_id ≡ r.session_id
    → k ≡ r.input_id

insert-Lane :
    {n : ℕ} (s s' : Store) (r : InputRecord)
    → Lane n s
    → Keyed s'
    → s'.inputs ≡ insert r.input_id r s.inputs
    → r.attempts ≤ n
    → (is_held r.status ≡ true → 0 < r.attempts)
    → Alone s r
    → Lane n s'
unfolding Alone
insert-Lane {n} s s' r l v i few some_attempt alone = record {
  keyed = v;
  few_attempts = λ k q h. elim (Has-of_insert r.input_id k r q s.inputs (row k q h)) [
    | inl (p, e) ↦ subst (λ x. x.attempts ≤ n) e few
    | inr (old, _) ↦ l.few_attempts k q old
  ];
  held_attempts = λ k q h held. elim (Has-of_insert r.input_id k r q s.inputs (row k q h)) [
    | inl (p, e) ↦
        subst (λ x. 0 < x.attempts) e
          (some_attempt (subst (λ x. is_held x.status ≡ true) (sym e) held))
    | inr (old, _) ↦ l.held_attempts k q old held
  ];
  one_started = λ k j p q hp hq sp sq same.
      both (Has-of_insert r.input_id k r p s.inputs (row k p hp))
        (Has-of_insert r.input_id j r q s.inputs (row j q hq)) sp sq same;
}
  where
    row :
        (k : String) (q : InputRecord) → Has s'.inputs k q → Has (insert r.input_id r s.inputs) k q
    row k q h = subst (λ m. Has m k q) i h

    both :
        {k j : String} {p q : InputRecord}
        → ((r.input_id ≡ k) × (r ≡ p)) ⊎ (Has s.inputs k p × (r.input_id ≢ k))
        → ((r.input_id ≡ j) × (r ≡ q)) ⊎ (Has s.inputs j q × (r.input_id ≢ j))
        → is_started p ≡ true
        → is_started q ≡ true
        → p.session_id ≡ q.session_id
        → k ≡ j
    both (inl (a, e)) (inl (b, f)) sp sq same = sym a ∙ b
    both {k} {j} {p} {q} (inl (a, e)) (inr (b, f)) sp sq same =
        sym a
        ∙ sym (
            alone j q b sq (subst (λ x. is_started x ≡ true) (sym e) sp)
              (sym same ∙ ap (λ x. x.session_id) (sym e)))
    both {k} {j} {p} {q} (inr (b, f)) (inl (a, e)) sp sq same =
        alone k p b sp (subst (λ x. is_started x ≡ true) (sym e) sq)
          (same ∙ ap (λ x. x.session_id) (sym e))
        ∙ a
    both {k} {j} {p} {q} (inr (b, f)) (inr (a, e)) sp sq same = l.one_started k j p q b a sp sq same

not_started : (r : InputRecord) → r.attempts ≡ 0 → is_started r ≢ true
unfolding is_started
not_started r h e = ground arith

claimed-Alone :
    {n : ℕ} (t : Store) (r r' : InputRecord) (session_id : String)
    → Lane n t
    → Has t.inputs r.input_id r
    → r'.input_id ≡ r.input_id
    → r'.session_id ≡ r.session_id
    → r.session_id ≡ session_id
    → (started_head session_id t ≡ some r) ⊎ (started_head session_id t ≡ none)
    → Alone t r'
unfolding Alone started_head
claimed-Alone t r r' session_id l here id session own (inl head) k q hq sq sr same =
    l.one_started k r.input_id q r hq here sq (started_head-found session_id t r l.keyed head).1.1
      (same ∙ session)
    ∙ sym id
claimed-Alone t r r' session_id l here id session own (inr nobody) k q hq sq sr same =
    let idle = started_head_from-none session_id t.inputs k q nobody hq (same ∙ session ∙ own) in
    cc (sym sq ∙ idle)

pub Develops-Lane :
    {n : ℕ} {s s' : Store} → suc n < word → Lane n s → Develops s s' → Lane (suc n) s'
Develops-Lane {n} h l (keeps k) = Lane-mono n (suc n) (omega arith) (Keeps-Lane k l)
Develops-Lane {n} {s} {s'} h l
      (claims_next t r r' session_id k here w id session seq attempts own next put) =
    let kept = Keeps-Lane k l in
    insert-Lane t s' r' (Lane-mono n (suc n) (omega arith) kept)
      (Develops-Keyed l.keyed
        (claims_next t r r' session_id k here w id session seq attempts own next put))
      (ap (λ x. x.inputs) put) (omega (arith, attempts, kept.few_attempts r.input_id r here))
      (λ _. omega (arith, attempts, kept.few_attempts r.input_id r here))
      (claimed-Alone t r r' session_id kept here id session own next)
Develops-Lane {n} {s} {s'} h l (lets_in r fresh idle i t e) =
    insert-Lane s s' r (Lane-mono n (suc n) (omega arith) l)
      (Develops-Keyed l.keyed (lets_in r fresh idle i t e)) i (omega arith)
      (λ held. cc (sym held ∙ idle))
      (unfold Alone in λ k q hq sq sr same. absurd (not_started r fresh sr))
Develops-Lane {n} {s} {s'} h l (writes_lease i t q) = record {
  keyed = Develops-Keyed l.keyed (writes_lease i t q);
  held_attempts = λ k r here. l.held_attempts k r (subst (λ m. Has m k r) i here);
  few_attempts = λ k r here. omega (arith, l.few_attempts k r (subst (λ m. Has m k r) i here));
  one_started = λ k j q r hq hr sq sr same.
      l.one_started k j q r (subst (λ m. Has m k q) i hq) (subst (λ m. Has m j r) i hr) sq sr same;
}

run-Lane :
    (c : Codec) (ops : List (Clock × Op)) (n : ℕ) (s : Store)
    → n + length ops < word
    → Lane n s
    → Lane (n + length ops) (run c ops s)
unfolding run
run-Lane c [] n s h l = Lane-mono n (n + 0) (omega arith) l
run-Lane c ((t, op) ∷ ops) n s h l =
    Lane-mono (suc n + length ops) (n + suc (length ops)) (omega arith) (
      run-Lane c ops (suc n) (step c t op s) (omega arith)
        (Develops-Lane (omega arith) l (step-Develops s l.keyed c t op)))

-- Claimed or running, or claimed before and not ended.
abbrev pub IsActive : InputRecord → Type 0
IsActive r = (is_held r.status ≡ true) ⊎ (is_started r ≡ true)

active_started :
    {n : ℕ} {s : Store} (k : String) (r : InputRecord)
    → n < half
    → Lane n s
    → Has s.inputs k r
    → IsActive r
    → is_started r ≡ true
unfolding is_started
active_started k r h l here (inr st) = st
active_started k r h l here (inl held) =
    ground (arith, l.few_attempts k r here, l.held_attempts k r here held)

-- After fewer than 2 ^ 63 operations on a new store, in any order and at any times, there are no two
-- inputs of one session that are claimed or running, or that were claimed before and have not
-- ended: two such inputs stand under one id.
pub run_one_active :
    (c : Codec) (ops : List (Clock × Op))
    → length ops < half
    → (k j : String) (q r : InputRecord) → Has (run c ops new_store).inputs k q
    → Has (run c ops new_store).inputs j r
    → IsActive q
    → IsActive r
    → q.session_id ≡ r.session_id
    → k ≡ j
run_one_active c ops h k j q r hq hr aq ar =
    lane.one_started k j q r hq hr (active_started k q h lane hq aq)
      (active_started j r h lane hr ar)
  where
    lane : Lane (length ops) (run c ops new_store)
    lane =
        Lane-mono (0 + length ops) (length ops) (omega arith)
          (run-Lane c ops 0 new_store (omega arith) new_store-Lane)
