-- ===== src/SessionRuntime/Lifecycle/Rules.antt =====
-- Rules by which the proof about an operation follows its steps, and what its checks establish.
use dora_agent.Base.{
  Bool, Codec, Has, Has-of_lookup, Result, String, Table, arith, err, false, if◌then◌else◌, lookup,
  ok, or_fail, refl, require, some, subst, sym, trim_space, true, ℕ, ◌>>=◌, ◌>>◌, ◌≡◌,
}
use dora_agent.SessionRuntime.Lifecycle.Evolution.{InputEvolves, TurnEvolves}
use dora_agent.SessionRuntime.Lifecycle.Keeps.{
  Keeps, Keeps-put_input, Keeps-put_turn, Keeps-record_terminal_failure, Keeps-trans, Keyed,
}
use dora_agent.SessionRuntime.Models.Records.{Fence, InputRecord, TurnRun}
use dora_agent.SessionRuntime.Models.Status.{Error, is_held, turn_not_found}
use dora_agent.SessionRuntime.Store.Fencing.{claimed_input, turn_and_claimed_input}
use dora_agent.SessionRuntime.Store.State.{Store, put_input, put_turn, record_terminal_failure}

-- The property of the store that a successful operation returns.
abbrev pub KeepsOk : {A : Type 0} → Store → Result Error (Store × A) → Type 0
KeepsOk s (ok p) = Keeps s p.0
KeepsOk s (err e) = Unit {0}

pub KeepsOk-bind :
    {A B : Type 0} (s : Store) (m : Result Error B) (f : B → Result Error (Store × A))
    → ((b : B) → m ≡ ok b → KeepsOk s (f b))
    → KeepsOk s (m >>= f)
KeepsOk-bind s (ok b) f h = h b refl
KeepsOk-bind s (err e) f h = tt

pub KeepsOk-if :
    {A : Type 0} (s : Store) (b : Bool) (x y : Result Error (Store × A))
    → (b ≡ true → KeepsOk s x)
    → (b ≡ false → KeepsOk s y)
    → KeepsOk s (if b then x else y)
KeepsOk-if s true x y h g = h refl
KeepsOk-if s false x y h g = g refl

pub KeepsOk-require :
    {A : Type 0} (s : Store) (b : Bool) (e : Error) (m : Result Error (Store × A))
    → (b ≡ true → KeepsOk s m)
    → KeepsOk s (require b e >> m)
KeepsOk-require s true e m h = h refl
KeepsOk-require s false e m h = tt

-- What claimed_input returns is an input of the store, claimed or running.
pub claimed_input-found :
    (fence : Fence) (id : String) (t : ℕ) (s : Store) (r : InputRecord)
    → Keyed s
    → claimed_input fence id t s ≡ ok r
    → Has s.inputs r.input_id r × (is_held r.status ≡ true)
unfolding claimed_input
claimed_input-found fence id t s r v h =
    let found : lookup (trim_space id) s.inputs ≡ some r = ground arith in
    let old = Has-of_lookup (trim_space id) r s.inputs found in
    (subst (λ k. Has s.inputs k r) (sym (v.inputs_keyed (trim_space id) r old)) old, ground arith)

pub lookup_turn-Keyed :
    (s : Store) (id : String) (turn : TurnRun)
    → Keyed s
    → lookup id s.turns ≡ some turn
    → lookup turn.turn_id s.turns ≡ some turn
lookup_turn-Keyed s id turn v h =
    subst (λ k. lookup k s.turns ≡ some turn) (sym (v.turns_keyed id turn h)) h

pub turn_and_claimed_input-found :
    (fence : Fence) (id : String) (t : ℕ) (s : Store) (p : TurnRun × InputRecord)
    → Keyed s
    → turn_and_claimed_input fence id t s ≡ ok p
    → (lookup p.0.turn_id s.turns ≡ some p.0)
      × Has s.inputs p.1.input_id p.1
      × (is_held p.1.status ≡ true)
unfolding turn_and_claimed_input
turn_and_claimed_input-found fence id t s p v h =
    let found : lookup (trim_space id) s.turns ≡ some p.0 = ground arith in
    let claim : claimed_input fence p.0.input_id t s ≡ ok p.1 = ground arith in
    let (a, b) = claimed_input-found fence p.0.input_id t s p.1 v claim in
    (lookup_turn-Keyed s (trim_space id) p.0 v found, a, b)

pub record_failure_inputs :
    (c : Codec) (r : InputRecord) (turn_id : String) (s : Store)
    → (record_terminal_failure c r turn_id s).inputs ≡ s.inputs
unfolding record_terminal_failure
record_failure_inputs c r turn_id s = ground arith

record_failure_turns :
    (c : Codec) (r : InputRecord) (turn_id : String) (s : Store)
    → (record_terminal_failure c r turn_id s).turns ≡ s.turns
unfolding record_terminal_failure
record_failure_turns c r turn_id s = ground arith

-- An input that dies: the event of q is recorded and the row is written.
pub put_after_failure :
    (c : Codec) (s : Store) (r r' q : InputRecord) (turn_id : String)
    → Keyed s
    → Has s.inputs r.input_id r
    → InputEvolves r r'
    → Keeps s (put_input r' (record_terminal_failure c q turn_id s))
put_after_failure c s r r' q turn_id v h e =
    let first = Keeps-record_terminal_failure c q turn_id s v in
    Keeps-trans first (
      Keeps-put_input (record_terminal_failure c q turn_id s) r r' first.keyed
        (subst (λ m. Has m r.input_id r) (sym (record_failure_inputs c q turn_id s)) h) e)

-- A turn and its input, written together.
pub put_both :
    (s : Store) (t t' : TurnRun) (r r' : InputRecord)
    → Keyed s
    → lookup t.turn_id s.turns ≡ some t
    → TurnEvolves t t'
    → Has s.inputs r.input_id r
    → InputEvolves r r'
    → Keeps s (put_input r' (put_turn t' s))
put_both s t t' r r' v ht et h e =
    let first = Keeps-put_turn s t t' v ht et in
    Keeps-trans first (Keeps-put_input (put_turn t' s) r r' first.keyed h e)

pub put_both_after_failure :
    (c : Codec) (s : Store) (t t' : TurnRun) (r r' q : InputRecord) (turn_id : String)
    → Keyed s
    → lookup t.turn_id s.turns ≡ some t
    → TurnEvolves t t'
    → Has s.inputs r.input_id r
    → InputEvolves r r'
    → Keeps s (put_input r' (put_turn t' (record_terminal_failure c q turn_id s)))
put_both_after_failure c s t t' r r' q turn_id v ht et h e =
    let first = Keeps-record_terminal_failure c q turn_id s v in
    Keeps-trans first (
      put_both (record_terminal_failure c q turn_id s) t t' r r' first.keyed
        (subst (λ m. lookup t.turn_id m ≡ some t) (sym (record_failure_turns c q turn_id s)) ht) et
        (subst (λ m. Has m r.input_id r) (sym (record_failure_inputs c q turn_id s)) h) e)

-- The index from inputs to turns is not looked at.
pub Keeps-index :
    (s t : Store) (index : Table String) → Keeps s t → Keeps s (record t { turn_by_input = index })
Keeps-index s t index k = record {
  same_leases = k.same_leases;
  same_counters = k.same_counters;
  inputs_from = k.inputs_from;
  turns_to = k.turns_to;
  keyed = record { inputs_keyed = k.keyed.inputs_keyed; turns_keyed = k.keyed.turns_keyed };
}

pub found_turn :
    (s : Store) (id : String) (turn : TurnRun)
    → Keyed s
    → or_fail (lookup (trim_space id) s.turns) turn_not_found ≡ ok turn
    → lookup turn.turn_id s.turns ≡ some turn
found_turn s id turn v h = lookup_turn-Keyed s (trim_space id) turn v (ground arith)
