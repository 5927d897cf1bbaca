-- ===== src/SessionRuntime/Lifecycle/Keeps.antt =====
-- What every operation but a claim and the entry of an input keeps of a store, with rules for the
-- writes that operations are made of.
use dora_agent.Base.{
  Codec, Has, Has-of_insert, Option-cases, String, String_discrete, Table, arith, inl, inr, insert,
  lookup, lookup-insert, lookup-insert_self, none, refl, some, subst, sym, ◌∙◌, ◌≡◌,
}
use dora_agent.SessionRuntime.Lifecycle.Evolution.{
  InputEvolves, InputEvolves-refl, InputEvolves-trans, TurnEvolves, TurnEvolves-refl,
  TurnEvolves-trans,
}
use dora_agent.SessionRuntime.Models.Records.{InputRecord, TerminalEvent, TurnRun}
use dora_agent.SessionRuntime.Store.State.{
  Store, put_input, put_turn, record_terminal_failure, terminal_failure_event,
}

-- The rows stand under their own ids.
pub record Keyed (s : Store) : Type 0 where
  pub inputs_keyed : (k : String) (r : InputRecord) → Has s.inputs k r → r.input_id ≡ k
  pub turns_keyed : (k : String) (t : TurnRun) → lookup k s.turns ≡ some t → t.turn_id ≡ k

-- Every turn is still there, developed from what it was.
abbrev pub TurnsTo : Store → Store → Type 0
TurnsTo s s' =
    (k : String) (t : TurnRun)
    → lookup k s.turns ≡ some t
    → (t' : TurnRun) × (lookup k s'.turns ≡ some t') × TurnEvolves t t'

-- Every input comes from one that was there.
abbrev pub InputsFrom : Store → Store → Type 0
InputsFrom s s' =
    (k : String) (r' : InputRecord)
    → Has s'.inputs k r'
    → (r : InputRecord) × Has s.inputs k r × InputEvolves r r'

pub record Keeps (s s' : Store) : Type 0 where
  pub same_leases : s'.leases ≡ s.leases
  pub same_counters : s'.input_counters ≡ s.input_counters
  pub inputs_from : InputsFrom s s'
  pub turns_to : TurnsTo s s'
  pub keyed : Keyed s'

pub Keeps-refl : (s : Store) → Keyed s → Keeps s s
Keeps-refl s v = record {
  same_leases = refl;
  same_counters = refl;
  inputs_from = λ k r h. (r, h, InputEvolves-refl r);
  turns_to = λ k t h. (t, h, TurnEvolves-refl t);
  keyed = v;
}

pub Keeps-trans : {s t u : Store} → Keeps s t → Keeps t u → Keeps s u
Keeps-trans a b = record {
  same_leases = b.same_leases ∙ a.same_leases;
  same_counters = b.same_counters ∙ a.same_counters;
  inputs_from = λ k r h.
      let (q, hq, e) = b.inputs_from k r h in
      let (p, hp, d) = a.inputs_from k q hq in (p, hp, InputEvolves-trans d e);
  turns_to = λ k t h.
      let (q, hq, e) = a.turns_to k t h in
      let (p, hp, d) = b.turns_to k q hq in (p, hp, TurnEvolves-trans e d);
  keyed = b.keyed;
}

put_input-From :
    (s : Store) (r r' : InputRecord)
    → Has s.inputs r.input_id r
    → InputEvolves r r'
    → InputsFrom s (put_input r' s)
put_input-From s r r' h e k q hq = elim (Has-of_insert r'.input_id k r' q s.inputs hq) [
  | inl (same, eq) ↦
      (r, subst (λ x. Has s.inputs x r) (sym e.same_id ∙ same) h, subst (InputEvolves r) eq e)
  | inr (old, other) ↦ (q, old, InputEvolves-refl q)
]

pub Keeps-put_input :
    (s : Store) (r r' : InputRecord)
    → Keyed s
    → Has s.inputs r.input_id r
    → InputEvolves r r'
    → Keeps s (put_input r' s)
Keeps-put_input s r r' v h e = record {
  same_leases = refl;
  same_counters = refl;
  inputs_from = put_input-From s r r' h e;
  turns_to = λ k t g. (t, g, TurnEvolves-refl t);
  keyed = record {
    inputs_keyed = λ k q hq.
        let (p, hp, d) = put_input-From s r r' h e k q hq in d.same_id ∙ v.inputs_keyed k p hp;
    turns_keyed = v.turns_keyed;
  };
}

put_turn-To :
    (s : Store) (t t' : TurnRun)
    → lookup t.turn_id s.turns ≡ some t
    → TurnEvolves t t'
    → TurnsTo s (put_turn t' s)
put_turn-To s t t' h e k q hq = elim (String_discrete t'.turn_id k) [
  | yes p ↦
      let found = sym h ∙ subst (λ x. lookup x s.turns ≡ some q) (sym p ∙ e.same_id) hq in
      let same : t ≡ q = cc found in
      (
        t',
        subst (λ x. lookup x (insert t'.turn_id t' s.turns) ≡ some t') p
            (lookup-insert_self t'.turn_id t' s.turns),
        subst (λ x. TurnEvolves x t') same e,
      )
  | no p ↦ (q, ground (arith, lookup-insert t'.turn_id k t' s.turns), TurnEvolves-refl q)
]

put_turn-Keyed :
    (s : Store) (t' : TurnRun)
    → Keyed s
    → (k : String) (q : TurnRun) → lookup k (insert t'.turn_id t' s.turns) ≡ some q
    → q.turn_id ≡ k
put_turn-Keyed s t' v k q h = elim (String_discrete t'.turn_id k) [
  | yes p ↦ ground (arith, lookup-insert t'.turn_id k t' s.turns)
  | no p ↦ v.turns_keyed k q (ground (arith, lookup-insert t'.turn_id k t' s.turns))
]

pub Keeps-put_turn :
    (s : Store) (t t' : TurnRun)
    → Keyed s
    → lookup t.turn_id s.turns ≡ some t
    → TurnEvolves t t'
    → Keeps s (put_turn t' s)
Keeps-put_turn s t t' v h e = record {
  same_leases = refl;
  same_counters = refl;
  inputs_from = λ k r g. (r, g, InputEvolves-refl r);
  turns_to = put_turn-To s t t' h e;
  keyed = record { inputs_keyed = v.inputs_keyed; turns_keyed = put_turn-Keyed s t' v };
}

-- A turn that was not there disturbs none.
pub Keeps-new_turn :
    (s : Store) (t' : TurnRun)
    → Keyed s
    → lookup t'.turn_id s.turns ≡ none
    → Keeps s (put_turn t' s)
Keeps-new_turn s t' v h = record {
  same_leases = refl;
  same_counters = refl;
  inputs_from = λ k r g. (r, g, InputEvolves-refl r);
  turns_to = λ k q hq. (
    q,
    ground (arith, lookup-insert t'.turn_id k t' s.turns, String_discrete t'.turn_id k),
    TurnEvolves-refl q,
  );
  keyed = record { inputs_keyed = v.inputs_keyed; turns_keyed = put_turn-Keyed s t' v };
}

Keeps-events :
    (s : Store) (events : Table TerminalEvent)
    → Keyed s
    → Keeps s (record s { terminal_events = events })
Keeps-events s events v = record {
  same_leases = refl;
  same_counters = refl;
  inputs_from = λ k r g. (r, g, InputEvolves-refl r);
  turns_to = λ k t h. (t, h, TurnEvolves-refl t);
  keyed = record { inputs_keyed = v.inputs_keyed; turns_keyed = v.turns_keyed };
}

pub Keeps-record_terminal_failure :
    (c : Codec) (r : InputRecord) (turn_id : String) (s : Store)
    → Keyed s
    → Keeps s (record_terminal_failure c r turn_id s)
unfolding record_terminal_failure
Keeps-record_terminal_failure c r turn_id s v = elim (Option-cases (lookup key s.terminal_events)) [
  | inl e ↦ rw (e, record_terminal_failure) (Keeps-events s _ v)
  | inr (x, e) ↦ rw (e, record_terminal_failure) (Keeps-refl s v)
]
  where
    key : String
    key = (terminal_failure_event c r turn_id).source_key
