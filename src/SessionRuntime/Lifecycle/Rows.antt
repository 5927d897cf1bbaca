-- ===== src/SessionRuntime/Lifecycle/Rows.antt =====
-- Through any operations: the rows stand under their ids, and turns develop only as they may.
use dora_agent.Base.{
  Codec, Has, Has-of_insert, List, String, [], ap, inl, inr, insert, lookup, some, subst, sym, ◌∙◌,
  ◌∷◌, ◌≡◌,
}
use dora_agent.SessionRuntime.Lifecycle.Development.{
  Develops, claims_next, keeps, lets_in, step-Develops, writes_lease,
}
use dora_agent.SessionRuntime.Lifecycle.Evolution.{TurnEvolves, TurnEvolves-refl, TurnEvolves-trans}
use dora_agent.SessionRuntime.Lifecycle.Keeps.{Keyed, TurnsTo}
use dora_agent.SessionRuntime.Models.Records.{InputRecord, TurnRun}
use dora_agent.SessionRuntime.Steps.{Op, run, step}
use dora_agent.SessionRuntime.Store.State.{Clock, Store, new_store}

subst_rows : {s s' : Store} → s'.inputs ≡ s.inputs → s'.turns ≡ s.turns → Keyed s → Keyed s'
subst_rows i t v = record {
  inputs_keyed = λ k r h. v.inputs_keyed k r (subst (λ m. Has m k r) i h);
  turns_keyed = λ k q h. v.turns_keyed k q (subst (λ m. lookup k m ≡ some q) t h);
}

insert-Keyed :
    {s s' : Store} (r : InputRecord)
    → Keyed s
    → s'.inputs ≡ insert r.input_id r s.inputs
    → s'.turns ≡ s.turns
    → Keyed s'
insert-Keyed {s} {s'} r v i t = record {
  inputs_keyed = λ k q h.
      elim (Has-of_insert r.input_id k r q s.inputs (subst (λ m. Has m k q) i h)) [
        | inl (p, e) ↦ ap (λ x. x.input_id) (sym e) ∙ p
        | inr (old, _) ↦ v.inputs_keyed k q old
      ];
  turns_keyed = λ k q h. v.turns_keyed k q (subst (λ m. lookup k m ≡ some q) t h);
}

pub Develops-Keyed : {s s' : Store} → Keyed s → Develops s s' → Keyed s'
Develops-Keyed v (keeps k) = k.keyed
Develops-Keyed v (claims_next t r r' _ k _ _ _ _ _ _ _ _ put) =
    insert-Keyed r' k.keyed (ap (λ x. x.inputs) put) (ap (λ x. x.turns) put)
Develops-Keyed v (lets_in r _ _ i t _) = insert-Keyed r v i t
Develops-Keyed v (writes_lease i t _) = subst_rows i t v

same_turns : (s s' : Store) → s'.turns ≡ s.turns → TurnsTo s s'
same_turns s s' t k q h = (q, subst (λ m. lookup k m ≡ some q) (sym t) h, TurnEvolves-refl q)

pub Develops-TurnsTo : {s s' : Store} → Develops s s' → TurnsTo s s'
Develops-TurnsTo (keeps k) = k.turns_to
Develops-TurnsTo (claims_next t r r' _ k _ _ _ _ _ _ _ _ put) = λ j q h.
    subst (λ x. (q' : TurnRun) × (lookup j x.turns ≡ some q') × TurnEvolves q q') (sym put)
      (k.turns_to j q h)
Develops-TurnsTo {s} {s'} (lets_in r _ _ _ t _) = same_turns s s' t
Develops-TurnsTo {s} {s'} (writes_lease _ t _) = same_turns s s' t

-- Whatever operations follow, in whatever order and at whatever times: every turn of a store whose
-- rows stand under their ids is still there, for the same input and session. If it had ended
-- (committed, dead, or waiting for an interrupt) it is unchanged. If it had an output, the output
-- and its digest are the same, and if its context was frozen, it is frozen at the same number.
pub run-TurnEvolves :
    (c : Codec) (ops : List (Clock × Op)) (s : Store)
    → Keyed s
    → (k : String) (t : TurnRun) → lookup k s.turns ≡ some t
    → (t' : TurnRun) × (lookup k (run c ops s).turns ≡ some t') × TurnEvolves t t'
unfolding run
run-TurnEvolves c [] s v k t h = (t, h, TurnEvolves-refl t)
run-TurnEvolves c ((clock, op) ∷ ops) s v k t h =
    let d = step-Develops s v c clock op in
    let (q, hq, e) = Develops-TurnsTo d k t h in
    let (p, hp, e') = run-TurnEvolves c ops (step c clock op s) (Develops-Keyed v d) k q hq in
    (p, hp, TurnEvolves-trans e e')

pub new_store-Keyed : Keyed new_store
unfolding new_store lookup
new_store-Keyed = record { inputs_keyed = λ k r h. absurd h; turns_keyed = λ k t h. cc h }

pub run-Keyed : (c : Codec) (ops : List (Clock × Op)) (s : Store) → Keyed s → Keyed (run c ops s)
unfolding run
run-Keyed c [] s v = v
run-Keyed c ((t, op) ∷ ops) s v =
    run-Keyed c ops (step c t op s) (Develops-Keyed v (step-Develops s v c t op))
