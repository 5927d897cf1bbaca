-- ===== src/SessionRuntime/Lifecycle/RecoverySteps.antt =====
-- Recovery and the death of exhausted inputs keep the rows of a store.
use dora_agent.Base.{
  Bool-cases, Has, Option, Option-cases, String, Table, [], arith, if◌then◌else◌, inl, inr, insert,
  is_empty, lookup, none, refl, some, subst, ℕ, ◌∙◌, ◌∷◌, ◌≡◌,
}
use dora_agent.SessionRuntime.Lifecycle.Evolution.{InputEvolves, TurnEvolves-refl}
use dora_agent.SessionRuntime.Lifecycle.Keeps.{
  Keeps, Keeps-put_turn, Keeps-refl, Keeps-trans, Keyed,
}
use dora_agent.SessionRuntime.Lifecycle.Rules.{KeepsOk, KeepsOk-bind, lookup_turn-Keyed}
use dora_agent.SessionRuntime.Models.Records.{Fence, InputRecord, TurnRun}
use dora_agent.SessionRuntime.Models.Status.{is_terminal_turn_status}
use dora_agent.SessionRuntime.Store.Endings.{retried_turn}
use dora_agent.SessionRuntime.Store.Fencing.{validate_fence}
use dora_agent.SessionRuntime.Store.Recovery.{
  is_lost, recover_expired_inputs, recovered_inputs, recovered_record, recovered_turn,
  recovered_turns, turn_of_input,
}
use dora_agent.SessionRuntime.Store.State.{Clock, Store}

recovered_record-Evolves :
    (fence : Fence) (now : ℕ) (r : InputRecord)
    → InputEvolves r (if is_lost fence now r then recovered_record now r else r)
unfolding is_lost recovered_record
recovered_record-Evolves fence now r = ground arith

recovered_inputs-From :
    (fence : Fence) (now : ℕ) (m : Table InputRecord) (k : String) (r' : InputRecord)
    → Has (recovered_inputs fence now m) k r'
    → (r : InputRecord) × Has m k r × InputEvolves r r'
unfolding recovered_inputs
recovered_inputs-From fence now [] k r' h = absurd h
recovered_inputs-From fence now ((id, r) ∷ m) k r' (inl (p, q)) =
    (r, inl (p, refl), subst (InputEvolves r) q (recovered_record-Evolves fence now r))
recovered_inputs-From fence now ((id, r) ∷ m) k r' (inr h) =
    let (q, hq, e) = recovered_inputs-From fence now m k r' h in (q, inr hq, e)

retried_in : TurnRun → ℕ → TurnRun
retried_in turn now =
    retried_turn "claim_recovered" "previous runtime claim expired or was fenced" now turn

recovered_turn-Keeps :
    (s : Store) (turn_id : String) (turn : TurnRun) (now : ℕ)
    → Keyed s
    → lookup turn_id s.turns ≡ some turn
    → Keeps s (record s { turns = recovered_turn (some turn) now turn_id s.turns })
unfolding recovered_turn retried_in
recovered_turn-Keeps s turn_id turn now v h =
    elim (Bool-cases (is_terminal_turn_status turn.status)) [
      | inl e ↦ rw e (Keeps-refl s v)
      | inr e ↦ rw e (
          subst (λ k. Keeps s (record s { turns = insert k (retried_in turn now) s.turns }))
            (v.turns_keyed turn_id turn h)
            (Keeps-put_turn s turn (retried_in turn now) v (lookup_turn-Keyed s turn_id turn v h)
              (ground (arith, e))))
    ]

turn_of_input-Keeps :
    (s : Store) (o : Option String) (now : ℕ)
    → Keyed s
    → Keeps s (record s { turns = turn_of_input o now s.turns })
unfolding turn_of_input
turn_of_input-Keeps s none now v = Keeps-refl s v
turn_of_input-Keeps s (some turn_id) now v = elim (Bool-cases (is_empty turn_id)) [
  | inl e ↦ rw e (Keeps-refl s v)
  | inr e ↦ rw e (elim (Option-cases (lookup turn_id s.turns)) [
    | inl m ↦ rw (m, recovered_turn) (Keeps-refl s v)
    | inr (t, m) ↦ rw m (recovered_turn-Keeps s turn_id t now v m)
  ])
]

recovered_turns-Keeps :
    (fence : Fence) (now : ℕ) (m : Table InputRecord) (s : Store)
    → Keyed s
    → Keeps s (record s { turns = recovered_turns fence now s.turn_by_input m s.turns })
unfolding recovered_turns
recovered_turns-Keeps fence now [] s v = Keeps-refl s v
recovered_turns-Keeps fence now ((id, r) ∷ m) s v =
    Keeps-trans first (recovered_turns-Keeps fence now m s' first.keyed)
  where
    s' : Store
    s' = record s {
      turns =
          if is_lost fence now r
          then turn_of_input (lookup id s.turn_by_input) now s.turns
          else s.turns;
    }

    first : Keeps s s'
    first = elim (Bool-cases (is_lost fence now r)) [
      | inl e ↦ rw e (turn_of_input-Keeps s (lookup id s.turn_by_input) now v)
      | inr e ↦ rw e (Keeps-refl s v)
    ]

recovered_rows-Keeps :
    (fence : Fence) (now : ℕ) (s : Store)
    → Keyed s
    → Keeps s (record s { inputs = recovered_inputs fence now s.inputs })
recovered_rows-Keeps fence now s v = record {
  same_leases = refl;
  same_counters = refl;
  inputs_from = recovered_inputs-From fence now s.inputs;
  turns_to = λ k t h. (t, h, TurnEvolves-refl t);
  keyed = record {
    inputs_keyed = λ k r h.
        let (q, hq, e) = recovered_inputs-From fence now s.inputs k r h in
        e.same_id ∙ v.inputs_keyed k q hq;
    turns_keyed = v.turns_keyed;
  };
}

pub recover_expired_inputs-Keeps :
    (fence : Fence) (clock : Clock) (s : Store)
    → Keyed s
    → KeepsOk s (recover_expired_inputs fence clock s)
unfolding recover_expired_inputs
recover_expired_inputs-Keeps fence clock s v =
    KeepsOk-bind s (validate_fence fence clock.now s) _ λ lease _.
      let first = recovered_rows-Keeps fence clock.now s v in
      Keeps-trans first (
        recovered_turns-Keeps fence clock.now s.inputs
          (record s { inputs = recovered_inputs fence clock.now s.inputs }) first.keyed)
