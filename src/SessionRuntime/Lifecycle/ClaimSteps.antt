-- ===== src/SessionRuntime/Lifecycle/ClaimSteps.antt =====
-- The loop of ClaimNext keeps the rows of a store, and the input that it chooses.
use dora_agent.Base.{
  Bool-cases, Codec, Has, Option-cases, String, arith, false, inl, inr, is_blank, lookup, ℕ, ◌≡◌,
}
use dora_agent.SessionRuntime.Lifecycle.Evolution.{InputEvolves}
use dora_agent.SessionRuntime.Lifecycle.Keeps.{
  Keeps, Keeps-put_turn, Keeps-refl, Keeps-trans, Keyed,
}
use dora_agent.SessionRuntime.Lifecycle.Rules.{lookup_turn-Keyed, put_after_failure}
use dora_agent.SessionRuntime.Models.Records.{InputRecord}
use dora_agent.SessionRuntime.Models.Status.{is_terminal_input_status, is_terminal_turn_status}
use dora_agent.SessionRuntime.Store.Claims.{dead_exhausted_input, dead_turn_of, exhausted_record}
use dora_agent.SessionRuntime.Store.Endings.{killed_turn}
use dora_agent.SessionRuntime.Store.State.{Store, put_input, record_terminal_failure}

dead_turn_of-Keeps :
    (input : InputRecord) (turn_id : String) (now : ℕ) (s : Store)
    → Keyed s
    → Keeps s (dead_turn_of input (lookup turn_id s.turns) now s)
unfolding dead_turn_of
dead_turn_of-Keeps input turn_id now s v = elim (Option-cases (lookup turn_id s.turns)) [
  | inl m ↦ rw (m, dead_turn_of) (Keeps-refl s v)
  | inr (t, m) ↦
      rw (m, dead_turn_of)
        (elim (Bool-cases (is_terminal_turn_status t.status)) [
          | inl e ↦ rw e (Keeps-refl s v)
          | inr e ↦ rw e (
              Keeps-put_turn s t (killed_turn input.error_code input.error_message now t) v
                (lookup_turn-Keyed s turn_id t v m) (ground (arith, e)))
        ])
]

pub dead_exhausted_input-Keeps :
    (c : Codec) (head : InputRecord) (now : ℕ) (s : Store)
    → Keyed s
    → Has s.inputs head.input_id head
    → is_terminal_input_status head.status ≡ false
    → Keeps s (dead_exhausted_input c head now s)
unfolding dead_exhausted_input
dead_exhausted_input-Keeps c head now s v here alive = elim (Bool-cases (is_blank head.turn_id)) [
  | inl e ↦ rw e first
  | inr e ↦ rw e (
      Keeps-trans first
        (dead_turn_of-Keeps (exhausted_record head now) head.turn_id now s' first.keyed))
]
  where
    s' : Store
    s' = put_input (exhausted_record head now) (record_terminal_failure c head head.turn_id s)

    evolves : InputEvolves head (exhausted_record head now)
    evolves = unfold exhausted_record in ground (arith, alive)

    first : Keeps s s'
    first = put_after_failure c s head (exhausted_record head now) head head.turn_id v here evolves
