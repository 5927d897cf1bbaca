-- ===== src/SessionRuntime/Lifecycle/Deaths.antt =====
-- The inputs that the loop of ClaimNext in internal/aigc/sessionruntime/memory_store.go buries: each
-- round has fewer left, and none is lost.
use dora_agent.Base.{
  Bool-cases, Codec, Has, Option, String, String_discrete, Table, [], ap, arith, erase, false,
  if◌then◌else◌, inl, inr, insert, is_blank, le64, length, lookup, lookup-insert,
  lookup-insert_self, pos64, refl, some, subst, suc, sym, true, ℕ, ◌<◌, ◌∙◌, ◌∷◌, ◌≡◌, ◌≤◌, ◌⊎◌,
}
use dora_agent.SessionRuntime.Lifecycle.Rules.{record_failure_inputs}
use dora_agent.SessionRuntime.Models.Records.{ClaimOptions, InputRecord, TurnRun}
use dora_agent.SessionRuntime.Models.Status.{dead, is_terminal_input_status}
use dora_agent.SessionRuntime.Store.Claims.{
  dead_exhausted_input, dead_turn_of, exhausted_record, is_exhausted,
}
use dora_agent.SessionRuntime.Store.State.{Store}

-- How many inputs have not ended.
abbrev pub open_count : Table InputRecord → ℕ
open_count [] = 0
open_count ((k, r) ∷ m) =
    let rest = open_count m in if is_terminal_input_status r.status then rest else suc rest

pub open_count-le : (m : Table InputRecord) → open_count m ≤ length m
open_count-le [] = omega arith
open_count-le ((k, r) ∷ m) = ground (arith, open_count-le m)

open_count-erase : (k : String) (m : Table InputRecord) → open_count (erase k m) ≤ open_count m
unfolding erase
open_count-erase k [] = omega arith
open_count-erase k ((j, r) ∷ m) = ground (arith, open_count-erase k m)

open_count-erase_open :
    (k : String) (r : InputRecord) (m : Table InputRecord)
    → Has m k r
    → is_terminal_input_status r.status ≡ false
    → open_count (erase k m) < open_count m
unfolding erase
open_count-erase_open k r [] h alive = absurd h
open_count-erase_open k r ((j, q) ∷ m) (inl (p, e)) alive = ground (arith, open_count-erase k m)
open_count-erase_open k r ((j, q) ∷ m) (inr h) alive =
    ground (arith, open_count-erase_open k r m h alive)

dead_turn_of-inputs :
    (r : InputRecord) (o : Option TurnRun) (now : ℕ) (s : Store)
    → (dead_turn_of r o now s).inputs ≡ s.inputs
unfolding dead_turn_of
dead_turn_of-inputs r o now s = ground arith

dead_exhausted_input-inputs :
    (c : Codec) (head : InputRecord) (now : ℕ) (s : Store)
    → (dead_exhausted_input c head now s).inputs
      ≡ insert head.input_id (exhausted_record head now) s.inputs
unfolding dead_exhausted_input exhausted_record
dead_exhausted_input-inputs c head now s = elim (Bool-cases (is_blank head.turn_id)) [
  | inl e ↦ rw e (ap (insert head.input_id _) (record_failure_inputs c head head.turn_id s))
  | inr e ↦ rw e (
      dead_turn_of-inputs (exhausted_record head now) _ now _
      ∙ ap (insert head.input_id _) (record_failure_inputs c head head.turn_id s))
]

pub dead_exhausted_input-open_count :
    (c : Codec) (head : InputRecord) (now : ℕ) (s : Store)
    → Has s.inputs head.input_id head
    → is_terminal_input_status head.status ≡ false
    → open_count (dead_exhausted_input c head now s).inputs < open_count s.inputs
unfolding insert exhausted_record
dead_exhausted_input-open_count c head now s here alive =
    rw (dead_exhausted_input-inputs c head now s)
      (open_count-erase_open head.input_id head s.inputs here alive)

-- Every input is still there, as it was or dead of its attempts.
abbrev pub InputsStay : ClaimOptions → Store → Store → Type 0
InputsStay o s t =
    (k : String) (q : InputRecord)
    → lookup k s.inputs ≡ some q
    → (q' : InputRecord) × (lookup k t.inputs ≡ some q')
      × ((q' ≡ q)
          ⊎ ((q'.status ≡ dead)
              × (pos64 o.max_attempts ≡ true)
              × (le64 o.max_attempts q'.attempts ≡ true)))

pub InputsStay-trans :
    (o : ClaimOptions) (s t u : Store) → InputsStay o s t → InputsStay o t u → InputsStay o s u
InputsStay-trans o s t u a b k q h =
    let (q', h', d) = a k q h in
    let (q'', h'', d') = b k q' h' in
    (
      q'',
      h'',
      elim d' [
        | inl same ↦ elim d [
          | inl same' ↦ inl (same ∙ same')
          | inr died ↦ inr (
              subst
                (λ (x : InputRecord).
                  (x.status ≡ dead)
                  × (pos64 o.max_attempts ≡ true)
                  × (le64 o.max_attempts x.attempts ≡ true))
                (sym same) died)
        ]
        | inr died ↦ inr died
      ],
    )

-- The loop buries an input that ran out of attempts, and leaves the others.
pub dead_exhausted_input-InputsStay :
    (c : Codec) (o : ClaimOptions) (head : InputRecord) (now : ℕ) (s : Store)
    → is_exhausted o head s ≡ true
    → InputsStay o s (dead_exhausted_input c head now s)
unfolding exhausted_record is_exhausted
dead_exhausted_input-InputsStay c o head now s x k q h =
    rw (dead_exhausted_input-inputs c head now s) (elim (String_discrete head.input_id k) [
      | yes e ↦ (
        exhausted_record head now,
        ap (λ y. lookup y (insert head.input_id (exhausted_record head now) s.inputs)) (sym e)
            ∙ lookup-insert_self head.input_id (exhausted_record head now) s.inputs,
        inr (refl, ground arith, ground arith),
      )
      | no n ↦ (
        q,
        ground (arith, lookup-insert head.input_id k (exhausted_record head now) s.inputs),
        inl refl,
      )
    ])
