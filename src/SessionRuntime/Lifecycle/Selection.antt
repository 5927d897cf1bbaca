-- ===== src/SessionRuntime/Lifecycle/Selection.antt =====
-- The loop of ClaimNext: its fuel suffices, and what it selects.
use dora_agent.Base.{
  Bool-cases, Codec, Has, Option, Option-cases, Result, String, arith, err, false, inl, inr, none,
  ok, refl, some, subst, suc, sym, true, zero, ℕ, ◌<◌, ◌≡◌, ◌≤◌, ◌⊎◌,
}
use dora_agent.SessionRuntime.Lifecycle.ClaimSteps.{dead_exhausted_input-Keeps}
use dora_agent.SessionRuntime.Lifecycle.Deaths.{
  InputsStay, InputsStay-trans, dead_exhausted_input-InputsStay, dead_exhausted_input-open_count,
  open_count,
}
use dora_agent.SessionRuntime.Lifecycle.Heads.{
  StartedIn, first_candidate_from-found, started_head_from-found,
}
use dora_agent.SessionRuntime.Lifecycle.Keeps.{Keeps, Keeps-refl, Keeps-trans, Keyed}
use dora_agent.SessionRuntime.Models.Records.{ClaimOptions, InputRecord}
use dora_agent.SessionRuntime.Models.Status.{Error, is_terminal_input_status, is_waiting}
use dora_agent.SessionRuntime.Store.Claims.{
  chosen, dead_exhausted_input, first_candidate_from, is_candidate, is_exhausted, is_started,
  select_input, started_head,
}
use dora_agent.SessionRuntime.Store.State.{Store, after}

-- A started head of a keyed store stands under its id and has not ended.
pub started_head-found :
    (session_id : String) (s : Store) (head : InputRecord)
    → Keyed s
    → started_head session_id s ≡ some head
    → Has s.inputs head.input_id head
      × StartedIn session_id head
      × (is_terminal_input_status head.status ≡ false)
unfolding started_head is_started
started_head-found session_id s head v h =
    elim (started_head_from-found session_id none s.inputs head h) [
      | inl e ↦ cc e
      | inr (k, here, st) ↦ (
        subst (λ x. Has s.inputs x head) (sym (v.inputs_keyed k head here)) here,
        st,
        ground (arith, st.1),
      )
    ]

candidate_facts :
    (session_id : String) (now : ℕ) (r : InputRecord)
    → is_candidate session_id now r ≡ true
    → (r.session_id ≡ session_id) × (is_waiting r.status ≡ true) × (r.available_at ≤ now)
unfolding is_candidate
candidate_facts session_id now r h = ground arith

-- The input that a round of the loop leaves to be claimed: the started head of its session if
-- there is one, else a first candidate.
abbrev pub IsNext : ClaimOptions → ℕ → Store → InputRecord → Type 0
IsNext o now s r =
    Has s.inputs r.input_id r
    × (is_waiting r.status ≡ true)
    × (r.available_at ≤ now)
    × (r.session_id ≡ o.fence.session_id)
    × ((started_head o.fence.session_id s ≡ some r)
        ⊎ ((started_head o.fence.session_id s ≡ none)
            × (first_candidate_from o.fence.session_id now none s.inputs ≡ some r)))

-- The loop ends, and what it returns is the next input of a store that it keeps.
abbrev pub Selected : ClaimOptions → ℕ → Store → Option (Store × Result Error InputRecord) → Type 0
Selected o now s none = ⊥
Selected o now s (some (t, err e)) = Keeps s t
Selected o now s (some (t, ok r)) = Keeps s t × InputsStay o s t × IsNext o now t r

Selected-after :
    (o : ClaimOptions) (now : ℕ) (s t : Store) (x : Option (Store × Result Error InputRecord))
    → Keeps s t
    → InputsStay o s t
    → Selected o now t x
    → Selected o now s x
Selected-after o now s t none k i h = h
Selected-after o now s t (some (u, err e)) k i h = Keeps-trans k h
Selected-after o now s t (some (u, ok r)) k i h =
    (Keeps-trans k h.0, InputsStay-trans o s t u i h.1, h.2)

chosen-Selected :
    (o : ClaimOptions) (now : ℕ) (s : Store) (first : Option InputRecord)
    → Keyed s
    → started_head o.fence.session_id s ≡ none
    → first_candidate_from o.fence.session_id now none s.inputs ≡ first
    → Selected o now s (some (s, chosen first))
chosen-Selected o now s none v e f = Keeps-refl s v
chosen-Selected o now s (some r) v e f =
    elim (first_candidate_from-found o.fence.session_id now none s.inputs r f) [
      | inl h ↦ cc h
      | inr (k, here, c) ↦
          let (session, waiting, available) = candidate_facts o.fence.session_id now r c in
          (
            Keeps-refl s v,
            λ k q g. (q, g, inl refl),
            (
              subst (λ x. Has s.inputs x r) (sym (v.inputs_keyed k r here)) here,
              waiting,
              available,
              session,
              inr (e, f),
            ),
          )
    ]

module _ (c : Codec) (o : ClaimOptions) (now : ℕ) where
  -- With more fuel than there are open inputs the loop returns.
  pub select_input-Selected :
      (fuel : ℕ) (s : Store)
      → Keyed s
      → open_count s.inputs < fuel
      → Selected o now s (select_input c fuel o now s)
  unfolding select_input
  select_input-Selected zero s v h = absurd (omega arith)
  select_input-Selected (suc fuel) s v h = elim (Option-cases (started_head o.fence.session_id s)) [
    | inl e ↦ rw (e, select_input) (chosen-Selected o now s _ v e refl)
    | inr (head, e) ↦
        let (here, st, alive) = started_head-found o.fence.session_id s head v e in
        let died = dead_exhausted_input-Keeps c head now s v here alive in
        let again =
          select_input-Selected fuel (dead_exhausted_input c head now s) died.keyed
            (omega (arith, dead_exhausted_input-open_count c head now s here alive)) in
        rw (e, select_input)
          (elim (Bool-cases (is_waiting head.status)) [
            | inr w ↦ rw w (Keeps-refl s v)
            | inl w ↦ elim (Bool-cases (after head.available_at now)) [
              | inl a ↦ rw (w, a) (Keeps-refl s v)
              | inr a ↦ elim (Bool-cases (is_exhausted o head s)) [
                | inl x ↦
                    rw (w, a, x)
                      (Selected-after o now s (dead_exhausted_input c head now s) _ died
                        (dead_exhausted_input-InputsStay c o head now s x) again)
                | inr x ↦
                    rw (w, a, x)
                      (
                        Keeps-refl s v,
                        λ k q g. (q, g, inl refl),
                        (here, w, ground (arith, a), st.0, inl e),
                      )
              ]
            ]
          ])
  ]
