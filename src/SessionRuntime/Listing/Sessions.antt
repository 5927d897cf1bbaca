-- ===== src/SessionRuntime/Listing/Sessions.antt =====
-- ListRunnableSessions lists the sessions that have an input to work on, up to its limit.
use dora_agent.Base.{
  Among, Among-take, Bool-cases, Has, Option-cases, String, String_discrete, Table, [], and_left,
  and_right, ap, arith, false, if◌then◌else◌, inl, inr, insert, length, lookup, lookup-insert,
  lookup-insert_self, refl, some, subst, sym, take_all, true, ℕ, ◌&&◌, ◌↔◌, ◌∙◌, ◌∷◌, ◌≡◌, ◌≤◌, ◌⊎◌,
}
use dora_agent.SessionRuntime.Listing.Heads.{started_heads-started_head}
use dora_agent.SessionRuntime.Listing.Sorting.{
  Among-lookup, Among-sort_listed, lookup-Among, names, sort_listed-Among, sort_listed-length,
}
use dora_agent.SessionRuntime.Models.Records.{InputRecord}
use dora_agent.SessionRuntime.Store.Claims.{started_head}
use dora_agent.SessionRuntime.Store.Runnable.{
  first_seqs_from, is_due, list_limit, list_runnable_sessions, lower, may_be_next, sort_listed,
  started_heads,
}
use dora_agent.SessionRuntime.Store.State.{Store}

-- An input of the session to work on: the session's head, or an input that was never claimed if the
-- session has no head; waiting and available, or held under a claim that has run out.
pub record HasWork (s : Store) (session : String) (now : ℕ) : Type 0 where
  pub key : String
  pub input : InputRecord
  pub here : Has s.inputs key input
  pub own : input.session_id ≡ session
  pub next : may_be_next (started_head session s) input ≡ true
  pub due : is_due now input ≡ true

-- The inputs of a table that ListRunnableSessions counts for a session.
abbrev Counted : Table InputRecord → ℕ → Table InputRecord → String → Type 0
Counted heads now m session =
    (k : String) × (r : InputRecord) × Has m k r
    × (r.session_id ≡ session)
    × (may_be_next (lookup r.session_id heads) r ≡ true)
    × (is_due now r ≡ true)

module _ (heads : Table InputRecord) (now : ℕ) where
  abbrev counted_seqs : Table ℕ → InputRecord → Table ℕ
  counted_seqs seqs r =
      if may_be_next (lookup r.session_id heads) r
        && is_due now r
        && lower r.enqueue_seq (lookup r.session_id seqs)
      then insert r.session_id r.enqueue_seq seqs
      else seqs

  counted_seqs-old :
      (seqs : Table ℕ) (r : InputRecord) (session : String) (q : ℕ)
      → lookup session seqs ≡ some q
      → (q' : ℕ) × (lookup session (counted_seqs seqs r) ≡ some q')
  counted_seqs-old seqs r session q h =
      elim (Bool-cases (
        may_be_next (lookup r.session_id heads) r
        && is_due now r
        && lower r.enqueue_seq (lookup r.session_id seqs))) [
          | inl y ↦ rw y (old_kept (String_discrete r.session_id session))
          | inr n ↦ (q, rw n h)
        ]
    where
      old_kept :
          Dec (r.session_id ≡ session)
          → (q' : ℕ) × (lookup session (insert r.session_id r.enqueue_seq seqs) ≡ some q')
      old_kept (yes e) =
          (r.enqueue_seq, ground (arith, lookup-insert r.session_id session r.enqueue_seq seqs))
      old_kept (no n) = (q, ground (arith, lookup-insert r.session_id session r.enqueue_seq seqs))

  counted_seqs-new :
      (seqs : Table ℕ) (r : InputRecord)
      → may_be_next (lookup r.session_id heads) r ≡ true
      → is_due now r ≡ true
      → (q : ℕ) × (lookup r.session_id (counted_seqs seqs r) ≡ some q)
  counted_seqs-new seqs r a d = elim (Option-cases (lookup r.session_id seqs)) [
    | inl e ↦ (r.enqueue_seq, rw (a, d, e) (lookup-insert_self r.session_id r.enqueue_seq seqs))
    | inr (q, e) ↦ counted_seqs-old seqs r r.session_id q e
  ]

  counted_seqs-from :
      (seqs : Table ℕ) (r : InputRecord) (session : String) (q : ℕ)
      → lookup session (counted_seqs seqs r) ≡ some q
      → ((q' : ℕ) × (lookup session seqs ≡ some q'))
        ⊎ ((r.session_id ≡ session)
            × (may_be_next (lookup r.session_id heads) r ≡ true)
            × (is_due now r ≡ true))
  counted_seqs-from seqs r session q h =
      elim (Bool-cases (
        may_be_next (lookup r.session_id heads) r
        && is_due now r
        && lower r.enqueue_seq (lookup r.session_id seqs))) [
          | inl y ↦ elim (String_discrete r.session_id session) [
            | yes e ↦ inr (e, and_left _ _ (and_left _ _ y), and_right _ _ (and_left _ _ y))
            | no n ↦
                let h' : lookup session (insert r.session_id r.enqueue_seq seqs) ≡ some q =
                  subst (λ l. lookup session l ≡ some q) (chosen_seqs y) h in
                inl (q, ground (arith, lookup-insert r.session_id session r.enqueue_seq seqs))
          ]
          | inr n ↦ inl (q, subst (λ l. lookup session l ≡ some q) (kept_seqs n) h)
        ]
    where
      chosen_seqs :
          (may_be_next (lookup r.session_id heads) r
              && is_due now r
              && lower r.enqueue_seq (lookup r.session_id seqs))
            ≡ true
          → counted_seqs seqs r ≡ insert r.session_id r.enqueue_seq seqs
      chosen_seqs y = rw y refl

      kept_seqs :
          (may_be_next (lookup r.session_id heads) r
              && is_due now r
              && lower r.enqueue_seq (lookup r.session_id seqs))
            ≡ false
          → counted_seqs seqs r ≡ seqs
      kept_seqs n = rw n refl

  first_seqs-old :
      (seqs : Table ℕ) (m : Table InputRecord) (session : String) (q : ℕ)
      → lookup session seqs ≡ some q
      → (q' : ℕ) × (lookup session (first_seqs_from heads now seqs m) ≡ some q')
  unfolding first_seqs_from
  first_seqs-old seqs [] session q h = (q, h)
  first_seqs-old seqs ((k, r) ∷ m) session q h =
      let (p, g) = counted_seqs-old seqs r session q h in
      first_seqs-old (counted_seqs seqs r) m session p g

  first_seqs-new :
      (seqs : Table ℕ) (m : Table InputRecord) (session : String)
      → Counted heads now m session
      → (q : ℕ) × (lookup session (first_seqs_from heads now seqs m) ≡ some q)
  unfolding first_seqs_from
  first_seqs-new seqs [] session (k, r, h, own, next, due) = absurd h
  first_seqs-new seqs ((j, x) ∷ m) session (k, r, inr h, own, next, due) =
      first_seqs-new (counted_seqs seqs x) m session (k, r, h, own, next, due)
  first_seqs-new seqs ((j, x) ∷ m) session (k, r, inl (_, e), own, next, due) =
      let (q, g) =
        counted_seqs-new seqs x
          (subst (λ y. may_be_next (lookup y.session_id heads) y ≡ true) (sym e) next)
          (subst (λ y. is_due now y ≡ true) (sym e) due) in
      let same : x.session_id ≡ session = ap (λ y. y.session_id) e ∙ own in
      first_seqs-old (counted_seqs seqs x) m session q
        (subst (λ z. lookup z (counted_seqs seqs x) ≡ some q) same g)

  first_seqs-from :
      (seqs : Table ℕ) (m : Table InputRecord) (session : String) (q : ℕ)
      → lookup session (first_seqs_from heads now seqs m) ≡ some q
      → ((q' : ℕ) × (lookup session seqs ≡ some q')) ⊎ Counted heads now m session
  unfolding first_seqs_from
  first_seqs-from seqs [] session q h = inl (q, h)
  first_seqs-from seqs ((k, r) ∷ m) session q h =
      elim (first_seqs-from (counted_seqs seqs r) m session q h) [
        | inl (p, g) ↦ elim (counted_seqs-from seqs r session p g) [
          | inl old ↦ inl old
          | inr (own, next, due) ↦ inr (k, r, inl (refl, refl), own, next, due)
        ]
        | inr (j, x, g, own, next, due) ↦ inr (j, x, inr g, own, next, due)
      ]

-- A session that is listed has an input to work on.
list_runnable_sound :
    (limit now : ℕ) (s : Store) (session : String)
    → Among session (list_runnable_sessions limit now s)
    → HasWork s session now
unfolding list_runnable_sessions lookup
list_runnable_sound limit now s session h =
    let all = first_seqs_from (started_heads s) now [] s.inputs in
    let sorted = Among-take session (list_limit limit) (names (sort_listed all)) h in
    let (q, found) = Among-lookup session all (sort_listed-Among session all sorted) in
    elim (first_seqs-from (started_heads s) now [] s.inputs session q found) [
      | inl (_, e) ↦ cc e
      | inr (k, r, here, own, next, due) ↦ record {
        key = k;
        input = r;
        here = here;
        own = own;
        next =
            subst (λ o. may_be_next o r ≡ true)
              (started_heads-started_head r.session_id s ∙ ap (λ x. started_head x s) own) next;
        due = due;
      }
    ]

-- How many sessions there are to list.
abbrev pub runnable_count : ℕ → Store → ℕ
runnable_count now s = length (names (first_seqs_from (started_heads s) now [] s.inputs))

list_runnable_complete :
    (limit now : ℕ) (s : Store) (session : String)
    → runnable_count now s ≤ list_limit limit
    → HasWork s session now
    → Among session (list_runnable_sessions limit now s)
unfolding list_runnable_sessions
list_runnable_complete limit now s session few work =
    let all = first_seqs_from (started_heads s) now [] s.inputs in
    let next =
      subst (λ o. may_be_next o work.input ≡ true)
        (sym (
          started_heads-started_head work.input.session_id s ∙ ap (λ x. started_head x s) work.own))
        work.next in
    let (q, found) =
      first_seqs-new (started_heads s) now [] s.inputs session
        (work.key, work.input, work.here, work.own, next, work.due) in
    let listed = Among-sort_listed session all (lookup-Among session q all found) in
    subst (Among session)
      (sym (
        take_all (list_limit limit) (names (sort_listed all))
          (subst (λ n. n ≤ list_limit limit) (sym (sort_listed-length all)) few)))
      listed

-- ListRunnableSessions lists just the sessions that have an input to work on, if there are no more of
-- them than its limit: such an input is the head that ClaimNext would take up, or was never claimed in
-- a session without a head, and it is waiting and available or held under a claim that has run out.
pub list_runnable_exact :
    (limit now : ℕ) (s : Store) (session : String)
    → runnable_count now s ≤ list_limit limit
    → Among session (list_runnable_sessions limit now s) ↔ HasWork s session now
list_runnable_exact limit now s session few =
    (list_runnable_sound limit now s session, list_runnable_complete limit now s session few)
