-- ===== src/SessionRuntime/Continuation/Exclusive.antt =====
-- The lease of a claimed continuation: until it runs out, the others can do nothing about it.
use dora_agent.Base.{
  Bool, Codec, List, Option, String, String_discrete, [], and_right, ap, arith, err, false, lookup,
  lookup-insert, nat_eq, none, not, ok, pos64, refl, require, required, some, str_eq, str_eq_sound,
  subst, sym, true, ℕ, ◌&&◌, ◌<◌, ◌||◌, ◌∙◌, ◌∷◌, ◌≡◌, ◌≢◌,
}
use dora_agent.SessionRuntime.Continuation.Chains.{AfterOk, after_ok-Holds, bind-Ok, if-Ok}
use dora_agent.SessionRuntime.Continuation.Evolution.{found_lookup, write_commands-continuations}
use dora_agent.SessionRuntime.Continuation.Steps.{
  ContinuationOp, applies, claim_of_op, fails, falls_back, move, moves, requests, takes,
}
use dora_agent.SessionRuntime.Models.Records.{
  CommandLedger, Continuation, ContinuationClaim, Failure,
}
use dora_agent.SessionRuntime.Models.Status.{
  continuation_claimed, executor_eq, idempotency_conflict,
}
use dora_agent.SessionRuntime.Store.Commands.{
  apply_continuation, check_commands, finish_apply, write_commands,
}
use dora_agent.SessionRuntime.Store.Continuations.{
  admit_continuation, can_claim_continuation, claim_continuation, claim_identity,
  continuation_identity, fail_continuation, fall_back, fallback_continuation, find_continuation,
  hand_over, is_applied, is_leased, is_runner, normalize_continuation, put_continuation,
  request_continuation, requested_continuation, same_executor, take_continuation,
  validate_continuation_claim, validate_continuation_lease,
}
use dora_agent.SessionRuntime.Store.State.{Clock, Store}

-- The continuation under the key is this one.
abbrev Stands : String → Continuation → Store → Type 0
Stands key r s = lookup key s.continuations ≡ some r

-- The operation is not made under a claim of the owner for this decision.
abbrev pub NotBy : String → String → ContinuationOp → Type 0
NotBy key owner op =
    (q : ContinuationClaim)
    → claim_of_op op ≡ some q
    → claim_identity q ≡ key
    → q.lease_owner ≢ owner

module _ (key : String) (r : Continuation) (until : ℕ) (t : Clock) where
  -- Claimed until a time that neither reading of the clock has reached.
  abbrev pub LeasedAt : Type 0
  LeasedAt =
      (r.status ≡ continuation_claimed)
      × (r.lease_until ≡ some until)
      × (t.now < until)
      × (t.recheck < until)

  leased_now : LeasedAt → is_leased r t.now ≡ true
  leased_now h = ground (arith, h)

  not_applied : LeasedAt → is_applied r.status ≡ false
  not_applied h = ground (arith, h)

  -- A write under another key, and one under this key that cannot be.
  write_elsewhere :
      (k : String) (q q' : Continuation) (s s' : Store)
      → Stands key r s
      → s'.continuations ≡ s.continuations
      → lookup k s.continuations ≡ some q
      → (k ≡ key → q ≡ r → ⊥)
      → Stands key r (put_continuation k q' s')
  write_elsewhere k q q' s s' stands same found never = elim (String_discrete k key) [
    | yes p ↦ let eq : q ≡ r = cc (found, stands, p) in absurd (never p eq)
    | no p ↦
        let before : lookup key s'.continuations ≡ some r =
          subst (λ m. lookup key m ≡ some r) (sym same) stands in
        ground (arith, lookup-insert k key q' s'.continuations)
  ]

  module _ (s : Store) (stands : Stands key r s) (leased : LeasedAt) where
    blocked : (k : String) (p : Continuation) → not (is_leased p t.now) ≡ true → k ≡ key → p ≡ r → ⊥
    blocked k p h same eq =
        let l : is_leased p t.now ≡ true =
          subst (λ x. is_leased x t.now ≡ true) (sym eq) (leased_now leased) in
        cc (h, l)

    Stands-admit :
        (k : String) (m : Option Continuation) (x : Continuation)
        → lookup k s.continuations ≡ m
        → AfterOk (Stands key r) (admit_continuation k m x t.now s)
    unfolding admit_continuation
    Stands-admit k none x h = elim (String_discrete k key) [
      | yes p ↦ cc (h, stands, p)
      | no p ↦ ground (arith, lookup-insert k key (requested_continuation t.now x) s.continuations)
    ]
    Stands-admit k (some q) x h =
        if-Ok {B = Continuation × Bool} (Stands key r)
          (not (str_eq q.session_id x.session_id)
            || not (executor_eq q.executor x.executor)
            || not (nat_eq q.execution_epoch x.execution_epoch))
          (err idempotency_conflict) (ok (s, (q, false))) (λ e. tt) (λ e. stands)

    Stands-request : (x : Continuation) → AfterOk (Stands key r) (request_continuation x t s)
    unfolding request_continuation
    Stands-request x =
        bind-Ok (Stands key r) (normalize_continuation x) _ λ q e. Stands-admit _ _ q refl

    Stands-take :
        (q : ContinuationClaim) (ttl : ℕ) → AfterOk (Stands key r) (claim_continuation q ttl t s)
    unfolding claim_continuation take_continuation
    Stands-take q ttl = bind-Ok (Stands key r) (validate_continuation_claim q) _ λ u _.
        bind-Ok (Stands key r) (require (pos64 ttl) _) _ λ u' _.
          bind-Ok (Stands key r) (find_continuation (claim_identity q) s) _ λ p e.
            bind-Ok (Stands key r) (require (same_executor p q) _) _ λ u'' _.
              if-Ok (Stands key r) (is_applied p.status) _ _ (λ _. stands)
                λ n. bind-Ok (Stands key r) (require (not (is_leased p t.now)) _) _ λ u3 a.
                  bind-Ok (Stands key r) (require (can_claim_continuation p.status) _) _ λ u4 _.
                    write_elsewhere (claim_identity q) p _ s s stands refl
                      (found_lookup (claim_identity q) s p e)
                      (blocked (claim_identity q) p (required _ _ u3 a))

    Stands-fallback :
        (id : String) (version epoch : ℕ)
        → AfterOk (Stands key r) (fallback_continuation id version epoch t s)
    unfolding fallback_continuation fall_back hand_over
    Stands-fallback id version epoch =
        bind-Ok (Stands key r) (find_continuation (continuation_identity id version) s) _ λ p e.
          if-Ok (Stands key r) (is_applied p.status) _ _ (λ _. stands)
            λ n.
              bind-Ok (Stands key r)
                (require (is_runner p.executor && nat_eq p.execution_epoch epoch) _) _
                λ u _. bind-Ok (Stands key r) (require (not (is_leased p t.now)) _) _ λ u' a.
                  write_elsewhere (continuation_identity id version) p _ s s stands refl
                    (found_lookup (continuation_identity id version) s p e)
                    (blocked (continuation_identity id version) p (required _ _ u' a))

    module _ (q : ContinuationClaim)
        (other : claim_identity q ≡ key → q.lease_owner ≢ r.lease_owner) where
      not_ours :
          (p : Continuation) (u : Unit {0})
          → validate_continuation_lease p q t.recheck ≡ ok u
          → claim_identity q ≡ key
          → p ≡ r
          → ⊥
      unfolding validate_continuation_lease
      not_ours p u h same eq =
          let owned : p.lease_owner ≡ q.lease_owner = str_eq_sound _ _ (
            and_right (same_executor p q && is_leased p t.recheck) _ (
              required
                (same_executor p q && is_leased p t.recheck && str_eq p.lease_owner q.lease_owner) _
                u h)) in
          other same (sym owned ∙ ap (λ x. x.lease_owner) eq)

      Stands-fail : (failure : Failure) → AfterOk (Stands key r) (fail_continuation q failure t s)
      unfolding fail_continuation
      Stands-fail failure = bind-Ok (Stands key r) (validate_continuation_claim q) _ λ u _.
          bind-Ok (Stands key r) (find_continuation (claim_identity q) s) _ λ p e.
            bind-Ok (Stands key r) (validate_continuation_lease p q t.recheck) _ λ u' a.
              write_elsewhere (claim_identity q) p _ s s stands refl
                (found_lookup (claim_identity q) s p e) (not_ours p u' a)

      Stands-apply :
          (c : Codec) (commands : List CommandLedger)
          → AfterOk (Stands key r) (apply_continuation c q commands t s)
      unfolding apply_continuation finish_apply
      Stands-apply c commands = bind-Ok (Stands key r) (validate_continuation_claim q) _ λ u _.
          bind-Ok (Stands key r) (find_continuation (claim_identity q) s) _ λ p e.
            if-Ok (Stands key r) (is_applied p.status) _ _ (λ _. stands)
              λ n. bind-Ok (Stands key r) (validate_continuation_lease p q t.recheck) _ λ u' a.
                bind-Ok (Stands key r) (check_commands c commands q s) _ λ xs _.
                  write_elsewhere (claim_identity q) p _ s (write_commands xs t.now s) stands
                    (write_commands-continuations xs t.now s)
                    (found_lookup (claim_identity q) s p e) (not_ours p u' a)

    Stands-move :
        (c : Codec) (op : ContinuationOp)
        → NotBy key r.lease_owner op
        → Stands key r (move c t op s)
    unfolding move
    Stands-move c (requests x) n = after_ok-Holds (Stands key r) s _ stands (Stands-request x)
    Stands-move c (takes q ttl) n = after_ok-Holds (Stands key r) s _ stands (Stands-take q ttl)
    Stands-move c (applies q commands) n =
        after_ok-Holds (Stands key r) s _ stands (Stands-apply q (n q refl) c commands)
    Stands-move c (fails q failure) n =
        after_ok-Holds (Stands key r) s _ stands (Stands-fail q (n q refl) failure)
    Stands-move c (falls_back id version epoch) n =
        after_ok-Holds (Stands key r) s _ stands (Stands-fallback id version epoch)

-- Every operation comes while the lease lasts, and is not made under the owner's claim.
abbrev pub ByOthers : String → String → ℕ → List (Clock × ContinuationOp) → Type 0
ByOthers key owner until [] = Unit {0}
ByOthers key owner until ((t, op) ∷ ops) =
    (t.now < until) × (t.recheck < until) × NotBy key owner op × ByOthers key owner until ops

-- A claimed continuation stays exactly as it is, whatever operations on continuations others make
-- before its lease runs out: nobody takes it over, applies it, fails it or falls back.
pub lease_excludes_others :
    (c : Codec) (ops : List (Clock × ContinuationOp)) (s : Store) (key : String) (r : Continuation)
    (until : ℕ)
    → lookup key s.continuations ≡ some r
    → r.status ≡ continuation_claimed
    → r.lease_until ≡ some until
    → ByOthers key r.lease_owner until ops
    → lookup key (moves c ops s).continuations ≡ some r
unfolding moves
lease_excludes_others c [] s key r until h a b others = h
lease_excludes_others c ((t, op) ∷ ops) s key r until h a b (now, again, n, others) =
    lease_excludes_others c ops (move c t op s) key r until
      (Stands-move key r until t s h (a, b, now, again) c op n) a b others
