-- ===== src/SessionRuntime/Continuation/Executors.antt =====
-- The executor of a continuation: the runner is out once the deterministic executor took over.
use dora_agent.Base.{
  >>=-eq-ok, Bool-cases, Codec, List, String, and_left, inl, inr, insert, lookup,
  lookup-insert_self, nat_eq, not, ok, pos64, refl, require, required, some, str_eq, subst, sym,
  true, ℕ, ◌&&◌, ◌∙◌, ◌≡◌, ◌⊎◌,
}
use dora_agent.SessionRuntime.Continuation.Applied.{returned_row}
use dora_agent.SessionRuntime.Continuation.Chains.{AfterOk, after_ok-Holds, bind-Ok, if-Ok}
use dora_agent.SessionRuntime.Continuation.Evolution.{
  ContinuationEvolves, found_lookup, leased-claimed, moves-ContinuationEvolves,
}
use dora_agent.SessionRuntime.Continuation.Steps.{
  ContinuationOp, applies, claim_of_op, fails, falls_back, move, moves, requests, takes,
}
use dora_agent.SessionRuntime.Models.Records.{
  CommandLedger, Continuation, ContinuationClaim, Failure,
}
use dora_agent.SessionRuntime.Models.Status.{deterministic, executor_eq, runner_resume}
use dora_agent.SessionRuntime.Steps.{after_ok}
use dora_agent.SessionRuntime.Store.Commands.{apply_continuation, finish_apply}
use dora_agent.SessionRuntime.Store.Continuations.{
  claim_continuation, claim_identity, continuation_identity, fail_continuation, fall_back,
  fallback_continuation, fallen_back_continuation, find_continuation, hand_over, is_applied,
  is_leased, is_runner, put_continuation, same_executor, take_continuation,
  validate_continuation_claim, validate_continuation_lease,
}
use dora_agent.SessionRuntime.Store.State.{Clock, Store}

-- Not for the runner: applied, or with the deterministic executor.
abbrev Closed : Continuation → Type 0
Closed r = (is_applied r.status ≡ true) ⊎ (r.executor ≡ deterministic)

Closed-stays : {r r' : Continuation} → ContinuationEvolves r r' → Closed r → Closed r'
Closed-stays {r} {r'} e (inl p) =
    inl (subst (λ x. is_applied x.status ≡ true) (sym (e.applied_stays p)) p)
Closed-stays {r} {r'} e (inr p) = elim e.same_run [
  | inl (x, n) ↦ inr (x ∙ p)
  | inr (x, y, n) ↦ inr y
]

hand_over-Closed :
    (key : String) (epoch now : ℕ) (p : Continuation) (s s' : Store) (r : Continuation)
    → hand_over key epoch p now s ≡ ok (s', r)
    → (lookup key s'.continuations ≡ some r) × Closed r
unfolding hand_over
hand_over-Closed key epoch now p s s' r h =
    let (u, a, h1) =
      >>=-eq-ok (require (is_runner p.executor && nat_eq p.execution_epoch epoch) _) _ h in
    let (u', b, h2) = >>=-eq-ok (require (not (is_leased p now)) _) _ h1 in
    let new : Continuation = fallen_back_continuation now p in
    let same_row : new ≡ r = cc h2 in
    let same_store : put_continuation key new s ≡ s' = cc h2 in
    (
      subst (λ x. lookup key x.continuations ≡ some r) same_store
          (subst (λ x. lookup key (insert key new s.continuations) ≡ some x) same_row
            (lookup-insert_self key new _)),
      inr (subst (λ x. x.executor ≡ deterministic) same_row refl),
    )

fallback-Closed :
    (id : String) (version epoch : ℕ) (t : Clock) (s s' : Store) (r : Continuation)
    → fallback_continuation id version epoch t s ≡ ok (s', r)
    → (lookup (continuation_identity id version) s'.continuations ≡ some r) × Closed r
unfolding fallback_continuation fall_back
fallback-Closed id version epoch t s s' r h =
    let (p, e, h1) = >>=-eq-ok (find_continuation (continuation_identity id version) s) _ h in
    elim (Bool-cases (is_applied p.status)) [
      | inl y ↦
          let (found, z) =
            returned_row (continuation_identity id version) p s s' r (sym (rw y refl) ∙ h1)
              (found_lookup (continuation_identity id version) s p e) y in
          (found, inl z)
      | inr n ↦
          hand_over-Closed (continuation_identity id version) epoch t.now p s s' r
            (sym (rw n refl) ∙ h1)
    ]

Closed-to_runner :
    (r : Continuation) (q : ContinuationClaim)
    → Closed r
    → q.executor ≡ runner_resume
    → same_executor r q ≡ true
    → is_applied r.status ≡ true
Closed-to_runner r q (inl a) x h = a
Closed-to_runner r q (inr d) x h =
    let h' : executor_eq deterministic runner_resume && nat_eq r.execution_epoch q.execution_epoch
        ≡ true =
      subst (λ y. executor_eq deterministic y && nat_eq r.execution_epoch q.execution_epoch ≡ true)
        x
        (subst (λ y. executor_eq y q.executor && nat_eq r.execution_epoch q.execution_epoch ≡ true)
          d h) in
    cc h'

lease_executor :
    (r : Continuation) (q : ContinuationClaim) (now : ℕ) (u : Unit {0})
    → validate_continuation_lease r q now ≡ ok u
    → same_executor r q ≡ true
unfolding validate_continuation_lease
lease_executor r q now u h = and_left (same_executor r q) _ (
    and_left (same_executor r q && is_leased r now) _
      (required (same_executor r q && is_leased r now && str_eq r.lease_owner q.lease_owner) _ u h))

module _ (c : Codec) (t : Clock) (q : ContinuationClaim) (s : Store) (r : Continuation)
    (runner : q.executor ≡ runner_resume)
    (found : lookup (claim_identity q) s.continuations ≡ some r) (closed : Closed r) where
  -- The row that the operation finds is this one.
  found_row : (p : Continuation) → find_continuation (claim_identity q) s ≡ ok p → Closed p
  found_row p e =
      let same : r ≡ p = cc (found, found_lookup (claim_identity q) s p e) in
      subst Closed same closed

  closed_take : (ttl : ℕ) → AfterOk (λ x. x ≡ s) (claim_continuation q ttl t s)
  unfolding claim_continuation take_continuation
  closed_take ttl =
      bind-Ok (λ x. x ≡ s) (validate_continuation_claim q) _
        λ u _.
          bind-Ok (λ x. x ≡ s) (require (pos64 ttl) _) _
            λ u' _.
              bind-Ok (λ x. x ≡ s) (find_continuation (claim_identity q) s) _
                λ p e.
                  bind-Ok (λ x. x ≡ s) (require (same_executor p q) _) _
                    λ u'' a.
                      if-Ok (λ x. x ≡ s) (is_applied p.status) _ _ (λ y. refl)
                        λ n.
                          let y =
                            Closed-to_runner p q (found_row p e) runner (required _ _ u'' a) in
                          cc (y, n)

  closed_fail : (failure : Failure) → AfterOk (λ x. x ≡ s) (fail_continuation q failure t s)
  unfolding fail_continuation
  closed_fail failure =
      bind-Ok (λ x. x ≡ s) (validate_continuation_claim q) _
        λ u _.
          bind-Ok (λ x. x ≡ s) (find_continuation (claim_identity q) s) _
            λ p e.
              bind-Ok (λ x. x ≡ s) (validate_continuation_lease p q t.recheck) _
                λ u' a.
                  let y =
                    Closed-to_runner p q (found_row p e) runner
                      (lease_executor p q t.recheck u' a) in
                  let n = leased-claimed p q t.recheck u' a in cc (y, n)

  closed_apply :
      (commands : List CommandLedger) → AfterOk (λ x. x ≡ s) (apply_continuation c q commands t s)
  unfolding apply_continuation finish_apply
  closed_apply commands =
      bind-Ok (λ x. x ≡ s) (validate_continuation_claim q) _
        λ u _.
          bind-Ok (λ x. x ≡ s) (find_continuation (claim_identity q) s) _
            λ p e.
              if-Ok (λ x. x ≡ s) (is_applied p.status) _ _ (λ y. refl)
                λ n.
                  bind-Ok (λ x. x ≡ s) (validate_continuation_lease p q t.recheck) _
                    λ u' a.
                      let y =
                        Closed-to_runner p q (found_row p e) runner
                          (lease_executor p q t.recheck u' a) in
                      cc (y, n)

  closed_move : (op : ContinuationOp) → claim_of_op op ≡ some q → move c t op s ≡ s
  unfolding move
  closed_move (requests x) e = cc
  closed_move (takes x ttl) e =
      let same : x ≡ q = cc in
      subst (λ y. after_ok s (claim_continuation y ttl t s) ≡ s) (sym same)
        (after_ok-Holds (λ x. x ≡ s) s _ refl (closed_take ttl))
  closed_move (applies x commands) e =
      let same : x ≡ q = cc in
      subst (λ y. after_ok s (apply_continuation c y commands t s) ≡ s) (sym same)
        (after_ok-Holds (λ x. x ≡ s) s _ refl (closed_apply commands))
  closed_move (fails x failure) e =
      let same : x ≡ q = cc in
      subst (λ y. after_ok s (fail_continuation y failure t s) ≡ s) (sym same)
        (after_ok-Holds (λ x. x ≡ s) s _ refl (closed_fail failure))
  closed_move (falls_back id version epoch) e = cc

-- After a successful FallbackContinuation the runner is out for good: whatever operations on
-- continuations follow, one under a claim of the runner for that decision, in any epoch, changes
-- nothing.
pub fallback_closes_runner :
    (c : Codec) (id : String) (version epoch : ℕ) (t : Clock) (s s' : Store) (r : Continuation)
    → fallback_continuation id version epoch t s ≡ ok (s', r)
    → (ops : List (Clock × ContinuationOp)) (op : ContinuationOp) (q : ContinuationClaim)
      (t' : Clock)
    → claim_of_op op ≡ some q
    → q.executor ≡ runner_resume
    → claim_identity q ≡ continuation_identity id version
    → move c t' op (moves c ops s') ≡ moves c ops s'
fallback_closes_runner c id version epoch t s s' r h ops op q t' e runner same =
    let (found, closed) = fallback-Closed id version epoch t s s' r h in
    let (r', found', d) =
      moves-ContinuationEvolves c ops s' (continuation_identity id version) r found in
    closed_move c t' q (moves c ops s') r' runner
      (subst (λ k. lookup k (moves c ops s').continuations ≡ some r') (sym same) found')
      (Closed-stays d closed) op e
