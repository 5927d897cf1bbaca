-- ===== src/SessionRuntime/Continuation/Applied.antt =====
-- An applied continuation is applied for good.
-- deterministic executor took over, and while a claim is leased nobody else gets in.
use dora_agent.Base.{
  >>=-eq-ok, Bool-cases, Codec, List, Result, String, ap, inl, inr, insert, lookup,
  lookup-insert_self, ok, refl, some, subst, sym, true, ◌∙◌, ◌≡◌,
}
use dora_agent.SessionRuntime.Continuation.Evolution.{found_lookup, moves-ContinuationEvolves}
use dora_agent.SessionRuntime.Continuation.Steps.{ContinuationOp, moves}
use dora_agent.SessionRuntime.Models.Records.{CommandLedger, Continuation, ContinuationClaim}
use dora_agent.SessionRuntime.Models.Status.{Error}
use dora_agent.SessionRuntime.Store.Commands.{
  applied_continuation, apply_continuation, check_commands, finish_apply, write_commands,
}
use dora_agent.SessionRuntime.Store.Continuations.{
  claim_identity, find_continuation, is_applied, put_continuation, validate_continuation_claim,
  validate_continuation_lease,
}
use dora_agent.SessionRuntime.Store.State.{Clock, Store}

find_some :
    (key : String) (s : Store) (r : Continuation)
    → lookup key s.continuations ≡ some r
    → find_continuation key s ≡ ok r
unfolding find_continuation
find_some key s r h = rw h

applied_again :
    (c : Codec) (q : ContinuationClaim) (commands : List CommandLedger) (t : Clock) (s : Store)
    (r : Continuation)
    → validate_continuation_claim q ≡ ok tt
    → lookup (claim_identity q) s.continuations ≡ some r
    → is_applied r.status ≡ true
    → apply_continuation c q commands t s ≡ ok (s, r)
unfolding apply_continuation
applied_again c q commands t s r v h p = rw (v, find_some (claim_identity q) s r h, p)

finish_apply-result :
    (c : Codec) (q : ContinuationClaim) (commands : List CommandLedger) (p : Continuation)
    (t : Clock) (s s' : Store) (r : Continuation)
    → finish_apply c q commands p t s ≡ ok (s', r)
    → (lookup (claim_identity q) s'.continuations ≡ some r) × (is_applied r.status ≡ true)
unfolding finish_apply
finish_apply-result c q commands p t s s' r h =
    let (u, a, h1) = >>=-eq-ok (validate_continuation_lease p q t.recheck) _ h in
    let (xs, e, h2) = >>=-eq-ok (check_commands c commands q s) _ h1 in
    let new : Continuation = applied_continuation t.now p in
    let same_row : new ≡ r = cc h2 in
    let same_store : put_continuation (claim_identity q) new (write_commands xs t.now s) ≡ s' =
      cc h2 in
    (
      subst (λ x. lookup (claim_identity q) x.continuations ≡ some r) same_store
          (subst
            (λ x.
              lookup (claim_identity q)
                (insert (claim_identity q) new (write_commands xs t.now s).continuations)
              ≡ some x)
            same_row (lookup-insert_self (claim_identity q) new _)),
      subst (λ x. is_applied x.status ≡ true) same_row refl,
    )

pub returned_row :
    (key : String) (p : Continuation) (s s' : Store) (r : Continuation)
    → (◌≡◌ {A = Result Error (Store × Continuation)} (ok (s, p)) (ok (s', r)))
    → lookup key s.continuations ≡ some p
    → is_applied p.status ≡ true
    → (lookup key s'.continuations ≡ some r) × (is_applied r.status ≡ true)
returned_row key p s s' r h found y =
    let same_store : s ≡ s' = cc h in
    let same_row : p ≡ r = cc h in
    (
      subst (λ x. lookup key x.continuations ≡ some r) same_store
          (subst (λ x. lookup key s.continuations ≡ some x) same_row found),
      subst (λ x. is_applied x.status ≡ true) same_row y,
    )

-- What a successful application leaves: the continuation, applied.
apply_result :
    (c : Codec) (q : ContinuationClaim) (commands : List CommandLedger) (t : Clock) (s s' : Store)
    (r : Continuation)
    → apply_continuation c q commands t s ≡ ok (s', r)
    → (lookup (claim_identity q) s'.continuations ≡ some r) × (is_applied r.status ≡ true)
unfolding apply_continuation
apply_result c q commands t s s' r h =
    let (u, a, h1) = >>=-eq-ok (validate_continuation_claim q) _ h in
    let (p, e, h2) = >>=-eq-ok (find_continuation (claim_identity q) s) _ h1 in
    elim (Bool-cases (is_applied p.status)) [
      | inl y ↦
          returned_row (claim_identity q) p s s' r (sym (rw y refl) ∙ h2)
            (found_lookup (claim_identity q) s p e) y
      | inr n ↦ finish_apply-result c q commands p t s s' r (sym (rw n refl) ∙ h2)
    ]

-- A continuation is applied once: after a successful ApplyContinuation and any further operations on
-- continuations, a valid claim for the same decision, with any commands, gets the applied row and
-- changes nothing.
pub apply_once :
    (c : Codec) (q : ContinuationClaim) (commands : List CommandLedger) (t : Clock) (s s' : Store)
    (r : Continuation)
    → apply_continuation c q commands t s ≡ ok (s', r)
    → (ops : List (Clock × ContinuationOp)) (q' : ContinuationClaim)
      (commands' : List CommandLedger) (t' : Clock)
    → validate_continuation_claim q' ≡ ok tt
    → claim_identity q' ≡ claim_identity q
    → apply_continuation c q' commands' t' (moves c ops s') ≡ ok (moves c ops s', r)
apply_once c q commands t s s' r h ops q' commands' t' v same =
    let (found, p) = apply_result c q commands t s s' r h in
    let (r', found', e) = moves-ContinuationEvolves c ops s' (claim_identity q) r found in
    applied_again c q' commands' t' (moves c ops s') r v
      (subst (λ k. lookup k (moves c ops s').continuations ≡ some r) (sym same)
        (found' ∙ ap some (e.applied_stays p)))
      p
