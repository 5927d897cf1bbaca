-- ===== src/SessionRuntime/Continuation/Recorded.antt =====
-- The ledger over any operations on continuations: only ApplyContinuation writes it.
use dora_agent.Base.{
  Bool, Codec, List, Option, Result, String, [], err, false, lookup, nat_eq, none, not, ok, pos64,
  refl, require, some, str_eq, ℕ, ◌&&◌, ◌||◌, ◌∷◌, ◌≡◌,
}
use dora_agent.SessionRuntime.Continuation.Chains.{AfterOk, after_ok-Holds, bind-Ok, if-Ok}
use dora_agent.SessionRuntime.Continuation.Ledger.{
  CommandsTo, SameCommand, SameCommand-refl, SameCommand-trans, apply-CommandsTo, same_commands-To,
}
use dora_agent.SessionRuntime.Continuation.Steps.{
  ContinuationOp, applies, fails, falls_back, move, moves, requests, takes,
}
use dora_agent.SessionRuntime.Models.Records.{
  CommandLedger, Continuation, ContinuationClaim, Failure,
}
use dora_agent.SessionRuntime.Models.Status.{Error, executor_eq, idempotency_conflict}
use dora_agent.SessionRuntime.Steps.{after_ok}
use dora_agent.SessionRuntime.Store.Continuations.{
  admit_continuation, can_claim_continuation, claim_continuation, claim_identity,
  continuation_identity, fail_continuation, fall_back, fallback_continuation, find_continuation,
  hand_over, is_applied, is_leased, is_runner, normalize_continuation, request_continuation,
  same_executor, take_continuation, validate_continuation_claim, validate_continuation_lease,
}
use dora_agent.SessionRuntime.Store.State.{Clock, Store}

-- The ledger is the one of s.
abbrev SameLedger : Store → Store → Type 0
SameLedger s x = x.commands ≡ s.commands

module _ (t : Clock) (s : Store) where
  request-SameLedger : (x : Continuation) → AfterOk (SameLedger s) (request_continuation x t s)
  unfolding request_continuation admit_continuation
  request-SameLedger x =
      bind-Ok (SameLedger s) (normalize_continuation x) _
        λ q e. admitted (continuation_identity q.approval_id q.decision_version) _ q
    where
      admitted :
          (k : String) (m : Option Continuation) (q : Continuation)
          → AfterOk (SameLedger s) (admit_continuation k m q t.now s)
      admitted k none q = refl
      admitted k (some p) q =
          if-Ok {B = Continuation × Bool} (SameLedger s)
            (not (str_eq p.session_id q.session_id)
              || not (executor_eq p.executor q.executor)
              || not (nat_eq p.execution_epoch q.execution_epoch))
            (err idempotency_conflict) (ok (s, (p, false))) (λ e. tt) (λ e. refl)

  take-SameLedger :
      (q : ContinuationClaim) (ttl : ℕ) → AfterOk (SameLedger s) (claim_continuation q ttl t s)
  unfolding claim_continuation take_continuation
  take-SameLedger q ttl = bind-Ok (SameLedger s) (validate_continuation_claim q) _ λ u _.
      bind-Ok (SameLedger s) (require (pos64 ttl) _) _ λ u' _.
        bind-Ok (SameLedger s) (find_continuation (claim_identity q) s) _ λ p e.
          bind-Ok (SameLedger s) (require (same_executor p q) _) _ λ u'' _.
            if-Ok (SameLedger s) (is_applied p.status) _ _ (λ _. refl)
              λ n. bind-Ok (SameLedger s) (require (not (is_leased p t.now)) _) _ λ u3 a.
                bind-Ok (SameLedger s) (require (can_claim_continuation p.status) _) _ λ u4 _. refl

  fail-SameLedger :
      (q : ContinuationClaim) (failure : Failure)
      → AfterOk (SameLedger s) (fail_continuation q failure t s)
  unfolding fail_continuation
  fail-SameLedger q failure = bind-Ok (SameLedger s) (validate_continuation_claim q) _ λ u _.
      bind-Ok (SameLedger s) (find_continuation (claim_identity q) s) _
        λ p e. bind-Ok (SameLedger s) (validate_continuation_lease p q t.recheck) _ λ u' a. refl

  fallback-SameLedger :
      (id : String) (version epoch : ℕ)
      → AfterOk (SameLedger s) (fallback_continuation id version epoch t s)
  unfolding fallback_continuation fall_back hand_over
  fallback-SameLedger id version epoch =
      bind-Ok (SameLedger s) (find_continuation (continuation_identity id version) s) _ λ p e.
        if-Ok (SameLedger s) (is_applied p.status) _ _ (λ _. refl)
          λ n.
            bind-Ok (SameLedger s)
              (require (is_runner p.executor && nat_eq p.execution_epoch epoch) _) _
              λ u _. bind-Ok (SameLedger s) (require (not (is_leased p t.now)) _) _ λ u' a. refl

module _ (c : Codec) where
  SameLedger-To :
      {A : Type 0} (s : Store) (m : Result Error (Store × A))
      → AfterOk (SameLedger s) m
      → CommandsTo c s (after_ok s m)
  SameLedger-To s m h =
      same_commands-To c s (after_ok s m) (after_ok-Holds (SameLedger s) s m refl h)

  move-CommandsTo : (t : Clock) (op : ContinuationOp) (s : Store) → CommandsTo c s (move c t op s)
  unfolding move
  move-CommandsTo t (requests x) s = SameLedger-To s _ (request-SameLedger t s x)
  move-CommandsTo t (takes q ttl) s = SameLedger-To s _ (take-SameLedger t s q ttl)
  move-CommandsTo t (applies q commands) s =
      after_ok-Holds (CommandsTo c s) s _ (same_commands-To c s s refl)
        (apply-CommandsTo c q commands t s)
  move-CommandsTo t (fails q failure) s = SameLedger-To s _ (fail-SameLedger t s q failure)
  move-CommandsTo t (falls_back id version epoch) s =
      SameLedger-To s _ (fallback-SameLedger t s id version epoch)

  -- A recorded command stays: whatever operations on continuations follow, a command stands under
  -- its key that has the same identity, kind, epoch and idempotency key, and whose payload and
  -- result are the same JSON.
  pub moves-SameCommand :
      (ops : List (Clock × ContinuationOp)) (s : Store) (k : String) (x : CommandLedger)
      → lookup k s.commands ≡ some x
      → (y : CommandLedger) × (lookup k (moves c ops s).commands ≡ some y) × SameCommand c x y
  unfolding moves
  moves-SameCommand [] s k x h = (x, h, SameCommand-refl c x)
  moves-SameCommand ((t, op) ∷ ops) s k x h =
      let (y, hy, e) = move-CommandsTo t op s k x h in
      let (z, hz, e') = moves-SameCommand ops (move c t op s) k y hy in
      (z, hz, SameCommand-trans c e e')
