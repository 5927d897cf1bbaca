-- ===== src/SessionRuntime/Continuation/Evolution.antt =====
-- How a continuation develops: one that is applied stays, and the executor changes once at most.
use dora_agent.Base.{
  Bool, Codec, List, Option, Option-cases, String, String_discrete, [], add64, arith, err, false,
  inl, inr, insert, lookup, lookup-insert, lookup-insert_self, nat_eq, none, not, ok, pos64, refl,
  require, required, some, str_eq, subst, sym, true, ℕ, ◌&&◌, ◌||◌, ◌∙◌, ◌∷◌, ◌≡◌, ◌⊎◌,
}
use dora_agent.SessionRuntime.Continuation.Chains.{AfterOk, after_ok-Holds, bind-Ok, if-Ok}
use dora_agent.SessionRuntime.Continuation.Steps.{
  ContinuationOp, applies, fails, falls_back, move, moves, requests, takes,
}
use dora_agent.SessionRuntime.Models.Records.{
  CommandLedger, Continuation, ContinuationClaim, Failure,
}
use dora_agent.SessionRuntime.Models.Status.{
  ContinuationExecutor, deterministic, executor_eq, idempotency_conflict, other_executor,
  runner_resume,
}
use dora_agent.SessionRuntime.Store.Commands.{
  apply_continuation, check_commands, finish_apply, write_commands,
}
use dora_agent.SessionRuntime.Store.Continuations.{
  admit_continuation, can_claim_continuation, claim_continuation, claim_identity,
  continuation_identity, fail_continuation, fall_back, fallback_continuation, find_continuation,
  hand_over, is_applied, is_leased, is_runner, normalize_continuation, put_continuation,
  request_continuation, same_executor, take_continuation, validate_continuation_claim,
  validate_continuation_lease,
}
use dora_agent.SessionRuntime.Store.State.{Clock, Store}

-- The executor and the epoch are the same, or the deterministic executor took over from the runner
-- in the next epoch.
abbrev pub SameRun : Continuation → Continuation → Type 0
SameRun r r' =
    ((r'.executor ≡ r.executor) × (r'.execution_epoch ≡ r.execution_epoch))
    ⊎ ((r.executor ≡ runner_resume)
        × (r'.executor ≡ deterministic)
        × (r'.execution_epoch ≡ add64 r.execution_epoch 1))

pub record ContinuationEvolves (r r' : Continuation) : Type 0 where
  pub same_approval : r'.approval_id ≡ r.approval_id
  pub same_version : r'.decision_version ≡ r.decision_version
  pub same_session : r'.session_id ≡ r.session_id
  pub same_run : SameRun r r'
  pub applied_stays : is_applied r.status ≡ true → r' ≡ r

pub ContinuationEvolves-refl : (r : Continuation) → ContinuationEvolves r r
ContinuationEvolves-refl r = record {
  same_approval = refl;
  same_version = refl;
  same_session = refl;
  same_run = inl (refl, refl);
  applied_stays = λ h. refl;
}

SameRun-trans : (q r t : Continuation) → SameRun q r → SameRun r t → SameRun q t
SameRun-trans q r t (inl a) (inl b) = inl (b.0 ∙ a.0, b.1 ∙ a.1)
SameRun-trans q r t (inl a) (inr b) =
    inr (sym a.0 ∙ b.0, b.1, subst (λ e. t.execution_epoch ≡ add64 e 1) a.1 b.2)
SameRun-trans q r t (inr a) (inl b) = inr (a.0, b.0 ∙ a.1, b.1 ∙ a.2)
SameRun-trans q r t (inr a) (inr b) = cc

pub ContinuationEvolves-trans :
    {q r t : Continuation}
    → ContinuationEvolves q r
    → ContinuationEvolves r t
    → ContinuationEvolves q t
ContinuationEvolves-trans {q} {r} {t} a b = record {
  same_approval = b.same_approval ∙ a.same_approval;
  same_version = b.same_version ∙ a.same_version;
  same_session = b.same_session ∙ a.same_session;
  same_run = SameRun-trans q r t a.same_run b.same_run;
  applied_stays = λ h.
      b.applied_stays (subst (λ x. is_applied x.status ≡ true) (sym (a.applied_stays h)) h)
      ∙ a.applied_stays h;
}

-- Every continuation is still there, developed from what it was.
abbrev pub ContinuationsTo : Store → Store → Type 0
ContinuationsTo s s' =
    (k : String) (r : Continuation)
    → lookup k s.continuations ≡ some r
    → (r' : Continuation) × (lookup k s'.continuations ≡ some r') × ContinuationEvolves r r'

same-ContinuationsTo : (s : Store) → ContinuationsTo s s
same-ContinuationsTo s k r h = (r, h, ContinuationEvolves-refl r)

put_continuation-To :
    (s t : Store) (key : String) (r r' : Continuation)
    → t.continuations ≡ s.continuations
    → lookup key s.continuations ≡ some r
    → ContinuationEvolves r r'
    → ContinuationsTo s (put_continuation key r' t)
put_continuation-To s t key r r' same found e k q h = elim (String_discrete key k) [
  | yes p ↦
      let eq : r ≡ q = cc (found, h, p) in
      (
        r',
        subst (λ x. lookup x (insert key r' t.continuations) ≡ some r') p
            (lookup-insert_self key r' t.continuations),
        subst (λ x. ContinuationEvolves x r') eq e,
      )
  | no p ↦ (
    q,
    ground (
      arith,
      lookup-insert key k r' t.continuations,
      subst (λ m. lookup k m ≡ some q) (sym same) h,
    ),
    ContinuationEvolves-refl q,
  )
]

put_new-To :
    (s : Store) (key : String) (r' : Continuation)
    → lookup key s.continuations ≡ none
    → ContinuationsTo s (put_continuation key r' s)
put_new-To s key r' absent k q h = (
  q,
  ground (arith, lookup-insert key k r' s.continuations, String_discrete key k),
  ContinuationEvolves-refl q,
)

pub found_lookup :
    (key : String) (s : Store) (r : Continuation)
    → find_continuation key s ≡ ok r
    → lookup key s.continuations ≡ some r
unfolding find_continuation
found_lookup key s r h = elim (Option-cases (lookup key s.continuations)) [
  | inl e ↦ ground arith
  | inr (q, e) ↦ ground arith
]

-- A write that keeps the identity and the run of a continuation that is not applied.
quiet-Evolves :
    (r r' : Continuation)
    → is_applied r.status ≡ false
    → r'.approval_id ≡ r.approval_id
    → r'.decision_version ≡ r.decision_version
    → r'.session_id ≡ r.session_id
    → SameRun r r'
    → ContinuationEvolves r r'
quiet-Evolves r r' h a v d e = record {
  same_approval = a;
  same_version = v;
  same_session = d;
  same_run = e;
  applied_stays = λ p. cc;
}

admit-Ok :
    (key : String) (m : Option Continuation) (r : Continuation) (now : ℕ) (s : Store)
    → lookup key s.continuations ≡ m
    → AfterOk (ContinuationsTo s) (admit_continuation key m r now s)
unfolding admit_continuation
admit-Ok key none r now s h = put_new-To s key _ h
admit-Ok key (some q) r now s h =
    if-Ok {B = Continuation × Bool} (ContinuationsTo s)
      (not (str_eq q.session_id r.session_id)
        || not (executor_eq q.executor r.executor)
        || not (nat_eq q.execution_epoch r.execution_epoch))
      (err idempotency_conflict) (ok (s, (q, false))) (λ e. tt) (λ e. same-ContinuationsTo s)

request-Ok :
    (r : Continuation) (t : Clock) (s : Store)
    → AfterOk (ContinuationsTo s) (request_continuation r t s)
unfolding request_continuation
request-Ok r t s =
    bind-Ok (ContinuationsTo s) (normalize_continuation r) _ λ q e. admit-Ok _ _ q t.now s refl

claim-Ok :
    (q : ContinuationClaim) (ttl : ℕ) (t : Clock) (s : Store)
    → AfterOk (ContinuationsTo s) (claim_continuation q ttl t s)
unfolding claim_continuation take_continuation
claim-Ok q ttl t s = bind-Ok (ContinuationsTo s) (validate_continuation_claim q) _ λ u _.
    bind-Ok (ContinuationsTo s) (require (pos64 ttl) _) _ λ u' _.
      bind-Ok (ContinuationsTo s) (find_continuation (claim_identity q) s) _ λ r e.
        bind-Ok (ContinuationsTo s) (require (same_executor r q) _) _ λ u'' _.
          if-Ok (ContinuationsTo s) (is_applied r.status) _ _ (λ p. same-ContinuationsTo s)
            λ p. bind-Ok (ContinuationsTo s) (require (not (is_leased r t.now)) _) _ λ u3 _.
              bind-Ok (ContinuationsTo s) (require (can_claim_continuation r.status) _) _ λ u4 _.
                put_continuation-To s s (claim_identity q) r _ refl (found_lookup _ s r e)
                  (quiet-Evolves r _ p refl refl refl (inl (refl, refl)))

pub leased-claimed :
    (r : Continuation) (q : ContinuationClaim) (now : ℕ) (u : Unit {0})
    → validate_continuation_lease r q now ≡ ok u
    → is_applied r.status ≡ false
unfolding validate_continuation_lease
leased-claimed r q now u h = ground arith

fail-Ok :
    (q : ContinuationClaim) (failure : Failure) (t : Clock) (s : Store)
    → AfterOk (ContinuationsTo s) (fail_continuation q failure t s)
unfolding fail_continuation
fail-Ok q failure t s = bind-Ok (ContinuationsTo s) (validate_continuation_claim q) _ λ u _.
    bind-Ok (ContinuationsTo s) (find_continuation (claim_identity q) s) _ λ r e.
      bind-Ok (ContinuationsTo s) (validate_continuation_lease r q t.recheck) _ λ u' l.
        put_continuation-To s s (claim_identity q) r _ refl (found_lookup _ s r e)
          (quiet-Evolves r _ (leased-claimed r q t.recheck u' l) refl refl refl (inl (refl, refl)))

runner_only : (x : ContinuationExecutor) → is_runner x ≡ true → x ≡ runner_resume
runner_only runner_resume h = refl
runner_only deterministic h = cc
runner_only (other_executor t) h = cc

fallback-Ok :
    (id : String) (version epoch : ℕ) (t : Clock) (s : Store)
    → AfterOk (ContinuationsTo s) (fallback_continuation id version epoch t s)
unfolding fallback_continuation fall_back hand_over
fallback-Ok id version epoch t s =
    bind-Ok (ContinuationsTo s) (find_continuation (continuation_identity id version) s) _ λ r e.
      if-Ok (ContinuationsTo s) (is_applied r.status) _ _ (λ p. same-ContinuationsTo s)
        λ p.
          bind-Ok (ContinuationsTo s)
            (require (is_runner r.executor && nat_eq r.execution_epoch epoch) _) _
            λ u a. bind-Ok (ContinuationsTo s) (require (not (is_leased r t.now)) _) _ λ u' _.
              put_continuation-To s s (continuation_identity id version) r _ refl
                (found_lookup _ s r e)
                (quiet-Evolves r _ p refl refl refl
                  (inr (runner_only r.executor (ground (arith, required _ _ u a)), refl, refl)))

pub write_commands-continuations :
    (xs : List CommandLedger) (now : ℕ) (s : Store)
    → (write_commands xs now s).continuations ≡ s.continuations
unfolding write_commands
write_commands-continuations [] now s = refl
write_commands-continuations (x ∷ xs) now s = write_commands-continuations xs now _

apply-Ok :
    (c : Codec) (q : ContinuationClaim) (commands : List CommandLedger) (t : Clock) (s : Store)
    → AfterOk (ContinuationsTo s) (apply_continuation c q commands t s)
unfolding apply_continuation finish_apply
apply-Ok c q commands t s = bind-Ok (ContinuationsTo s) (validate_continuation_claim q) _ λ u _.
    bind-Ok (ContinuationsTo s) (find_continuation (claim_identity q) s) _ λ r e.
      if-Ok (ContinuationsTo s) (is_applied r.status) _ _ (λ p. same-ContinuationsTo s)
        λ p. bind-Ok (ContinuationsTo s) (validate_continuation_lease r q t.recheck) _ λ u' _.
          bind-Ok (ContinuationsTo s) (check_commands c commands q s) _ λ xs _.
            put_continuation-To s (write_commands xs t.now s) (claim_identity q) r _
              (write_commands-continuations xs t.now s) (found_lookup _ s r e)
              (quiet-Evolves r _ p refl refl refl (inl (refl, refl)))

module _ (c : Codec) where
  pub move-To : (t : Clock) (op : ContinuationOp) (s : Store) → ContinuationsTo s (move c t op s)
  unfolding move
  move-To t (requests r) s =
      after_ok-Holds (ContinuationsTo s) s _ (same-ContinuationsTo s) (request-Ok r t s)
  move-To t (takes q ttl) s =
      after_ok-Holds (ContinuationsTo s) s _ (same-ContinuationsTo s) (claim-Ok q ttl t s)
  move-To t (applies q commands) s =
      after_ok-Holds (ContinuationsTo s) s _ (same-ContinuationsTo s) (apply-Ok c q commands t s)
  move-To t (fails q failure) s =
      after_ok-Holds (ContinuationsTo s) s _ (same-ContinuationsTo s) (fail-Ok q failure t s)
  move-To t (falls_back id version epoch) s =
      after_ok-Holds (ContinuationsTo s) s _ (same-ContinuationsTo s)
        (fallback-Ok id version epoch t s)

  -- Whatever operations on continuations follow, in whatever order and at whatever times: every
  -- continuation of the store is still there, for the same decision and session. If it was applied,
  -- it is unchanged. Its executor and epoch are the same, or the deterministic executor took over
  -- from the runner in the next epoch, which happens once at most.
  pub moves-ContinuationEvolves :
      (ops : List (Clock × ContinuationOp)) (s : Store) (k : String) (r : Continuation)
      → lookup k s.continuations ≡ some r
      → (r' : Continuation) × (lookup k (moves c ops s).continuations ≡ some r')
        × ContinuationEvolves r r'
  unfolding moves
  moves-ContinuationEvolves [] s k r h = (r, h, ContinuationEvolves-refl r)
  moves-ContinuationEvolves ((t, op) ∷ ops) s k r h =
      let (q, hq, e) = move-To t op s k r h in
      let (p, hp, e') = moves-ContinuationEvolves ops (move c t op s) k q hq in
      (p, hp, ContinuationEvolves-trans e e')
