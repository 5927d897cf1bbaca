-- ===== src/SessionRuntime/Fences/Stale.antt =====
-- A fence whose token has been passed is rejected for ever, and can change nothing.
use dora_agent.Base.{
  Codec, List, Option, String, [], ap, arith, err, inl, inr, length, lookup, none, some, subst, sym,
  trim_space, word, ℕ, ◌+◌, ◌<◌, ◌∙◌, ◌∷◌, ◌≡◌, ◌≤◌,
}
use dora_agent.SessionRuntime.Fences.LeaseWrites.{LeasesTo, Newer, same_leases-LeasesTo}
use dora_agent.SessionRuntime.Lifecycle.Development.{
  Develops, claims_next, keeps, lets_in, step-Develops, writes_lease,
}
use dora_agent.SessionRuntime.Lifecycle.Keeps.{Keyed}
use dora_agent.SessionRuntime.Lifecycle.Rows.{Develops-Keyed}
use dora_agent.SessionRuntime.Models.Records.{ClaimOptions, Fence, RuntimeLease}
use dora_agent.SessionRuntime.Models.Status.{fence_rejected}
use dora_agent.SessionRuntime.Steps.{
  Op, acquires, begins, claims, commits, enqueues, freezes_at, freezes_from_inputs, gets_turn,
  hands_off, kills_input, kills_turn, marks_running, recovers, releases, renews, resolves,
  retries_input, retries_turn, run, saves_checkpoint, saves_output, step, waits,
}
use dora_agent.SessionRuntime.Store.Claims.{claim_next, claim_with}
use dora_agent.SessionRuntime.Store.Endings.{
  commit_turn, dead_turn, retry_turn_at, wait_for_interrupt,
}
use dora_agent.SessionRuntime.Store.Fencing.{validate_fence}
use dora_agent.SessionRuntime.Store.Lane.{
  dead_input, mark_input_running, resolve_input, retry_input,
}
use dora_agent.SessionRuntime.Store.Leases.{handoff_lease, release_lease, renew_lease}
use dora_agent.SessionRuntime.Store.Outputs.{save_turn_checkpoint, save_turn_output}
use dora_agent.SessionRuntime.Store.Recovery.{recover_expired_inputs}
use dora_agent.SessionRuntime.Store.State.{Clock, Store}
use dora_agent.SessionRuntime.Store.Turns.{
  begin_turn, freeze_turn_context_from_inputs, freeze_turn_context_message_seq, get_or_create_turn,
}

Develops-LeasesTo : {s s' : Store} → Develops s s' → LeasesTo s s'
Develops-LeasesTo {s} {s'} (keeps k) = same_leases-LeasesTo s s' k.same_leases
Develops-LeasesTo {s} {s'} (claims_next t r r' _ k _ _ _ _ _ _ _ _ put) =
    same_leases-LeasesTo s s' (ap (λ x. x.leases) put ∙ k.same_leases)
Develops-LeasesTo {s} {s'} (lets_in r _ _ _ _ e) = same_leases-LeasesTo s s' e
Develops-LeasesTo (writes_lease _ _ n) = n

Newer-grows :
    (l l' : RuntimeLease) → l.fence_token + 1 < word → Newer l l' → l.fence_token ≤ l'.fence_token
Newer-grows l l' h (inl (_, e)) = omega arith
Newer-grows l l' h (inr e) = omega arith

Newer-bounded :
    (l l' : RuntimeLease)
    → l.fence_token + 1 < word
    → Newer l l'
    → l'.fence_token ≤ l.fence_token + 1
Newer-bounded l l' h (inl (_, e)) = omega arith
Newer-bounded l l' h (inr e) = omega arith

-- Through any operations, the lease under a trimmed session id stays and its token never falls, as
-- long as the token and the number of operations stay below 2 ^ 64 together.
pub run-fence_token_grows :
    (c : Codec) (ops : List (Clock × Op)) (s : Store) (k : String) (l : RuntimeLease)
    → Keyed s
    → trim_space k ≡ k
    → lookup k s.leases ≡ some l
    → l.fence_token + length ops < word
    → (l' : RuntimeLease) × (lookup k (run c ops s).leases ≡ some l')
      × (l.fence_token ≤ l'.fence_token)
unfolding run
run-fence_token_grows c [] s k l v t h b = (l, h, omega arith)
run-fence_token_grows c ((clock, op) ∷ ops) s k l v t h b =
    let d = step-Develops s v c clock op in
    let (q, hq, n) = Develops-LeasesTo d k l t h in
    let up = Newer-grows l q (omega arith) n in
    let one = Newer-bounded l q (omega arith) n in
    let (p, hp, more) =
      run-fence_token_grows c ops (step c clock op s) k q (Develops-Keyed v d) t hq (omega arith) in
    (p, hp, omega arith)

-- The lease of a fence with a lower token rejects it at any time.
pub lower_token-rejected :
    (fence : Fence) (now : ℕ) (s : Store) (l : RuntimeLease)
    → lookup (trim_space fence.session_id) s.leases ≡ some l
    → fence.fence_token < l.fence_token
    → validate_fence fence now s ≡ err fence_rejected
unfolding validate_fence
lower_token-rejected fence now s l h less = rw h (ground arith)

-- The fence under which an operation runs.
abbrev pub fence_of_op : Op → Option Fence
fence_of_op (enqueues session input) = none
fence_of_op (claims o) = some o.fence
fence_of_op (marks_running f id ttl) = some f
fence_of_op (retries_input f id at failure) = some f
fence_of_op (resolves f id) = some f
fence_of_op (kills_input f id failure) = some f
fence_of_op (recovers f) = some f
fence_of_op (acquires session owner ttl) = none
fence_of_op (renews f ttl) = some f
fence_of_op (hands_off f owner ttl) = some f
fence_of_op (releases f) = some f
fence_of_op (gets_turn f id spec) = some f
fence_of_op (begins f id) = some f
fence_of_op (freezes_at f id seq) = some f
fence_of_op (freezes_from_inputs f id) = some f
fence_of_op (saves_checkpoint f id checkpoint) = some f
fence_of_op (saves_output f id payload digest) = some f
fence_of_op (waits f id checkpoint) = some f
fence_of_op (retries_turn f id at failure) = some f
fence_of_op (commits f id digest) = some f
fence_of_op (kills_turn f id failure) = some f

module _ (c : Codec) (t : Clock) (s : Store) (f : Fence)
    (rejected : validate_fence f t.now s ≡ err fence_rejected) where
  same_fence :
      (o : ClaimOptions)
      → some o.fence ≡ some f
      → validate_fence o.fence t.now s ≡ err fence_rejected
  same_fence o e =
      let p : o.fence ≡ f = cc e in
      subst (λ x. validate_fence x t.now s ≡ err fence_rejected) (sym p) rejected

  -- Under a rejected fence an operation changes nothing.
  pub rejected_step : (op : Op) → fence_of_op op ≡ some f → step c t op s ≡ s
  unfolding step claim_next claim_with mark_input_running retry_input resolve_input dead_input
      recover_expired_inputs renew_lease handoff_lease release_lease get_or_create_turn begin_turn
      freeze_turn_context_message_seq freeze_turn_context_from_inputs save_turn_checkpoint
      save_turn_output wait_for_interrupt retry_turn_at commit_turn dead_turn
  rejected_step (enqueues session input) e = cc e
  rejected_step (acquires session owner ttl) e = cc e
  rejected_step (claims o) e = ground (arith, same_fence o e)
  rejected_step _ e = ground (arith, rejected)

-- Once the lease of a fence's session has a greater token than the fence, every operation under the
-- fence leaves the store as it is: now, and after any further operations by anyone at any times, as
-- long as the lease's token and their number stay below 2 ^ 64 together.
pub stale_fence_changes_nothing :
    (c : Codec) (ops : List (Clock × Op)) (s : Store) (f : Fence) (l : RuntimeLease)
    → Keyed s
    → trim_space f.session_id ≡ f.session_id
    → lookup f.session_id s.leases ≡ some l
    → f.fence_token < l.fence_token
    → l.fence_token + length ops < word
    → (t : Clock) (op : Op) → fence_of_op op ≡ some f
    → step c t op (run c ops s) ≡ run c ops s
stale_fence_changes_nothing c ops s f l v trimmed h less b t op e =
    let (q, hq, more) = run-fence_token_grows c ops s f.session_id l v trimmed h b in
    rejected_step c t (run c ops s) f
      (lower_token-rejected f t.now (run c ops s) q
        (subst (λ k. lookup k (run c ops s).leases ≡ some q) (sym trimmed) hq) (omega arith))
      op e
