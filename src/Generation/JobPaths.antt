-- ===== src/Generation/JobPaths.antt =====
-- Paths of a job through the transitions of state_machine.go.
use dora_agent.Base.{ap, arith, false, inl, inr, ok, refl, subst, sym, true, ℕ, ◌+◌, ◌≡◌, ◌≤◌, ◌⊎◌}
use dora_agent.Generation.StateMachine.{
  JobStatus, is_known_job_status, is_terminal_job_status, job_cancelled, job_failed, job_finalizing,
  job_queued, job_retry_wait, job_running, job_status_eq, job_succeeded, job_waiting_provider,
  other_job, validate_job_transition,
}

pub data JobPath : JobStatus → JobStatus → ℕ → Type 0 where
  job_stays : {a : JobStatus} → JobPath a a 0
  job_changes :
      {a b d : JobStatus} {n : ℕ}
      → validate_job_transition a b ≡ ok tt
      → job_status_eq a b ≡ false
      → JobPath b d n
      → JobPath a d (n + 1)

terminal_job_stays :
    (a b : JobStatus)
    → is_terminal_job_status a ≡ true
    → validate_job_transition a b ≡ ok tt
    → job_status_eq a b ≡ true
unfolding validate_job_transition
terminal_job_stays a b t h = ground arith

-- A job that has succeeded, failed or was cancelled never changes its status.
terminal-JobPath :
    (a b : JobStatus) (n : ℕ) → JobPath a b n → is_terminal_job_status a ≡ true → n ≡ 0
terminal-JobPath a b n job_stays t = refl
terminal-JobPath a d _ (job_changes {b = b} h c p) t = cc (c, terminal_job_stays a b t h)

before_success :
    (a : JobStatus)
    → validate_job_transition a job_succeeded ≡ ok tt
    → job_status_eq a job_succeeded ≡ false
    → a ≡ job_finalizing
unfolding validate_job_transition
before_success a h c = ground arith

last_change :
    {a d : JobStatus} {m : ℕ}
    → JobPath a d m
    → d ≡ job_succeeded
    → ((a ≡ job_succeeded) × (m ≡ 0)) ⊎ ((n : ℕ) × (m ≡ n + 1) × JobPath a job_finalizing n)
last_change job_stays e = inl (e, refl)
last_change (job_changes {a} {b} h c p) e = elim (last_change p e) [
  | inl (same, none_left) ↦
      let from : a ≡ job_finalizing =
        before_success a (subst (λ x. validate_job_transition a x ≡ ok tt) same h)
          (subst (λ x. job_status_eq a x ≡ false) same c) in
      inr
        (0, ap (λ x. x + 1) none_left, subst (λ x. JobPath x job_finalizing 0) (sym from) job_stays)
  | inr (n, size, q) ↦ inr (n + 1, ap (λ x. x + 1) size, job_changes h c q)
]

-- A job succeeds from the finalizing status only: where n + 1 changes lead to success, n changes lead
-- to finalizing from the same status.
pub success_from_finalizing :
    (a : JobStatus) (n : ℕ) → JobPath a job_succeeded (n + 1) → JobPath a job_finalizing n
success_from_finalizing a n p = elim (last_change p refl) [
  | inl (same, none_left) ↦ absurd (omega arith)
  | inr (k, size, q) ↦ let eq : k ≡ n = omega arith in subst (JobPath a job_finalizing) eq q
]

-- Every known status that is not terminal can fail and can be cancelled at once, and success can be
-- reached from it in at most three changes.
pub job_never_stuck :
    (a : JobStatus)
    → is_known_job_status a ≡ true
    → is_terminal_job_status a ≡ false
    → (validate_job_transition a job_failed ≡ ok tt)
      × (validate_job_transition a job_cancelled ≡ ok tt)
      × ((n : ℕ) × JobPath a job_succeeded n × (n ≤ 3))
unfolding validate_job_transition
job_never_stuck job_queued k t = (
  refl,
  refl,
  (
    3,
    job_changes {b = job_running} refl refl
        (job_changes {b = job_finalizing} refl refl (job_changes refl refl job_stays)),
    omega arith,
  ),
)
job_never_stuck job_running k t = (
  refl,
  refl,
  (2, job_changes {b = job_finalizing} refl refl (job_changes refl refl job_stays), omega arith),
)
job_never_stuck job_waiting_provider k t = (
  refl,
  refl,
  (2, job_changes {b = job_finalizing} refl refl (job_changes refl refl job_stays), omega arith),
)
job_never_stuck job_retry_wait k t = (
  refl,
  refl,
  (2, job_changes {b = job_finalizing} refl refl (job_changes refl refl job_stays), omega arith),
)
job_never_stuck job_finalizing k t = (refl, refl, (1, job_changes refl refl job_stays, omega arith))
job_never_stuck job_succeeded k t = cc
job_never_stuck job_failed k t = cc
job_never_stuck job_cancelled k t = cc
job_never_stuck (other_job x) k t = cc
