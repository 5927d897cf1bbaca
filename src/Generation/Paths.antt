-- ===== src/Generation/Paths.antt =====
-- Paths of a batch and of an operation through the transitions of state_machine.go: they end.
use dora_agent.Base.{arith, false, ok, true, ℕ, ◌+◌, ◌<◌, ◌≡◌, ◌≤◌}
use dora_agent.Generation.StateMachine.{
  BatchStatus, OperationStatus, batch_cancelling, batch_finalizing, batch_status_eq,
  batch_waiting_jobs, is_terminal_batch_status, is_terminal_operation_status, operation_accepted,
  operation_status_eq, operation_waiting_jobs, validate_batch_transition,
  validate_operation_transition,
}

-- n changes of status that ValidateBatchTransition allows, one after the other.
pub data BatchPath : BatchStatus → BatchStatus → ℕ → Type 0 where
  batch_stays : {a : BatchStatus} → BatchPath a a 0
  batch_changes :
      {a b d : BatchStatus} {n : ℕ}
      → validate_batch_transition a b ≡ ok tt
      → batch_status_eq a b ≡ false
      → BatchPath b d n
      → BatchPath a d (n + 1)

pub data OperationPath : OperationStatus → OperationStatus → ℕ → Type 0 where
  operation_stays : {a : OperationStatus} → OperationPath a a 0
  operation_changes :
      {a b d : OperationStatus} {n : ℕ}
      → validate_operation_transition a b ≡ ok tt
      → operation_status_eq a b ≡ false
      → OperationPath b d n
      → OperationPath a d (n + 1)

-- How many changes a batch may still make.
abbrev batch_rest : BatchStatus → ℕ
batch_rest batch_waiting_jobs = 3
batch_rest batch_finalizing = 2
batch_rest batch_cancelling = 1
batch_rest _ = 0

abbrev operation_rest : OperationStatus → ℕ
operation_rest operation_accepted = 2
operation_rest operation_waiting_jobs = 1
operation_rest _ = 0

batch_change :
    (a b : BatchStatus)
    → validate_batch_transition a b ≡ ok tt
    → batch_status_eq a b ≡ false
    → batch_rest b < batch_rest a
unfolding validate_batch_transition
batch_change a b h n = ground arith

operation_change :
    (a b : OperationStatus)
    → validate_operation_transition a b ≡ ok tt
    → operation_status_eq a b ≡ false
    → operation_rest b < operation_rest a
unfolding validate_operation_transition
operation_change a b h n = ground arith

BatchPath-batch_rest : {a b : BatchStatus} {n : ℕ} → BatchPath a b n → n ≤ batch_rest a
BatchPath-batch_rest batch_stays = omega arith
BatchPath-batch_rest (batch_changes {a} {b} h n p) =
    let up = BatchPath-batch_rest p in let down = batch_change a b h n in omega arith

OperationPath-operation_rest :
    {a b : OperationStatus} {n : ℕ} → OperationPath a b n → n ≤ operation_rest a
OperationPath-operation_rest operation_stays = omega arith
OperationPath-operation_rest (operation_changes {a} {b} h n p) =
    let up = OperationPath-operation_rest p in let down = operation_change a b h n in omega arith

terminal_batch_rest : (a : BatchStatus) → is_terminal_batch_status a ≡ true → batch_rest a ≡ 0
terminal_batch_rest a h = ground arith

terminal_operation_rest :
    (a : OperationStatus) → is_terminal_operation_status a ≡ true → operation_rest a ≡ 0
terminal_operation_rest a h = ground arith

-- The status of a batch changes three times at most, and not at all once it is terminal.
pub BatchPath-ends :
    (a b : BatchStatus) (n : ℕ)
    → BatchPath a b n
    → (n ≤ 3) × (is_terminal_batch_status a ≡ true → n ≡ 0)
BatchPath-ends a b n p =
    let most = BatchPath-batch_rest p in
    (ground arith, λ h. let none_left = terminal_batch_rest a h in omega arith)

-- The status of an operation changes twice at most, and not at all once it is terminal.
OperationPath-ends :
    (a b : OperationStatus) (n : ℕ)
    → OperationPath a b n
    → (n ≤ 2) × (is_terminal_operation_status a ≡ true → n ≡ 0)
OperationPath-ends a b n p =
    let most = OperationPath-operation_rest p in
    (ground arith, λ h. let none_left = terminal_operation_rest a h in omega arith)
