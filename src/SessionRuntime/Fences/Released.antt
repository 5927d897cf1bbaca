-- ===== src/SessionRuntime/Fences/Released.antt =====
-- A fence of internal/aigc/sessionruntime/memory_store.go after its lease was released. The owner
-- of a lease gets the same token when it acquires the lease again (AcquireLease).
use dora_agent.Base.{List, [], some, ℕ, ◌∷◌, ◌≡◌, ◌≤◌}
use dora_agent.SessionRuntime.Fences.Stale.{fence_of_op}
use dora_agent.SessionRuntime.Models.Records.{Fence}
use dora_agent.SessionRuntime.Steps.{Op}
use dora_agent.SessionRuntime.Store.State.{Clock, Store}

-- Operations under one fence, from some time on.
abbrev pub UnderFrom : Fence → ℕ → List (Clock × Op) → Type 0
UnderFrom f from [] = Unit {0}
UnderFrom f from ((t, op) ∷ ops) = (fence_of_op op ≡ some f) × (from ≤ t.now) × UnderFrom f from ops
