-- ===== src/Approval/Causes/Steps.antt =====
-- Every operation of internal/aigc/approval/memory_store.go has one of the effects.
use dora_agent.Approval.Causes.Chains.{quiet-Effect}
use dora_agent.Approval.Causes.Creating.{create-Effect}
use dora_agent.Approval.Causes.Deciding.{close-Effect, decide-Effect}
use dora_agent.Approval.Causes.Others.{batch-Effect, failed-Effect, published-Effect}
use dora_agent.Approval.Causes.Switching.{bind-Effect, switch-Effect}
use dora_agent.Approval.Effects.{Effect}
use dora_agent.Approval.State.{ApprovalStore}
use dora_agent.Approval.Steps.{
  ApprovalOp, approval_after-Holds, approval_marked-Holds, approval_step, batches, binds, closes,
  creates, decides, gives_up, publishes, switches,
}
use dora_agent.Base.{Codec, ℕ}

module _ (c : Codec) where
  pub step-Effect :
      (now : ℕ) (op : ApprovalOp) (s : ApprovalStore) → Effect c s (approval_step c now op s)
  unfolding approval_step
  step-Effect now (creates a) s =
      approval_after-Holds (Effect c s) s _ (quiet-Effect c s) (create-Effect c a now s)
  step-Effect now (decides q) s =
      approval_after-Holds (Effect c s) s _ (quiet-Effect c s) (decide-Effect c q now s)
  step-Effect now (closes q) s =
      approval_after-Holds (Effect c s) s _ (quiet-Effect c s) (close-Effect c q now s)
  step-Effect now (binds q) s =
      approval_after-Holds (Effect c s) s _ (quiet-Effect c s) (bind-Effect c q now s)
  step-Effect now (switches q) s =
      approval_after-Holds (Effect c s) s _ (quiet-Effect c s) (switch-Effect c q now s)
  step-Effect now (batches b) s =
      approval_after-Holds (Effect c s) s _ (quiet-Effect c s) (batch-Effect c b now s)
  step-Effect now (publishes id at) s =
      approval_marked-Holds (Effect c s) s _ (quiet-Effect c s) (published-Effect c id at now s)
  step-Effect now (gives_up id at most) s =
      approval_marked-Holds (Effect c s) s _ (quiet-Effect c s) (failed-Effect c id at most now s)
