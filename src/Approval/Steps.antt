-- ===== src/Approval/Steps.antt =====
-- The operations of internal/aigc/approval/memory_store.go as one type, and sequences of them.
use dora_agent.Approval.Candidates.{CandidateBatch}
use dora_agent.Approval.Commands.{CloseCommand, DecideCommand}
use dora_agent.Approval.Models.{Approval, ApprovalError}
use dora_agent.Approval.Modes.{
  FallbackCommand, MappingCommand, bind_interrupt_mapping, switch_to_durable_fallback,
}
use dora_agent.Approval.Relaying.{mark_outbox_failed, mark_outbox_published}
use dora_agent.Approval.State.{ApprovalStore}
use dora_agent.Approval.Store.{close, create, create_candidate_approval_batch, decide}
use dora_agent.Base.{Codec, List, Result, String, WhenOk, [], err, ok, ℕ, ◌∷◌}

pub data ApprovalOp : Type 0 where
  creates : Approval → ApprovalOp
  decides : DecideCommand → ApprovalOp
  closes : CloseCommand → ApprovalOp
  binds : MappingCommand → ApprovalOp
  switches : FallbackCommand → ApprovalOp
  batches : CandidateBatch → ApprovalOp
  publishes : String → ℕ → ApprovalOp
  gives_up : String → ℕ → ℕ → ApprovalOp

-- An error leaves the store.
abbrev pub approval_after :
    {A : Type 0} → ApprovalStore → Result ApprovalError (ApprovalStore × A) → ApprovalStore
approval_after s (err e) = s
approval_after s (ok p) = p.0

abbrev pub approval_marked : ApprovalStore → Result ApprovalError ApprovalStore → ApprovalStore
approval_marked s (err e) = s
approval_marked s (ok s') = s'

unfoldable pub approval_step : Codec → ℕ → ApprovalOp → ApprovalStore → ApprovalStore
approval_step c now (creates a) s = approval_after s (create c a now s)
approval_step c now (decides q) s = approval_after s (decide c q now s)
approval_step c now (closes q) s = approval_after s (close c q now s)
approval_step c now (binds q) s = approval_after s (bind_interrupt_mapping q now s)
approval_step c now (switches q) s = approval_after s (switch_to_durable_fallback c q now s)
approval_step c now (batches b) s = approval_after s (create_candidate_approval_batch b now s)
approval_step c now (publishes id at) s = approval_marked s (mark_outbox_published id at now s)
approval_step c now (gives_up id at most) s =
    approval_marked s (mark_outbox_failed id at most now s)

unfoldable pub approval_steps : Codec → List (ℕ × ApprovalOp) → ApprovalStore → ApprovalStore
approval_steps c [] s = s
approval_steps c ((now, op) ∷ ops) s = approval_steps c ops (approval_step c now op s)

pub approval_after-Holds :
    {A : Type 0} (P : ApprovalStore → Type 0) (s : ApprovalStore)
    (m : Result ApprovalError (ApprovalStore × A))
    → P s
    → WhenOk (λ p. P p.0) m
    → P (approval_after s m)
approval_after-Holds P s (err e) h q = h
approval_after-Holds P s (ok p) h q = q

pub approval_marked-Holds :
    (P : ApprovalStore → Type 0) (s : ApprovalStore) (m : Result ApprovalError ApprovalStore)
    → P s
    → WhenOk P m
    → P (approval_marked s m)
approval_marked-Holds P s (err e) h q = h
approval_marked-Holds P s (ok p) h q = q
