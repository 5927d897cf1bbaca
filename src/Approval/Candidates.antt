-- ===== src/Approval/Candidates.antt =====
-- internal/aigc/approval/candidate_batch.go: batches of candidate approvals that are confirmed
-- together.
use dora_agent.Approval.Commands.{lowers_to}
use dora_agent.Approval.Models.{ApprovalError, invalid_approval}
use dora_agent.Base.{
  Bool, List, Result, String, [], false, is_blank, is_empty, lt64, nat_eq, not, ok, pos64, require,
  str_eq, trim_space, true, ℕ, ◌&&◌, ◌>>=◌, ◌>>◌, ◌||◌, ◌∷◌,
}

pub record CandidateTarget : Type 0 where
  pub approval_id : String
  pub binding_id : String
  pub expected_decision_version : ℕ

pub record CandidateBatch : Type 0 where
  pub id : String
  pub idempotency_key : String
  pub session_id : String
  pub storyboard_id : String
  pub expected_storyboard_version : ℕ
  pub decision : String
  pub actor_id : String
  pub reason : String
  pub targets : List CandidateTarget
  pub created_at : ℕ

abbrev pub trimmed_target : CandidateTarget → CandidateTarget
trimmed_target t = record t {
  approval_id = trim_space t.approval_id;
  binding_id = trim_space t.binding_id;
}

abbrev pub seen_text : String → List String → Bool
seen_text s [] = false
seen_text s (t ∷ ts) = str_eq t s || seen_text s ts

-- The loop over the targets, with the approvals and bindings seen so far.
unfoldable pub normalize_targets :
    List CandidateTarget → List String → List String → Result ApprovalError (List CandidateTarget)
normalize_targets [] approvals bindings = ok []
normalize_targets (given ∷ more) approvals bindings = do
  let t = trimmed_target given
  require
      (not (is_empty t.approval_id)
        && not (is_empty t.binding_id)
        && not (lt64 t.expected_decision_version 0))
      (invalid_approval
        "candidate approval batch target requires approval id, binding id and a non-negative version")
  require (not (seen_text t.approval_id approvals))
      (invalid_approval "candidate approval batch has duplicate approval")
  require (not (seen_text t.binding_id bindings))
      (invalid_approval "candidate approval batch has duplicate binding")
  rest ← normalize_targets more (t.approval_id ∷ approvals) (t.binding_id ∷ bindings)
  ok (t ∷ rest)

abbrev pub has_targets : List CandidateTarget → Bool
has_targets [] = false
has_targets (t ∷ ts) = true

unfoldable pub normalize_candidate_batch : CandidateBatch → ℕ → Result ApprovalError CandidateBatch
unfolding normalize_targets
normalize_candidate_batch b now = do
  require
      (not (is_blank b.id)
        && not (is_blank b.idempotency_key)
        && not (is_blank b.session_id)
        && not (is_blank b.storyboard_id))
      (invalid_approval
        "candidate approval batch id, idempotency key, session id and storyboard id are required")
  require (pos64 b.expected_storyboard_version)
      (invalid_approval "candidate approval batch expected storyboard version must be positive")
  require (lowers_to (trim_space b.decision) "approved")
      (invalid_approval "candidate approval batch only supports approved")
  require (has_targets b.targets)
      (invalid_approval "candidate approval batch requires at least one target")
  targets ← normalize_targets b.targets [] []
  ok (record {
    id = trim_space b.id;
    idempotency_key = trim_space b.idempotency_key;
    session_id = trim_space b.session_id;
    storyboard_id = trim_space b.storyboard_id;
    expected_storyboard_version = b.expected_storyboard_version;
    decision = "approved";
    actor_id = trim_space b.actor_id;
    reason = trim_space b.reason;
    targets = targets;
    created_at = now;
  })

abbrev pub target_eq : CandidateTarget → CandidateTarget → Bool
target_eq a b =
    str_eq a.approval_id b.approval_id
    && str_eq a.binding_id b.binding_id
    && nat_eq a.expected_decision_version b.expected_decision_version

-- slices.Equal.
abbrev pub targets_eq : List CandidateTarget → List CandidateTarget → Bool
targets_eq [] [] = true
targets_eq (a ∷ xs) (b ∷ ys) = target_eq a b && targets_eq xs ys
targets_eq _ _ = false

unfoldable pub same_candidate_batch : CandidateBatch → CandidateBatch → Bool
same_candidate_batch a b =
    str_eq a.id b.id
    && str_eq a.idempotency_key b.idempotency_key
    && str_eq a.session_id b.session_id
    && str_eq a.storyboard_id b.storyboard_id
    && nat_eq a.expected_storyboard_version b.expected_storyboard_version
    && str_eq a.decision b.decision
    && str_eq a.actor_id b.actor_id
    && str_eq a.reason b.reason
    && targets_eq a.targets b.targets
