-- ===== src/Approval/Tests.antt =====
-- Runs of the approval store on concrete approvals, and the theorems at them.
use dora_agent.Approval.Commands.{
  DecideCommand, decision_request_from_command, decision_word, normalize_decision_request,
}
use dora_agent.Approval.Decisions.{
  decision_outbox_key, effective_status, new_continuation, selected_command,
}
use dora_agent.Approval.Effects.{IsPending}
use dora_agent.Approval.Evolution.{ApprovalEvolves}
use dora_agent.Approval.Finality.{steps-ApprovalEvolves}
use dora_agent.Approval.Ledger.{Complete}
use dora_agent.Approval.Listing.{chosen_outbox, insert_outbox, list_outbox, outbox_before}
use dora_agent.Approval.Models.{
  Approval, ApprovalError, ApprovalOutbox, ExecutionMode, ReviewMode, VersionBinding,
  approval_approved, approval_pending, execution_durable, execution_interrupt,
  is_primary_review_approval, matches, other_execution, review_durable, review_interrupt,
}
use dora_agent.Approval.Modes.{
  bind_free, bind_interrupt_mapping, check_fallback, check_mapping, decided_continuation,
  fallback_result, hand_over_continuation, switch_approval, switch_to_durable_fallback,
}
use dora_agent.Approval.Outboxes.{
  approval_resume, decision_payload, new_decision_outbox, new_fallback_outbox, prepare_decision,
}
use dora_agent.Approval.Primary.{one_primary_review}
use dora_agent.Approval.Replay.{decide_again}
use dora_agent.Approval.Requests.{
  check_approval, check_expiry, check_frozen_commands, normalize_approval, normalize_binding,
  normalize_frozen_command, opened_approval, same_approval, validate_review_execution_mode,
}
use dora_agent.Approval.State.{
  ApprovalStore, append_outbox, append_to_outbox, continuation_key, find_primary_review,
  known_outbox, new_approval_store,
}
use dora_agent.Approval.Steps.{
  ApprovalOp, approval_step, approval_steps, binds, creates, decides, switches,
}
use dora_agent.Approval.Store.{
  DecisionResult, admit_approval, create, create_by_id, create_by_key, created_again, decide,
  decide_approval, decide_by_key, decide_request, decided_again,
}
use dora_agent.Approval.Whole.{decision_recorded}
use dora_agent.Base.{
  Codec, List, Option, Result, String, String_discrete, [], ap, decimal, erase, err, false, insert,
  lookup, map, none, ok, refl, some, trim_space, true, ℕ, ◌&◌, ◌++◌, ◌∙◌, ◌∷◌, ◌≡◌, ◌⊎◌,
}
use dora_agent.SessionRuntime.Models.Inputs.{input_fields}

abbrev text_codec : Codec
text_codec = record {
  valid = λ s. true;
  parse = λ s. some s;
  marshal = λ fields. some "{}";
  sum_hex = λ n s. s;
}

abbrev spec_binding : VersionBinding
spec_binding = record {
  artifact_id = "spec";
  artifact_version = 1;
  storyboard_id = "";
  storyboard_version = 0;
  target_id = "";
  target_revision = 0;
  prompt_revision = 0;
  generation_epoch = 0;
}

abbrev spec_approval : String → String → ReviewMode → ExecutionMode → Approval
spec_approval id artifact_type review execution = record {
  id = id;
  idempotency_key = id;
  tenant_id = "";
  user_id = "";
  session_id = "s";
  artifact_type = artifact_type;
  binding = spec_binding;
  review_mode = review;
  execution_mode = execution;
  execution_epoch = 7;
  status = approval_approved;
  decision_version = 3;
  approve_command = record { kind = "confirm"; idempotency_key = "c"; payload = "" };
  reject_command = record { kind = "revise"; idempotency_key = "r"; payload = "" };
  checkpoint_mapping_id = "";
  mapping_epoch = 0;
  created_at = 0;
  updated_at = 0;
  expires_at = some 100;
  decided_at = none;
}

abbrev decide_command : String → String → DecideCommand
decide_command id key = record {
  approval_id = " " & id;
  expected_decision_version = 0;
  idempotency_key = key;
  decision = "Approved ";
  actor_id = "alice";
  reason = "";
  current_binding = spec_binding;
  now = 0;
}

-- Two primary reviews of one session, of which the second is refused, and a review of an asset, which
-- is an interrupt.
abbrev opening : List (ℕ × ApprovalOp)
opening =
    (1, creates (spec_approval "a1" "creation_spec_revision" review_durable execution_durable))
    ∷ (2, creates (spec_approval "a2" "storyboard_revision" review_durable execution_durable))
    ∷ (3, creates (spec_approval "a3" "asset" review_interrupt execution_interrupt))
    ∷ []

-- The third approval falls back to the deterministic executor after its decision.
abbrev falling : List (ℕ × ApprovalOp)
falling =
    (
      4,
      binds (record {
        approval_id = "a3";
        expected_execution_epoch = 1;
        checkpoint_mapping_id = "m";
        mapping_epoch = 1;
      }),
    )
    ∷ (5, decides (decide_command "a3" "k3"))
    ∷ (
      6,
      switches (record {
        approval_id = "a3";
        expected_execution_mode = other_execution "";
        expected_execution_epoch = 1;
        expected_decision_version = 1;
        now = 0;
      }),
    )
    ∷ []

opened_store : ApprovalStore
unfolding approval_steps approval_step create normalize_approval check_approval
    validate_review_execution_mode normalize_frozen_command check_frozen_commands check_expiry
    opened_approval normalize_binding create_by_id create_by_key created_again admit_approval
    find_primary_review is_primary_review_approval same_approval new_approval_store lookup insert
    erase trim_space String_discrete
opened_store = approval_steps text_codec opening new_approval_store

opened_ids : map (λ (p : String × Approval). p.0) opened_store.approvals ≡ "a3" ∷ "a1" ∷ []
unfolding opened_store
opened_ids = refl

decided_pair : Result ApprovalError (ApprovalStore × DecisionResult)
unfolding opened_store decide decision_request_from_command decision_word normalize_decision_request
    normalize_binding decide_request decide_by_key decide_approval decided_again prepare_decision
    effective_status matches selected_command new_continuation new_decision_outbox decision_payload
    decision_outbox_key continuation_key append_outbox append_to_outbox known_outbox lookup insert
    erase trim_space String_discrete decimal
decided_pair = decide text_codec (decide_command "a1" "k1") 10 opened_store

decided_of : Result ApprovalError (ApprovalStore × DecisionResult) → ApprovalStore × DecisionResult
decided_of (ok p) = p
decided_of (err e) = (
  opened_store,
  record {
    approval = none;
    decision = record {
      approval_id = "";
      decision_version = 0;
      idempotency_key = "";
      requested_decision = "";
      effective_status = approval_pending;
      actor_id = "";
      reason = "";
      observed_binding = none;
      command_kind = "";
      command_idempotency_key = "";
      command_payload = "";
      created_at = 0;
    };
    continuation = none;
    outbox = none;
    created = false;
  },
)

decided : ApprovalStore × DecisionResult
unfolding decided_pair decided_of
decided = decided_of decided_pair

decided_status : decided.1.decision.effective_status ≡ approval_approved
unfolding decided
decided_status = refl

decided_command : decided.1.decision.command_kind ≡ "confirm"
unfolding decided
decided_command = refl

fallen_store : ApprovalStore
unfolding opened_store approval_steps approval_step bind_interrupt_mapping check_mapping bind_free
    decide decision_request_from_command decision_word normalize_decision_request normalize_binding
    decide_request decide_by_key decide_approval decided_again prepare_decision effective_status
    matches selected_command new_continuation new_decision_outbox decision_payload input_fields
    approval_resume switch_to_durable_fallback check_fallback switch_approval decided_continuation
    hand_over_continuation new_fallback_outbox fallback_result decision_outbox_key continuation_key
    append_outbox append_to_outbox known_outbox lookup insert erase trim_space String_discrete
    decimal
fallen_store = approval_steps text_codec falling opened_store

fallen_keys :
    map (λ (p : String × ApprovalOutbox). p.0) fallen_store.outbox
    ≡ "approval:a3:decision:1:epoch:2:approval.continuation_requested"
      ∷ "approval:a3:decision:1:epoch:1:session.input_requested" ∷ []
unfolding fallen_store
fallen_keys = refl

decide_again_example :
    (result' : DecisionResult) × (decide text_codec
        (decide_command "a1" "k1")
        20
        (approval_steps text_codec falling decided.0)
      ≡ ok (approval_steps text_codec falling decided.0, result'))
    × (result'.decision ≡ decided.1.decision)
    × (result'.created ≡ false)
unfolding decided decided_pair opened_store
decide_again_example =
    decide_again text_codec opening falling (decide_command "a1" "k1") 10 20 decided.0 decided.1
      refl

asset_row : Option Approval → Approval
asset_row none = spec_approval "" "" review_durable execution_durable
asset_row (some a) = a

asset : Approval
unfolding opened_store asset_row lookup
asset = asset_row (lookup "a3" opened_store.approvals)

asset_found : lookup "a3" opened_store.approvals ≡ some asset
unfolding asset opened_store lookup String_discrete asset_row
asset_found = refl

steps-ApprovalEvolves_example :
    (a' : Approval) × (lookup "a3" (approval_steps text_codec falling opened_store).approvals
      ≡ some a')
    × ApprovalEvolves asset a'
unfolding opened_store
steps-ApprovalEvolves_example =
    steps-ApprovalEvolves text_codec opening falling "a3" asset asset_found

fallen_asset : Approval
unfolding fallen_store asset_row lookup
fallen_asset = asset_row (lookup "a3" fallen_store.approvals)

fallen_steps : approval_steps text_codec (opening ++ falling) new_approval_store ≡ fallen_store
unfolding fallen_store opened_store approval_steps
fallen_steps = refl

fallen_found :
    lookup "a3" (approval_steps text_codec (opening ++ falling) new_approval_store).approvals
    ≡ some fallen_asset
unfolding fallen_asset fallen_store lookup String_discrete asset_row
fallen_found = ap (λ s. lookup "a3" s.approvals) fallen_steps ∙ refl

decision_recorded_example :
    IsPending fallen_asset
    ⊎ Complete (approval_steps text_codec (opening ++ falling) new_approval_store) fallen_asset
decision_recorded_example =
    decision_recorded text_codec (opening ++ falling) "a3" fallen_asset fallen_found

spec_opened : Approval
unfolding opened_store asset_row lookup
spec_opened = asset_row (lookup "a1" opened_store.approvals)

spec_found : lookup "a1" opened_store.approvals ≡ some spec_opened
unfolding spec_opened opened_store lookup String_discrete asset_row
spec_found = refl

spec_primary : is_primary_review_approval spec_opened ≡ true
unfolding spec_opened opened_store lookup String_discrete asset_row is_primary_review_approval
    trim_space
spec_primary = refl

one_primary_review_example : ◌≡◌ {A = String} "a1" "a1"
unfolding opened_store
one_primary_review_example =
    one_primary_review text_codec opening "a1" "a1" spec_opened spec_opened spec_found spec_found
      spec_primary spec_primary refl

-- The older event comes first.
listed_keys :
    map (λ (e : ApprovalOutbox). e.created_at) (list_outbox " pending" 0 fallen_store) ≡ 5 ∷ 6 ∷ []
unfolding fallen_store list_outbox chosen_outbox insert_outbox outbox_before trim_space
    String_discrete
listed_keys = refl
