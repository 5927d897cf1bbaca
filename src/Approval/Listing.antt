-- ===== src/Approval/Listing.antt =====
-- ListOutbox of internal/aigc/approval/memory_store.go.
use dora_agent.Approval.Models.{
  ApprovalOutbox, ApprovalOutboxStatus, outbox_dead, outbox_pending, outbox_published,
}
use dora_agent.Approval.State.{ApprovalStore}
use dora_agent.Base.{
  Bool, List, String, Table, [], if◌then◌else◌, is_empty, le64, lt64, ltb, nat_eq, pos64, str_eq,
  take, text_before, trim_space, ℕ, ◌||◌, ◌∷◌,
}

abbrev pub outbox_status_text : ApprovalOutboxStatus → String
outbox_status_text outbox_pending = "pending"
outbox_status_text outbox_published = "published"
outbox_status_text outbox_dead = "dead"

-- The order that sort.Slice is given: by time of creation, then by id.
unfoldable pub outbox_before : ApprovalOutbox → ApprovalOutbox → Bool
outbox_before a b =
    if nat_eq a.created_at b.created_at
    then text_before a.id b.id
    else ltb a.created_at b.created_at

unfoldable pub insert_outbox : ApprovalOutbox → List ApprovalOutbox → List ApprovalOutbox
unfolding outbox_before
insert_outbox a [] = a ∷ []
insert_outbox a (b ∷ m) =
    let rest = insert_outbox a m in if outbox_before b a then b ∷ rest else a ∷ b ∷ m

-- The events of a status, or all of them for the empty text, in that order.
unfoldable pub chosen_outbox : String → Table ApprovalOutbox → List ApprovalOutbox
unfolding insert_outbox
chosen_outbox status [] = []
chosen_outbox status ((id, event) ∷ m) =
    let rest = chosen_outbox status m in
    if is_empty status || str_eq (outbox_status_text event.status) status
    then insert_outbox event rest
    else rest

unfoldable pub normalize_list_limit : ℕ → ℕ
normalize_list_limit limit = if le64 limit 0 || lt64 1000 limit then 100 else limit

unfoldable pub list_outbox : String → ℕ → ApprovalStore → List ApprovalOutbox
unfolding chosen_outbox normalize_list_limit
list_outbox status limit s =
    let values = chosen_outbox (trim_space status) s.outbox in
    if pos64 limit then take (normalize_list_limit limit) values else values
