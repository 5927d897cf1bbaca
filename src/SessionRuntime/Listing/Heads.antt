-- ===== src/SessionRuntime/Listing/Heads.antt =====
-- The map startedHeads of ListRunnableSessions against startedHeadLocked.
use dora_agent.Base.{
  Bool, String, String_discrete, Table, [], ap, arith, false, if◌then◌else◌, insert, lookup,
  lookup-insert, refl, some, str_eq, true, ◌&&◌, ◌∙◌, ◌∷◌, ◌≡◌,
}
use dora_agent.SessionRuntime.Models.Records.{InputRecord}
use dora_agent.SessionRuntime.Store.Claims.{earlier, is_started, started_head, started_head_from}
use dora_agent.SessionRuntime.Store.Runnable.{started_heads, started_heads_from}
use dora_agent.SessionRuntime.Store.State.{Store}

if-lookup :
    (session : String) (b : Bool) (l m : Table InputRecord)
    → lookup session (if b then l else m) ≡ (if b then lookup session l else lookup session m)
if-lookup session true l m = refl
if-lookup session false l m = refl

-- What one input does to the head of a session.
head_update :
    (session : String) (heads : Table InputRecord) (r : InputRecord)
    → lookup session (
        if is_started r && earlier (lookup r.session_id heads) r
        then insert r.session_id r heads
        else heads)
      ≡ (if str_eq r.session_id session && is_started r && earlier (lookup session heads) r
          then some r
          else lookup session heads)
head_update session heads r =
    let split =
      if-lookup session (is_started r && earlier (lookup r.session_id heads) r)
        (insert r.session_id r heads) heads in
    let read = lookup-insert r.session_id session r heads in
    elim (String_discrete r.session_id session) [
      | yes e ↦ split ∙ rw read (ground arith)
      | no n ↦ split ∙ rw read (ground arith)
    ]

-- One loop over the inputs for all sessions finds what a loop for the one session finds.
started_heads_from-lookup :
    (session : String) (heads m : Table InputRecord)
    → lookup session (started_heads_from heads m)
      ≡ started_head_from session (lookup session heads) m
unfolding started_heads_from started_head_from
started_heads_from-lookup session heads [] = refl
started_heads_from-lookup session heads ((k, r) ∷ m) =
    started_heads_from-lookup session
      (if is_started r && earlier (lookup r.session_id heads) r
        then insert r.session_id r heads
        else heads)
      m
    ∙ ap (λ h. started_head_from session h m) (head_update session heads r)

-- ListRunnableSessions and ClaimNext agree on the head of every session: the map that the one builds
-- in a single loop has for a session just the input that the other looks for.
pub started_heads-started_head :
    (session : String) (s : Store) → lookup session (started_heads s) ≡ started_head session s
unfolding started_heads started_head lookup
started_heads-started_head session s = started_heads_from-lookup session [] s.inputs
