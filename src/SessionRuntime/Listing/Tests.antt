-- ===== src/SessionRuntime/Listing/Tests.antt =====
-- The listing of runnable sessions on concrete stores, and the theorems at them.
use dora_agent.Base.{Among, [], arith, refl, ◌↔◌, ◌∷◌, ◌≡◌}
use dora_agent.SessionRuntime.Listing.Sessions.{HasWork, list_runnable_exact}
use dora_agent.SessionRuntime.Scenarios.{before_claim, opened}
use dora_agent.SessionRuntime.Store.Runnable.{list_runnable_sessions, started_heads_from}

-- At 13 the session s1 has two messages that nobody claimed; at 20 the first one is claimed until 63.
listed_before_claim : list_runnable_sessions 5 13 before_claim ≡ "s1" ∷ []
unfolding before_claim list_runnable_sessions started_heads_from
listed_before_claim = refl

listed_while_claimed : list_runnable_sessions 5 20 opened ≡ []
unfolding opened list_runnable_sessions started_heads_from
listed_while_claimed = refl

listed_after_claim : list_runnable_sessions 5 70 opened ≡ "s1" ∷ []
unfolding opened list_runnable_sessions started_heads_from
listed_after_claim = refl

list_runnable_exact_example :
    Among "s1" (list_runnable_sessions 5 13 before_claim) ↔ HasWork before_claim "s1" 13
unfolding before_claim list_runnable_sessions started_heads_from
list_runnable_exact_example = list_runnable_exact 5 13 before_claim "s1" (omega arith)
