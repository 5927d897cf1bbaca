-- ===== src/Events/Hub.antt =====
-- MemoryNotificationHub of internal/aigc/events/relay.go: each subscriber has a channel for one
-- signal, which is there or not, and a signal that is there already is not sent again.
use dora_agent.Base.{
  Bool, List, Option, Result, String, Table, [], add64, erase, false, if◌then◌else◌, insert,
  is_blank, lookup, nat_eq, none, not, ok, require, some, trim_space, true, ℕ, ◌>>◌, ◌∷◌,
}
use dora_agent.Events.Models.{EventError, invalid_event}

pub record NotificationHub : Type 0 where
  pub next_id : ℕ
  pub subscribers : Table (List (ℕ × Bool))

unfoldable pub new_notification_hub : NotificationHub
new_notification_hub = record { next_id = 0; subscribers = [] }

abbrev pub channels_or_none : Option (List (ℕ × Bool)) → List (ℕ × Bool)
channels_or_none none = []
channels_or_none (some channels) = channels

unfoldable pub channels_of : String → NotificationHub → List (ℕ × Bool)
channels_of session h = channels_or_none (lookup session h.subscribers)

abbrev pub filled : List (ℕ × Bool) → List (ℕ × Bool)
filled [] = []
filled ((id, signalled) ∷ channels) = (id, true) ∷ filled channels

abbrev pub fill_all : String → Option (List (ℕ × Bool)) → NotificationHub → NotificationHub
fill_all session none h = h
fill_all session (some channels) h = record h {
  subscribers = insert session (filled channels) h.subscribers;
}

unfoldable pub notify : String → NotificationHub → NotificationHub
notify session h = fill_all (trim_space session) (lookup (trim_space session) h.subscribers) h

-- The new channel is known by its id.
unfoldable pub subscribe_hub : String → NotificationHub → Result EventError (NotificationHub × ℕ)
unfolding channels_of
subscribe_hub session h = do
  require (not (is_blank session)) (invalid_event "session id is required")
  let id = add64 h.next_id 1
  let channels = channels_of (trim_space session) h
  ok (
    record {
      next_id = id;
      subscribers = insert (trim_space session) ((id, false) ∷ channels) h.subscribers;
    },
    id,
  )

abbrev pub without_channel : ℕ → List (ℕ × Bool) → List (ℕ × Bool)
without_channel id [] = []
without_channel id ((other, signalled) ∷ channels) =
    let rest = without_channel id channels in
    if nat_eq other id then rest else (other, signalled) ∷ rest

abbrev pub keep_channels : String → List (ℕ × Bool) → NotificationHub → NotificationHub
keep_channels session [] h = record h { subscribers = erase session h.subscribers }
keep_channels session (a ∷ channels) h = record h {
  subscribers = insert session (a ∷ channels) h.subscribers;
}

-- The cancel function of the subscription of a trimmed session id. It works once; afterwards there is
-- no channel of this id.
unfoldable pub cancel_subscription : String → ℕ → NotificationHub → NotificationHub
unfolding channels_of
cancel_subscription session id h =
    keep_channels session (without_channel id (channels_of session h)) h
