-- ===== src/Ws/Hub.antt =====
-- backend/internal/ws/hub.go: which client listens to which channel. A client is named by a number,
-- its pointer; the two maps are lists of entries.
pub mod Leave
pub mod Relation
pub mod Agree
use whaticket_community.Prelude.{
  ℕ, ◌+◌, Bool, true, false, Option, none, some, List, [], ◌∷◌, Bytes, if◌then◌else◌, is_nil, has,
  add, remove, lookup, insert, delete, get_or, length, bytes_keyed, nat_keyed, is_some, not,
}

pub record Hub : Type 0 where
  pub channels : List (Bytes × List ℕ)
  pub clients : List (ℕ × List Bytes)
  pub shutting_down : Bool

unfoldable pub new_hub : Hub
new_hub = record { channels = []; clients = []; shutting_down = false }

-- A lookup of a missing key in a Go map of maps gives a nil map, which has no keys.
unfoldable pub members : List (Bytes × List ℕ) → Bytes → List ℕ
members channels channel = get_or (lookup channel channels) []

unfoldable pub subscriptions : List (ℕ × List Bytes) → ℕ → List Bytes
subscriptions clients c = get_or (lookup c clients) []

unfoldable pub is_registered : Hub → ℕ → Bool
is_registered h c = is_some (lookup c h.clients)

unfoldable pub register_client : ℕ → Hub → Hub
unfolding is_registered
register_client c h = if is_registered h c then h else record h { clients = insert c [] h.clients }

-- `delete(members, c)`, and the channel goes with its last member.
unfoldable pub leave_channel : ℕ → Bytes → List (Bytes × List ℕ) → List (Bytes × List ℕ)
leave_channel c channel channels = elim (lookup channel channels) [
  | none ↦ channels
  | some ms ↦
      if is_nil (remove c ms)
      then delete channel channels
      else insert channel (remove c ms) channels
]

-- The loop `for channel := range subs`.
unfoldable pub leave_all : ℕ → List Bytes → List (Bytes × List ℕ) → List (Bytes × List ℕ)
leave_all c [] channels = channels
leave_all c (channel ∷ subs) channels = leave_all c subs (leave_channel c channel channels)

unfoldable pub unregister_client : ℕ → Hub → Hub
unregister_client c h = elim (lookup c h.clients) [
  | none ↦ h
  | some subs ↦ record h { channels = leave_all c subs h.channels; clients = delete c h.clients }
]

unfoldable pub subscribe : ℕ → Bytes → Hub → Hub
unfolding members
subscribe c channel h = elim (lookup c h.clients) [
  | none ↦ h
  | some subs ↦ if has channel subs then h else record h {
    clients = insert c (add channel subs) h.clients;
    channels = insert channel (add c (members h.channels channel)) h.channels;
  }
]

unfoldable pub unsubscribe : ℕ → Bytes → Hub → Hub
unsubscribe c channel h = elim (lookup c h.clients) [
  | none ↦ h
  | some subs ↦ if not (has channel subs) then h else record h {
    clients = insert c (remove channel subs) h.clients;
    channels = leave_channel c channel h.channels;
  }
]

pub record Stats : Type 0 where
  pub active_connections : ℕ
  pub active_channels : ℕ
  pub total_subscriptions : ℕ

unfoldable pub total : List (ℕ × List Bytes) → ℕ
total [] = 0
total ((c, subs) ∷ rest) = length subs + total rest

unfoldable pub stats : Hub → Stats
unfolding total
stats h = record {
  active_connections = length h.clients;
  active_channels = length h.channels;
  total_subscriptions = total h.clients;
}

-- What the two maps say: the client's own set, and the channel's.
unfoldable pub listens : Hub → ℕ → Bytes → Bool
listens h c channel = has channel (subscriptions h.clients c)

unfoldable pub receives : Hub → ℕ → Bytes → Bool
receives h c channel = has c (members h.channels channel)
