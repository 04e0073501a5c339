-- ===== src/Ws/Server.antt =====
-- backend/internal/ws: hub.go, client.go and handler.go, the clients' buffers over the hub. A client
-- object is found by its pointer, a number. `publish` runs alone; Ws/Server/Steps.antt has the steps in
-- which the goroutines run.
pub mod Delivery
pub mod Steps
pub mod Good
pub mod Preserves
pub mod Keeps
pub mod Invariant
use whaticket_community.Prelude.{
  ℕ, Bool, true, false, ◌||◌, Option, none, some, List, [], ◌∷◌, ◌++◌, Bytes, bytes, if◌then◌else◌,
  is_nil, ◌==◌, length, ltb, leb, nat_beq, keys, bytes_keyed, nat_keyed,
}
use whaticket_community.Ws.Channels.{Code, channel_system}
use whaticket_community.Ws.Authz.{AuthzResult, TicketAuthorizer, authorize_subscribe}
use whaticket_community.Ws.Hub.{
  Hub, new_hub, members, register_client, unregister_client, subscribe, unsubscribe,
}

-- `send` is the buffered channel, oldest first; `closed` and `torn_down` say that the two `Once`s ran.
pub record Client (P : Type 0) : Type 0 where
  pub user_id : ℕ
  pub profile : Bytes
  pub send : List P
  pub closed : Bool
  pub torn_down : Bool

pub record Server (P : Type 0) : Type 0 where
  pub hub : Hub
  pub object : ℕ → Client P

-- The data of a frame: the caller's, or one of the three that the package sends itself.
pub data Payload (D : Type 0) : Type 0 where
  app : D → Payload D
  denied : Option Code → Payload D
  welcome : ℕ → Bytes → Payload D
  empty : Payload D

pub record Frame (D : Type 0) : Type 0 where
  pub channel : Bytes
  pub event : Bytes
  pub body : Payload D

abbrev pub event_connected : Bytes
event_connected = bytes "connected"

abbrev pub event_error : Bytes
event_error = bytes "error"

module _ {P : Type 0} where
  unfoldable pub new_client : ℕ → Bytes → Client P
  new_client user profile = record {
    user_id = user;
    profile = profile;
    send = [];
    closed = false;
    torn_down = false;
  }

  unfoldable pub signal_close : Client P → Client P
  signal_close c = record c { closed = true }

  -- The three-way `select`. Where the client is closed and its buffer has room, both cases are
  -- ready and Go takes either: `skips` is its choice. The last argument says if the default marks
  -- a slow consumer.
  unfoldable pub offer_or : (Client P → Client P) → Bool → ℕ → P → Client P → Client P
  offer_or slow skips cap p c =
      let room = ltb (length c.send) cap in
      let queued = record c { send = c.send ++ p ∷ [] } in
      if c.closed
      then (if skips then c else if room then queued else c)
      else if room
      then queued
      else slow c

  unfoldable pub offer : Bool → ℕ → P → Client P → Client P
  unfolding offer_or signal_close
  offer = offer_or signal_close

  unfoldable pub offer_quietly : Bool → ℕ → P → Client P → Client P
  unfolding offer_or
  offer_quietly = offer_or (λ c. c)

  unfoldable pub update : ℕ → (Client P → Client P) → (ℕ → Client P) → ℕ → Client P
  update c f object d = if nat_beq c d then f (object d) else object d

  -- The loops over a snapshot of clients.
  unfoldable pub each : (ℕ → Client P → Client P) → List ℕ → (ℕ → Client P) → ℕ → Client P
  unfolding update
  each f [] object = object
  each f (c ∷ cs) object = each f cs (update c (f c) object)

  -- No client yet: an object that was not made reads as one that nobody uses.
  unfoldable pub new_server : Server P
  unfolding new_client
  new_server = record { hub = new_hub; object = λ c. new_client 0 [] }

  -- `signalClose`, then `unregisterClient` the first time.
  unfoldable pub close : ℕ → Server P → Server P
  unfolding signal_close update
  close c s =
      let t = record s { object = update c signal_close s.object } in
      if (s.object c).torn_down then t else record {
        hub = unregister_client c s.hub;
        object = update c (λ o. record o { torn_down = true }) t.object;
      }

  abbrev pub tail : List P → List P
  tail [] = []
  tail (p ∷ ps) = ps

  -- `writePump` takes the oldest payload.
  unfoldable pub take_payload : ℕ → Server P → Server P
  unfolding update
  take_payload c s = record s { object = update c (λ o. record o { send = tail o.send }) s.object }

  -- The members of a channel are offered a payload; a channel with no members is passed over.
  unfoldable pub deliver : (ℕ → Client P → Client P) → List ℕ → Server P → Server P
  unfolding each
  deliver f cs s = if is_nil cs then s else record s { object = each f cs s.object }

-- `cap` is `ClientWriteBuffer`, and `marshal` is `json.Marshal`, `none` where it fails.
module _ {D P : Type 0} (marshal : Frame D → Option P) (cap : ℕ) (skips : ℕ → Bool) where
  unfoldable pub publish : Bytes → Bytes → D → Server P → Server P
  publish channel event body s =
      if s.hub.shutting_down
      then s
      else elim (marshal (record { channel = channel; event = event; body = app body })) [
        | none ↦ s
        | some p ↦ deliver (λ c. offer (skips c) cap p) (members s.hub.channels channel) s
      ]

  unfoldable pub queue_system : ℕ → Frame D → Server P → Server P
  queue_system c frame s = elim (marshal frame) [
    | none ↦ s
    | some p ↦ record s { object = update c (offer (skips c) cap p) s.object }
  ]

  unfoldable pub send_error : ℕ → Bytes → Option Code → Server P → Server P
  unfolding queue_system
  send_error c channel code =
      queue_system c (record { channel = channel; event = event_error; body = denied code })

  unfoldable pub send_system : ℕ → Bytes → Payload D → Server P → Server P
  unfolding queue_system
  send_system c event body =
      queue_system c (record { channel = channel_system; event = event; body = body })
