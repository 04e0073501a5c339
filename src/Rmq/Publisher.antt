-- ===== src/Rmq/Publisher.antt =====
-- backend/internal/rmq/publisher.go: `publishBytes`. The channel that the confirmations of the broker
-- come in by is a list, the oldest first; what happens during a call is an argument.
pub mod Confirms
use whaticket_community.Prelude.{
  ℕ, ◌+◌, Bool, true, false, Option, none, some, List, [], ◌∷◌, ◌++◌, if◌then◌else◌, not,
}
use whaticket_community.Rmq.Client.{State}
use whaticket_community.Rmq.Envelope.{
  RmqError, not_connected, disabled, shutting_down, publish_confirm_timeout, connection_lost,
  publish_failed, publish_nacked, context_ended,
}

-- A confirmation of the message that was published under the delivery tag.
pub record Confirmation : Type 0 where
  pub tag : ℕ
  pub ack : Bool

-- `has_channel` says that `publishCh` and `confirms` are set.
pub record Publisher : Type 0 where
  pub state : State
  pub has_channel : Bool
  pub confirms : List Confirmation
  pub next_tag : ℕ

-- What ends the wait: a confirmation, the close of their channel, the timer or the context.
pub data Wake : Type 0 where
  confirmed closed timer context : Wake

-- The state once `publishMu` is taken, whether the broker takes the message, the confirmations that
-- come during the wait, and what ends it.
pub record Meets : Type 0 where
  pub locked_state : State
  pub published : Bool
  pub arrives : List Confirmation
  pub wakes : Wake

-- The answer to a confirmation.
abbrev pub answer : Bool → Option RmqError
answer true = none
answer false = some publish_nacked

-- The `select`; with no confirmation to take it is the timer that ends it.
unfoldable pub wait : Wake → List Confirmation → Option RmqError × List Confirmation
wait confirmed [] = (some publish_confirm_timeout, [])
wait confirmed (c ∷ confirms) = (answer c.ack, confirms)
wait closed confirms = (some connection_lost, confirms)
wait timer confirms = (some publish_confirm_timeout, confirms)
wait context confirms = (some context_ended, confirms)

abbrev pub is_connected : State → Bool
is_connected State.connected = true
is_connected State.disconnected = false
is_connected State.connecting = false
is_connected State.disabled = false
is_connected State.shutting_down = false

-- The first check of the state.
abbrev pub refusal : State → Option RmqError
refusal State.disabled = some disabled
refusal State.shutting_down = some shutting_down
refusal State.connected = none
refusal State.disconnected = some not_connected
refusal State.connecting = some not_connected

-- Why a message is not handed to the broker, once `publishMu` is taken.
abbrev pub obstacle : Meets → Publisher → Option RmqError
obstacle m p =
    if not (is_connected m.locked_state)
    then some not_connected
    else if not p.has_channel
    then some not_connected
    else if not m.published
    then some publish_failed
    else none

-- What is done under `publishMu`.
unfoldable pub publish_locked : Meets → Publisher → Option RmqError × Publisher
unfolding wait
publish_locked m p = elim (obstacle m p) [
  | some e ↦ (some e, p)
  | none ↦
      let (e, rest) = wait m.wakes (p.confirms ++ m.arrives) in
      (e, record p { confirms = rest; next_tag = p.next_tag + 1 })
]

unfoldable pub publish_bytes : Meets → Publisher → Option RmqError × Publisher
unfolding publish_locked
publish_bytes m p = elim (refusal p.state) [ some e ↦ (some e, p) | none ↦ publish_locked m p ]
