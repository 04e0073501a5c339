-- ===== src/Rmq/Publisher/Confirms.antt =====
-- Which confirmation answers which message.
use whaticket_community.Prelude.{
  ℕ, ◌+◌, ◌≡◌, refl, Bool, true, Option, some, List, [], ◌∷◌, ◌++◌, map, ap, take, length,
}
use whaticket_community.Rmq.Client.{State}
use whaticket_community.Rmq.Envelope.{RmqError, publish_confirm_timeout}
use whaticket_community.Rmq.Publisher.{
  Confirmation, Publisher, confirmed, timer, Meets, answer, publish_bytes,
}

-- A message that the broker takes, with the confirmations that come before the wait ends.
abbrev pub taken : List Confirmation → Meets
taken arrives = record {
  locked_state = State.connected;
  published = true;
  arrives = arrives;
  wakes = confirmed;
}

-- A message that the broker takes, whose confirmation does not come in time.
abbrev pub late : Meets
late = record { locked_state = State.connected; published = true; arrives = []; wakes = timer }

abbrev pub own : Bool → Publisher → Confirmation
own ack p = record { tag = p.next_tag; ack = ack }

-- Messages that are published one after another, where the broker confirms each in time.
unfoldable pub in_time : List Bool → Publisher → List (Option RmqError)
unfolding publish_bytes
in_time [] p = []
in_time (ack ∷ acks) p = let (e, q) = publish_bytes (taken (own ack p ∷ [])) p in e ∷ in_time acks q

-- A connected client that waits for no confirmation.
abbrev pub idle : ℕ → Publisher
idle tag = record { state = State.connected; has_channel = true; confirms = []; next_tag = tag }

-- Each is then answered by its own confirmation.
pub in_time-answers : (acks : List Bool) (tag : ℕ) → in_time acks (idle tag) ≡ map answer acks
unfolding in_time
in_time-answers [] tag = refl
in_time-answers (ack ∷ acks) tag =
    ap (λ (answers : List (Option RmqError)). answer ack ∷ answers) (in_time-answers acks (tag + 1))

in_time-behind :
    (acks : List Bool) (c : Confirmation) (tag : ℕ)
    → in_time acks (record (idle tag) { confirms = c ∷ [] })
      ≡ map answer (take (length acks) (c.ack ∷ acks))
unfolding in_time take
in_time-behind [] c tag = refl
in_time-behind (ack ∷ acks) c tag =
    ap (λ (answers : List (Option RmqError)). answer c.ack ∷ answers)
      (in_time-behind acks (record { tag = tag; ack = ack }) (tag + 1))

-- A confirmation comes while no call waits.
abbrev pub arrived : Confirmation → Publisher → Publisher
arrived c p = record p { confirms = p.confirms ++ c ∷ [] }

-- A message whose confirmation comes after its wait has timed out is answered by the timeout, and
-- from then on each message is answered by the confirmation of the one before it, although the broker
-- confirms each in time.
pub publish_bytes-one_behind :
    (acks : List Bool) (first : Bool) (tag : ℕ)
    → ((publish_bytes late (idle tag)).0 ≡ some publish_confirm_timeout)
      × (in_time acks (arrived (own first (idle tag)) (publish_bytes late (idle tag)).1)
          ≡ map answer (take (length acks) (first ∷ acks)))
unfolding publish_bytes
publish_bytes-one_behind acks first tag =
    (refl, in_time-behind acks (own first (idle tag)) (tag + 1))
