-- ===== src/Rmq/Consumer/Loops.antt =====
-- backend/internal/rmq/consumer.go: what the broker is told of each delivery, in whatever order the
-- goroutines run.
use whaticket_community.Prelude.{ℕ, ◌≡◌, Option, none, some, List, [], ◌∷◌, ◌++◌, Bytes, length}
use mathlib.Core.List.{Perm}
use mathlib.Core.List.Perm
use whaticket_community.Rmq.Envelope.{Envelope}
use whaticket_community.Rmq.Consumer.{
  Delivery, Settlement, ack, nack_requeue, nack_drop, Handled, handled, failed, panicked, Consumer,
  Loop,
}

-- What the broker is to be told of a delivery.
pub data Settles (decode : Bytes → Option Envelope) (handler : Envelope → Handled) (d : Delivery)
    : Settlement → Type 0 where
  unreadable : decode d.body ≡ none → Settles decode handler d nack_drop
  done :
      (env : Envelope)
      → decode d.body ≡ some env
      → handler env ≡ handled
      → Settles decode handler d ack
  again :
      (env : Envelope)
      → decode d.body ≡ some env
      → handler env ≡ failed
      → Settles decode handler d nack_requeue
  poisonous :
      (env : Envelope)
      → decode d.body ≡ some env
      → handler env ≡ panicked
      → Settles decode handler d nack_drop

-- The settlements of the deliveries that were handled, in the order in which they ended.
pub data AllSettled (decode : Bytes → Option Envelope) (handler : Delivery → Envelope → Handled)
    : List Delivery → List (ℕ × Settlement) → Type 0 where
  none_left : AllSettled decode handler [] []
  one_more :
      (d : Delivery) (ds : List Delivery) (s : Settlement) (rest : List (ℕ × Settlement))
      → Settles decode (handler d) d s
      → AllSettled decode handler ds rest
      → AllSettled decode handler (d ∷ ds) ((d.tag, s) ∷ rest)

module _ (decode : Bytes → Option Envelope) (handler : Delivery → Envelope → Handled) where
  -- Where the deliveries of a channel are: handled, with their settlements, or running, which the wait
  -- group counts, or still in the channel.
  pub record Sound (deliveries : List Delivery) (l : Loop) : Type 0 where
    pub ended_first : List Delivery
    pub settled : AllSettled decode handler ended_first l.consumer.settled
    pub counted : l.consumer.running ≡ length l.running
    pub each_once : Perm deliveries (ended_first ++ (l.running ++ l.waiting))
