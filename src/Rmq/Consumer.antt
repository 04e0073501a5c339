-- ===== src/Rmq/Consumer.antt =====
-- backend/internal/rmq/consumer.go: what becomes of each delivery, and when a consumer stops.
pub mod Loops
use whaticket_community.Prelude.{
  ℕ, ◌+◌, ◌-◌, ◌≡◌, ◌↔◌, ◌⊎◌, inl, inr, refl, Bool, true, false, Option, none, some, List, [], ◌∷◌,
  ◌++◌, Bytes, arith, if◌then◌else◌, Option-cases, ap, ◌∙◌,
}
use mathlib.Core.List.{append-nil, append_assoc}
use whaticket_community.Rmq.Client.{State}
use whaticket_community.Rmq.Envelope.{Envelope}

pub record Delivery : Type 0 where
  pub tag : ℕ
  pub routing_key : Bytes
  pub reply_to : Bytes
  pub correlation_id : Bytes
  pub body : Bytes

-- `Ack(false)`, `Nack(false, true)` and `Nack(false, false)`
pub data Settlement : Type 0 where
  ack nack_requeue nack_drop : Settlement

-- What a handler does: it returns `nil` or an error, or it panics.
pub data Handled : Type 0 where
  handled failed panicked : Handled

-- `running` is the counter of `handlerWG`; `settled` is what the broker was told.
pub record Consumer : Type 0 where
  pub running : ℕ
  pub settled : List (ℕ × Settlement)

abbrev pub settle : Delivery → Settlement → Consumer → Consumer
settle d s c = record c { settled = c.settled ++ (d.tag, s) ∷ [] }

abbrev pub after_handler : Delivery → Handled → Consumer → Consumer
after_handler d handled c = settle d ack c
after_handler d failed c = settle d nack_requeue c
after_handler d panicked c = settle d nack_drop c

-- `dispatchDelivery`, whose deferred calls run last.
unfoldable pub dispatch_delivery :
    (Bytes → Option Envelope) → (Envelope → Handled) → Delivery → Consumer → Consumer
dispatch_delivery decode handler d c =
    let settled : Consumer = elim (decode d.body) [
      | none ↦ settle d nack_drop c
      | some env ↦ after_handler d (handler env) c
    ] in
    record settled { running = settled.running - 1 }

-- `dispatchLoop` starts the handler of a delivery.
abbrev pub start_handler : Consumer → Consumer
start_handler c = record c { running = c.running + 1 }

-- `dispatchLoop` with the goroutines that it starts: whether the loop has ended, what the channel of
-- deliveries holds, and the deliveries whose handler is running.
pub record Loop : Type 0 where
  pub ended : Bool
  pub waiting : List Delivery
  pub running : List Delivery
  pub consumer : Consumer

abbrev pub new_loop : List Delivery → Loop
new_loop deliveries = record {
  ended = false;
  waiting = deliveries;
  running = [];
  consumer = record { running = 0; settled = [] };
}

-- The loop takes the next delivery and starts its goroutine, a goroutine returns, or a context is done
-- and the loop ends; these come in any order. A handler's outcome may depend on its delivery. What a
-- goroutine tells the broker and its `Done` are one step.
pub data LoopStep (decode : Bytes → Option Envelope) (handler : Delivery → Envelope → Handled)
    (l : Loop) : Loop → Type 0 where
  takes :
      (d : Delivery) (rest : List Delivery)
      → l.ended ≡ false
      → l.waiting ≡ d ∷ rest
      → LoopStep decode handler l (record l {
        waiting = rest;
        running = d ∷ l.running;
        consumer = start_handler l.consumer;
      })
  returns :
      (xs ys : List Delivery) (d : Delivery)
      → l.running ≡ xs ++ d ∷ ys
      → LoopStep decode handler l (record l {
        running = xs ++ ys;
        consumer = dispatch_delivery decode (handler d) d l.consumer;
      })
  ends : LoopStep decode handler l (record l { ended = true })

pub data Reach (decode : Bytes → Option Envelope) (handler : Delivery → Envelope → Handled)
    (l : Loop) : Loop → Type 0 where
  here : Reach decode handler l l
  next :
      {m n : Loop}
      → Reach decode handler l m
      → LoopStep decode handler m n
      → Reach decode handler l n

-- A round of `runConsumer` or `runRPCServer`: whether the context has ended, the state, whether there
-- is a connection, and whether the channel opens with its prefetch and its deliveries.
pub data Turn : Type 0 where
  stops sleeps retries consumes : Turn

unfoldable pub turn : Bool → State → Bool → Bool → Turn
turn ended state has_conn opens = if ended then stops else elim state [
  | State.shutting_down ↦ stops
  | State.disabled ↦ stops
  | State.connected ↦ if has_conn then if opens then consumes else retries else sleeps
  | State.disconnected ↦ sleeps
  | State.connecting ↦ sleeps
]

-- A consumer stops for good in these cases only.
pub turn-stops :
    (ended : Bool) (state : State) (has_conn opens : Bool)
    → (turn ended state has_conn opens ≡ stops)
      ↔ ((ended ≡ true) ⊎ ((state ≡ State.shutting_down) ⊎ (state ≡ State.disabled)))
unfolding turn
turn-stops true state has_conn opens = (λ h. inl refl, λ h. refl)
turn-stops false State.shutting_down has_conn opens = (λ h. inr (inl refl), λ h. refl)
turn-stops false State.disabled has_conn opens = (λ h. inr (inr refl), λ h. refl)
turn-stops false State.connected has_conn opens = ground arith
turn-stops false State.disconnected has_conn opens = ground arith
turn-stops false State.connecting has_conn opens = ground arith
