-- ===== src/Rmq/Tests.antt =====
-- The theorems on the client of RabbitMQ at concrete inputs.
use whaticket_community.Prelude.{
  ℕ, ◌≡◌, ◌≤◌, ◌<◌, ◌↔◌, refl, true, false, none, some, List, [], ◌∷◌, ◌++◌, map, take, Bytes,
  bytes, pos, negsuc, nat_keyed, length, if◌then◌else◌, nat_beq,
}
use whaticket_community.Rmq.Client.{
  State, RawConfig, completed, Attempt, refused, ready, dial_and_setup, up,
}
use whaticket_community.Rmq.Client.Dials.{Connects, dial_and_setup-bounds}
use whaticket_community.Rmq.Envelope.{Envelope, publish_confirm_timeout}
use whaticket_community.Rmq.Publisher.{publish_bytes, answer}
use whaticket_community.Rmq.Publisher.Confirms.{
  idle, late, own, arrived, in_time, publish_bytes-one_behind,
}
use whaticket_community.Rmq.Consumer.{Delivery, Handled, dispatch_delivery, Loop}
use whaticket_community.Rmq.Consumer
use whaticket_community.Rmq.Calls.{Op, registers, replies}
use whaticket_community.Rmq.Server.{Response, returns, Sent, Publishing, confirmed, dispatch_rpc}
use whaticket_community.Rmq.Server.Answers.{Answered, dispatch_rpc-Answered}
use whaticket_community.Rmq.Lifecycle.{World, dialing, watching, shut_down, Reach}
use whaticket_community.Rmq.Lifecycle.Shutdowns.{Calm, shut_down-final}
use whaticket_community.Rmq.Codec.{codec, written}

-- The broker refuses twice and then takes the connection.
abbrev third_time : ℕ → Attempt
third_time n = record {
  ended = false;
  dialed = if nat_beq n 3 then ready else refused;
  ended_waiting = false;
}

abbrev unset : RawConfig
unset = record {
  reconnect_attempts = negsuc 0;
  reconnect_backoff = pos 0;
  publish_confirm_timeout = pos 0;
  prefetch_count = pos 0;
}

dial_and_setup-bounds_example :
    ((dial_and_setup third_time (completed unset)).dials ≤ (completed unset).reconnect_attempts)
    × ((dial_and_setup third_time (completed unset)).waits < (completed unset).reconnect_attempts)
    × (((dial_and_setup third_time (completed unset)).verdict ≡ up)
        ↔ ((k : ℕ) × (k < (completed unset).reconnect_attempts) × Connects third_time 1 k))
dial_and_setup-bounds_example = dial_and_setup-bounds third_time unset

connects_at_third : (dial_and_setup third_time (completed unset)).dials ≡ 3
unfolding dial_and_setup completed
connects_at_third = refl

publish_bytes-one_behind_example :
    ((publish_bytes late (idle 7)).0 ≡ some publish_confirm_timeout)
    × (in_time (false ∷ true ∷ []) (arrived (own true (idle 7)) (publish_bytes late (idle 7)).1)
        ≡ map answer (take (length (false ∷ true ∷ [])) (true ∷ false ∷ true ∷ [])))
publish_bytes-one_behind_example = publish_bytes-one_behind (false ∷ true ∷ []) true 7

abbrev event : Envelope
event = record {
  version = bytes "1";
  timestamp = 9;
  type_name = bytes "sum";
  user_id = 2;
  payload = 5 ∷ [];
  error = none;
}

abbrev delivery : Bytes → Delivery
delivery b = record {
  tag = 4;
  routing_key = bytes "sum";
  reply_to = bytes "replies";
  correlation_id = bytes "c1";
  body = b;
}

abbrev sum_request : Delivery
sum_request = delivery (written event)

abbrev unreadable_request : Delivery
unreadable_request = record (delivery []) { tag = 5 }

-- The second delivery is settled while the handler of the first is running, and the third stays in the
-- channel.
abbrev failing : Delivery → Envelope → Handled
failing d e = Handled.failed

abbrev requests : List Delivery
requests = sum_request ∷ unreadable_request ∷ sum_request ∷ []

abbrev both_running : Loop
both_running = record {
  ended = true;
  waiting = sum_request ∷ [];
  running = unreadable_request ∷ sum_request ∷ [];
  consumer = record { running = 2; settled = [] };
}

abbrev one_running : Loop
one_running = record both_running {
  running = [] ++ sum_request ∷ [];
  consumer =
      dispatch_delivery codec.decode (failing unreadable_request) unreadable_request
        both_running.consumer;
}

abbrev two_calls : List Op
two_calls = registers 1 ∷ registers 2 ∷ replies 1 [] ∷ []

abbrev sums : List (Bytes × (Envelope → Response ℕ))
sums = (bytes "sum", λ e. returns (some 8)) ∷ []

abbrev all_confirmed : Sent → Publishing
all_confirmed m = confirmed

dispatch_rpc-Answered_example :
    Answered codec all_confirmed 50 sums []
      (delivery (written event))
      (dispatch_rpc codec all_confirmed 50 sums [] (delivery (written event)))
dispatch_rpc-Answered_example =
    dispatch_rpc-Answered codec all_confirmed 50 sums [] (delivery (written event))

abbrev redialing : World
redialing = record {
  state = State.connecting;
  loop = dialing;
  run_cancelled = false;
  open_channels = false;
}

shut_down-final_example :
    ((v : World) → Reach (shut_down redialing) v → v.state ≡ State.shutting_down)
    ↔ Calm redialing.loop
shut_down-final_example = shut_down-final redialing

abbrev serving : World
serving = record redialing { state = State.connected; loop = watching }
