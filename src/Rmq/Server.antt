-- ===== src/Rmq/Server.antt =====
-- backend/internal/rmq/rpc_server.go: what the server answers to a request and tells the broker.
pub mod Answers
use whaticket_community.Prelude.{
  ℕ, Bool, true, false, Option, none, some, List, [], ◌∷◌, ◌++◌, Bytes, bytes, bytes_keyed, lookup,
  is_nil, if◌then◌else◌,
}
use whaticket_community.Platform.{Result, ok, err, AppError}
use whaticket_community.Rmq.Envelope.{
  Envelope, EnvelopeError, RmqError, Json, wrap_payload, envelope_version, null, encode_failed,
}
use whaticket_community.Rmq.Consumer.{Delivery, Settlement, ack, nack_requeue, nack_drop}

-- What a handler does with a request. The text of an error is what its `Error` says.
pub data Response (P : Type 0) : Type 0 where
  returns : Option P → Response P
  app_error : AppError → Bytes → Response P
  other_error : Bytes → Response P
  panics : Bytes → Response P

-- A message on its way to a queue.
pub record Sent : Type 0 where
  pub to : Bytes
  pub correlation_id : Bytes
  pub body : Bytes

pub record Served : Type 0 where
  pub sent : List Sent
  pub settlement : Settlement

abbrev pub rpc_unknown_code : Bytes
rpc_unknown_code = bytes "ERR_UNKNOWN_RPC"

abbrev pub rpc_internal_code : Bytes
rpc_internal_code = bytes "ERR_INTERNAL"

abbrev pub rpc_invalid_code : Bytes
rpc_invalid_code = bytes "ERR_INVALID_ENVELOPE"

-- What `Publish` ends in: the broker confirms the message; or it takes the message and `Publish`
-- returns an error, as when the confirmation is late; or it does not take the message.
pub data Publishing : Type 0 where
  confirmed unconfirmed not_taken : Publishing

-- What reaches the broker, and whether there was no error.
abbrev pub sent_on : Publishing → Sent → List Sent × Bool
sent_on confirmed m = (m ∷ [], true)
sent_on unconfirmed m = (m ∷ [], false)
sent_on not_taken m = ([], false)

-- `publishes` is what becomes of a message that is published, at the time `now`.
module _ {P : Type 0} (json : Json P) (publishes : Sent → Publishing) (now : ℕ) where
  abbrev pub error_envelope : Delivery → Bytes → ℕ → Bytes → Envelope
  error_envelope d code status message = record {
    version = envelope_version;
    timestamp = now;
    type_name = d.routing_key;
    user_id = 0;
    payload = null;
    error = some (record { code = code; message = message; status = status });
  }

  abbrev pub response_message : Delivery → Bytes → Sent
  response_message d b = record { to = d.reply_to; correlation_id = d.correlation_id; body = b }

  -- `publishRPCError`
  unfoldable pub publish_rpc_error : Delivery → Bytes → ℕ → Bytes → List Sent
  publish_rpc_error d code status message =
      if is_nil d.reply_to then [] else elim (json.encode (error_envelope d code status message)) [
        | none ↦ []
        | some b ↦ (sent_on (publishes (response_message d b)) (response_message d b)).0
      ]

  -- `publishRPCResponse`: what reaches the broker, and whether there was no error.
  unfoldable pub publish_rpc_response : Delivery → Envelope → Option P → List Sent × Bool
  unfolding wrap_payload
  publish_rpc_response d env response =
      elim (wrap_payload json now env.type_name env.user_id response) [
        | err e ↦ ([], false)
        | ok reply ↦ elim (json.encode reply) [
          | none ↦ ([], false)
          | some b ↦ sent_on (publishes (response_message d b)) (response_message d b)
        ]
      ]

  abbrev pub respond : Delivery → Envelope → Response P → Served
  respond d env (returns response) =
      let (sent, fine) = publish_rpc_response d env response in
      record { sent = sent; settlement = if fine then ack else nack_requeue }
  respond d env (app_error e text) = record {
    sent = publish_rpc_error d e.code e.status text;
    settlement = ack;
  }
  respond d env (other_error text) = record {
    sent = publish_rpc_error d rpc_internal_code 500 text;
    settlement = ack;
  }
  respond d env (panics text) = record {
    sent = publish_rpc_error d rpc_internal_code 500 text;
    settlement = nack_drop;
  }

  -- `dispatchRPC`; the text of an error of JSON is an argument.
  unfoldable pub dispatch_rpc : List (Bytes × (Envelope → Response P)) → Bytes → Delivery → Served
  unfolding publish_rpc_error publish_rpc_response
  dispatch_rpc handlers json_error d = elim (json.decode d.body) [
    | none ↦ record {
      sent = publish_rpc_error d rpc_invalid_code 400 json_error;
      settlement = nack_drop;
    }
    | some env ↦ elim (lookup env.type_name handlers) [
      | none ↦ record {
        sent =
            publish_rpc_error d rpc_unknown_code 404 (bytes "unknown rpc type: " ++ env.type_name);
        settlement = ack;
      }
      | some handler ↦ respond d env (handler env)
    ]
  ]
