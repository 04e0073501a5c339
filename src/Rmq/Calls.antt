-- ===== src/Rmq/Calls.antt =====
-- backend/internal/rmq/rpc_client.go and client.go: the calls that wait for a reply. A correlation id
-- is a number; the channel of a call has room for one message.
pub mod Waits
use whaticket_community.Prelude.{
  ℕ, ◌≡◌, Bool, true, false, ◌&&◌, Option, none, some, List, [], ◌∷◌, Bytes, if◌then◌else◌, has,
  add, remove, lookup, insert, delete, nat_keyed, is_nil, not,
}
use whaticket_community.Platform.{Result, ok, err, new_error}
use whaticket_community.Rmq.Client.{State}
use whaticket_community.Rmq.Envelope.{
  Envelope, RmqError, not_connected, disabled, shutting_down, connection_lost, context_ended,
  decode_failed, app, Json,
}
use whaticket_community.Rmq.Publisher.{refusal}

-- `replyMessage`
pub data ReplyMessage : Type 0 where
  body : Bytes → ReplyMessage
  error : RmqError → ReplyMessage

-- `pending` is the map's keys, and `channels` the channel of each call that has not returned.
pub record Calls : Type 0 where
  pub pending : List ℕ
  pub channels : List (ℕ × Option ReplyMessage)

abbrev pub no_calls : Calls
no_calls = record { pending = []; channels = [] }

-- A call enters its channel under an id that `uuid.NewString` has just made.
unfoldable pub register : ℕ → Calls → Calls
unfolding add insert
register id c = record { pending = add id c.pending; channels = insert id none c.channels }

-- The deferred part of a call, whatever it returns.
unfoldable pub finish : ℕ → Calls → Calls
unfolding remove delete
finish id c = record { pending = remove id c.pending; channels = delete id c.channels }

-- `case ch <- m: default:`
abbrev pub offered : ReplyMessage → Option ReplyMessage → Option ReplyMessage
offered m none = some m
offered m (some old) = some old

-- A round of `consumeReplies`
unfoldable pub consume_reply : ℕ → Bytes → Calls → Calls
unfolding has lookup insert
consume_reply id b c =
    if has id c.pending
    then elim (lookup id c.channels) [
      | none ↦ c
      | some old ↦ record c { channels = insert id (offered (body b) old) c.channels }
    ]
    else c

unfoldable pub fail_all :
    List ℕ → RmqError → List (ℕ × Option ReplyMessage) → List (ℕ × Option ReplyMessage)
unfolding has
fail_all pending e [] = []
fail_all pending e (entry ∷ channels) =
    (entry.0, if has entry.0 pending then offered (error e) entry.1 else entry.1)
    ∷ fail_all pending e channels

-- `failPendingRPCs`
unfoldable pub fail_pending : RmqError → Calls → Calls
unfolding fail_all
fail_pending e c = record { pending = []; channels = fail_all c.pending e c.channels }

pub data Op : Type 0 where
  registers : ℕ → Op
  replies : ℕ → Bytes → Op
  fails : RmqError → Op
  finishes : ℕ → Op

abbrev pub step : Op → Calls → Calls
step (registers id) c = register id c
step (replies id b) c = consume_reply id b c
step (fails e) c = fail_pending e c
step (finishes id) c = finish id c

unfoldable pub run : List Op → Calls → Calls
unfolding register consume_reply fail_pending finish
run [] c = c
run (op ∷ ops) c = run ops (step op c)

-- What `Call` returns of the message that it receives; `wants` says that it has a target.
unfoldable pub answer_of : {P : Type 0} → Json P → Bool → ReplyMessage → Result RmqError (Option P)
answer_of json wants (error e) = err e
answer_of json wants (body b) = elim (json.decode b) [
  | none ↦ err decode_failed
  | some e ↦ elim e.error [
    | some x ↦ err (app (new_error x.code x.status))
    | none ↦
        if wants && not (is_nil e.payload)
        then elim (json.decode_payload e.payload) [
          | none ↦ err decode_failed
          | some p ↦ ok (some p)
        ]
        else ok none
  ]
]

-- The checks that `Call` begins with; its reply queue may be unknown.
unfoldable pub call_refusal : State → Bytes → Option RmqError
call_refusal state reply_queue = elim (refusal state) [
  | some e ↦ some e
  | none ↦ if is_nil reply_queue then some not_connected else none
]
