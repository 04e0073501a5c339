-- ===== src/Rmq/Server/Answers.antt =====
-- What the caller of an RPC gets is what the handler answered.
use whaticket_community.Prelude.{
  ℕ, ◌≡◌, ◌⊎◌, inl, inr, refl, true, false, Option, none, some, List, [], ◌∷◌, ◌++◌, Bytes, bytes,
  bytes_keyed, lookup, is_nil, Bool-cases, Option-cases,
}
use whaticket_community.Prelude.Utf8.{to_utf8}
use whaticket_community.Platform.{Result, ok, err, AppError, new_error}
use whaticket_community.Rmq.Envelope.{
  Envelope, RmqError, app, decode_failed, Json, wrap_payload, encode_failed, null,
}
use whaticket_community.Rmq.Consumer.{Delivery, Settlement, ack, nack_requeue, nack_drop}
use whaticket_community.Rmq.Calls.{body, answer_of}
use whaticket_community.Rmq.Server.{
  Response, Publishing, confirmed, unconfirmed, not_taken, sent_on, returns, app_error, other_error,
  panics, Sent, Served, rpc_unknown_code, rpc_internal_code, rpc_invalid_code, error_envelope,
  publish_rpc_error, response_message, publish_rpc_response, respond, dispatch_rpc,
}

-- What becomes of the `null` that stands for no value.
abbrev pub decoded_null : {P : Type 0} → Json P → Result RmqError (Option P)
decoded_null json = elim (json.decode_payload null) [
  | none ↦ err decode_failed
  | some p ↦ ok (some p)
]

module _ {P : Type 0} (json : Json P) (publishes : Sent → Publishing) (now : ℕ)
    (handlers : List (Bytes × (Envelope → Response P))) (json_error : Bytes) (d : Delivery) where
  -- What the caller is to be answered, and the broker to be told.
  pub data Owed : Result RmqError (Option P) → Settlement → Type 0 where
    unreadable :
        json.decode d.body ≡ none → Owed (err (app (new_error rpc_invalid_code 400))) nack_drop
    unknown :
        (env : Envelope)
        → json.decode d.body ≡ some env
        → lookup env.type_name handlers ≡ none
        → Owed (err (app (new_error rpc_unknown_code 404))) ack
    value :
        (env : Envelope) (handler : Envelope → Response P) (p : P)
        → json.decode d.body ≡ some env
        → lookup env.type_name handlers ≡ some handler
        → handler env ≡ returns (some p)
        → Owed (ok (some (json.payload_read p))) ack
    nothing :
        (env : Envelope) (handler : Envelope → Response P)
        → json.decode d.body ≡ some env
        → lookup env.type_name handlers ≡ some handler
        → handler env ≡ returns none
        → Owed (decoded_null json) ack
    refused :
        (env : Envelope) (handler : Envelope → Response P) (e : AppError) (text : Bytes)
        → json.decode d.body ≡ some env
        → lookup env.type_name handlers ≡ some handler
        → handler env ≡ app_error e text
        → Owed (err (app (new_error (to_utf8 e.code) e.status))) ack
    broken :
        (env : Envelope) (handler : Envelope → Response P) (text : Bytes)
        → json.decode d.body ≡ some env
        → lookup env.type_name handlers ≡ some handler
        → handler env ≡ other_error text
        → Owed (err (app (new_error rpc_internal_code 500))) ack
    crashed :
        (env : Envelope) (handler : Envelope → Response P) (text : Bytes)
        → json.decode d.body ≡ some env
        → lookup env.type_name handlers ≡ some handler
        → handler env ≡ panics text
        → Owed (err (app (new_error rpc_internal_code 500))) nack_drop

  -- A message that goes to the caller, who makes `answer` of it.
  pub record Tells (m : Sent) (answer : Result RmqError (Option P)) : Type 0 where
    pub to_caller : m.to ≡ d.reply_to
    pub of_call : m.correlation_id ≡ d.correlation_id
    pub reads : answer_of json true (body m.body) ≡ answer

  -- Why nothing is sent to the caller.
  pub data Unsent : Type 0 where
    no_queue : is_nil d.reply_to ≡ true → Unsent
    unencoded : (e : Envelope) → json.encode e ≡ none → Unsent
    unencoded_payload : (p : P) → json.encode_payload p ≡ none → Unsent
    unpublished :
        (b : Bytes) → publishes (response_message json publishes now d b) ≡ not_taken → Unsent

  publishing-cases : (p : Publishing) → (p ≡ confirmed) ⊎ ((p ≡ unconfirmed) ⊎ (p ≡ not_taken))
  publishing-cases confirmed = inl refl
  publishing-cases unconfirmed = inr (inl refl)
  publishing-cases not_taken = inr (inr refl)

  data ErrorSent (answer : Result RmqError (Option P)) : List Sent → Type 0 where
    silent : Unsent → ErrorSent answer []
    tells : (m : Sent) → Tells m answer → ErrorSent answer (m ∷ [])

  error-Sent :
      (code text : Bytes) (status : ℕ)
      → ErrorSent
          (err (app (new_error (to_utf8 code) status)))
          (publish_rpc_error json publishes now d code status text)
  unfolding publish_rpc_error
  error-Sent code text status =
      let e = error_envelope json publishes now d code status text in
      elim (Bool-cases (is_nil d.reply_to)) [
        | inl y ↦ rw (y, publish_rpc_error) (silent (no_queue y))
        | inr n ↦ elim (Option-cases (json.encode e)) [
          | inl x ↦ rw (n, x, publish_rpc_error) (silent (unencoded e x))
          | inr (b, x) ↦
              let m = response_message json publishes now d b in
              let t : Tells m (err (app (new_error (to_utf8 code) status))) = record {
                to_caller = refl;
                of_call = refl;
                reads = unfold answer_of in rw (answer_of, json.decode-encode e x) refl;
              } in
              elim (publishing-cases (publishes m)) [
                | inr (inr k) ↦ rw (n, x, k, publish_rpc_error, sent_on) (silent (unpublished b k))
                | inr (inl k) ↦ rw (n, x, k, publish_rpc_error, sent_on) (tells m t)
                | inl k ↦ rw (n, x, k, publish_rpc_error, sent_on) (tells m t)
              ]
        ]
      ]

  pub data Answered : Served → Type 0 where
    unanswered : (s : Settlement) → Unsent → Answered (record { sent = []; settlement = s })
    answered :
        (m : Sent) (answer : Result RmqError (Option P)) (s : Settlement)
        → Owed answer s
        → Tells m answer
        → Answered (record { sent = m ∷ []; settlement = s })
    requeued :
        (m : Sent) (answer : Result RmqError (Option P))
        → Owed answer ack
        → Tells m answer
        → publishes m ≡ unconfirmed
        → Answered (record { sent = m ∷ []; settlement = nack_requeue })

  error-Answered :
      {answer : Result RmqError (Option P)} {sent : List Sent} (s : Settlement)
      → Owed answer s
      → ErrorSent answer sent
      → Answered (record { sent = sent; settlement = s })
  error-Answered s o (silent u) = unanswered s u
  error-Answered s o (tells m t) = answered m _ s o t

  abbrev reply_of : Envelope → Bytes → Envelope
  reply_of env raw = record {
    version = bytes "1";
    timestamp = now;
    type_name = env.type_name;
    user_id = env.user_id;
    payload = raw;
    error = none;
  }

  response-Answered :
      (env : Envelope) (handler : Envelope → Response P) (response : Option P) (raw : Bytes)
      → (answer : Result RmqError (Option P))
      → wrap_payload json now env.type_name env.user_id response ≡ ok (reply_of env raw)
      → Owed answer ack
      → ((b : Bytes)
          → json.encode (reply_of env raw) ≡ some b
          → answer_of json true (body b) ≡ answer)
      → Answered (respond json publishes now d env (returns response))
  unfolding publish_rpc_response
  response-Answered env handler response raw answer w o reads =
      elim (Option-cases (json.encode (reply_of env raw))) [
        | inl x ↦
            let is : publish_rpc_response json publishes now d env response ≡ ([], false) =
              rw (w, x, publish_rpc_response) refl in
            rw (is, respond) (unanswered nack_requeue (unencoded _ x))
        | inr (b, x) ↦
            let m = response_message json publishes now d b in
            let t : Tells m answer = record {
              to_caller = refl;
              of_call = refl;
              reads = reads b x;
            } in
            let is : publish_rpc_response json publishes now d env response
                ≡ sent_on (publishes m) m =
              rw (w, x, publish_rpc_response) refl in
            elim (publishing-cases (publishes m)) [
              | inl k ↦ rw (is, k, respond, sent_on) (answered m answer ack o t)
              | inr (inl k) ↦ rw (is, k, respond, sent_on) (requeued m answer o t k)
              | inr (inr k) ↦
                  rw (is, k, respond, sent_on) (unanswered nack_requeue (unpublished b k))
            ]
      ]

  module _ (env : Envelope) (handler : Envelope → Response P) (e : json.decode d.body ≡ some env)
      (l : lookup env.type_name handlers ≡ some handler) where
    value-Answered :
        (response : Option P)
        → handler env ≡ returns response
        → Answered (respond json publishes now d env (returns response))
    unfolding answer_of
    value-Answered none h =
        response-Answered env handler none null (decoded_null json) (unfold wrap_payload in refl)
          (nothing env handler e l h)
          (λ b x.
            rw (answer_of, json.decode-encode (reply_of env null) x, json.compacted-null) refl)
    value-Answered (some p) h = elim (Option-cases (json.encode_payload p)) [
      | inl x ↦
          let failed : wrap_payload json now env.type_name env.user_id (some p)
              ≡ err encode_failed =
            unfold wrap_payload in rw (x, wrap_payload) refl in
          let is : publish_rpc_response json publishes now d env (some p) ≡ ([], false) =
            unfold publish_rpc_response in rw (failed, publish_rpc_response) refl in
          rw (is, respond) (unanswered nack_requeue (unencoded_payload p x))
      | inr (raw, x) ↦
          response-Answered env handler (some p) raw (ok (some (json.payload_read p)))
            (unfold wrap_payload in rw (x, wrap_payload) refl) (value env handler p e l h)
            (λ b y.
              rw
                (
                  answer_of,
                  json.decode-encode (reply_of env raw) y,
                  (json.decode-encode_payload p x).2,
                  (json.decode-encode_payload p x).1,
                  (json.decode-encode_payload p x).0,
                )
                refl)
    ]

    handler-Answered :
        (r : Response P) → handler env ≡ r → Answered (respond json publishes now d env r)
    unfolding to_utf8 publish_rpc_error
    handler-Answered (returns response) h = value-Answered response h
    handler-Answered (app_error x text) h =
        error-Answered ack (refused env handler x text e l h) (error-Sent x.code text x.status)
    handler-Answered (other_error text) h =
        error-Answered ack (broken env handler text e l h) (error-Sent rpc_internal_code text 500)
    handler-Answered (panics text) h =
        error-Answered nack_drop (crashed env handler text e l h)
          (error-Sent rpc_internal_code text 500)

  -- A request is answered with one message at most, and with none only where it names no queue for
  -- the reply, or the reply cannot be encoded or does not reach the broker. The message goes to the
  -- queue and the call that the request names, and `Call` makes of it what the handler did: the value
  -- that it returned, as its JSON reads, the code, in UTF-8, and the status of its `AppError`,
  -- ERR_INTERNAL for another error or a panic; for an unknown type it makes ERR_UNKNOWN_RPC, and
  -- ERR_INVALID_ENVELOPE for what cannot be read. A request that is answered is requeued only where
  -- the handler returned a value or none and the broker took the reply without its publish ending
  -- well.
  pub dispatch_rpc-Answered : Answered (dispatch_rpc json publishes now handlers json_error d)
  unfolding dispatch_rpc to_utf8
  dispatch_rpc-Answered = elim (Option-cases (json.decode d.body)) [
    | inl e ↦
        rw (e, dispatch_rpc)
          (error-Answered nack_drop (unreadable e) (error-Sent rpc_invalid_code json_error 400))
    | inr (env, e) ↦ elim (Option-cases (lookup env.type_name handlers)) [
      | inl l ↦
          rw (e, l, dispatch_rpc)
            (error-Answered ack (unknown env e l)
              (error-Sent rpc_unknown_code (bytes "unknown rpc type: " ++ env.type_name) 404))
      | inr (handler, l) ↦
          rw (e, l, dispatch_rpc) (handler-Answered env handler e l (handler env) refl)
    ]
  ]
