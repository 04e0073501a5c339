-- ===== src/Message/Send/Requests.antt =====
-- backend/internal/message/send.go: the requests to send, which hold files or a text.
use whaticket_community.Prelude.{
  ℕ, Bool, Option, none, some, List, [], ◌∷◌, Bytes, bytes, bytes_keyed, if◌then◌else◌, is_nil, map,
  has_prefix, trim_space,
}
use whaticket_community.Platform.{Result, ok, err, AppError, new_error, wrap_error, other_error}
use whaticket_community.Message.Names.{lower}
use whaticket_community.Message.Outgoing.{
  text_out, Call, World, Form, SendBody, Request, TicketLike, Services, media_parse, media_empty,
  no_sender, media_max_bytes, extract_quoted_id, is_request_too_large,
}
use whaticket_community.Message.Service.{Message, Store, invalid_input}
use whaticket_community.Message.Send.{
  lookup_contact_number, create_in, called, sent_message, send_files,
}

module _ {S T : Type 0} (services : Services S) (tables : Store S T) (ws : Bool) where
  module _ (send : List Call → Call → Result AppError Bytes) (ticket : ℕ) (like : TicketLike)
      (number : Bytes) where
    abbrev pub first_value : List Bytes → Bytes
    first_value [] = []
    first_value (s ∷ rest) = s

    -- `sendMultipart`
    unfoldable pub send_multipart :
        (ℕ → Result Bytes (Option Form)) → World S T → Result AppError (List Message) × World S T
    unfolding send_files media_max_bytes is_request_too_large trim_space
    send_multipart parse w = elim (parse (media_max_bytes services.max_size)) [
      | err message ↦ (
        err (
            if is_request_too_large message
            then wrap_error other_error (bytes "ERR_MEDIA_TOO_LARGE") 413
            else wrap_error other_error media_parse 400),
        w,
      )
      | ok none ↦ (err (new_error media_parse 400), w)
      | ok (some form) ↦
          if is_nil form.medias
          then (err media_empty, w)
          else send_files services tables ws send ticket like number
              (trim_space (first_value form.bodies)) form.medias w
    ]

    abbrev pub single :
        Result AppError Message × World S T → Result AppError (List Message) × World S T
    single (err e, w) = (err e, w)
    single (ok m, w) = (ok (m ∷ []), w)

    -- What `sendJSON` does once the text is sent.
    abbrev pub store_text :
        SendBody → Bytes → Bytes → Bytes → World S T → Result AppError (List Message) × World S T
    store_text req body quoted id w =
        let after =
          create_in services tables ws
            (sent_message services tables ws ticket like.contact_id id body (bytes "chat")
              req.media_url (if is_nil quoted then none else some quoted))
            w in
        single after

    -- `sendJSON`
    unfoldable pub send_json :
        Option SendBody → World S T → Result AppError (List Message) × World S T
    unfolding extract_quoted_id trim_space
    send_json none w = (err (new_error (bytes "ERR_BAD_REQUEST") 400), w)
    send_json (some req) w =
        let body = trim_space req.body in
        let quoted = extract_quoted_id req.quoted_msg in
        let c : Call = record {
          whatsapp_id = like.whatsapp_id;
          to = number;
          outgoing = text_out body quoted;
        } in
        if is_nil body then (err invalid_input, w) else elim (send w.calls c) [
          | err e ↦ (err e, called services tables ws c w)
          | ok id ↦ store_text req body quoted id (called services tables ws c w)
        ]

  abbrev pub dispatched :
      (List Call → Call → Result AppError Bytes)
      → ℕ
      → TicketLike
      → Bytes
      → Request
      → World S T
      → Result AppError (List Message) × World S T
  dispatched send ticket like number r w =
      if has_prefix (bytes "multipart/form-data") (map lower r.content_type)
      then send_multipart send ticket like number r.form w
      else send_json send ticket like number r.json w

  -- `send`, with the messages that it answers
  unfoldable pub send_request : Request → World S T → Result AppError (List Message) × World S T
  unfolding lookup_contact_number send_multipart send_json has_prefix
  send_request r w = elim r.ticket_id [
    | err e ↦ (err e, w)
    | ok ticket ↦ elim r.actor [
      | none ↦ (err (new_error (bytes "ERR_SESSION_EXPIRED") 401), w)
      | some actor ↦ elim (services.show ticket actor w.messages.store) [
        | err e ↦ (err e, w)
        | ok like ↦
            elim (lookup_contact_number services tables ws like.contact_id w.messages.store) [
              | err e ↦ (err e, w)
              | ok number ↦ elim services.sender [
                | none ↦ (err no_sender, w)
                | some send ↦ dispatched send ticket like number r w
              ]
            ]
      ]
    ]
  ]
