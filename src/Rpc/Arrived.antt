-- ===== src/Rpc/Arrived.antt =====
-- An image on its way from a form of the backend through the worker to WhatsApp.
use whaticket_community.Prelude.{
  ℕ, Bool, ◌^◌, ◌<◌, ◌≡◌, refl, ap, none, some, List, [], ◌∷◌, Bytes, All, index_byte,
}
use whaticket_community.Platform.{Result, ok, err, AppError}
use whaticket_community.Prelude.Utf8.{to_utf8, IsAscii}
use whaticket_community.Media.Base64.{IsByte}
use whaticket_community.Media.DataUrl.{encode_data_url}
use whaticket_community.Message.Names.{classify_mime, image}
use whaticket_community.Message.Service.{Message, Store}
use whaticket_community.Message.Outgoing.{Call, FileHeader, TicketLike, Services}
use whaticket_community.Message.Outgoing
use whaticket_community.Message.Send.{
  read_multipart_file, outgoing_of, call_of, called, store_sent, dispatch_multipart_file,
}
use whaticket_community.Rpc.Requests.{Request, routing_key, payload, send_image_request}
use whaticket_community.Rpc.Backend.{send_image}
use whaticket_community.Rpc.Sender.{id_of, send_by_worker, ctx_info_from_quoted}
use whaticket_community.Rpc.Handlers.{Jid, logged_in, image_type, Sent, Library, gave, parse_jid}
use whaticket_community.Rpc.Handlers.Table.{serve, call}
use whaticket_community.Rpc.Delivered.{delivered_answer, image_sent, send_image-delivers}

module _ {U P S T : Type 0} (wa : Library U P) (services : Services S) (tables : Store S T)
    (ws : Bool) (ticket : ℕ) (like : TicketLike) (number caption : Bytes) (fh : FileHeader) where
  abbrev pub by_worker : List Call → Call → Result AppError Bytes
  by_worker before c = send_by_worker (call wa) c

  -- What a file leaves of which the sender was asked and answered this.
  abbrev pub sent_or_failed :
      Bytes × Bytes
      → Result AppError Bytes
      → Outgoing.World S T
      → Result AppError Message × Outgoing.World S T
  sent_or_failed file answer w =
      let c = call_of services tables ws by_worker ticket like number caption fh file in
      elim answer [
        | err e ↦ (err e, called services tables ws c w)
        | ok id ↦
            store_sent services tables ws by_worker ticket like number caption fh file id
              (called services tables ws c w)
      ]

  -- The request of the worker that carries an image.
  abbrev pub image_carried : Bytes → Bytes → Request
  image_carried content mime =
      send_image_request like.whatsapp_id number (encode_data_url content mime) caption mime none

  module _ (content mime : Bytes) (jid : Jid) (u : U)
      (read : read_multipart_file services tables ws fh ≡ ok (content, mime))
      (is_image : classify_mime mime fh.file_name ≡ image) (fits : like.whatsapp_id < 2 ^ 63)
      (live : wa.session like.whatsapp_id ≡ logged_in)
      (known : parse_jid wa.parse_full (to_utf8 number) ≡ some jid)
      (bytes_only : All IsByte content) (ascii : All IsAscii mime)
      (no_comma : index_byte b',' mime ≡ none) (uploaded : wa.upload content image_type ≡ some u)
      (times : (s : Sent)
        → wa.send jid (image_sent caption mime content none u) wa.message_id ≡ ok s
        → s.timestamp < 2 ^ 63) where
    delivered :
        (send_image
            (call wa)
            like.whatsapp_id
            number
            (encode_data_url content mime)
            caption
            mime
            none
          ≡ delivered_answer (wa.send jid (image_sent caption mime content none u) wa.message_id))
        × ((serve wa
              (routing_key (image_carried content mime))
              (payload (image_carried content mime))).1
            ≡ gave jid (image_sent caption mime content none u) ∷ [])
    delivered =
        send_image-delivers wa like.whatsapp_id fits number caption mime content none jid u live
          known bytes_only ascii no_comma uploaded times

    answered-by_worker :
        send_by_worker
          (call wa)
          (call_of services tables ws by_worker ticket like number caption fh (content, mime))
        ≡ id_of
            (delivered_answer (wa.send jid (image_sent caption mime content none u) wa.message_id))
    unfolding send_by_worker ctx_info_from_quoted
    answered-by_worker = rw (is_image, outgoing_of) (ap id_of delivered.0)

    -- A file of a form that can be read and is an image, on a connection whose id is below 2 ^ 63 and whose
    -- session is live, for a recipient whose number, in UTF-8, is one, where the file's data are
    -- bytes, its type is ASCII without a comma and the library takes the upload: the library is given,
    -- once, the message with the image, of which it took the very bytes of the file, with the type of
    -- the file and the caption of the form, where what is not UTF-8 is replaced. Where the library
    -- answers no time of 2 ^ 63 seconds or more, what it answers decides the rest: an id, which in
    -- UTF-8 is the one under which the file is uploaded and the message created; or an error, which is
    -- the answer of the request, under its code, and then the messages stay as they are.
    pub dispatch_multipart_file-arrives :
        (w : Outgoing.World S T)
        → (dispatch_multipart_file services tables ws by_worker ticket like number caption fh w
            ≡ sent_or_failed
                (content, mime)
                (id_of (
                  delivered_answer
                    (wa.send jid (image_sent caption mime content none u) wa.message_id)))
                w)
          × ((serve wa
                (routing_key (image_carried content mime))
                (payload (image_carried content mime))).1
              ≡ gave jid (image_sent caption mime content none u) ∷ [])
    unfolding dispatch_multipart_file
    dispatch_multipart_file-arrives w =
        (rw (read, answered-by_worker, dispatch_multipart_file) refl, delivered.1)
