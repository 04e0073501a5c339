-- ===== src/Message/Send.antt =====
-- backend/internal/message/send.go: how a file is read, sent and stored.
pub mod Requests
pub mod Kept
pub mod Files
use whaticket_community.Prelude.{
  ℕ, Bool, true, ◌||◌, Option, none, some, List, [], ◌∷◌, ◌++◌, Bytes, bytes, bytes_keyed, ◌==◌,
  if◌then◌else◌, nat_beq, is_nil, map, take, has_prefix, trim_space, print_uint,
}
use whaticket_community.Platform.{
  Result, ok, err, AppError, new_error, wrap_error, is_not_found, other_error,
}
use whaticket_community.Media.DataUrl.{encode_data_url, octet_stream}
use whaticket_community.Message.Names.{
  Kind, image, audio, video, document, sticker, kind_text, lower, ext, classify_mime,
  sanitize_object_name,
}
use whaticket_community.Message.Outgoing.{
  Outgoing, text_out, image_out, audio_out, video_out, document_out, sticker_out, Call, Upload,
  World, FileHeader, Form, SendBody, Request, TicketLike, Services, media_parse, media_empty,
  no_sender, media_max_bytes, extract_quoted_id, is_request_too_large,
}
use whaticket_community.Message.Service.{Message, Store, invalid_input, create_message}

module _ {S T : Type 0} (services : Services S) (tables : Store S T) (ws : Bool) where
  -- `lookupContactNumber`
  unfoldable pub lookup_contact_number : ℕ → S → Result AppError Bytes
  lookup_contact_number id s =
      if nat_beq id 0 then err invalid_input else elim (services.number_of id s) [
        | err e ↦
            if is_not_found e
            then err (new_error (bytes "ERR_NO_CONTACT_FOUND") 404)
            else err (wrap_error e (bytes "ERR_DB_QUERY") 500)
        | ok number ↦
            if is_nil number then err (new_error (bytes "ERR_NO_CONTACT_NUMBER") 400) else ok number
      ]

  -- `readMultipartFile`: the data and the type, which is detected where the form names none.
  unfoldable pub read_multipart_file : FileHeader → Result AppError (Bytes × Bytes)
  unfolding trim_space take
  read_multipart_file fh = elim fh.opened [
    | none ↦ err (wrap_error other_error media_parse 400)
    | some content ↦
        let mime = trim_space fh.content_type in
        if is_nil content
        then err media_empty
        else if is_nil mime || mime == octet_stream
        then ok (content, services.detect (take 512 content))
        else ok (content, mime)
  ]

  -- `dispatchSend`: what is sent of a file
  abbrev pub outgoing_of : Kind → Bytes → Bytes → Bytes → Bytes → Outgoing
  outgoing_of image url mime file_name caption = image_out url caption mime []
  outgoing_of audio url mime file_name caption = audio_out url mime true []
  outgoing_of video url mime file_name caption = video_out url caption mime []
  outgoing_of sticker url mime file_name caption = sticker_out url []
  outgoing_of document url mime file_name caption = document_out url file_name caption mime []

  abbrev pub display_name : FileHeader → Bytes → Bytes
  display_name fh mime = if is_nil fh.file_name then bytes "file-" ++ ext mime else fh.file_name

  -- The object that `uploadOutboundMedia` stores.
  abbrev pub object_of : ℕ → Bytes → Bytes → Bytes → Bytes → Upload
  object_of ticket id name content mime =
      let safe = sanitize_object_name name in
      record {
        key =
            bytes "wa-outbound/"
            ++ print_uint ticket
            ++ bytes "/"
            ++ id
            ++ bytes "/"
            ++ (if is_nil safe then id else safe);
        content = content;
        mime = mime;
      }

  -- `uploadOutboundMedia`: the URL, empty where the store of media fails or is not set, and the world
  unfoldable pub upload_outbound_media :
      ℕ → Bytes → Bytes → Bytes → Bytes → World S T → Bytes × World S T
  unfolding sanitize_object_name print_uint
  upload_outbound_media ticket id name content mime w = elim services.uploader [
    | none ↦ ([], w)
    | some upload ↦
        let o = object_of ticket id name content mime in
        let url : Bytes = elim (upload w.uploads o) [ none ↦ [] | some u ↦ u ] in
        (url, record w { uploads = w.uploads ++ o ∷ [] })
  ]

  -- A message is created, in the world of the messages.
  abbrev pub create_in : Message → World S T → Result AppError Message × World S T
  create_in m w =
      let created = create_message tables ws m w.messages in
      (created.0, record w { messages = created.1 })

  -- A request to the sender; what it was asked is known whatever it answers.
  abbrev pub called : Call → World S T → World S T
  called c w = record w { calls = w.calls ++ c ∷ [] }

  abbrev pub sent_message : ℕ → ℕ → Bytes → Bytes → Bytes → Bytes → Option Bytes → Message
  sent_message ticket contact id body media_type media_url quoted = record {
    id = id;
    ticket_id = ticket;
    contact_id = some contact;
    body = body;
    media_type = media_type;
    media_url = media_url;
    from_me = true;
    read = true;
    ack = 0;
    quoted_msg_id = quoted;
  }

  module _ (send : List Call → Call → Result AppError Bytes) (ticket : ℕ) (like : TicketLike)
      (number : Bytes) where
    abbrev pub call_of : Bytes → FileHeader → Bytes × Bytes → Call
    call_of caption fh (content, mime) = record {
      whatsapp_id = like.whatsapp_id;
      to = number;
      outgoing =
          outgoing_of (classify_mime mime fh.file_name) (encode_data_url content mime) mime
            (display_name fh mime) caption;
    }

    -- What follows once a file is sent: its upload and its message.
    unfoldable pub store_sent :
        Bytes → FileHeader → Bytes × Bytes → Bytes → World S T → Result AppError Message × World S T
    unfolding upload_outbound_media
    store_sent caption fh (content, mime) id w =
        let name = display_name fh mime in
        let uploaded = upload_outbound_media ticket id name content mime w in
        create_in
          (sent_message ticket like.contact_id id (if is_nil caption then name else caption)
            (kind_text (classify_mime mime fh.file_name)) uploaded.0 none)
          uploaded.1

    -- `dispatchMultipartFile`
    unfoldable pub dispatch_multipart_file :
        Bytes → FileHeader → World S T → Result AppError Message × World S T
    unfolding read_multipart_file classify_mime encode_data_url store_sent
    dispatch_multipart_file caption fh w = elim (read_multipart_file fh) [
      | err e ↦ (err e, w)
      | ok file ↦
          let c = call_of caption fh file in
          elim (send w.calls c) [
            | err e ↦ (err e, called c w)
            | ok id ↦ store_sent caption fh file id (called c w)
          ]
    ]

    abbrev pub and_more :
        Message
        → Result AppError (List Message) × World S T
        → Result AppError (List Message) × World S T
    and_more m (err e, w) = (err e, w)
    and_more m (ok ms, w) = (ok (m ∷ ms), w)

    -- The loop of `sendMultipart`.
    unfoldable pub send_files :
        Bytes → List FileHeader → World S T → Result AppError (List Message) × World S T
    unfolding dispatch_multipart_file
    send_files caption [] w = (ok [], w)
    send_files caption (fh ∷ files) w =
        let after = dispatch_multipart_file caption fh w in
        elim after.0 [
          | err e ↦ (err e, after.1)
          | ok m ↦ and_more m (send_files caption files after.1)
        ]
