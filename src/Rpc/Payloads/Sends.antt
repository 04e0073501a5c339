-- ===== src/Rpc/Payloads/Sends.antt =====
-- worker/internal/command/payloads.go: the requests to send a text or a file. A timestamp is never
-- negative.
use whaticket_community.Prelude.{ℕ, Bool, Option, none, some, [], Bytes, bytes}
use whaticket_community.Prelude.Options.{◌>>=◌}
use whaticket_community.Rpc.Json.{
  Value, Fields, read_field, as_text, as_int, as_uint32, as_boolean, as_struct,
}

pub record ContextInfo : Type 0 where
  pub stanza_id : Bytes
  pub participant : Bytes

unfoldable pub read_context : Fields → Option ContextInfo
unfolding read_field
read_context fs = do
  stanza_id ← read_field as_text (bytes "stanzaId") [] fs
  participant ← read_field as_text (bytes "participant") [] fs
  some (record { stanza_id = stanza_id; participant = participant })

abbrev pub as_context : Value → Option (Option ContextInfo)
as_context v = as_struct read_context v >>= λ c. some (some c)

abbrev pub as_pointer : Value → Option (Option Bool)
as_pointer v = as_boolean v >>= λ b. some (some b)

pub record SendTextReq : Type 0 where
  pub whatsapp_id : ℕ
  pub to : Bytes
  pub body : Bytes
  pub context_info : Option ContextInfo

unfoldable pub read_send_text : Fields → Option SendTextReq
unfolding read_field read_context
read_send_text fs = do
  whatsapp_id ← read_field as_int (bytes "whatsappId") 0 fs
  to ← read_field as_text (bytes "to") [] fs
  body ← read_field as_text (bytes "body") [] fs
  context_info ← read_field as_context (bytes "contextInfo") none fs
  some (record { whatsapp_id = whatsapp_id; to = to; body = body; context_info = context_info })

pub record SendImageReq : Type 0 where
  pub whatsapp_id : ℕ
  pub to : Bytes
  pub image : Bytes
  pub caption : Bytes
  pub mime_type : Bytes
  pub context_info : Option ContextInfo

unfoldable pub read_send_image : Fields → Option SendImageReq
unfolding read_field read_context
read_send_image fs = do
  whatsapp_id ← read_field as_int (bytes "whatsappId") 0 fs
  to ← read_field as_text (bytes "to") [] fs
  image ← read_field as_text (bytes "image") [] fs
  caption ← read_field as_text (bytes "caption") [] fs
  mime_type ← read_field as_text (bytes "mimeType") [] fs
  context_info ← read_field as_context (bytes "contextInfo") none fs
  some (record {
    whatsapp_id = whatsapp_id;
    to = to;
    image = image;
    caption = caption;
    mime_type = mime_type;
    context_info = context_info;
  })

pub record SendAudioReq : Type 0 where
  pub whatsapp_id : ℕ
  pub to : Bytes
  pub audio : Bytes
  pub ptt : Option Bool
  pub seconds : ℕ
  pub mime_type : Bytes
  pub context_info : Option ContextInfo

unfoldable pub read_send_audio : Fields → Option SendAudioReq
unfolding read_field read_context
read_send_audio fs = do
  whatsapp_id ← read_field as_int (bytes "whatsappId") 0 fs
  to ← read_field as_text (bytes "to") [] fs
  audio ← read_field as_text (bytes "audio") [] fs
  ptt ← read_field as_pointer (bytes "ptt") none fs
  seconds ← read_field as_uint32 (bytes "seconds") 0 fs
  mime_type ← read_field as_text (bytes "mimeType") [] fs
  context_info ← read_field as_context (bytes "contextInfo") none fs
  some (record {
    whatsapp_id = whatsapp_id;
    to = to;
    audio = audio;
    ptt = ptt;
    seconds = seconds;
    mime_type = mime_type;
    context_info = context_info;
  })

pub record SendVideoReq : Type 0 where
  pub whatsapp_id : ℕ
  pub to : Bytes
  pub video : Bytes
  pub caption : Bytes
  pub mime_type : Bytes
  pub context_info : Option ContextInfo

unfoldable pub read_send_video : Fields → Option SendVideoReq
unfolding read_field read_context
read_send_video fs = do
  whatsapp_id ← read_field as_int (bytes "whatsappId") 0 fs
  to ← read_field as_text (bytes "to") [] fs
  video ← read_field as_text (bytes "video") [] fs
  caption ← read_field as_text (bytes "caption") [] fs
  mime_type ← read_field as_text (bytes "mimeType") [] fs
  context_info ← read_field as_context (bytes "contextInfo") none fs
  some (record {
    whatsapp_id = whatsapp_id;
    to = to;
    video = video;
    caption = caption;
    mime_type = mime_type;
    context_info = context_info;
  })

pub record SendDocumentReq : Type 0 where
  pub whatsapp_id : ℕ
  pub to : Bytes
  pub document : Bytes
  pub file_name : Bytes
  pub caption : Bytes
  pub mime_type : Bytes
  pub context_info : Option ContextInfo

unfoldable pub read_send_document : Fields → Option SendDocumentReq
unfolding read_field read_context
read_send_document fs = do
  whatsapp_id ← read_field as_int (bytes "whatsappId") 0 fs
  to ← read_field as_text (bytes "to") [] fs
  document ← read_field as_text (bytes "document") [] fs
  file_name ← read_field as_text (bytes "fileName") [] fs
  caption ← read_field as_text (bytes "caption") [] fs
  mime_type ← read_field as_text (bytes "mimeType") [] fs
  context_info ← read_field as_context (bytes "contextInfo") none fs
  some (record {
    whatsapp_id = whatsapp_id;
    to = to;
    document = document;
    file_name = file_name;
    caption = caption;
    mime_type = mime_type;
    context_info = context_info;
  })

pub record SendStickerReq : Type 0 where
  pub whatsapp_id : ℕ
  pub to : Bytes
  pub sticker : Bytes

unfoldable pub read_send_sticker : Fields → Option SendStickerReq
unfolding read_field
read_send_sticker fs = do
  whatsapp_id ← read_field as_int (bytes "whatsappId") 0 fs
  to ← read_field as_text (bytes "to") [] fs
  sticker ← read_field as_text (bytes "sticker") [] fs
  some (record { whatsapp_id = whatsapp_id; to = to; sticker = sticker })
