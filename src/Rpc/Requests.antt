-- ===== src/Rpc/Requests.antt =====
-- backend/internal/whatsapp/rpc.go: the requests to the worker and their JSON. A timestamp is never
-- negative.
use whaticket_community.Prelude.{
  ℕ, Bool, true, Option, none, some, List, [], ◌∷◌, Bytes, bytes, if◌then◌else◌, is_nil, nat_beq,
}
use whaticket_community.Rpc.Json.{
  Value, number, float, string, boolean, array, struct, omit_empty, texts,
}

pub record ContextInfo : Type 0 where
  pub stanza_id : Bytes
  pub participant : Bytes

-- The structs of the requests.
pub data Request : Type 0 where
  send_text_request : (whatsapp_id : ℕ) (to body : Bytes) → Option ContextInfo → Request
  send_image_request :
      (whatsapp_id : ℕ) (to image caption mime_type : Bytes) → Option ContextInfo → Request
  send_audio_request :
      (whatsapp_id : ℕ) (to audio : Bytes)
      → Option Bool
      → (seconds : ℕ) (mime_type : Bytes) → Option ContextInfo
      → Request
  send_video_request :
      (whatsapp_id : ℕ) (to video caption jpeg_thumbnail mime_type : Bytes)
      → Option ContextInfo
      → Request
  send_document_request :
      (whatsapp_id : ℕ) (to document file_name caption mime_type : Bytes)
      → Option ContextInfo
      → Request
  send_sticker_request :
      (whatsapp_id : ℕ) (to sticker pack_id pack_name pack_publisher : Bytes) (emojis : List Bytes)
      → Option ContextInfo
      → Request
  send_contact_request : (whatsapp_id : ℕ) (to name vcard : Bytes) → Request
  send_location_request : (whatsapp_id : ℕ) (to latitude longitude name : Bytes) → Request
  delete_message_request : (whatsapp_id : ℕ) (to id : Bytes) → Request
  edit_message_request : (whatsapp_id : ℕ) (to id body : Bytes) → Request
  react_message_request : (whatsapp_id : ℕ) (to id emoji : Bytes) → Request
  mark_read_request :
      (whatsapp_id : ℕ) (chat_jid sender_jid : Bytes) (message_ids : List Bytes) (timestamp : ℕ)
      → Request
  check_number_request : (whatsapp_id : ℕ) (numbers : List Bytes) → Request
  profile_pic_request : (whatsapp_id : ℕ) (jid : Bytes) (preview : Bool) → Request
  contact_info_request : (whatsapp_id : ℕ) (jids : List Bytes) → Request
  presence_request : (whatsapp_id : ℕ) (state : Bytes) → Request
  chat_presence_request : (whatsapp_id : ℕ) (chat_jid state : Bytes) → Request
  pair_phone_request : (whatsapp_id : ℕ) (phone : Bytes) → Request

abbrev pub routing_key : Request → Bytes
routing_key (send_text_request w to body context) = bytes "message.send.text"
routing_key (send_image_request w to image caption mime context) = bytes "message.send.image"
routing_key (send_audio_request w to audio ptt seconds mime context) = bytes "message.send.audio"
routing_key (send_video_request w to video caption thumbnail mime context) =
    bytes "message.send.video"
routing_key (send_document_request w to document name caption mime context) =
    bytes "message.send.document"
routing_key (send_sticker_request w to sticker pack name publisher emojis context) =
    bytes "message.send.sticker"
routing_key (send_contact_request w to name vcard) = bytes "message.send.contact"
routing_key (send_location_request w to latitude longitude name) = bytes "message.send.location"
routing_key (delete_message_request w to id) = bytes "message.delete"
routing_key (edit_message_request w to id body) = bytes "message.edit"
routing_key (react_message_request w to id emoji) = bytes "message.react"
routing_key (mark_read_request w chat sender ids timestamp) = bytes "message.markread"
routing_key (check_number_request w numbers) = bytes "contact.checkNumber"
routing_key (profile_pic_request w jid preview) = bytes "contact.getProfilePic"
routing_key (contact_info_request w jids) = bytes "contact.getInfo"
routing_key (presence_request w state) = bytes "presence.send"
routing_key (chat_presence_request w chat state) = bytes "chat.presence.send"
routing_key (pair_phone_request w phone) = bytes "session.pairphone"

abbrev pub context_value : Option ContextInfo → Option Value
context_value none = none
context_value (some c) = some (
    struct (
      (bytes "stanzaId", omit_empty c.stanza_id)
      ∷ (bytes "participant", omit_empty c.participant)
      ∷ []))

abbrev pub context_field : Option ContextInfo → Bytes × Option Value
context_field c = (bytes "contextInfo", context_value c)

abbrev pub id_field : ℕ → Bytes × Option Value
id_field w = (bytes "whatsappId", some (number w))

abbrev pub text_field : Bytes → Bytes → Bytes × Option Value
text_field name s = (name, some (string s))

abbrev pub optional : Bytes → Bytes → Bytes × Option Value
optional name s = (name, omit_empty s)

abbrev pub ptt_value : Option Bool → Option Value
ptt_value none = none
ptt_value (some b) = some (boolean b)

-- The fields of each struct, under the names of their tags. A nil slice is read like an empty one.
abbrev pub payload_fields : Request → List (Bytes × Option Value)
payload_fields (send_text_request w to body context) =
    id_field w
    ∷ text_field (bytes "to") to
    ∷ text_field (bytes "body") body
    ∷ context_field context
    ∷ []
payload_fields (send_image_request w to image caption mime context) =
    id_field w
    ∷ text_field (bytes "to") to
    ∷ text_field (bytes "image") image
    ∷ optional (bytes "caption") caption
    ∷ optional (bytes "mimeType") mime
    ∷ context_field context
    ∷ []
payload_fields (send_audio_request w to audio ptt seconds mime context) =
    id_field w
    ∷ text_field (bytes "to") to
    ∷ text_field (bytes "audio") audio
    ∷ (bytes "ptt", ptt_value ptt)
    ∷ (bytes "seconds", if nat_beq seconds 0 then none else some (number seconds))
    ∷ optional (bytes "mimeType") mime
    ∷ context_field context
    ∷ []
payload_fields (send_video_request w to video caption thumbnail mime context) =
    id_field w
    ∷ text_field (bytes "to") to
    ∷ text_field (bytes "video") video
    ∷ optional (bytes "caption") caption
    ∷ optional (bytes "jpegThumbnail") thumbnail
    ∷ optional (bytes "mimeType") mime
    ∷ context_field context
    ∷ []
payload_fields (send_document_request w to document name caption mime context) =
    id_field w
    ∷ text_field (bytes "to") to
    ∷ text_field (bytes "document") document
    ∷ text_field (bytes "fileName") name
    ∷ optional (bytes "caption") caption
    ∷ optional (bytes "mimeType") mime
    ∷ context_field context
    ∷ []
payload_fields (send_sticker_request w to sticker pack name publisher emojis context) =
    id_field w
    ∷ text_field (bytes "to") to
    ∷ text_field (bytes "sticker") sticker
    ∷ optional (bytes "packId") pack
    ∷ optional (bytes "packName") name
    ∷ optional (bytes "packPublisher") publisher
    ∷ (bytes "emojis", if is_nil emojis then none else some (array (texts emojis)))
    ∷ context_field context
    ∷ []
payload_fields (send_contact_request w to name vcard) =
    id_field w
    ∷ text_field (bytes "to") to
    ∷ text_field (bytes "name") name
    ∷ text_field (bytes "vcard") vcard
    ∷ []
payload_fields (send_location_request w to latitude longitude name) =
    id_field w
    ∷ text_field (bytes "to") to
    ∷ (bytes "latitude", some (float latitude))
    ∷ (bytes "longitude", some (float longitude))
    ∷ optional (bytes "name") name
    ∷ []
payload_fields (delete_message_request w to id) =
    id_field w ∷ text_field (bytes "to") to ∷ text_field (bytes "id") id ∷ []
payload_fields (edit_message_request w to id body) =
    id_field w
    ∷ text_field (bytes "to") to
    ∷ text_field (bytes "id") id
    ∷ text_field (bytes "body") body
    ∷ []
payload_fields (react_message_request w to id emoji) =
    id_field w
    ∷ text_field (bytes "to") to
    ∷ text_field (bytes "id") id
    ∷ text_field (bytes "emoji") emoji
    ∷ []
payload_fields (mark_read_request w chat sender ids timestamp) =
    id_field w
    ∷ text_field (bytes "chatJID") chat
    ∷ text_field (bytes "senderJID") sender
    ∷ (bytes "messageIds", some (array (texts ids)))
    ∷ (bytes "timestamp", some (number timestamp))
    ∷ []
payload_fields (check_number_request w numbers) =
    id_field w ∷ (bytes "numbers", some (array (texts numbers))) ∷ []
payload_fields (profile_pic_request w jid preview) =
    id_field w
    ∷ text_field (bytes "jid") jid
    ∷ (bytes "preview", if preview then some (boolean true) else none)
    ∷ []
payload_fields (contact_info_request w jids) =
    id_field w ∷ (bytes "jids", some (array (texts jids))) ∷ []
payload_fields (presence_request w state) = id_field w ∷ text_field (bytes "presence") state ∷ []
payload_fields (chat_presence_request w chat state) =
    id_field w ∷ text_field (bytes "chatJID") chat ∷ text_field (bytes "state") state ∷ []
payload_fields (pair_phone_request w phone) = id_field w ∷ text_field (bytes "phone") phone ∷ []

unfoldable pub payload : Request → Value
payload r = struct (payload_fields r)
