-- ===== src/Rpc/Payloads/Asks.antt =====
-- worker/internal/command/payloads.go: the other requests.
use whaticket_community.Prelude.{ℕ, Bool, false, Option, some, List, [], Bytes, bytes}
use whaticket_community.Prelude.Options.{◌>>=◌}
use whaticket_community.Rpc.Json.{
  Fields, read_field, as_text, as_int, as_float, as_boolean, as_array,
}

pub record SendContactReq : Type 0 where
  pub whatsapp_id : ℕ
  pub to : Bytes
  pub name : Bytes
  pub vcard : Bytes

unfoldable pub read_send_contact : Fields → Option SendContactReq
unfolding read_field
read_send_contact fs = do
  whatsapp_id ← read_field as_int (bytes "whatsappId") 0 fs
  to ← read_field as_text (bytes "to") [] fs
  name ← read_field as_text (bytes "name") [] fs
  vcard ← read_field as_text (bytes "vcard") [] fs
  some (record { whatsapp_id = whatsapp_id; to = to; name = name; vcard = vcard })

pub record SendLocationReq : Type 0 where
  pub whatsapp_id : ℕ
  pub to : Bytes
  pub latitude : Bytes
  pub longitude : Bytes
  pub name : Bytes

unfoldable pub read_send_location : Fields → Option SendLocationReq
unfolding read_field
read_send_location fs = do
  whatsapp_id ← read_field as_int (bytes "whatsappId") 0 fs
  to ← read_field as_text (bytes "to") [] fs
  latitude ← read_field as_float (bytes "latitude") (bytes "0") fs
  longitude ← read_field as_float (bytes "longitude") (bytes "0") fs
  name ← read_field as_text (bytes "name") [] fs
  some (record {
    whatsapp_id = whatsapp_id;
    to = to;
    latitude = latitude;
    longitude = longitude;
    name = name;
  })

pub record DeleteMessageReq : Type 0 where
  pub whatsapp_id : ℕ
  pub to : Bytes
  pub id : Bytes

unfoldable pub read_delete_message : Fields → Option DeleteMessageReq
unfolding read_field
read_delete_message fs = do
  whatsapp_id ← read_field as_int (bytes "whatsappId") 0 fs
  to ← read_field as_text (bytes "to") [] fs
  id ← read_field as_text (bytes "id") [] fs
  some (record { whatsapp_id = whatsapp_id; to = to; id = id })

pub record EditMessageReq : Type 0 where
  pub whatsapp_id : ℕ
  pub to : Bytes
  pub id : Bytes
  pub body : Bytes

unfoldable pub read_edit_message : Fields → Option EditMessageReq
unfolding read_field
read_edit_message fs = do
  whatsapp_id ← read_field as_int (bytes "whatsappId") 0 fs
  to ← read_field as_text (bytes "to") [] fs
  id ← read_field as_text (bytes "id") [] fs
  body ← read_field as_text (bytes "body") [] fs
  some (record { whatsapp_id = whatsapp_id; to = to; id = id; body = body })

pub record ReactMessageReq : Type 0 where
  pub whatsapp_id : ℕ
  pub to : Bytes
  pub id : Bytes
  pub from_me : Bool
  pub participant : Bytes
  pub emoji : Bytes

unfoldable pub read_react_message : Fields → Option ReactMessageReq
unfolding read_field
read_react_message fs = do
  whatsapp_id ← read_field as_int (bytes "whatsappId") 0 fs
  to ← read_field as_text (bytes "to") [] fs
  id ← read_field as_text (bytes "id") [] fs
  from_me ← read_field as_boolean (bytes "fromMe") false fs
  participant ← read_field as_text (bytes "participant") [] fs
  emoji ← read_field as_text (bytes "emoji") [] fs
  some (record {
    whatsapp_id = whatsapp_id;
    to = to;
    id = id;
    from_me = from_me;
    participant = participant;
    emoji = emoji;
  })

pub record MarkReadReq : Type 0 where
  pub whatsapp_id : ℕ
  pub chat_jid : Bytes
  pub sender_jid : Bytes
  pub ids : List Bytes
  pub timestamp_ms : ℕ

unfoldable pub read_mark_read : Fields → Option MarkReadReq
unfolding read_field
read_mark_read fs = do
  whatsapp_id ← read_field as_int (bytes "whatsappId") 0 fs
  chat_jid ← read_field as_text (bytes "chatJid") [] fs
  sender_jid ← read_field as_text (bytes "senderJid") [] fs
  ids ← read_field as_array (bytes "ids") [] fs
  timestamp_ms ← read_field as_int (bytes "timestampMs") 0 fs
  some (record {
    whatsapp_id = whatsapp_id;
    chat_jid = chat_jid;
    sender_jid = sender_jid;
    ids = ids;
    timestamp_ms = timestamp_ms;
  })

pub record CheckNumberReq : Type 0 where
  pub whatsapp_id : ℕ
  pub numbers : List Bytes

unfoldable pub read_check_number : Fields → Option CheckNumberReq
unfolding read_field
read_check_number fs = do
  whatsapp_id ← read_field as_int (bytes "whatsappId") 0 fs
  numbers ← read_field as_array (bytes "numbers") [] fs
  some (record { whatsapp_id = whatsapp_id; numbers = numbers })

pub record GetProfilePicReq : Type 0 where
  pub whatsapp_id : ℕ
  pub jid : Bytes
  pub preview : Bool

unfoldable pub read_profile_pic : Fields → Option GetProfilePicReq
unfolding read_field
read_profile_pic fs = do
  whatsapp_id ← read_field as_int (bytes "whatsappId") 0 fs
  jid ← read_field as_text (bytes "jid") [] fs
  preview ← read_field as_boolean (bytes "preview") false fs
  some (record { whatsapp_id = whatsapp_id; jid = jid; preview = preview })

pub record GetContactInfoReq : Type 0 where
  pub whatsapp_id : ℕ
  pub jids : List Bytes

unfoldable pub read_contact_info : Fields → Option GetContactInfoReq
unfolding read_field
read_contact_info fs = do
  whatsapp_id ← read_field as_int (bytes "whatsappId") 0 fs
  jids ← read_field as_array (bytes "jids") [] fs
  some (record { whatsapp_id = whatsapp_id; jids = jids })

pub record SendPresenceReq : Type 0 where
  pub whatsapp_id : ℕ
  pub presence : Bytes

unfoldable pub read_presence : Fields → Option SendPresenceReq
unfolding read_field
read_presence fs = do
  whatsapp_id ← read_field as_int (bytes "whatsappId") 0 fs
  presence ← read_field as_text (bytes "presence") [] fs
  some (record { whatsapp_id = whatsapp_id; presence = presence })

pub record SendChatPresenceReq : Type 0 where
  pub whatsapp_id : ℕ
  pub chat_jid : Bytes
  pub state : Bytes

unfoldable pub read_chat_presence : Fields → Option SendChatPresenceReq
unfolding read_field
read_chat_presence fs = do
  whatsapp_id ← read_field as_int (bytes "whatsappId") 0 fs
  chat_jid ← read_field as_text (bytes "chatJid") [] fs
  state ← read_field as_text (bytes "state") [] fs
  some (record { whatsapp_id = whatsapp_id; chat_jid = chat_jid; state = state })

pub record PairPhoneReq : Type 0 where
  pub whatsapp_id : ℕ
  pub phone : Bytes

unfoldable pub read_pair_phone : Fields → Option PairPhoneReq
unfolding read_field
read_pair_phone fs = do
  whatsapp_id ← read_field as_int (bytes "whatsappId") 0 fs
  phone ← read_field as_text (bytes "phone") [] fs
  some (record { whatsapp_id = whatsapp_id; phone = phone })
