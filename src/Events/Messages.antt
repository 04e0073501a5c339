-- ===== src/Events/Messages.antt =====
-- backend/internal/waevents/messages.go, `handleMessage`. `normal` is `strings.ToLower` of
-- `strings.TrimSpace`. No event has a group's contact, and `processVcardMessage` does nothing.
pub mod Handled
use whaticket_community.Prelude.{
  ℕ, ◌≤◌, ◌<◌, ◌≡◌, Bool, true, false, ◌&&◌, ◌||◌, not, Option, none, some, List, [], ◌∷◌, ◌++◌,
  Bytes, bytes, ◌==◌, bytes_keyed, if◌then◌else◌, is_nil, has_prefix, length, leb, ltb, is_some,
}
use whaticket_community.Events.Jids.{
  MessageInfo, should_drop_chat, resolve_contact_jid, jid_to_number,
}
use whaticket_community.Events.Services.{
  Services, Contact, Whatsapp, EventTicket, MessageData, QueueLike,
}
use whaticket_community.Events.Queues.{lrm_prefix, handle_queue_logic}

-- The texts in the map `Message`, empty where the key or the type is another: `conversation`, the text
-- of `extendedTextMessage`, and the captions in the order of the keys.
pub record Content : Type 0 where
  pub conversation : Bytes
  pub extended : Bytes
  pub captions : List Bytes

pub record MessagePayload : Type 0 where
  pub info : MessageInfo
  pub content : Content
  pub mime_type : Bytes
  pub file_name : Bytes
  pub media_url : Bytes
  pub base64 : Bytes
  pub is_sticker : Bool

abbrev pub first_caption : List Bytes → Bytes
first_caption [] = []
first_caption (c ∷ captions) = if is_nil c then first_caption captions else c

unfoldable pub extract_body : Content → Bytes
extract_body m =
    if not (is_nil m.conversation)
    then m.conversation
    else if not (is_nil m.extended)
    then m.extended
    else first_caption m.captions

abbrev pub starts_with_lrm : Bytes → Bool
starts_with_lrm = has_prefix lrm_prefix

abbrev pub max_body_for_farewell : ℕ
max_body_for_farewell = 4096

unfoldable pub compute_last_message : Bytes → Bytes → Bytes → Bytes
compute_last_message body file_name media_url =
    if not (is_nil body)
    then body
    else if not (is_nil file_name)
    then file_name
    else if not (is_nil media_url)
    then media_url
    else bytes "(no content)"

-- The kind where no media decides it.
abbrev pub kind_or_chat : MessageInfo → Bytes
kind_or_chat info = if not (is_nil info.kind) then info.kind else bytes "chat"

unfoldable pub should_run_queue_logic : Whatsapp → EventTicket → Bool → Bool
should_run_queue_logic w t from_me =
    if from_me
    then false
    else if is_some t.queue_id
    then false
    else if is_some t.user_id
    then false
    else not (is_nil w.queues)

-- The events that are dropped before anything is looked up.
unfoldable pub is_dropped : MessagePayload → Bool
is_dropped p =
    is_nil p.info.id
    || (should_drop_chat p.info
        || (starts_with_lrm (extract_body p.content)
            || (is_nil p.info.sender || is_nil (resolve_contact_jid p.info).0)))

module _ (render : Bytes → Bytes → Bytes) where
  unfoldable pub should_skip_farewell_echo : Whatsapp → Contact → MessageInfo → Bytes → Bool
  should_skip_farewell_echo w contact info body =
      if is_nil w.farewell_message || (is_nil body || info.is_from_me)
      then false
      else if ltb max_body_for_farewell (length body)
      then false
      else render w.farewell_message contact.name == body

module _ (normal : Bytes → Bytes) where
  unfoldable pub derive_media_type : MessagePayload → Bytes
  derive_media_type p =
      if p.is_sticker
      then bytes "sticker"
      else if not (is_nil p.media_url) || (not (is_nil p.base64) || not (is_nil p.mime_type))
      then (if has_prefix (bytes "image/") (normal p.mime_type)
          then bytes "image"
          else if has_prefix (bytes "audio/") (normal p.mime_type)
          then bytes "audio"
          else if has_prefix (bytes "video/") (normal p.mime_type)
          then bytes "video"
          else if not (is_nil (normal p.mime_type))
          then bytes "document"
          else kind_or_chat p.info)
      else kind_or_chat p.info

  -- `data`
  unfoldable pub message_of : MessagePayload → Contact → EventTicket → MessageData
  unfolding derive_media_type
  message_of p contact t = record {
    id = p.info.id;
    ticket_id = t.id;
    contact_id = if not p.info.is_from_me then some contact.id else none;
    body = extract_body p.content;
    from_me = p.info.is_from_me;
    read = p.info.is_from_me;
    media_type = derive_media_type p;
    media_url = p.media_url;
    ack = 0;
  }

module _ {S : Type 0} (services : Services S) (choice_of : Bytes → Option ℕ)
    (render : Bytes → Bytes → Bytes) (normal : Bytes → Bytes) where
  open services use {create_or_update, show, find_or_create, update_last_message, create}

  -- A failure of `UpdateLastMessage` is logged and passed over.
  unfoldable pub last_message_written : MessagePayload → EventTicket → S → S
  last_message_written p t s =
      (update_last_message t.id
        (compute_last_message (extract_body p.content) p.file_name p.media_url) s).0

  -- From the ticket on; the outcome is the state, and whether there was no error.
  unfoldable pub store_message : MessagePayload → Whatsapp → Contact → EventTicket → S → S × Bool
  unfolding last_message_written message_of
  store_message p w contact t s =
      let (u, stored) = create (message_of normal p contact t) (last_message_written p t s) in
      if not stored
      then (u, false)
      else if should_run_queue_logic w t p.info.is_from_me
      then (
        (handle_queue_logic services choice_of render w t contact (extract_body p.content) u).0,
        true,
      )
      else (u, true)

  unfoldable pub with_contact : ℕ → MessagePayload → Contact → S → S × Bool
  unfolding store_message should_skip_farewell_echo
  with_contact whatsapp_id p contact s = elim (show whatsapp_id s) [
    | none ↦ (s, false)
    | some w ↦
        if should_skip_farewell_echo render w contact p.info (extract_body p.content)
        then (s, true)
        else let (u, found) =
            find_or_create contact whatsapp_id (if p.info.is_from_me then 0 else 1) s in
          elim found [ none ↦ (u, false) | some t ↦ store_message p w contact t u ]
  ]

  -- The payload is `none` where it does not decode.
  unfoldable pub handle_message : ℕ → Option MessagePayload → S → S × Bool
  unfolding with_contact is_dropped
  handle_message whatsapp_id none s = (s, true)
  handle_message whatsapp_id (some p) s =
      let (u, saved) =
        create_or_update (jid_to_number (resolve_contact_jid p.info).0)
          (if p.info.is_from_me then [] else p.info.push_name) (resolve_contact_jid p.info).1 s in
      if is_dropped p
      then (s, true)
      else elim saved [ none ↦ (u, false) | some contact ↦ with_contact whatsapp_id p contact u ]
