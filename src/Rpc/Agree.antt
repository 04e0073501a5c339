-- ===== src/Rpc/Agree.antt =====
-- What the worker reads of the requests that the backend writes.
use whaticket_community.Prelude.{
  ◌^◌, ◌<◌, ◌≡◌, refl, false, Bool, Option, none, some, [], map, bytes_beq,
}
use whaticket_community.Prelude.Utf8.{to_utf8}
use whaticket_community.Rpc.Json.{Value, unmarshal, same_key}
use whaticket_community.Rpc.Fields.{fields, read_list, put_field}
use whaticket_community.Rpc.Requests
use whaticket_community.Rpc.Requests.{
  Request, payload, context_value, ptt_value, send_text_request, send_image_request,
  send_audio_request, send_video_request, send_document_request, send_sticker_request,
  send_contact_request, send_location_request, delete_message_request, edit_message_request,
  react_message_request, mark_read_request, check_number_request, profile_pic_request,
  contact_info_request, presence_request, chat_presence_request, pair_phone_request,
}
use whaticket_community.Rpc.Payloads
use whaticket_community.Rpc.Payloads.{
  read_context, as_context, as_pointer, read_send_text, read_send_image, read_send_audio,
  read_send_video, read_send_document, read_send_sticker, read_send_contact, read_send_location,
  read_delete_message, read_edit_message, read_react_message, read_mark_read, read_check_number,
  read_profile_pic, read_contact_info, read_presence, read_chat_presence, read_pair_phone,
}

abbrev pub carried : Option Requests.ContextInfo → Option Payloads.ContextInfo
carried none = none
carried (some c) =
    some (record { stanza_id = to_utf8 c.stanza_id; participant = to_utf8 c.participant })

put-context :
    (c : Option Requests.ContextInfo)
    → put_field as_context none (context_value c) ≡ some (carried c)
unfolding put_field read_context read_list same_key bytes_beq
put-context none = refl
put-context (some c) = simp fields

put-ptt : (ptt : Option Bool) → put_field as_pointer none (ptt_value ptt) ≡ some ptt
unfolding put_field
put-ptt none = refl
put-ptt (some b) = refl

-- The ids and the seconds of a request fit the types that the worker has for them.
abbrev pub Fits : Request → Type 0
Fits (send_text_request w to body context) = w < 2 ^ 63
Fits (send_image_request w to image caption mime context) = w < 2 ^ 63
Fits (send_audio_request w to audio ptt seconds mime context) = (w < 2 ^ 63) × (seconds < 2 ^ 32)
Fits (send_video_request w to video caption thumbnail mime context) = w < 2 ^ 63
Fits (send_document_request w to document name caption mime context) = w < 2 ^ 63
Fits (send_sticker_request w to sticker pack name publisher emojis context) = w < 2 ^ 63
Fits (send_contact_request w to name vcard) = w < 2 ^ 63
Fits (send_location_request w to latitude longitude name) = w < 2 ^ 63
Fits (delete_message_request w to id) = w < 2 ^ 63
Fits (edit_message_request w to id body) = w < 2 ^ 63
Fits (react_message_request w to id emoji) = w < 2 ^ 63
Fits (mark_read_request w chat sender ids timestamp) = w < 2 ^ 63
Fits (check_number_request w numbers) = w < 2 ^ 63
Fits (profile_pic_request w jid preview) = w < 2 ^ 63
Fits (contact_info_request w jids) = w < 2 ^ 63
Fits (presence_request w state) = w < 2 ^ 63
Fits (chat_presence_request w chat state) = w < 2 ^ 63
Fits (pair_phone_request w phone) = w < 2 ^ 63

-- What the worker reads: a reaction never says that the message is one's own, or whose it is in a group,
-- and the ids and the time of messages to mark as read are lost, since their keys differ.
abbrev pub Understood : Request → Value → Type 0
Understood (send_text_request w to body context) v =
    unmarshal read_send_text v
    ≡ some (record {
      whatsapp_id = w;
      to = to_utf8 to;
      body = to_utf8 body;
      context_info = carried context;
    })
Understood (send_image_request w to image caption mime context) v =
    unmarshal read_send_image v
    ≡ some (record {
      whatsapp_id = w;
      to = to_utf8 to;
      image = to_utf8 image;
      caption = to_utf8 caption;
      mime_type = to_utf8 mime;
      context_info = carried context;
    })
Understood (send_audio_request w to audio ptt seconds mime context) v =
    unmarshal read_send_audio v
    ≡ some (record {
      whatsapp_id = w;
      to = to_utf8 to;
      audio = to_utf8 audio;
      ptt = ptt;
      seconds = seconds;
      mime_type = to_utf8 mime;
      context_info = carried context;
    })
Understood (send_video_request w to video caption thumbnail mime context) v =
    unmarshal read_send_video v
    ≡ some (record {
      whatsapp_id = w;
      to = to_utf8 to;
      video = to_utf8 video;
      caption = to_utf8 caption;
      mime_type = to_utf8 mime;
      context_info = carried context;
    })
Understood (send_document_request w to document name caption mime context) v =
    unmarshal read_send_document v
    ≡ some (record {
      whatsapp_id = w;
      to = to_utf8 to;
      document = to_utf8 document;
      file_name = to_utf8 name;
      caption = to_utf8 caption;
      mime_type = to_utf8 mime;
      context_info = carried context;
    })
Understood (send_sticker_request w to sticker pack name publisher emojis context) v =
    unmarshal read_send_sticker v
    ≡ some (record { whatsapp_id = w; to = to_utf8 to; sticker = to_utf8 sticker })
Understood (send_contact_request w to name vcard) v =
    unmarshal read_send_contact v
    ≡ some (record { whatsapp_id = w; to = to_utf8 to; name = to_utf8 name; vcard = to_utf8 vcard })
Understood (send_location_request w to latitude longitude name) v =
    unmarshal read_send_location v
    ≡ some (record {
      whatsapp_id = w;
      to = to_utf8 to;
      latitude = latitude;
      longitude = longitude;
      name = to_utf8 name;
    })
Understood (delete_message_request w to id) v =
    unmarshal read_delete_message v
    ≡ some (record { whatsapp_id = w; to = to_utf8 to; id = to_utf8 id })
Understood (edit_message_request w to id body) v =
    unmarshal read_edit_message v
    ≡ some (record { whatsapp_id = w; to = to_utf8 to; id = to_utf8 id; body = to_utf8 body })
Understood (react_message_request w to id emoji) v =
    unmarshal read_react_message v
    ≡ some (record {
      whatsapp_id = w;
      to = to_utf8 to;
      id = to_utf8 id;
      from_me = false;
      participant = [];
      emoji = to_utf8 emoji;
    })
Understood (mark_read_request w chat sender ids timestamp) v =
    unmarshal read_mark_read v
    ≡ some (record {
      whatsapp_id = w;
      chat_jid = to_utf8 chat;
      sender_jid = to_utf8 sender;
      ids = [];
      timestamp_ms = 0;
    })
Understood (check_number_request w numbers) v =
    unmarshal read_check_number v ≡ some (record { whatsapp_id = w; numbers = map to_utf8 numbers })
Understood (profile_pic_request w jid preview) v =
    unmarshal read_profile_pic v
    ≡ some (record { whatsapp_id = w; jid = to_utf8 jid; preview = preview })
Understood (contact_info_request w jids) v =
    unmarshal read_contact_info v ≡ some (record { whatsapp_id = w; jids = map to_utf8 jids })
Understood (presence_request w state) v =
    unmarshal read_presence v ≡ some (record { whatsapp_id = w; presence = to_utf8 state })
Understood (chat_presence_request w chat state) v =
    unmarshal read_chat_presence v
    ≡ some (record { whatsapp_id = w; chat_jid = to_utf8 chat; state = to_utf8 state })
Understood (pair_phone_request w phone) v =
    unmarshal read_pair_phone v ≡ some (record { whatsapp_id = w; phone = to_utf8 phone })

-- Where the connection's id is below 2 ^ 63 and the seconds of an audio are below 2 ^ 32, the struct
-- that the worker decodes holds the values of the backend's request, under all 18 routing keys, each
-- text with what is not UTF-8 in it replaced, with two exceptions: a request to mark messages as
-- read is read with no ids and the time 0, and a reaction as one to somebody else's message whose
-- author is not named. The worker's struct has no place for a video's thumbnail nor for a sticker's
-- pack, emojis and quoted message.
pub payload-Understood : (r : Request) → Fits r → Understood r (payload r)
unfolding payload unmarshal read_list same_key bytes_beq read_send_text read_send_image
    read_send_audio read_send_video read_send_document read_send_sticker read_send_contact
    read_send_location read_delete_message read_edit_message read_react_message read_mark_read
    read_check_number read_profile_pic read_contact_info read_presence read_chat_presence
    read_pair_phone
payload-Understood (send_text_request w to body context) h = simp (fields, h, put-context)
payload-Understood (send_image_request w to image caption mime context) h =
    simp (fields, h, put-context)
payload-Understood (send_audio_request w to audio ptt seconds mime context) h =
    simp (fields, h.0, h.1, put-context, put-ptt)
payload-Understood (send_video_request w to video caption thumbnail mime context) h =
    simp (fields, h, put-context)
payload-Understood (send_document_request w to document name caption mime context) h =
    simp (fields, h, put-context)
payload-Understood (send_sticker_request w to sticker pack name publisher emojis context) h =
    simp (fields, h)
payload-Understood (send_contact_request w to name vcard) h = simp (fields, h)
payload-Understood (send_location_request w to latitude longitude name) h = simp (fields, h)
payload-Understood (delete_message_request w to id) h = simp (fields, h)
payload-Understood (edit_message_request w to id body) h = simp (fields, h)
payload-Understood (react_message_request w to id emoji) h = simp (fields, h)
payload-Understood (mark_read_request w chat sender ids timestamp) h = simp (fields, h)
payload-Understood (check_number_request w numbers) h = simp (fields, h)
payload-Understood (profile_pic_request w jid preview) h = simp (fields, h)
payload-Understood (contact_info_request w jids) h = simp (fields, h)
payload-Understood (presence_request w state) h = simp (fields, h)
payload-Understood (chat_presence_request w chat state) h = simp (fields, h)
payload-Understood (pair_phone_request w phone) h = simp (fields, h)
