-- ===== src/Rpc/Handlers.antt =====
-- worker/internal/command/send.go: the handlers of the requests to send. The library whatsmeow, the
-- fetching of URLs, the conversion of stickers and the previews of links are arguments.
pub mod Files
pub mod Replies
pub mod Table
use whaticket_community.Prelude.{
  ℕ, Bool, true, false, Option, none, some, List, [], ◌∷◌, ◌++◌, Bytes, bytes, bytes_keyed, ◌==◌,
  if◌then◌else◌, is_nil, get_or, length, leb, nat_beq, trim_space, ◌&&◌, ◌||◌, contains,
}
use whaticket_community.Platform.{Result, ok, err, AppError, new_error, wrap_error, other_error}
use whaticket_community.Media.DataUrl.{decode_or_fetch}
use whaticket_community.Rpc.Json.{Value, Fields, string, number, struct, unmarshal}
use whaticket_community.Rpc.Payloads.{
  ContextInfo, SendTextReq, SendImageReq, SendAudioReq, SendVideoReq, SendDocumentReq,
  SendStickerReq, SendContactReq, SendLocationReq, read_send_text, read_send_image, read_send_audio,
  read_send_video, read_send_document, read_send_sticker, read_send_contact, read_send_location,
}

-- `types.JID`, as far as it is read here.
pub record Jid : Type 0 where
  pub user : Bytes
  pub server : Bytes

pub data Session : Type 0 where
  absent logged_out logged_in : Session

pub data MediaType : Type 0 where
  image_type audio_type video_type document_type : MediaType

pub data SendError : Type 0 where
  server_returned_error not_connected not_logged_in other : SendError

pub record Sent : Type 0 where
  pub id : Bytes
  pub timestamp : ℕ

-- The messages that are given to the library, with what it answered to an upload (`U`) and the preview
-- of a link (`P`).
pub data Content (U P : Type 0) : Type 0 where
  extended_text : Bytes → Option P → Option ContextInfo → Content U P
  image_message : (caption mime : Bytes) (file_length : ℕ) → U → Option ContextInfo → Content U P
  audio_message :
      (mime : Bytes) (file_length : ℕ)
      → U
      → (ptt : Bool) (seconds : Option ℕ) → Option ContextInfo
      → Content U P
  video_message : (caption mime : Bytes) (file_length : ℕ) → U → Option ContextInfo → Content U P
  document_message :
      (file_name mime caption : Bytes) (file_length : ℕ) → U → Option ContextInfo → Content U P
  sticker_message : (file_length : ℕ) → U → (animated : Bool) → Content U P
  contact_message : (name vcard : Bytes) → Content U P
  location_message : (latitude longitude : Bytes) → (name : Option Bytes) → Content U P
  revoke : Bytes → Content U P
  edit : (id body : Bytes) → Content U P
  reaction : (participant : Option Jid) (id emoji : Bytes) (from_me : Bool) → Content U P

pub data PictureError : Type 0 where
  not_set unauthorized failed : PictureError

pub record OnWhatsApp : Type 0 where
  pub query : Bytes
  pub is_in : Bool
  pub jid : Jid

pub record UserInfo : Type 0 where
  pub status : Bytes
  pub verified_name : Option Bytes

pub data Presence : Type 0 where
  available unavailable : Presence

pub data ChatPresence : Type 0 where
  composing_text composing_audio paused : ChatPresence

-- `parse_full` is `types.ParseJID`, `message_id` what `GenerateMessageID` makes, which the content names
-- where it is empty; the time is that of the request.
pub record Library (U P : Type 0) : Type 0 where
  pub session : ℕ → Session
  pub parse_full : Bytes → Option Jid
  pub message_id : Bytes
  pub send : Jid → Content U P → Bytes → Result SendError Sent
  pub upload : Bytes → MediaType → Option U
  pub fetch : Bytes → Result AppError (Bytes × Bytes)
  pub preview : Bytes → Option P
  pub sticker : Bytes → Option (Bytes × Bool)
  pub mark_read : List Bytes → Option ℕ → Jid → Jid → Bool
  pub is_on_whatsapp : List Bytes → Option (List OnWhatsApp)
  pub picture : Jid → Bool → Result PictureError (Option Bytes)
  pub user_info : List Jid → Option (Jid → Option UserInfo)
  pub send_presence : Presence → Bool
  pub send_chat_presence : Jid → ChatPresence → Bool
  pub jid_text : Jid → Bytes
  pub pair_phone : Bytes → Option Bytes

-- An error that a handler returns; the server answers one that is no AppError as an internal one.
pub data Failure : Type 0 where
  app : AppError → Failure
  other_failure : Failure

-- What is given to the library to send, and the pairing codes that are published.
pub data Effect (U P : Type 0) : Type 0 where
  gave : Jid → Content U P → Effect U P
  published_code : ℕ → Bytes → Effect U P

abbrev pub Handled : Type 0 → Type 0 → Type 0
Handled U P = Result Failure Value × List (Effect U P)

abbrev pub failed_with : {U P : Type 0} → Bytes → ℕ → Handled U P
failed_with code status = (err (app (new_error code status)), [])

abbrev pub internal : Bytes
internal = bytes "ERR_INTERNAL"

abbrev pub is_digits : Bytes → Bool
is_digits [] = true
is_digits (c ∷ s) = (leb b'0' c && leb c b'9') && is_digits s

abbrev pub known_server : Bytes → Bool
known_server s =
    s == bytes "s.whatsapp.net"
    || (s == bytes "g.us" || (s == bytes "lid" || s == bytes "broadcast"))

abbrev pub without_plus : Bytes → Bytes
without_plus [] = []
without_plus (c ∷ s) = if nat_beq c b'+' then s else c ∷ s

-- `ParseJID` of worker/internal/whatsmeow/parsejid.go
unfoldable pub parse_jid : (Bytes → Option Jid) → Bytes → Option Jid
unfolding trim_space contains
parse_jid parse_full arg =
    let given = trim_space arg in
    let s = without_plus given in
    if is_nil given
    then none
    else if contains s (bytes "@")
    then elim (parse_full s) [
      | none ↦ none
      | some jid ↦
          if is_nil jid.user then none else if known_server jid.server then some jid else none
    ]
    else if is_digits s
    then some (record { user = s; server = bytes "s.whatsapp.net" })
    else none

-- `pickMime`
unfoldable pub pick_mime : Bytes → Bytes → Bytes → Bytes
unfolding trim_space
pick_mime explicit detected fallback =
    if is_nil (trim_space explicit)
    then if is_nil (trim_space detected) then fallback else trim_space detected
    else trim_space explicit

-- `buildContextInfo`
unfoldable pub build_context_info : Option ContextInfo → Option ContextInfo
build_context_info none = none
build_context_info (some c) = if is_nil c.stanza_id then none else some c

-- `mapSendError`
unfoldable pub map_send_error : SendError → AppError
map_send_error server_returned_error = wrap_error other_error (bytes "ERR_SERVER_REJECTED") 502
map_send_error not_connected = wrap_error other_error (bytes "ERR_NO_SESSION") 503
map_send_error not_logged_in = wrap_error other_error (bytes "ERR_NOT_LOGGED_IN") 400
map_send_error other = wrap_error other_error internal 500

-- `SendResp`
abbrev pub receipt : Sent → Value
receipt r =
    struct ((bytes "id", some (string r.id)) ∷ (bytes "timestamp", some (number r.timestamp)) ∷ [])

module _ {U P : Type 0} (wa : Library U P) where
  -- `env.Decode`
  abbrev pub reading : {A : Type 0} → (Fields → Option A) → Value → (A → Handled U P) → Handled U P
  reading f v k = elim (unmarshal f v) [ none ↦ (err other_failure, []) | some a ↦ k a ]

  -- `requireLiveSession`
  unfoldable pub require_live : ℕ → Handled U P → Handled U P
  require_live id k = elim (wa.session id) [
    | absent ↦ failed_with (bytes "ERR_NO_SESSION") 404
    | logged_out ↦ failed_with (bytes "ERR_NOT_LOGGED_IN") 400
    | logged_in ↦ k
  ]

  -- `resolveJID`
  unfoldable pub resolve_jid : Bytes → (Jid → Handled U P) → Handled U P
  unfolding parse_jid
  resolve_jid raw k = elim (parse_jid wa.parse_full raw) [
    | none ↦ failed_with (bytes "ERR_INVALID_PHONE") 400
    | some jid ↦ k jid
  ]

  abbrev pub replied : Result SendError Sent → Result Failure Value
  replied (ok r) = ok (receipt r)
  replied (err e) = err (app (map_send_error e))

  -- `sendMessage`, with an id or without one
  unfoldable pub send_message : Jid → Content U P → Bytes → Handled U P
  unfolding map_send_error
  send_message jid content id = (replied (wa.send jid content id), gave jid content ∷ [])

  -- `DecodeDataURLOrFetch`, and the errors that it answers with.
  abbrev pub loading : Bytes → (Bytes → Bytes → Handled U P) → Handled U P
  loading url k = elim (decode_or_fetch wa.fetch url) [
    | err e ↦ (err (app e), [])
    | ok (content, mime) ↦ k content mime
  ]

  -- `UploadOutbound`
  abbrev pub uploading : Bytes → MediaType → (U → Handled U P) → Handled U P
  uploading content kind k = elim (wa.upload content kind) [
    | none ↦ (err (app (wrap_error other_error (bytes "ERR_MEDIA_UPLOAD") 502)), [])
    | some u ↦ k u
  ]

  -- What the handlers begin with: the session, then the recipient.
  abbrev pub to_recipient : ℕ → Bytes → (Jid → Handled U P) → Handled U P
  to_recipient id to k = require_live id (resolve_jid to k)

  unfoldable pub handle_send_text : Value → Handled U P
  unfolding require_live resolve_jid send_message build_context_info
  handle_send_text = λ v. reading read_send_text v (λ req.
      to_recipient req.whatsapp_id req.to (λ jid.
        send_message jid
          (extended_text req.body (wa.preview req.body) (build_context_info req.context_info))
          wa.message_id))

  unfoldable pub handle_send_contact : Value → Handled U P
  unfolding require_live resolve_jid send_message trim_space
  handle_send_contact = λ v. reading read_send_contact v (λ req.
      to_recipient req.whatsapp_id req.to (λ jid.
        if is_nil (trim_space req.vcard)
        then failed_with (bytes "ERR_MEDIA_DECODE") 400
        else send_message jid (contact_message req.name req.vcard) wa.message_id))

  unfoldable pub handle_send_location : Value → Handled U P
  unfolding require_live resolve_jid send_message
  handle_send_location = λ v. reading read_send_location v (λ req.
      to_recipient req.whatsapp_id req.to (λ jid.
        send_message jid
          (location_message req.latitude req.longitude
            (if is_nil req.name then none else some req.name))
          wa.message_id))
