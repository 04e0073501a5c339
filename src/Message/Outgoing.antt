-- ===== src/Message/Outgoing.antt =====
-- backend/internal/message/send.go: what a request to send holds, and what it needs of the services. The
-- sender, the store of media, the detection of types and the parsing of forms are arguments;
-- answers of the first two may depend on what they were given before.
use whaticket_community.Prelude.{
  ℕ, ◌*◌, ◌^◌, Bool, ◌&&◌, ◌||◌, Option, none, some, List, [], ◌∷◌, Bytes, bytes, bytes_keyed, ◌==◌,
  if◌then◌else◌, nat_beq, ltb, contains, trim_space, parse_digits,
}
use whaticket_community.Platform.{Result, DbError, AppError, new_error}
use whaticket_community.Rpc.Json.{Fields, no_fields, field, text}
use whaticket_community.Message.Service.{Claims}
use whaticket_community.Message.Service

-- What the sender is asked to send, with the quoted message where one may be named.
pub data Outgoing : Type 0 where
  text_out : (body quoted : Bytes) → Outgoing
  image_out : (url caption mime quoted : Bytes) → Outgoing
  audio_out : (url mime : Bytes) (ptt : Bool) (quoted : Bytes) → Outgoing
  video_out : (url caption mime quoted : Bytes) → Outgoing
  document_out : (url file_name caption mime quoted : Bytes) → Outgoing
  sticker_out : (url quoted : Bytes) → Outgoing

pub record Call : Type 0 where
  pub whatsapp_id : ℕ
  pub to : Bytes
  pub outgoing : Outgoing

pub record Upload : Type 0 where
  pub key : Bytes
  pub content : Bytes
  pub mime : Bytes

pub record World (S T : Type 0) : Type 0 where
  pub messages : Service.World S T
  pub calls : List Call
  pub uploads : List Upload

-- `FileHeader`: `opened` is what can be read of the file, if it can.
pub record FileHeader : Type 0 where
  pub file_name : Bytes
  pub content_type : Bytes
  pub opened : Option Bytes

-- The files of the field `medias` and the values of the field `body`.
pub record Form : Type 0 where
  pub medias : List FileHeader
  pub bodies : List Bytes

-- `sendBody`, as far as it is read.
pub record SendBody : Type 0 where
  pub body : Bytes
  pub media_url : Bytes
  pub quoted_msg : Option Fields

-- What a request holds: its path, its content type, and its body as JSON or as a form under a limit.
pub record Request : Type 0 where
  pub ticket_id : Result AppError ℕ
  pub actor : Option Claims
  pub content_type : Bytes
  pub json : Option SendBody
  pub form : ℕ → Result Bytes (Option Form)

-- `TicketLike`
pub record TicketLike : Type 0 where
  pub contact_id : ℕ
  pub whatsapp_id : ℕ

-- The sender answers a message's id.
pub record Services (S : Type 0) : Type 0 where
  pub show : ℕ → Claims → S → Result AppError TicketLike
  pub number_of : ℕ → S → Result DbError Bytes
  pub sender : Option (List Call → Call → Result AppError Bytes)
  pub uploader : Option (List Upload → Upload → Option Bytes)
  pub detect : Bytes → Bytes
  pub max_size : Bytes

abbrev pub media_parse : Bytes
media_parse = bytes "ERR_MEDIA_PARSE"

abbrev pub media_empty : AppError
media_empty = new_error (bytes "ERR_MEDIA_EMPTY") 400

abbrev pub no_sender : AppError
no_sender = new_error (bytes "ERR_SENDER_NOT_CONFIGURED") 503

-- `strconv.ParseInt` where it is positive
abbrev pub positive_int : Bytes → Option ℕ
positive_int s = elim (parse_digits 0 s) [
  | none ↦ none
  | some n ↦ if ltb 0 n && ltb n (2 ^ 63) then some n else none
]

abbrev pub unsigned : Bytes → Bytes
unsigned [] = []
unsigned (c ∷ s) = if nat_beq c b'+' then s else c ∷ s

-- `mediaMaxBytes`, of the variable `MEDIA_MAX_SIZE`
unfoldable pub media_max_bytes : Bytes → ℕ
unfolding trim_space parse_digits
media_max_bytes raw = elim (positive_int (unsigned (trim_space raw))) [
  | none ↦ 16 * 2 ^ 20
  | some n ↦ n
]

-- `extractQuotedID`: the last text under the key `id`
abbrev pub quoted_id_from : Bytes → Fields → Bytes
quoted_id_from acc no_fields = acc
quoted_id_from acc (field key (text s) rest) =
    if key == bytes "id" then quoted_id_from s rest else quoted_id_from acc rest
quoted_id_from acc (field key v rest) =
    if key == bytes "id" then quoted_id_from [] rest else quoted_id_from acc rest

unfoldable pub extract_quoted_id : Option Fields → Bytes
extract_quoted_id none = []
extract_quoted_id (some fs) = quoted_id_from [] fs

-- `isRequestTooLarge`
unfoldable pub is_request_too_large : Bytes → Bool
unfolding contains
is_request_too_large message =
    contains message (bytes "http: request body too large")
    || contains message (bytes "multipart: message too large")
