-- ===== src/Rpc/Backend.antt =====
-- backend/internal/whatsapp/rpc.go: what each function answers of its call, which is an argument.
use whaticket_community.Prelude.{ℕ, Bool, false, Option, none, some, List, [], ◌∷◌, Bytes, bytes}
use whaticket_community.Prelude.Options.{◌>>=◌}
use whaticket_community.Platform.{Result, ok, err, AppError, wrap_error, other_error}
use whaticket_community.Rmq.Envelope.{RmqError, decode_failed, app}
use whaticket_community.Rpc.Json.{
  Value, Values, Fields, array, no_fields, item, no_more, read_field, as_text, as_int, as_boolean,
  unmarshal,
}
use whaticket_community.Rpc.Requests.{
  ContextInfo, Request, routing_key, payload, send_text_request, send_image_request,
  send_audio_request, send_video_request, send_document_request, send_sticker_request,
  send_contact_request, send_location_request, delete_message_request, edit_message_request,
  react_message_request, mark_read_request, check_number_request, profile_pic_request,
  contact_info_request, presence_request, chat_presence_request, pair_phone_request,
}

abbrev pub worker_unavailable : Bytes
worker_unavailable = bytes "ERR_WORKER_UNAVAILABLE"

-- `translateRPCError` of an error
unfoldable pub translate_rpc_error : RmqError → AppError
translate_rpc_error (app e) = e
translate_rpc_error e = wrap_error other_error worker_unavailable 503

-- `messageSendResponse`
pub record Receipt : Type 0 where
  pub id : Bytes
  pub timestamp : ℕ

unfoldable pub read_receipt : Fields → Option Receipt
unfolding read_field
read_receipt fs = do
  id ← read_field as_text (bytes "id") [] fs
  timestamp ← read_field as_int (bytes "timestamp") 0 fs
  some (record { id = id; timestamp = timestamp })

-- `CheckResult`
pub record CheckResult : Type 0 where
  pub queried : Bytes
  pub exists : Bool
  pub jid : Bytes

unfoldable pub read_check_result : Fields → Option CheckResult
unfolding read_field
read_check_result fs = do
  queried ← read_field as_text (bytes "number") [] fs
  exists ← read_field as_boolean (bytes "exists") false fs
  jid ← read_field as_text (bytes "jid") [] fs
  some (record { queried = queried; exists = exists; jid = jid })

-- `ContactInfo` of the answers
pub record Info : Type 0 where
  pub jid : Bytes
  pub push_name : Bytes
  pub business_name : Bytes
  pub status : Bytes

unfoldable pub read_info : Fields → Option Info
unfolding read_field
read_info fs = do
  jid ← read_field as_text (bytes "jid") [] fs
  push_name ← read_field as_text (bytes "pushName") [] fs
  business_name ← read_field as_text (bytes "businessName") [] fs
  status ← read_field as_text (bytes "status") [] fs
  some (record { jid = jid; push_name = push_name; business_name = business_name; status = status })

abbrev pub read_each : {A : Type 0} → (Fields → Option A) → Values → Option (List A)
read_each f no_more = some []
read_each f (item v rest) = do a ← unmarshal f v; more ← read_each f rest; some (a ∷ more)

abbrev pub as_list : {A : Type 0} → (Fields → Option A) → Value → Option (List A)
as_list f (array vs) = read_each f vs
as_list f v = none

-- What `Call` decodes of a reply: a reply without a payload leaves the target as it is.
abbrev pub target : {A : Type 0} → (Fields → Option A) → Option Value → Result RmqError A
target f none = elim (f no_fields) [ none ↦ err decode_failed | some a ↦ ok a ]
target f (some v) = elim (unmarshal f v) [ none ↦ err decode_failed | some a ↦ ok a ]

abbrev pub translated : {A : Type 0} → Result RmqError A → Result AppError A
translated (ok a) = ok a
translated (err e) = err (translate_rpc_error e)

-- `call` is `RPCClient.Call` on the exchange `wa.rpc`, up to the decoding of its reply.
module _ (call : Bytes → Value → Result RmqError (Option Value)) where
  unfoldable pub ask : {A : Type 0} → (Fields → Option A) → Request → Result AppError A
  unfolding payload translate_rpc_error
  ask f r = elim (call (routing_key r) (payload r)) [
    | err e ↦ err (translate_rpc_error e)
    | ok reply ↦ translated (target f reply)
  ]

  abbrev pub nothing : Fields → Option (Unit {0})
  nothing fs = some tt

  abbrev pub send_text : ℕ → Bytes → Bytes → Option ContextInfo → Result AppError Receipt
  send_text w to body context = ask read_receipt (send_text_request w to body context)

  abbrev pub send_image :
      ℕ → Bytes → Bytes → Bytes → Bytes → Option ContextInfo → Result AppError Receipt
  send_image w to image caption mime context =
      ask read_receipt (send_image_request w to image caption mime context)

  abbrev pub send_audio :
      ℕ → Bytes → Bytes → Bool → ℕ → Option ContextInfo → Bytes → Result AppError Receipt
  send_audio w to audio ptt seconds context mime =
      ask read_receipt (send_audio_request w to audio (some ptt) seconds mime context)

  abbrev pub send_video :
      ℕ → Bytes → Bytes → Bytes → Bytes → Option ContextInfo → Bytes → Result AppError Receipt
  send_video w to video caption thumbnail context mime =
      ask read_receipt (send_video_request w to video caption thumbnail mime context)

  abbrev pub send_document :
      ℕ → Bytes → Bytes → Bytes → Bytes → Bytes → Option ContextInfo → Result AppError Receipt
  send_document w to document name caption mime context =
      ask read_receipt (send_document_request w to document name caption mime context)

  abbrev pub send_sticker :
      ℕ
      → Bytes
      → Bytes
      → Bytes
      → Bytes
      → Bytes
      → List Bytes
      → Option ContextInfo
      → Result AppError Receipt
  send_sticker w to sticker pack name publisher emojis context =
      ask read_receipt (send_sticker_request w to sticker pack name publisher emojis context)

  abbrev pub send_contact : ℕ → Bytes → Bytes → Bytes → Result AppError Receipt
  send_contact w to name vcard = ask read_receipt (send_contact_request w to name vcard)

  abbrev pub send_location : ℕ → Bytes → Bytes → Bytes → Bytes → Result AppError Receipt
  send_location w to latitude longitude name =
      ask read_receipt (send_location_request w to latitude longitude name)

  abbrev pub delete_message : ℕ → Bytes → Bytes → Result AppError (Unit {0})
  delete_message w to id = ask nothing (delete_message_request w to id)

  abbrev pub edit_message : ℕ → Bytes → Bytes → Bytes → Result AppError Receipt
  edit_message w to id body = ask read_receipt (edit_message_request w to id body)

  abbrev pub react_message : ℕ → Bytes → Bytes → Bytes → Result AppError Receipt
  react_message w to id emoji = ask read_receipt (react_message_request w to id emoji)

  abbrev pub mark_read : ℕ → Bytes → Bytes → List Bytes → ℕ → Result AppError (Unit {0})
  mark_read w chat sender ids timestamp =
      ask nothing (mark_read_request w chat sender ids timestamp)

  abbrev pub check_number : ℕ → List Bytes → Result AppError (List CheckResult)
  check_number w numbers =
      ask (read_field (as_list read_check_result) (bytes "results") [])
        (check_number_request w numbers)

  abbrev pub get_profile_pic_url : ℕ → Bytes → Result AppError Bytes
  get_profile_pic_url w jid =
      ask (read_field as_text (bytes "url") []) (profile_pic_request w jid false)

  abbrev pub get_contact_info : ℕ → List Bytes → Result AppError (List Info)
  get_contact_info w jids =
      ask (read_field (as_list read_info) (bytes "infos") []) (contact_info_request w jids)

  abbrev pub send_presence : ℕ → Bytes → Result AppError (Unit {0})
  send_presence w state = ask nothing (presence_request w state)

  abbrev pub send_chat_presence : ℕ → Bytes → Bytes → Result AppError (Unit {0})
  send_chat_presence w chat state = ask nothing (chat_presence_request w chat state)

  abbrev pub pair_phone : ℕ → Bytes → Result AppError Bytes
  pair_phone w phone =
      ask (read_field as_text (bytes "linkingCode") []) (pair_phone_request w phone)
