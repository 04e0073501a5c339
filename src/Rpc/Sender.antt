-- ===== src/Rpc/Sender.antt =====
-- backend/cmd/server/adapters.go: the sender of messages, which calls the worker.
use whaticket_community.Prelude.{Option, none, some, [], Bytes, if◌then◌else◌, is_nil}
use whaticket_community.Platform.{Result, ok, err, AppError}
use whaticket_community.Rmq.Envelope.{RmqError}
use whaticket_community.Message.Outgoing.{
  Call, text_out, image_out, audio_out, video_out, document_out, sticker_out,
}
use whaticket_community.Rpc.Json.{Value}
use whaticket_community.Rpc.Requests.{ContextInfo}
use whaticket_community.Rpc.Backend.{
  Receipt, send_text, send_image, send_audio, send_video, send_document, send_sticker,
}

-- `ctxInfoFromQuoted`
unfoldable pub ctx_info_from_quoted : Bytes → Option ContextInfo
ctx_info_from_quoted quoted =
    if is_nil quoted then none else some (record { stanza_id = quoted; participant = [] })

-- The time that the worker answers is dropped.
abbrev pub id_of : Result AppError Receipt → Result AppError Bytes
id_of (ok r) = ok r.id
id_of (err e) = err e

-- `messageSenderAdapter`, with the call of the worker as an argument
unfoldable pub send_by_worker :
    (Bytes → Value → Result RmqError (Option Value)) → Call → Result AppError Bytes
unfolding ctx_info_from_quoted
send_by_worker call c = elim c.outgoing [
  | text_out body quoted ↦
      id_of (send_text call c.whatsapp_id c.to body (ctx_info_from_quoted quoted))
  | image_out url caption mime quoted ↦
      id_of (send_image call c.whatsapp_id c.to url caption mime (ctx_info_from_quoted quoted))
  | audio_out url mime ptt quoted ↦
      id_of (send_audio call c.whatsapp_id c.to url ptt 0 (ctx_info_from_quoted quoted) mime)
  | video_out url caption mime quoted ↦
      id_of (send_video call c.whatsapp_id c.to url caption [] (ctx_info_from_quoted quoted) mime)
  | document_out url file_name caption mime quoted ↦ id_of (
      send_document call c.whatsapp_id c.to url file_name caption mime
        (ctx_info_from_quoted quoted))
  | sticker_out url quoted ↦
      id_of (send_sticker call c.whatsapp_id c.to url [] [] [] [] (ctx_info_from_quoted quoted))
]
