-- ===== src/Rpc/Handlers/Files.antt =====
-- worker/internal/command/send.go: the handlers of the requests to send a file.
use whaticket_community.Prelude.{
  true, none, some, [], Bytes, bytes, if◌then◌else◌, is_nil, get_or, length, nat_beq, trim_space,
}
use whaticket_community.Platform.{err, wrap_error, other_error}
use whaticket_community.Rpc.Json.{Value}
use whaticket_community.Rpc.Payloads.{
  read_send_image, read_send_audio, read_send_video, read_send_document, read_send_sticker,
}
use whaticket_community.Rpc.Handlers.{
  Library, Handled, app, image_type, audio_type, video_type, document_type, image_message,
  audio_message, video_message, document_message, sticker_message, failed_with, pick_mime,
  build_context_info, require_live, resolve_jid, send_message, reading, loading, uploading,
  to_recipient,
}

module _ {U P : Type 0} (wa : Library U P) where
  unfoldable pub handle_send_image : Value → Handled U P
  unfolding require_live resolve_jid send_message build_context_info pick_mime
  handle_send_image = λ v. reading wa read_send_image v (λ req.
      to_recipient wa req.whatsapp_id req.to (λ jid. loading wa req.image (λ content detected.
        uploading wa content image_type (λ u.
          send_message wa jid
            (image_message req.caption (pick_mime req.mime_type detected (bytes "image/jpeg"))
              (length content) u (build_context_info req.context_info))
            wa.message_id))))

  unfoldable pub handle_send_audio : Value → Handled U P
  unfolding require_live resolve_jid send_message build_context_info pick_mime
  handle_send_audio = λ v. reading wa read_send_audio v (λ req.
      to_recipient wa req.whatsapp_id req.to (λ jid. loading wa req.audio (λ content detected.
        let ptt = get_or req.ptt true in
        let fallback : Bytes = if ptt then bytes "audio/ogg; codecs=opus" else bytes "audio/mpeg" in
        uploading wa content audio_type (λ u.
          send_message wa jid
            (audio_message (pick_mime req.mime_type detected fallback) (length content) u ptt
              (if nat_beq req.seconds 0 then none else some req.seconds)
              (build_context_info req.context_info))
            wa.message_id))))

  unfoldable pub handle_send_video : Value → Handled U P
  unfolding require_live resolve_jid send_message build_context_info pick_mime
  handle_send_video = λ v. reading wa read_send_video v (λ req.
      to_recipient wa req.whatsapp_id req.to (λ jid. loading wa req.video (λ content detected.
        uploading wa content video_type (λ u.
          send_message wa jid
            (video_message req.caption (pick_mime req.mime_type detected (bytes "video/mp4"))
              (length content) u (build_context_info req.context_info))
            wa.message_id))))

  unfoldable pub handle_send_document : Value → Handled U P
  unfolding require_live resolve_jid send_message build_context_info pick_mime trim_space
  handle_send_document = λ v. reading wa read_send_document v (λ req.
      to_recipient wa req.whatsapp_id req.to (λ jid.
        if is_nil (trim_space req.file_name)
        then failed_with (bytes "ERR_MEDIA_DECODE") 400
        else loading wa req.document (λ content detected. uploading wa content document_type (λ u.
          send_message wa jid
            (document_message req.file_name
              (pick_mime req.mime_type detected (bytes "application/octet-stream")) req.caption
              (length content) u (build_context_info req.context_info))
            wa.message_id))))

  -- A sticker is converted, and uploaded as an image.
  unfoldable pub handle_send_sticker : Value → Handled U P
  unfolding require_live resolve_jid send_message
  handle_send_sticker = λ v. reading wa read_send_sticker v (λ req.
      to_recipient wa req.whatsapp_id req.to (λ jid. loading wa req.sticker (λ content detected.
        elim (wa.sticker content) [
          | none ↦ (err (app (wrap_error other_error (bytes "ERR_MEDIA_DECODE") 400)), [])
          | some (converted, animated) ↦ uploading wa converted image_type (λ u.
              send_message wa jid (sticker_message (length converted) u animated) wa.message_id)
        ])))
