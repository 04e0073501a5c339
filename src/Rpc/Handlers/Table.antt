-- ===== src/Rpc/Handlers/Table.antt =====
-- worker/internal/command/dispatch.go: which handler serves which request, and what the backend's call
-- receives of it, by backend/internal/rmq/rpc_client.go and worker/internal/rmq/rpc_server.go.
use whaticket_community.Prelude.{
  Option, none, some, List, [], ◌∷◌, Bytes, bytes, bytes_keyed, lookup,
}
use whaticket_community.Platform.{Result, ok, err, AppError, new_error}
use whaticket_community.Rmq.Envelope.{RmqError}
use whaticket_community.Rpc.Json.{Value}
use whaticket_community.Rpc.Handlers.{
  Library, Handled, Failure, app, other_failure, handle_send_text, handle_send_contact,
  handle_send_location, Effect,
}
use whaticket_community.Rpc.Handlers.Files.{
  handle_send_image, handle_send_audio, handle_send_video, handle_send_document,
  handle_send_sticker,
}
use whaticket_community.Rpc.Handlers.Replies.{
  handle_delete_message, handle_edit_message, handle_react_message, handle_mark_read,
  handle_check_number, handle_profile_pic, handle_contact_info, handle_presence,
  handle_chat_presence, handle_pair_phone,
}

-- What the server makes of an error of a handler.
abbrev pub answered_error : Failure → AppError
answered_error (app e) = new_error e.code e.status
answered_error other_failure = new_error (bytes "ERR_INTERNAL") 500

abbrev pub answered : Result Failure Value → Result RmqError (Option Value)
answered (ok v) = ok (some v)
answered (err e) = err (RmqError.app (answered_error e))

module _ {U P : Type 0} (wa : Library U P) where
  -- `rpcHandlers`
  abbrev pub rpc_handlers : List (Bytes × (Value → Handled U P))
  rpc_handlers =
      (bytes "session.pairphone", handle_pair_phone wa)
      ∷ (bytes "message.send.text", handle_send_text wa)
      ∷ (bytes "message.send.image", handle_send_image wa)
      ∷ (bytes "message.send.audio", handle_send_audio wa)
      ∷ (bytes "message.send.video", handle_send_video wa)
      ∷ (bytes "message.send.document", handle_send_document wa)
      ∷ (bytes "message.send.sticker", handle_send_sticker wa)
      ∷ (bytes "message.send.contact", handle_send_contact wa)
      ∷ (bytes "message.send.location", handle_send_location wa)
      ∷ (bytes "message.delete", handle_delete_message wa)
      ∷ (bytes "message.edit", handle_edit_message wa)
      ∷ (bytes "message.react", handle_react_message wa)
      ∷ (bytes "message.markread", handle_mark_read wa)
      ∷ (bytes "contact.checkNumber", handle_check_number wa)
      ∷ (bytes "contact.getProfilePic", handle_profile_pic wa)
      ∷ (bytes "contact.getInfo", handle_contact_info wa)
      ∷ (bytes "presence.send", handle_presence wa)
      ∷ (bytes "chat.presence.send", handle_chat_presence wa)
      ∷ []

  -- A request as the worker serves it: the answer and what the handler did.
  unfoldable pub serve : Bytes → Value → Result RmqError (Option Value) × List (Effect U P)
  unfolding lookup
  serve key v = elim (lookup key rpc_handlers) [
    | none ↦ (err (RmqError.app (new_error (bytes "ERR_UNKNOWN_RPC") 404)), [])
    | some handle ↦ (answered (handle v).0, (handle v).1)
  ]

  -- The call of the backend where the worker answers it.
  abbrev pub call : Bytes → Value → Result RmqError (Option Value)
  call key v = (serve key v).0
