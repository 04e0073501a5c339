-- ===== src/Rpc/Tests.antt =====
-- A library that takes every message, and the calls that reach it.
use whaticket_community.Prelude.{
  ℕ, bytes_beq, ◌≡◌, refl, true, none, some, [], ◌∷◌, Bytes, bytes, if◌then◌else◌, nat_beq, arith,
  trim_space, has_prefix, contains, index_byte, trim_prefix,
}
use whaticket_community.Prelude.Utf8.{to_utf8}
use whaticket_community.Platform.{ok, err}
use whaticket_community.Media.DataUrl.{media_decode}
use whaticket_community.Rpc.Requests.{
  ContextInfo, Request, payload, routing_key, send_audio_request, pair_phone_request,
}
use whaticket_community.Rpc.Backend.{pair_phone}
use whaticket_community.Rpc.Handlers.{
  Library, Jid, logged_in, logged_out, parse_jid, published_code, gave,
}
use whaticket_community.Rpc.Handlers.Table.{call, serve}
use whaticket_community.Rpc.Agree.{Understood, payload-Understood}
use whaticket_community.Rpc.Served.{Unanswered, call-Unanswered, pair_phone-empty}
use whaticket_community.Message.Memory.{Memory, memory}
use whaticket_community.Message.Names
use whaticket_community.Message.Names.{classify_mime}
use whaticket_community.Message.Outgoing
use whaticket_community.Message.Outgoing.{FileHeader, TicketLike, Services}
use whaticket_community.Message.Send.{read_multipart_file, dispatch_multipart_file}
use whaticket_community.Rpc.Delivered.{image_sent}
use whaticket_community.Rpc.Sender.{send_by_worker}
use whaticket_community.Rpc.Arrived.{
  by_worker, sent_or_failed, image_carried, dispatch_multipart_file-arrives,
}

-- Connection 1 is logged in, and every other is not.
abbrev library : Library Bytes Bytes
library = record {
  session = λ id. if nat_beq id 1 then logged_in else logged_out;
  parse_full = λ s. none;
  message_id = bytes "3EB0";
  send = λ jid content id. ok (record { id = id; timestamp = 1700000000 });
  upload = λ content kind. some content;
  fetch = λ url. err media_decode;
  preview = λ body. none;
  sticker = λ content. none;
  mark_read = λ ids ms chat sender. true;
  is_on_whatsapp = λ numbers. some [];
  picture = λ jid preview. ok none;
  user_info = λ jids. some (λ jid. none);
  send_presence = λ state. true;
  send_chat_presence = λ jid state. true;
  jid_text = λ jid. jid.user;
  pair_phone = λ phone. some (bytes "ABCD-1234");
}

abbrev quoted : ContextInfo
quoted = record { stanza_id = bytes "3EA9"; participant = [] }

abbrev voice : Request
voice = send_audio_request 1 (bytes "5511999998888") (bytes "data:,") (some true) 4 [] (some quoted)

payload-Understood_example : Understood voice (payload voice)
payload-Understood_example = payload-Understood voice (omega arith, omega arith)

call-Unanswered_example : Unanswered library 1 (omega arith)
call-Unanswered_example = call-Unanswered library 1 (omega arith)

pair_phone-empty_example :
    (pair_phone (call library) 2 (bytes "+5511") ≡ ok [])
    × ((serve library
          (routing_key (pair_phone_request 2 (bytes "+5511")))
          (payload (pair_phone_request 2 (bytes "+5511")))).1
        ≡ published_code 2 (bytes "ABCD-1234") ∷ [])
unfolding trim_space has_prefix trim_prefix to_utf8
pair_phone-empty_example =
    pair_phone-empty library 2 (omega arith) (bytes "+5511") (bytes "ABCD-1234") refl refl refl

abbrev image : Bytes
image = 255 ∷ 216 ∷ 255 ∷ []

abbrev ann : Jid
ann = record { user = bytes "5511"; server = bytes "s.whatsapp.net" }

number_parsed : parse_jid library.parse_full (to_utf8 (bytes "5511")) ≡ some ann
unfolding parse_jid trim_space contains has_prefix to_utf8
number_parsed = refl

abbrev photo : FileHeader
photo = record { file_name = bytes "a.jpg"; content_type = bytes "image/jpeg"; opened = some image }

abbrev services : Services Memory
services = record {
  show = λ id actor s. ok (record { contact_id = 4; whatsapp_id = 1 });
  number_of = λ id s. ok (bytes "5511");
  sender = some (λ before c. send_by_worker (call library) c);
  uploader = none;
  detect = λ s. bytes "text/plain";
  max_size = [];
}

abbrev like : TicketLike
like = record { contact_id = 4; whatsapp_id = 1 }

abbrev nothing_stored : Outgoing.World Memory ℕ
nothing_stored = record {
  messages = record { store = record { entries = []; distinct = tt; last = λ k. [] }; frames = [] };
  calls = [];
  uploads = [];
}

photo_read : read_multipart_file services memory true photo ≡ ok (image, bytes "image/jpeg")
unfolding read_multipart_file trim_space bytes_beq
photo_read = refl

photo_is_image : classify_mime (bytes "image/jpeg") photo.file_name ≡ Names.image
unfolding classify_mime trim_space has_prefix bytes_beq
photo_is_image = refl

dispatch_multipart_file-arrives_example :
    (dispatch_multipart_file services memory true
        (by_worker library services memory true 9 like (bytes "5511") (bytes "Hi") photo)
        9
        like
        (bytes "5511")
        (bytes "Hi")
        photo
        nothing_stored
      ≡ sent_or_failed library services memory true 9 like
          (bytes "5511")
          (bytes "Hi")
          photo
          (image, bytes "image/jpeg")
          (ok (bytes "3EB0"))
          nothing_stored)
    × ((serve library
          (routing_key (
            image_carried library services memory true 9 like
              (bytes "5511")
              (bytes "Hi")
              photo
              image
              (bytes "image/jpeg")))
          (payload (
            image_carried library services memory true 9 like
              (bytes "5511")
              (bytes "Hi")
              photo
              image
              (bytes "image/jpeg")))).1
        ≡ gave ann (image_sent (bytes "Hi") (bytes "image/jpeg") image none image) ∷ [])
unfolding index_byte to_utf8
dispatch_multipart_file-arrives_example =
    dispatch_multipart_file-arrives library services memory true 9 like (bytes "5511") (bytes "Hi")
      photo image (bytes "image/jpeg") ann image photo_read photo_is_image (omega arith) refl
      number_parsed (omega arith, (omega arith, (omega arith, tt)))
      (
        omega arith,
        (
          omega arith,
          (
            omega arith,
            (
              omega arith,
              (
                omega arith,
                (omega arith, (omega arith, (omega arith, (omega arith, (omega arith, tt))))),
              ),
            ),
          ),
        ),
      )
      refl refl (λ s h. ground (arith, h)) nothing_stored
