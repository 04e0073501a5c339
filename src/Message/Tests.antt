-- ===== src/Message/Tests.antt =====
-- The theorems on messages at concrete inputs, and runs.
use whaticket_community.Prelude.{
  ℕ, ◌≡◌, ◌≢◌, refl, true, false, none, some, List, [], ◌∷◌, arith, Bytes, bytes, bytes_beq,
  bytes_beq_iff, bytes_keyed, keys, Distinct, has, lookup, insert,
}
use whaticket_community.Message.Service.{
  Message, Claims, World, create_message, delete_message, reload_and_tell, tell_created, find_by_id,
}
use whaticket_community.Message.Service.Writes.{Deletion, ShowsNewest, delete_message-Deletion}
use whaticket_community.Message.Service.Stale.{create_message-stale}
use whaticket_community.Message.Newest.{newest}
use whaticket_community.Message.Outgoing.{Call, FileHeader, TicketLike, Services}
use whaticket_community.Message.Outgoing
use whaticket_community.Message.Send.{send_files}
use whaticket_community.Message.Send.Files.{Ran, send_files-Ran}
use whaticket_community.Platform.{Result, ok, err, AppError, new_error}
use whaticket_community.Message.Memory.{Memory, memory}

abbrev first : Message
first = record {
  id = bytes "A";
  ticket_id = 9;
  contact_id = some 4;
  body = bytes "hi";
  media_type = bytes "chat";
  media_url = [];
  from_me = false;
  read = false;
  ack = 0;
  quoted_msg_id = none;
}

abbrev second : Message
second = record first { id = bytes "B"; body = bytes "bye" }

abbrev both : List (Bytes × Message)
both = (bytes "A", first) ∷ (bytes "B", second) ∷ []

both-Distinct : Distinct (keys both)
unfolding has bytes_beq
both-Distinct = (refl, (refl, tt))

abbrev world : World Memory ℕ
world = record {
  store = record { entries = both; distinct = both-Distinct; last = λ k. bytes "bye" };
  frames = [];
}

abbrev agent : Claims
agent = record { id = 5; profile = bytes "user" }

delete_message-Deletion_example :
    Deletion memory true
      (bytes "B")
      world
      (some agent)
      (delete_message memory true (bytes "B") (some agent) world)
delete_message-Deletion_example = delete_message-Deletion memory true (bytes "B") world (some agent)

differ : (s t : Bytes) → bytes_beq s t ≡ false → s ≢ t
differ s t n e = ground (arith, n, (bytes_beq_iff s t).1 e)

ids_differ : second.id ≢ first.id
unfolding bytes_beq
ids_differ = differ second.id first.id refl

bodies_differ : second.body ≢ first.body
unfolding bytes_beq
bodies_differ = differ second.body first.body refl

-- The first message comes again.
create_message-stale_example :
    ((create_message memory true first world).1.store.last 9 ≡ bytes "hi")
    × (¬ ShowsNewest memory true 9 (create_message memory true first world).1.store)
unfolding newest lookup create_message reload_and_tell tell_created find_by_id insert bytes_beq
create_message-stale_example =
    create_message-stale memory true first world first second refl refl ids_differ bodies_differ
      first refl

-- The sender takes its first two calls.
abbrev sender : List Call → Call → Result AppError Bytes
sender [] c = ok (bytes "C")
sender (d ∷ []) c = ok (bytes "D")
sender (d ∷ e ∷ rest) c = err (new_error (bytes "ERR_WAPP_NOT_INITIALIZED") 409)

abbrev services : Services Memory
services = record {
  show = λ id actor s. ok (record { contact_id = 4; whatsapp_id = 1 });
  number_of = λ id s. ok (bytes "5511");
  sender = some sender;
  uploader = none;
  detect = λ s. bytes "text/plain";
  max_size = [];
}

abbrev photo : FileHeader
photo = record {
  file_name = bytes "a.png";
  content_type = bytes "image/png";
  opened = some (bytes "xyz");
}

abbrev unnamed : FileHeader
unnamed = record { file_name = []; content_type = []; opened = some (bytes "hello") }

abbrev unread : FileHeader
unread = record photo { opened = none }

abbrev files : List FileHeader
files = photo ∷ unnamed ∷ unread ∷ photo ∷ []

abbrev like : TicketLike
like = record { contact_id = 4; whatsapp_id = 1 }

abbrev sending : Outgoing.World Memory ℕ
sending = record { messages = world; calls = []; uploads = [] }

send_files-Ran_example :
    Ran services memory true sender 9 like
      (bytes "5511")
      (bytes "look")
      files
      sending
      (send_files services memory true sender 9 like (bytes "5511") (bytes "look") files sending)
send_files-Ran_example =
    send_files-Ran services memory true sender 9 like (bytes "5511") (bytes "look") files sending
