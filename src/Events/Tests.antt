-- ===== src/Events/Tests.antt =====
-- The theorems on events at concrete inputs.
use whaticket_community.Prelude.{
  has, nat_keyed, true, false, ℕ, ◌≡◌, refl, false, none, some, Option, List, [], ◌∷◌, ◌++◌, arith,
  bytes, Bytes,
}
use whaticket_community.Events.Jids.{MessageInfo}
use whaticket_community.Events.Services.{
  Services, Contact, Whatsapp, QueueLike, EventTicket, Deed, stored, queued, sent, scheduled,
}
use whaticket_community.Events.Queues.{handle_queue_logic}
use whaticket_community.Events.Queues.Choice.{Settled, handle_queue_logic-Settled}
use whaticket_community.Events.Debouncer.{Job, Debouncer, schedule, cancel, run_callback}
use whaticket_community.Events.Debouncer.Timers.{cancel-misses}
use whaticket_community.Events.Messages.{MessagePayload}
use whaticket_community.Events.Messages.Handled.{Handled}

-- A message from a LID, with the phone number beside it.
abbrev hello : MessageInfo
hello = record {
  id = bytes "3EB0";
  sender = bytes "88@lid";
  chat = bytes "88@lid";
  push_name = bytes "Ana";
  is_from_me = false;
  is_group = false;
  kind = [];
  sender_alt = bytes "5511@s.whatsapp.net";
  recipient_alt = [];
}

abbrev sales : QueueLike
sales = record { id = 1; name = bytes "Sales"; greeting_message = bytes "Hi" }

abbrev line : Whatsapp
line = record {
  id = 4;
  status = bytes "CONNECTED";
  greeting_message = bytes "Choose";
  farewell_message = [];
  queues = sales ∷ record sales { id = 2 } ∷ [];
}

abbrev ana : Contact
ana = record { id = 6; number = bytes "5511"; name = bytes "Ana" }

abbrev fresh_ticket : EventTicket
fresh_ticket = record { id = 9; user_id = none; queue_id = none }

pub some-inj {ℓ} : {A : Type ℓ} {a b : A} → some a ≡ some b → a ≡ b
some-inj h = cc

true_false : true ≡ false → (A : Type 0) → A
true_false h A = cc

-- Services that only write down what is asked of them.
abbrev recorder : Services (List Deed)
recorder = record {
  deeds = λ s. s;
  create_or_update = λ number name lid s. (s, some ana);
  show = λ id s. some line;
  find_or_create = λ c whatsapp unread s. (s, some fresh_ticket);
  update_last_message = λ id body s. (s, true);
  create = λ m s. (s ++ stored m ∷ [], true);
  update_queue = λ ticket queue s. (s ++ queued ticket queue ∷ [], true);
  send_text = λ whatsapp number body s. s ++ sent whatsapp number body ∷ [];
  schedule = λ ticket whatsapp number body s. s ++ scheduled ticket whatsapp number body ∷ [];
  create_or_update_lem = λ number name lid s. refl;
  find_or_create_lem = λ c whatsapp unread s. refl;
  update_last_message_lem = λ id body s. refl;
  create_lem = λ m s h. refl;
  create_error_lem = λ m s h. true_false h _;
  update_queue_lem = λ ticket queue s h. refl;
  update_queue_error_lem = λ ticket queue s h. true_false h _;
  send_text_lem = λ whatsapp number body s. refl;
  schedule_lem = λ ticket whatsapp number body s. refl;
}

abbrev atoi : Bytes → Option ℕ
atoi body = none

abbrev plain : Bytes → Bytes → Bytes
plain template name = template

handle_queue_logic-Settled_example :
    Settled recorder atoi plain line fresh_ticket ana
      (bytes "hello")
      []
      (handle_queue_logic recorder atoi plain line fresh_ticket ana (bytes "hello") [])
handle_queue_logic-Settled_example =
    handle_queue_logic-Settled recorder atoi plain line fresh_ticket ana (bytes "hello") []

abbrev greeting : MessagePayload
greeting = record {
  info = hello;
  content = record { conversation = bytes "hello"; extended = []; captions = [] };
  mime_type = [];
  file_name = [];
  media_url = [];
  base64 = [];
  is_sticker = false;
}

abbrev menu : Job
menu = record {
  ticket_id = 9;
  whatsapp_id = 4;
  contact_number = bytes "5511";
  body = bytes "Choose";
}

-- Timer 0 of ticket 9 is armed, or has begun.
abbrev waits : Debouncer
waits = record {
  timers = (9, 0) ∷ [];
  job = λ timer. menu;
  armed = 0 ∷ [];
  begun = [];
  outbound = [];
  next_timer = 1;
}

abbrev expired : Debouncer
expired = record waits { armed = []; begun = 0 ∷ [] }

cancel-misses_example :
    let e = cancel 9 (run_callback 0 (schedule menu expired)) in
    (has 1 e.armed ≡ true) × (e.outbound ≡ menu ∷ []) × (e.job 1 ≡ menu)
unfolding has
cancel-misses_example = cancel-misses expired 0 menu refl refl (omega arith)
