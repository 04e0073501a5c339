-- ===== src/Events/Messages/Handled.antt =====
-- What the handling of a message event does, on each of its ways out.
use whaticket_community.Prelude.{ℕ, ◌≡◌, Bool, true, false, Option, none, [], ◌∷◌, ◌++◌, Bytes}
use whaticket_community.Events.Services.{
  Services, Contact, Whatsapp, EventTicket, stored, MessageData,
}
use whaticket_community.Events.Queues.Choice.{Settled}
use whaticket_community.Events.Messages.{
  MessagePayload, extract_body, should_run_queue_logic, should_skip_farewell_echo, message_of,
  is_dropped,
}

module _ {S : Type 0} (services : Services S) (choice_of : Bytes → Option ℕ)
    (render : Bytes → Bytes → Bytes) (normal : Bytes → Bytes) where
  open services use {
    deeds, create_or_update, show, find_or_create, update_last_message, create,
    create_or_update_lem, find_or_create_lem, update_last_message_lem, create_lem, create_error_lem,
  }

  -- What follows when the message is stored: the queue of a ticket that has neither a queue nor a
  -- user, for a message of the contact.
  pub data Followed (p : MessagePayload) (w : Whatsapp) (contact : Contact) (t : EventTicket)
      (u : S) : S → Type 0 where
    left_alone : should_run_queue_logic w t p.info.is_from_me ≡ false → Followed p w contact t u u
    settled :
        (v : S) (fine : Bool)
        → should_run_queue_logic w t p.info.is_from_me ≡ true
        → Settled services choice_of render w t contact (extract_body p.content) u (v, fine)
        → Followed p w contact t u v

  -- Which service failed.
  pub data Fails : Type 0 where
    no_contact :
        (number name lid : Bytes) (s : S) → (create_or_update number name lid s).1 ≡ none → Fails
    no_connection : (whatsapp : ℕ) (s : S) → show whatsapp s ≡ none → Fails
    no_ticket :
        (c : Contact) (whatsapp unread : ℕ) (s : S)
        → (find_or_create c whatsapp unread s).1 ≡ none
        → Fails
    no_message : (m : MessageData) (s : S) → (create m s).1 ≡ false → Fails

  pub data Handled (p : MessagePayload) (s : S) : S × Bool → Type 0 where
    dropped : is_dropped p ≡ true → Handled p s (s, true)
    echoed :
        (w : Whatsapp) (contact : Contact) (u : S)
        → should_skip_farewell_echo render w contact p.info (extract_body p.content) ≡ true
        → deeds u ≡ deeds s
        → Handled p s (u, true)
    failed : (u : S) → Fails → deeds u ≡ deeds s → Handled p s (u, false)
    not_reloaded :
        (contact : Contact) (t : EventTicket) (u : S)
        → Fails
        → deeds u ≡ deeds s ++ stored (message_of normal p contact t) ∷ []
        → Handled p s (u, false)
    kept :
        (w : Whatsapp) (contact : Contact) (t : EventTicket) (u v : S)
        → deeds u ≡ deeds s ++ stored (message_of normal p contact t) ∷ []
        → Followed p w contact t u v
        → Handled p s (v, true)
