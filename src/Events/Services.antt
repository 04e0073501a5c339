-- ===== src/Events/Services.antt =====
-- The services that backend/internal/waevents calls (interfaces.go), as operations on a state, and
-- what each leaves of the messages that are stored, the queue choices and the texts that are sent.
use whaticket_community.Prelude.{ℕ, ◌≡◌, ◌⊎◌, Bool, true, false, Option, List, [], ◌∷◌, ◌++◌, Bytes}

pub record Contact : Type 0 where
  pub id : ℕ
  pub number : Bytes
  pub name : Bytes

pub record QueueLike : Type 0 where
  pub id : ℕ
  pub name : Bytes
  pub greeting_message : Bytes

pub record Whatsapp : Type 0 where
  pub id : ℕ
  pub status : Bytes
  pub greeting_message : Bytes
  pub farewell_message : Bytes
  pub queues : List QueueLike

pub record EventTicket : Type 0 where
  pub id : ℕ
  pub user_id : Option ℕ
  pub queue_id : Option ℕ

-- `MessageData`; no event quotes a message.
pub record MessageData : Type 0 where
  pub id : Bytes
  pub ticket_id : ℕ
  pub contact_id : Option ℕ
  pub body : Bytes
  pub from_me : Bool
  pub read : Bool
  pub media_type : Bytes
  pub media_url : Bytes
  pub ack : ℕ

-- What happened, oldest first: a message stored, a ticket put in a queue, a text that is to be sent at once, and a
-- text that the debouncer is given.
pub data Deed : Type 0 where
  stored : MessageData → Deed
  queued : ℕ → ℕ → Deed
  sent : ℕ → Bytes → Bytes → Deed
  scheduled : ℕ → ℕ → Bytes → Bytes → Deed

-- Every service leaves a state, and answers `none` or `false` for an error. One that fails may have
-- written its rows and then failed to read them.
pub record Services (S : Type 0) : Type 0 where
  pub deeds : S → List Deed
  pub create_or_update : Bytes → Bytes → Bytes → S → S × Option Contact
  pub show : ℕ → S → Option Whatsapp
  pub find_or_create : Contact → ℕ → ℕ → S → S × Option EventTicket
  pub update_last_message : ℕ → Bytes → S → S × Bool
  pub create : MessageData → S → S × Bool
  pub update_queue : ℕ → ℕ → S → S × Bool
  pub send_text : ℕ → Bytes → Bytes → S → S
  pub schedule : ℕ → ℕ → Bytes → Bytes → S → S
  pub create_or_update_lem :
      (number name lid : Bytes) (s : S) → deeds (create_or_update number name lid s).0 ≡ deeds s
  pub find_or_create_lem :
      (c : Contact) (whatsapp unread : ℕ) (s : S)
      → deeds (find_or_create c whatsapp unread s).0 ≡ deeds s
  pub update_last_message_lem :
      (id : ℕ) (body : Bytes) (s : S) → deeds (update_last_message id body s).0 ≡ deeds s
  pub create_lem :
      (m : MessageData) (s : S)
      → (create m s).1 ≡ true
      → deeds (create m s).0 ≡ deeds s ++ stored m ∷ []
  pub create_error_lem :
      (m : MessageData) (s : S)
      → (create m s).1 ≡ false
      → (deeds (create m s).0 ≡ deeds s) ⊎ (deeds (create m s).0 ≡ deeds s ++ stored m ∷ [])
  pub update_queue_lem :
      (ticket queue : ℕ) (s : S)
      → (update_queue ticket queue s).1 ≡ true
      → deeds (update_queue ticket queue s).0 ≡ deeds s ++ queued ticket queue ∷ []
  pub update_queue_error_lem :
      (ticket queue : ℕ) (s : S)
      → (update_queue ticket queue s).1 ≡ false
      → (deeds (update_queue ticket queue s).0 ≡ deeds s)
        ⊎ (deeds (update_queue ticket queue s).0 ≡ deeds s ++ queued ticket queue ∷ [])
  pub send_text_lem :
      (whatsapp : ℕ) (number body : Bytes) (s : S)
      → deeds (send_text whatsapp number body s) ≡ deeds s ++ sent whatsapp number body ∷ []
  pub schedule_lem :
      (ticket whatsapp : ℕ) (number body : Bytes) (s : S)
      → deeds (schedule ticket whatsapp number body s)
        ≡ deeds s ++ scheduled ticket whatsapp number body ∷ []
