-- ===== src/Ticket/Store.antt =====
-- The tables that backend/internal/ticket asks for through gorm: `tickets`, `messages` and the queues
-- of a user. What the statements of service.go, findorcreate.go, messages.go and lock.go do to them
-- is the interface; `none` is a database error, where nothing has changed.
use whaticket_community.Prelude.{
  ℕ, ◌≡◌, Bool, true, Option, none, some, List, Bytes, if◌then◌else◌, nat_beq,
}
use whaticket_community.Ticket.Model.{Ticket, Updates, apply, status_open, status_pending}

-- `status IN ('open', 'pending')`
pub data Active (status : Bytes) : Type 0 where
  opened : status ≡ status_open → Active status
  pending : status ≡ status_pending → Active status

abbrev pub touched : ℕ → Updates → Option Ticket → Option Ticket
touched now u none = none
touched now u (some t) = some (apply now u t)

-- The outcome of marking messages as read; the table of messages may be missing.
pub data Marked (S : Type 0) : Type 0 where
  marked missing_table : S → Marked S
  mark_failed : Marked S

pub record Store (S : Type 0) : Type 0 where
  pub find : ℕ → S → Option Ticket
  pub all_read : ℕ → S → Bool
  pub clock : S → ℕ
  pub first : ℕ → S → Option (Option Ticket)
  pub queue_ids : ℕ → S → Option (List ℕ)
  pub update : ℕ → Updates → S → Option S
  pub remove : ℕ → S → Option (S × ℕ)
  pub create : Ticket → S → Option (S × ℕ)
  pub mark_read : ℕ → S → Marked S
  pub lock : ℕ → ℕ → S → Option S
  pub commits : S → Bool
  -- The first of the tickets of a contact and a connection that are active, or were updated since.
  pub first_active : ℕ → ℕ → S → Option (Option Ticket)
  pub first_since : ℕ → ℕ → Option ℕ → S → Option (Option Ticket)
  pub first_lem : (id : ℕ) (s : S) {o : Option Ticket} → first id s ≡ some o → o ≡ find id s
  pub find_id : (id : ℕ) (s : S) {t : Ticket} → find id s ≡ some t → t.id ≡ id
  pub update_lem :
      (id : ℕ) (u : Updates) (s : S) {t : S} (j : ℕ)
      → update id u s ≡ some t
      → find j t ≡ (if nat_beq id j then touched (clock s) u (find j s) else find j s)
  pub update_all_read :
      (id : ℕ) (u : Updates) (s : S) {t : S} (j : ℕ)
      → update id u s ≡ some t
      → all_read j t ≡ all_read j s
  pub mark_read-marked :
      (id : ℕ) (s : S) {t : S} (j : ℕ)
      → mark_read id s ≡ marked t
      → (find j t ≡ find j s) × (all_read id t ≡ true)
  pub mark_read-missing_table :
      (id : ℕ) (s : S) {t : S} (j : ℕ) → mark_read id s ≡ missing_table t → find j t ≡ find j s
  pub remove_lem :
      (id : ℕ) (s : S) {t : S} {rows : ℕ} (j : ℕ)
      → remove id s ≡ some (t, rows)
      → find j t ≡ (if nat_beq id j then none else find j s)
  pub create_lem :
      (row : Ticket) (s : S) {t : S} {id : ℕ} (j : ℕ)
      → create row s ≡ some (t, id)
      → (find id s ≡ none)
        × (find j t ≡ (
            if nat_beq id j then some (record row { id = id; updated_at = clock s }) else find j s))
  pub lock_lem :
      (contact whatsapp : ℕ) (s : S) {t : S} (j : ℕ)
      → lock contact whatsapp s ≡ some t
      → find j t ≡ find j s
  pub first_active-some :
      (contact whatsapp : ℕ) (s : S) {t : Ticket}
      → first_active contact whatsapp s ≡ some (some t)
      → (find t.id s ≡ some t)
        × (t.contact_id ≡ contact)
        × (t.whatsapp_id ≡ whatsapp)
        × Active t.status
  pub first_active-none :
      (contact whatsapp : ℕ) (s : S) (j : ℕ) {t : Ticket}
      → first_active contact whatsapp s ≡ some none
      → find j s ≡ some t
      → t.contact_id ≡ contact
      → t.whatsapp_id ≡ whatsapp
      → ¬ Active t.status
  pub first_since-some :
      (contact whatsapp : ℕ) (since : Option ℕ) (s : S) {t : Ticket}
      → first_since contact whatsapp since s ≡ some (some t)
      → (find t.id s ≡ some t) × (t.contact_id ≡ contact) × (t.whatsapp_id ≡ whatsapp)
