-- ===== src/Ticket/Arrival.antt =====
-- backend/internal/ticket/findorcreate.go: the ticket of an incoming message.
pub mod Rows
pub mod OneActive
pub mod Conflict
use whaticket_community.Prelude.{
  ℕ, ◌-◌, ◌*◌, [], List, Bool, true, false, Option, none, some, ◌++◌, Bytes, if◌then◌else◌, nat_beq,
}
use whaticket_community.Ticket.Model.{
  Ticket, Updates, no_updates, status_pending, Result, ok, err, invalid_input, db_transaction,
}
use whaticket_community.Ticket.Emit.{Frame, emit_create, emit_update}
use whaticket_community.Ticket.Store.{Store}
use whaticket_community.Ticket.Service.{World, load_by_id, transaction}

-- Two hours, in the unit of the clock, seconds.
abbrev pub reopen_window : ℕ
reopen_window = 2 * 3600

-- `action`, with the old status for the frames where there is one.
pub data Action : Type 0 where
  created bumped : Action
  reopened : Bytes → Action

abbrev pub bump : ℕ → Updates
bump unread = record no_updates { unread_messages = some unread }

abbrev pub reopen : ℕ → Updates
reopen unread = record no_updates {
  status = some status_pending;
  user_id = some none;
  unread_messages = some unread;
}

abbrev pub fresh : ℕ → ℕ → Bool → ℕ → Ticket
fresh contact whatsapp is_group unread = record {
  id = 0;
  status = status_pending;
  unread_messages = unread;
  last_message = [];
  is_group = is_group;
  user_id = none;
  contact_id = contact;
  whatsapp_id = whatsapp;
  queue_id = none;
  updated_at = 0;
}

-- The oldest update that still reopens; for a group there is no limit.
abbrev pub cutoff : Bool → ℕ → Option ℕ
cutoff true now = none
cutoff false now = some (now - reopen_window)

module _ {S : Type 0} (db : Store S) where
  unfoldable pub reopen_or_create : ℕ → ℕ → Bool → ℕ → S → Option (S × ℕ × Action)
  reopen_or_create contact whatsapp is_group unread s =
      elim (db.first_since contact whatsapp (cutoff is_group (db.clock s)) s) [
        | none ↦ none
        | some (some t) ↦ elim (db.update t.id (reopen unread) s) [
          | none ↦ none
          | some v ↦ some (v, t.id, reopened t.status)
        ]
        | some none ↦ elim (db.create (fresh contact whatsapp is_group unread) s) [
          | none ↦ none
          | some (v, id) ↦ some (v, id, created)
        ]
      ]

  -- The function that runs under the lock.
  unfoldable pub find_or_create_locked : ℕ → ℕ → Bool → ℕ → S → Option (S × ℕ × Action)
  unfolding reopen_or_create
  find_or_create_locked contact whatsapp is_group unread s =
      elim (db.first_active contact whatsapp s) [
        | none ↦ none
        | some (some t) ↦ elim (db.update t.id (bump unread) s) [
          | none ↦ none
          | some v ↦ some (v, t.id, bumped)
        ]
        | some none ↦ reopen_or_create contact whatsapp is_group unread s
      ]

  -- `withContactLock`
  unfoldable pub with_contact_lock :
      ℕ → ℕ → (S → Option (S × ℕ × Action)) → S → Option (S × ℕ × Action)
  with_contact_lock contact whatsapp body s = elim (db.lock contact whatsapp s) [
    | none ↦ none
    | some t ↦ elim (body t) [
      | none ↦ none
      | some (v, id, action) ↦ if db.commits v then some (v, id, action) else none
    ]
  ]

  -- The contact to look for is the group's where there is one.
  abbrev pub lookup_contact : Option ℕ → Option ℕ → Option ℕ
  lookup_contact contact (some group) = some group
  lookup_contact contact none = contact

  abbrev pub is_some_group : Option ℕ → Bool
  is_some_group none = false
  is_some_group (some group) = true

  abbrev pub told : Bool → Ticket → Action → List Frame
  told ws t created = emit_create ws t
  told ws t (reopened old) = emit_update ws t old
  told ws t bumped = emit_update ws t t.status

  -- The reload and the frames.
  unfoldable pub tell_arrival : Bool → ℕ → Action → World S → Result Ticket × World S
  unfolding load_by_id
  tell_arrival ws id action w = elim (load_by_id db id w.store) [
    | err e ↦ (err e, w)
    | ok t ↦ (ok t, record w { frames = w.frames ++ told ws t action })
  ]

  unfoldable pub find_or_create :
      Bool → Option ℕ → ℕ → ℕ → Option ℕ → World S → Result Ticket × World S
  unfolding with_contact_lock find_or_create_locked tell_arrival
  find_or_create ws contact whatsapp unread group w = elim (lookup_contact contact group) [
    | none ↦ (err invalid_input, w)
    | some wanted ↦
        if nat_beq whatsapp 0
        then (err invalid_input, w)
        else elim (with_contact_lock wanted whatsapp
            (find_or_create_locked wanted whatsapp (is_some_group group) unread) w.store) [
              | none ↦ (err db_transaction, w)
              | some (s, id, action) ↦ tell_arrival ws id action (record w { store = s })
            ]
  ]
