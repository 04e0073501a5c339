-- ===== src/Message/Service.antt =====
-- backend/internal/message/service.go: storing and deleting a message, over the table `messages` and
-- the service of the tickets, which is taken to be set. What is loaded for display is left out.
pub mod Writes
pub mod Stale
use whaticket_community.Prelude.{
  ℕ, ◌≡◌, ◌≢◌, Bool, true, false, ◌||◌, not, Option, none, some, List, [], ◌∷◌, ◌++◌, Bytes, bytes,
  bytes_keyed, ◌==◌, if◌then◌else◌, nat_beq, ltb, is_nil,
}
use whaticket_community.Platform.{
  Result, ok, err, ◌>>=◌, DbError, AppError, new_error, wrap_error, is_not_found, TxError, app, db,
  transaction,
}

-- `ack` is an int that is never negative.
pub record Message : Type 0 where
  pub id : Bytes
  pub ticket_id : ℕ
  pub contact_id : Option ℕ
  pub body : Bytes
  pub media_type : Bytes
  pub media_url : Bytes
  pub from_me : Bool
  pub read : Bool
  pub ack : ℕ
  pub quoted_msg_id : Option Bytes

abbrev pub greatest : ℕ → ℕ → ℕ
greatest a b = if ltb a b then b else a

-- What `ON CONFLICT (id) DO UPDATE` makes of a row that is there.
abbrev pub overwritten : Message → Message → Message
overwritten m old = record old {
  body = m.body;
  media_url = m.media_url;
  media_type = m.media_type;
  ack = greatest old.ack m.ack;
  read = m.read;
}

abbrev pub upserted : Message → Option Message → Message
upserted m none = m
upserted m (some old) = overwritten m old

-- `auth.UserClaims`, as far as it is read here.
pub record Claims : Type 0 where
  pub id : ℕ
  pub profile : Bytes

-- `newest` is the last message of a ticket by its time and id, and `last_message` the column of the
-- ticket; `take` and `take_newest` are statements. `show_ticket` answers the user of a ticket to one who
-- may see it, and `load_ticket` what is told of the ticket.
pub record Store (S T : Type 0) : Type 0 where
  pub find : Bytes → S → Option Message
  pub newest : ℕ → S → Option Message
  pub last_message : ℕ → S → Bytes
  pub take : Bytes → S → Result DbError Message
  pub take_newest : ℕ → S → Result DbError Message
  pub upsert : Message → S → Result DbError S
  pub remove : Bytes → S → Result DbError S
  pub commits : S → Bool
  pub show_ticket : ℕ → Claims → S → Result AppError (Option ℕ)
  pub load_ticket : ℕ → S → Option T
  pub update_last_message : ℕ → Bytes → S → Option AppError × S
  pub take_lem : (id : Bytes) (s : S) {m : Message} → take id s ≡ ok m → find id s ≡ some m
  pub newest_lem : (k : ℕ) (s : S) {m : Message} → newest k s ≡ some m → find m.id s ≡ some m
  pub take_newest_lem : (k : ℕ) (s : S) {m : Message} → take_newest k s ≡ ok m → newest k s ≡ some m
  pub take_newest_none :
      (k : ℕ) (s : S) {e : DbError}
      → take_newest k s ≡ err e
      → is_not_found e ≡ true
      → newest k s ≡ none
  pub upsert_lem :
      (m : Message) (s : S) {t : S} (id : Bytes) (k : ℕ)
      → upsert m s ≡ ok t
      → (find id t ≡ (if m.id == id then some (upserted m (find m.id s)) else find id s))
        × (last_message k t ≡ last_message k s)
  pub upsert-newest :
      (m : Message) (s : S) {t : S} (k : ℕ) {old n : Message}
      → upsert m s ≡ ok t
      → find m.id s ≡ some old
      → newest k s ≡ some n
      → n.id ≢ m.id
      → newest k t ≡ some n
  pub remove_lem :
      (id : Bytes) (s : S) {t : S} (other : Bytes) (k : ℕ)
      → remove id s ≡ ok t
      → (find other t ≡ (if id == other then none else find other s))
        × (last_message k t ≡ last_message k s)
  pub remove-newest :
      (id : Bytes) (s : S) {t : S} (k : ℕ) {m : Message}
      → remove id s ≡ ok t
      → newest k s ≡ some m
      → m.id ≢ id
      → newest k t ≡ some m
  pub remove-none :
      (id : Bytes) (s : S) {t : S} (k : ℕ)
      → remove id s ≡ ok t
      → newest k s ≡ none
      → newest k t ≡ none
  pub update_last_message_lem :
      (ticket : ℕ) (body : Bytes) (s : S) {e : Option AppError} {t : S} (id : Bytes) (k : ℕ)
      → update_last_message ticket body s ≡ (e, t)
      → (find id t ≡ find id s) × (newest k t ≡ newest k s)
  pub update_last_message-last :
      (ticket : ℕ) (body : Bytes) (s : S) {t : S} (k : ℕ)
      → update_last_message ticket body s ≡ (none, t)
      → last_message k t ≡ (if nat_beq ticket k then body else last_message k s)

-- An event, with the ticket it is about and what is told of it.
pub data Frame (T : Type 0) : Type 0 where
  ticket_created notification_created : ℕ → Message → Option T → Frame T
  ticket_deleted : ℕ → Bytes → Option T → Frame T

pub record World (S T : Type 0) : Type 0 where
  pub store : S
  pub frames : List (Frame T)

abbrev pub invalid_input : AppError
invalid_input = new_error (bytes "ERR_INVALID_INPUT") 400

abbrev pub no_permission : AppError
no_permission = new_error (bytes "ERR_NO_PERMISSION") 403

-- `canDelete`
unfoldable pub can_delete : Claims → Option ℕ → Bool
can_delete actor none = actor.profile == bytes "admin"
can_delete actor (some owner) =
    if actor.profile == bytes "admin" then true else nat_beq owner actor.id

-- The row of a message, which is a chat where its data names no type.
abbrev pub new_message : Message → Message
new_message given = record given {
  media_type = if is_nil given.media_type then bytes "chat" else given.media_type;
}

module _ {S T : Type 0} (tables : Store S T) (ws : Bool) where
  unfoldable pub publish : Frame T → World S T → World S T
  publish frame w = if ws then record w { frames = w.frames ++ frame ∷ [] } else w

  -- `findByID`
  unfoldable pub find_by_id : Bytes → S → Result AppError Message
  find_by_id id s = elim (tables.take id s) [
    | ok m ↦ ok m
    | err e ↦
        if is_not_found e
        then err (new_error (bytes "ERR_MESSAGE_NOT_FOUND") 404)
        else err (wrap_error e (bytes "ERR_DB_QUERY") 500)
  ]

  unfoldable pub tell_created : ℕ → Message → World S T → World S T
  unfolding publish
  tell_created ticket m w =
      let payload = tables.load_ticket ticket w.store in
      publish (notification_created ticket m payload) (publish (ticket_created ticket m payload) w)

  abbrev pub stored :
      ℕ → Message → Option AppError × S → World S T → Result AppError Message × World S T
  stored ticket m (some e, t) w = (err e, record w { store = t })
  stored ticket m (none, t) w = (ok m, tell_created ticket m (record w { store = t }))

  -- What follows the insertion.
  unfoldable pub reload_and_tell : ℕ → Bytes → World S T → Result AppError Message × World S T
  unfolding find_by_id tell_created
  reload_and_tell ticket id w = elim (find_by_id id w.store) [
    | err e ↦ (err e, w)
    | ok m ↦ stored ticket m (tables.update_last_message ticket m.body w.store) w
  ]

  unfoldable pub create_message : Message → World S T → Result AppError Message × World S T
  unfolding reload_and_tell
  create_message m w =
      if is_nil m.id || nat_beq m.ticket_id 0
      then (err invalid_input, w)
      else elim (tables.upsert (new_message m) w.store) [
        | err e ↦ (err (wrap_error e (bytes "ERR_DB_INSERT") 500), w)
        | ok t ↦ reload_and_tell m.ticket_id m.id (record w { store = t })
      ]

  -- The body of the newest message that is left, which is empty where there is none.
  abbrev pub newest_body : Result DbError Message → Result TxError Bytes
  newest_body (ok m) = ok m.body
  newest_body (err e) =
      if is_not_found e then ok [] else err (app (wrap_error e (bytes "ERR_DB_QUERY") 500))

  abbrev pub coded : {A : Type 0} → Bytes → Result DbError A → Result TxError A
  coded code (ok a) = ok a
  coded code (err e) = err (app (wrap_error e code 500))

  -- The function that runs in the transaction.
  unfoldable pub remove_message : Bytes → ℕ → S → Result TxError (Bytes × S)
  remove_message id ticket s = do
    t ← coded (bytes "ERR_DB_DELETE") (tables.remove id s)
    body ← newest_body (tables.take_newest ticket t)
    ok (body, t)

  abbrev pub tx_error : TxError → AppError
  tx_error (app e) = e
  tx_error (db e) = wrap_error e (bytes "ERR_DB_TRANSACTION") 500

  unfoldable pub tell_deleted : ℕ → Bytes → World S T → World S T
  unfolding publish
  tell_deleted ticket id w =
      publish (ticket_deleted ticket id (tables.load_ticket ticket w.store)) w

  abbrev pub told : ℕ → Bytes → Option AppError × S → World S T → Option AppError × World S T
  told ticket id (some e, t) w = (some e, record w { store = t })
  told ticket id (none, t) w = (none, tell_deleted ticket id (record w { store = t }))

  -- What follows the transaction.
  abbrev pub removed :
      Bytes → Message → World S T → Result TxError Bytes × S → Option AppError × World S T
  removed id m w (err e, t) = (some (tx_error e), record w { store = t })
  removed id m w (ok body, t) =
      if m.body == body
      then (none, tell_deleted m.ticket_id id (record w { store = t }))
      else told m.ticket_id id (tables.update_last_message m.ticket_id body t) w

  unfoldable pub delete_seen : Bytes → Claims → Message → World S T → Option AppError × World S T
  unfolding can_delete remove_message tell_deleted
  delete_seen id actor m w = elim (tables.show_ticket m.ticket_id actor w.store) [
    | err e ↦ (some e, w)
    | ok owner ↦
        if can_delete actor owner
        then removed id m w (transaction tables.commits (remove_message id m.ticket_id) w.store)
        else (some no_permission, w)
  ]

  unfoldable pub delete_message : Bytes → Option Claims → World S T → Option AppError × World S T
  unfolding find_by_id delete_seen
  delete_message id actor w = if is_nil id then (some invalid_input, w) else elim actor [
    | none ↦ (some no_permission, w)
    | some a ↦ elim (find_by_id id w.store) [ err e ↦ (some e, w) | ok m ↦ delete_seen id a m w ]
  ]
