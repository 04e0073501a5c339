-- ===== src/Connection/Service.antt =====
-- backend/internal/whatsapp/service.go, commands.go and bootstrap.go: the requests on one connection,
-- over the tables, and the commands that they send to the worker.
pub mod Rows
pub mod Default
pub mod Writes
pub mod Deletion
use whaticket_community.Prelude.{
  ℕ, ◌≡◌, Bool, true, false, ◌&&◌, not, Option, none, some, List, [], ◌∷◌, ◌++◌, Bytes, bytes,
  bytes_keyed, bytes_beq, ◌==◌, if◌then◌else◌, nat_beq, is_nil, length, get_or, is_some,
}
use whaticket_community.Platform.{
  Result, ok, err, ◌>>=◌, DbError, unique_violation, record_not_found, AppError, new_error,
  wrap_error, is_not_found, TxError, app, db, statement, transaction,
}
use whaticket_community.Queue.Ids.{dedupe_ids}
use whaticket_community.Connection.Model.{
  AdvancedSettings, Connection, CreateRequest, UpdateRequest, Updates, build_update_map, is_empty,
  new_connection, trim_create, trim_update, Validation, validate_create, validate_update,
}
use whaticket_community.Connection.Store.{Store}

-- The events for the browsers, on the channel `notification`.
pub data Frame : Type 0 where
  whatsapp_update session_update session_delete : Connection → Frame
  whatsapp_delete : ℕ → Frame

-- The commands for the worker.
pub data Command : Type 0 where
  start_session update_settings : ℕ → AdvancedSettings → Command
  logout : ℕ → Command

-- `commands` are those that are given to the publisher; whether it takes them is only logged.
pub record World (S : Type 0) : Type 0 where
  pub store : S
  pub frames : List Frame
  pub commands : List Command

abbrev pub send : {S : Type 0} → Command → World S → World S
send c w = record w { commands = w.commands ++ c ∷ [] }

abbrev pub not_found : AppError
not_found = new_error (bytes "ERR_WAPP_NOT_FOUND") 404

abbrev pub invalid_queue : AppError
invalid_queue = new_error (bytes "ERR_INVALID_QUEUE") 400

abbrev pub name_exists : AppError
name_exists = new_error (bytes "ERR_WAPP_NAME_EXISTS") 409

-- `translatePgError`
unfoldable pub translate_pg_error : DbError → Option AppError
translate_pg_error (unique_violation name) =
    if name == bytes "whatsapps_name_uniq"
    then some name_exists
    else if name == bytes "whatsapps_one_default"
    then some name_exists
    else none
translate_pg_error e = none

-- The error of the transaction, with the code that an untranslated one is wrapped with.
abbrev pub translated : Bytes → TxError → AppError
translated code (app e) = e
translated code (db e) = elim (translate_pg_error e) [ some x ↦ x | none ↦ wrap_error e code 500 ]

abbrev pub bool_beq : Bool → Bool → Bool
bool_beq true b = b
bool_beq false b = not b

abbrev pub settings_beq : AdvancedSettings → AdvancedSettings → Bool
settings_beq a b =
    bool_beq a.always_online b.always_online
    && (bool_beq a.reject_call b.reject_call
        && (bytes_beq a.msg_reject_call b.msg_reject_call
            && (bool_beq a.read_messages b.read_messages
                && (bool_beq a.ignore_groups b.ignore_groups
                    && bool_beq a.ignore_status b.ignore_status))))

module _ {S : Type 0} (tables : Store S) (ws : Bool) where
  unfoldable pub publish : Frame → World S → World S
  publish frame w = if ws then record w { frames = w.frames ++ frame ∷ [] } else w

  -- `Get`
  unfoldable pub load_by_id : ℕ → S → Result AppError Connection
  load_by_id id s = elim (tables.first id s) [
    | ok c ↦ ok c
    | err e ↦
        if is_not_found e then err not_found else err (wrap_error e (bytes "ERR_DB_QUERY") 500)
  ]

  -- `loadQueuesByIDs`
  unfoldable pub load_queues : List ℕ → S → Result TxError (List ℕ)
  unfolding dedupe_ids
  load_queues ids s = if is_nil ids then ok [] else elim (tables.find_queues (dedupe_ids ids) s) [
    | err e ↦ err (db e)
    | ok queues ↦
        if nat_beq (length queues) (length (dedupe_ids ids))
        then ok queues
        else err (app invalid_queue)
  ]

  unfoldable pub assign_queues : ℕ → List ℕ → S → Result TxError S
  unfolding load_queues
  assign_queues id ids s = do
    queues ← load_queues ids s
    statement (tables.replace_queues id queues s)

  unfoldable pub demote : Bool → Option ℕ → S → Result TxError S
  demote asked id s = if asked then statement (tables.clear_default id s) else ok s

  -- The function that `Create` runs in the transaction.
  unfoldable pub insert_connection : CreateRequest → S → Result TxError (ℕ × S)
  unfolding demote assign_queues
  insert_connection req s = do
    t ← demote (new_connection req).is_default none s
    made ← statement (tables.create (new_connection req) t)
    u ← (if is_nil req.queue_ids then ok made.0 else assign_queues made.1 req.queue_ids made.0)
    ok (made.1, u)

  -- Both events that end a request.
  unfoldable pub tell : Connection → World S → World S
  unfolding publish
  tell c w = publish (session_update c) (publish (whatsapp_update c) w)

  abbrev pub started : Result AppError Connection → World S → Result AppError Connection × World S
  started (err e) w = (err e, w)
  started (ok c) w = (ok c, tell c (send (start_session c.id c.settings) w))

  abbrev pub created : World S → Result TxError ℕ × S → Result AppError Connection × World S
  created w (err e, t) = (err (translated (bytes "ERR_DB_INSERT") e), record w { store = t })
  created w (ok id, t) = started (load_by_id id t) (record w { store = t })

  unfoldable pub create_connection :
      (CreateRequest → Validation) → CreateRequest → World S → Result AppError Connection × World S
  unfolding insert_connection load_by_id
  create_connection rules request w =
      let req = trim_create request in
      elim (validate_create (rules req) req) [
        | some e ↦ (err e, w)
        | none ↦ created w (transaction tables.commits (insert_connection req) w.store)
      ]

  unfoldable pub write_columns : ℕ → Updates → S → Result TxError S
  write_columns id u s = if is_empty u then ok s else statement (tables.update id u s)

  unfoldable pub assign_asked : ℕ → Option (List ℕ) → S → Result TxError S
  unfolding assign_queues
  assign_asked id none s = ok s
  assign_asked id (some ids) s = assign_queues id ids s

  -- The function that `Update` runs in the transaction.
  unfoldable pub write_connection : ℕ → UpdateRequest → S → Result TxError (Unit {0} × S)
  unfolding demote write_columns assign_asked
  write_connection id req s = do
    t ← demote (get_or req.is_default false) (some id) s
    u ← write_columns id (build_update_map req) t
    v ← assign_asked id req.queue_ids u
    ok (tt, v)

  -- The settings of a session are sent where a request named them and they have changed.
  abbrev pub settings_sent : Bool → Connection → Connection → World S → World S
  settings_sent asked existing c w =
      if asked && not (settings_beq c.settings existing.settings)
      then send (update_settings c.id c.settings) w
      else w

  abbrev pub answered :
      Bool
      → Connection
      → Result AppError Connection
      → World S
      → Result AppError Connection × World S
  answered asked existing (err e) w = (err e, w)
  answered asked existing (ok c) w = (ok c, tell c (settings_sent asked existing c w))

  abbrev pub updated :
      ℕ
      → Bool
      → Connection
      → World S
      → Result TxError (Unit {0}) × S
      → Result AppError Connection × World S
  updated id asked existing w (err e, t) =
      (err (translated (bytes "ERR_DB_UPDATE") e), record w { store = t })
  updated id asked existing w (ok done, t) =
      answered asked existing (load_by_id id t) (record w { store = t })

  unfoldable pub update_connection :
      (UpdateRequest → Validation)
      → ℕ
      → UpdateRequest
      → World S
      → Result AppError Connection × World S
  unfolding write_connection load_by_id
  update_connection rules id request w =
      let req = trim_update request in
      elim (validate_update (rules req) req) [
        | some e ↦ (err e, w)
        | none ↦ elim (load_by_id id w.store) [
          | err e ↦ (err e, w)
          | ok existing ↦
              updated id (is_some req.settings) existing w
                (transaction tables.commits (write_connection id req) w.store)
        ]
      ]

  -- The function that `Delete` runs in the transaction.
  unfoldable pub remove_connection : ℕ → S → Result TxError (Unit {0} × S)
  remove_connection id s = statement (do
    t ← tables.clear_queues id s
    removed ← tables.remove id t
    if nat_beq removed.1 0 then err record_not_found else ok (tt, removed.0))

  abbrev pub delete_error : TxError → AppError
  delete_error (app e) = e
  delete_error (db e) =
      if is_not_found e then not_found else wrap_error e (bytes "ERR_DB_DELETE") 500

  abbrev pub deleted :
      Connection → World S → Result TxError (Unit {0}) × S → Option AppError × World S
  deleted c w (err e, t) = (some (delete_error e), record w { store = t })
  deleted c w (ok done, t) =
      (none, publish (session_delete c) (publish (whatsapp_delete c.id) (record w { store = t })))

  -- The session is logged out before the transaction begins.
  unfoldable pub delete_connection : ℕ → World S → Option AppError × World S
  unfolding remove_connection load_by_id
  delete_connection id w = elim (load_by_id id w.store) [
    | err e ↦ (some e, w)
    | ok c ↦
        deleted c (send (logout c.id) w)
          (transaction tables.commits (remove_connection c.id) w.store)
  ]
