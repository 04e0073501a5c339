-- ===== src/User/Service.antt =====
-- backend/internal/user/service.go: the requests on one user, over the tables.
pub mod Writes
pub mod Deletion
use whaticket_community.Prelude.{
  ℕ, ◌≡◌, Bool, true, false, ◌||◌, not, Option, none, some, List, [], ◌∷◌, ◌++◌, Bytes, bytes,
  bytes_keyed, ◌==◌, if◌then◌else◌, nat_beq, is_nil, contains, map, ◌+◌, leb, ◌&&◌,
}
use whaticket_community.Platform.{
  Result, ok, err, ◌>>=◌, DbError, unique_violation, foreign_key_violation, record_not_found,
  AppError, new_error, wrap_error, is_not_found, other_error, TxError, app, db, statement,
  transaction,
}
use whaticket_community.User.Model.{
  User, CreateRequest, UpdateRequest, Updates, is_empty, Validation, map_field_error,
  validate_update,
}
use whaticket_community.User.Store.{Store, Bcrypt}

pub data Frame : Type 0 where
  user_created user_updated : User → Frame
  user_deleted : ℕ → Frame

pub record World (S : Type 0) : Type 0 where
  pub store : S
  pub frames : List Frame

-- `strings.ToLower` of an ASCII text, as the names of the constraints are.
abbrev pub lower : ℕ → ℕ
lower c = if leb b'A' c && leb c b'Z' then c + 32 else c

-- `translatePgError`
unfoldable pub translate_pg_error : DbError → Option AppError
unfolding contains
translate_pg_error (unique_violation name) =
    if contains (map lower name) (bytes "email")
    then some (new_error (bytes "ERR_USER_EMAIL_EXISTS") 400)
    else none
translate_pg_error (foreign_key_violation name) =
    if contains (map lower name) (bytes "queue")
    then some (new_error (bytes "ERR_INVALID_QUEUE") 400)
    else if contains (map lower name) (bytes "whatsapp")
    then some (new_error (bytes "ERR_INVALID_WHATSAPP") 400)
    else none
translate_pg_error e = none

-- An error of the transaction, which is always one of a statement.
abbrev pub translated : Bytes → TxError → AppError
translated code (app e) = e
translated code (db e) = elim (translate_pg_error e) [ some x ↦ x | none ↦ wrap_error e code 500 ]

abbrev pub no_permission : AppError
no_permission = new_error (bytes "ERR_NO_PERMISSION") 403

-- Who asks: somebody who signs up, or a user, who may be an administrator.
pub data Actor : Type 0 where
  signing_up : Actor
  acting : Bool → Actor

module _ {S : Type 0} (tables : Store S) (crypt : Bcrypt) (ws : Bool) where
  unfoldable pub publish : Frame → World S → World S
  publish frame w = if ws then record w { frames = w.frames ++ frame ∷ [] } else w

  unfoldable pub load_by_id : ℕ → S → Result AppError User
  load_by_id id s = elim (tables.first id s) [
    | ok u ↦ ok u
    | err e ↦
        if is_not_found e
        then err (new_error (bytes "ERR_NO_USER_FOUND") 404)
        else err (wrap_error e (bytes "ERR_DB_QUERY") 500)
  ]

  abbrev pub answer :
      (User → Frame) → Result AppError User → World S → Result AppError User × World S
  answer frame (err e) w = (err e, w)
  answer frame (ok u) w = (ok u, publish (frame u) w)

  unfoldable pub reload : (User → Frame) → ℕ → World S → Result AppError User × World S
  unfolding load_by_id publish
  reload frame id w = answer frame (load_by_id id w.store) w

  -- Who may create a user: `setting` is what `Check` answers of `userCreation`.
  unfoldable pub creation_refusal : Result AppError Bytes → Actor → Option AppError
  creation_refusal setting signing_up = elim setting [
    | err e ↦ some e
    | ok value ↦
        if value == bytes "enabled"
        then none
        else some (new_error (bytes "ERR_USER_CREATION_DISABLED") 403)
  ]
  creation_refusal setting (acting is_admin) = if is_admin then none else some no_permission

  unfoldable pub write_queues : ℕ → Option (List ℕ) → S → Result DbError S
  write_queues id none s = ok s
  write_queues id (some ids) s = tables.replace_queues id ids s

  -- The row of a new user, with its password hashed by `BeforeSave`.
  abbrev pub new_user : CreateRequest → Bytes → User
  new_user req hash = record {
    id = 0;
    name = req.name;
    email = req.email;
    password_hash = hash;
    profile = if is_nil req.profile then bytes "admin" else req.profile;
    whatsapp_id = req.whatsapp_id;
    token_version = 0;
  }

  -- `BeforeSave`
  unfoldable pub before_save : Bytes → Option Bytes
  before_save password = if is_nil password then some [] else crypt.generate password

  unfoldable pub insert_user : CreateRequest → S → Result TxError (ℕ × S)
  unfolding write_queues before_save
  insert_user req s = elim (before_save req.password) [
    | none ↦ err (db other_error)
    | some hash ↦ statement (do
      made ← tables.create (new_user req hash) s
      t ← write_queues made.1 req.queue_ids made.0
      ok (made.1, t))
  ]

  abbrev pub created_user : World S → Result TxError ℕ × S → Result AppError User × World S
  created_user w (err e, t) = (err (translated (bytes "ERR_DB_INSERT") e), record w { store = t })
  created_user w (ok id, t) = reload user_created id (record w { store = t })

  unfoldable pub create_user :
      (CreateRequest → Validation)
      → Result AppError Bytes
      → CreateRequest
      → Actor
      → World S
      → Result AppError User × World S
  unfolding creation_refusal insert_user
  create_user rules setting req actor w = elim (creation_refusal setting actor) [
    | some e ↦ (err e, w)
    | none ↦ elim (map_field_error (rules req)) [
      | some e ↦ (err e, w)
      | none ↦ created_user w (transaction tables.commits (insert_user req) w.store)
    ]
  ]

  -- The hash of the password that a request asks for, if it asks for one.
  unfoldable pub rehash : Option Bytes → Result AppError (Option Bytes)
  rehash none = ok none
  rehash (some password) = if is_nil password then ok none else elim (crypt.generate password) [
    | none ↦ err (wrap_error other_error (bytes "ERR_HASH_PASSWORD") 500)
    | some hash ↦ ok (some hash)
  ]

  abbrev pub columns : UpdateRequest → Option Bytes → Updates
  columns req hash = record {
    name = req.name;
    email = req.email;
    profile = req.profile;
    whatsapp_id = req.whatsapp_id;
    rehashed = hash;
  }

  unfoldable pub write_columns : ℕ → Updates → S → Result DbError S
  write_columns id u s = if is_empty u then ok s else tables.update id u s

  unfoldable pub write_user : ℕ → UpdateRequest → Updates → S → Result TxError (Unit {0} × S)
  unfolding write_columns write_queues
  write_user id req u s =
      statement (do t ← write_columns id u s; v ← write_queues id req.queue_ids t; ok (tt, v))

  abbrev pub updated_user :
      ℕ → World S → Result TxError (Unit {0}) × S → Result AppError User × World S
  updated_user id w (err e, t) =
      (err (translated (bytes "ERR_DB_UPDATE") e), record w { store = t })
  updated_user id w (ok done, t) = reload user_updated id (record w { store = t })

  unfoldable pub update_user :
      (Bytes → Bool) → ℕ → UpdateRequest → Bool → World S → Result AppError User × World S
  unfolding rehash write_user
  update_user is_email id req is_admin w =
      if not is_admin then (err no_permission, w) else elim (validate_update is_email req) [
        | some e ↦ (err e, w)
        | none ↦ elim (load_by_id id w.store) [
          | err e ↦ (err e, w)
          | ok existing ↦ elim (rehash req.password) [
            | err e ↦ (err e, w)
            | ok hash ↦
                updated_user id w
                  (transaction tables.commits (write_user id req (columns req hash)) w.store)
          ]
        ]
      ]

  unfoldable pub remove_user : ℕ → S → Result TxError (Unit {0} × S)
  remove_user id s = statement (do
    t ← tables.free_tickets id s
    removed ← tables.remove id t
    if nat_beq removed.1 0 then err record_not_found else ok (tt, removed.0))

  abbrev pub delete_error : TxError → AppError
  delete_error (app e) = e
  delete_error (db e) =
      if is_not_found e
      then new_error (bytes "ERR_NO_USER_FOUND") 404
      else wrap_error e (bytes "ERR_DB_DELETE") 500

  abbrev pub deleted_user :
      ℕ → World S → Result TxError (Unit {0}) × S → Result AppError (Unit {0}) × World S
  deleted_user id w (err e, t) = (err (delete_error e), record w { store = t })
  deleted_user id w (ok done, t) = (ok tt, publish (user_deleted id) (record w { store = t }))

  unfoldable pub delete_user : ℕ → Bool → World S → Result AppError (Unit {0}) × World S
  unfolding remove_user
  delete_user id is_admin w =
      if is_admin
      then deleted_user id w (transaction tables.commits (remove_user id) w.store)
      else (err no_permission, w)
