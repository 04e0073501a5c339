-- ===== src/Queue/Service.antt =====
-- backend/internal/queue/service.go: the requests on one queue, over the table `queues`.
pub mod Unique
use whaticket_community.Prelude.{
  ℕ, ◌≡◌, ◌≢◌, Bool, true, false, Option, none, some, List, [], ◌∷◌, ◌++◌, Bytes, bytes,
  bytes_keyed, ◌==◌, if◌then◌else◌, nat_beq, not, ltb,
}
use whaticket_community.Platform.Tables.{mapped}
use whaticket_community.Platform.{
  Result, ok, err, ◌>>=◌, DbError, unique_violation, AppError, new_error, wrap_error, is_not_found,
}
use whaticket_community.Queue.Model.{
  Queue, CreateRequest, UpdateRequest, apply, is_empty, trim_create, trim_update, create_faults,
  update_faults, map_validation_error,
}

-- `taken_name` and `taken_color` count the other queues that have a value.
pub record Store (S : Type 0) : Type 0 where
  pub find : ℕ → S → Option Queue
  pub first : ℕ → S → Result DbError Queue
  pub create : Queue → S → Result DbError (S × ℕ)
  pub update : ℕ → UpdateRequest → S → Result DbError S
  pub taken_name : Bytes → ℕ → S → Result DbError ℕ
  pub taken_color : Bytes → ℕ → S → Result DbError ℕ
  pub remove : ℕ → S → Result DbError (S × ℕ)
  pub first_lem : (id : ℕ) (s : S) {q : Queue} → first id s ≡ ok q → find id s ≡ some q
  pub create_lem :
      (row : Queue) (s : S) {t : S} {id : ℕ} (j : ℕ)
      → create row s ≡ ok (t, id)
      → find j t ≡ (if nat_beq id j then some (record row { id = id }) else find j s)
  pub update_lem :
      (id : ℕ) (u : UpdateRequest) (s : S) {t : S} (j : ℕ)
      → update id u s ≡ ok t
      → find j t ≡ (if nat_beq id j then mapped (apply u) (find j s) else find j s)
  pub taken_name_lem :
      (name : Bytes) (id : ℕ) (s : S) (j : ℕ) {q : Queue}
      → taken_name name id s ≡ ok 0
      → id ≢ j
      → find j s ≡ some q
      → q.name ≢ name
  pub taken_color_lem :
      (color : Bytes) (id : ℕ) (s : S) (j : ℕ) {q : Queue}
      → taken_color color id s ≡ ok 0
      → id ≢ j
      → find j s ≡ some q
      → q.color ≢ color
  pub remove_lem :
      (id : ℕ) (s : S) {t : S} {rows : ℕ} (j : ℕ)
      → remove id s ≡ ok (t, rows)
      → find j t ≡ (if nat_beq id j then none else find j s)

pub data Frame : Type 0 where
  queue_created queue_updated : Queue → Frame
  queue_deleted : ℕ → Frame

pub record World (S : Type 0) : Type 0 where
  pub store : S
  pub frames : List Frame

abbrev pub name_duplicated : AppError
name_duplicated = new_error (bytes "ERR_QUEUE_NAME_ALREADY_EXISTS") 400

abbrev pub color_duplicated : AppError
color_duplicated = new_error (bytes "ERR_QUEUE_COLOR_ALREADY_EXISTS") 400

abbrev pub not_found : AppError
not_found = new_error (bytes "ERR_QUEUE_NOT_FOUND") 404

-- `translateUniqueViolation`, with what an error that it leaves is wrapped in.
abbrev pub translated : Bytes → DbError → AppError
translated code (unique_violation name) =
    if name == bytes "queues_name_uniq"
    then name_duplicated
    else if name == bytes "queues_color_uniq"
    then color_duplicated
    else wrap_error (unique_violation name) code 500
translated code e = wrap_error e code 500

abbrev pub coded : {A : Type 0} → (DbError → AppError) → Result DbError A → Result AppError A
coded f (ok a) = ok a
coded f (err e) = err (f e)

abbrev pub query_error : DbError → AppError
query_error e = wrap_error e (bytes "ERR_DB_QUERY") 500

-- A request is refused with the first fault of its validation.
abbrev pub accepted : Option AppError → Result AppError (Unit {0})
accepted none = ok tt
accepted (some e) = err e

-- `uniqueFieldTaken`, and the error that follows it.
abbrev pub free_or : AppError → Result DbError ℕ → Result AppError (Unit {0})
free_or e (err x) = err (query_error x)
free_or e (ok n) = if ltb 0 n then err e else ok tt

module _ {S : Type 0} (tables : Store S) (fits : Bytes → Bool) (ws : Bool) where
  unfoldable pub publish : Frame → World S → World S
  publish frame w = if ws then record w { frames = w.frames ++ frame ∷ [] } else w

  abbrev pub new_queue : CreateRequest → Queue
  new_queue req = record {
    id = 0;
    name = req.name;
    color = req.color;
    greeting_message = req.greeting_message;
  }

  unfoldable pub insert_queue : CreateRequest → S → Result AppError (Queue × S)
  insert_queue req s = do
    valid ← accepted (map_validation_error (create_faults fits req))
    made ← coded (translated (bytes "ERR_DB_INSERT")) (tables.create (new_queue req) s)
    ok (record (new_queue req) { id = made.1 }, made.0)

  unfoldable pub create_queue : CreateRequest → World S → Result AppError Queue × World S
  unfolding insert_queue publish
  create_queue request w = elim (insert_queue (trim_create request) w.store) [
    | err e ↦ (err e, w)
    | ok (q, t) ↦ (ok q, publish (Frame.queue_created q) (record w { store = t }))
  ]

  unfoldable pub show : ℕ → S → Result AppError Queue
  show id s = elim (tables.first id s) [
    | ok q ↦ ok q
    | err e ↦ if is_not_found e then err not_found else err (query_error e)
  ]

  unfoldable pub free_name : ℕ → Option Bytes → Queue → S → Result AppError (Unit {0})
  free_name id none existing s = ok tt
  free_name id (some name) existing s =
      if name == existing.name then ok tt else free_or name_duplicated (tables.taken_name name id s)

  unfoldable pub free_color : ℕ → Option Bytes → Queue → S → Result AppError (Unit {0})
  free_color id none existing s = ok tt
  free_color id (some color) existing s =
      if color == existing.color
      then ok tt
      else free_or color_duplicated (tables.taken_color color id s)

  unfoldable pub write_columns : ℕ → UpdateRequest → S → Result AppError S
  write_columns id u s =
      if is_empty u then ok s else coded (translated (bytes "ERR_DB_UPDATE")) (tables.update id u s)

  -- What `Update` does before it reads the queue back.
  unfoldable pub write_queue : ℕ → UpdateRequest → S → Result AppError S
  unfolding show free_name free_color write_columns
  write_queue id req s = do
    valid ← accepted (map_validation_error (update_faults fits req))
    existing ← show id s
    name ← free_name id req.name existing s
    color ← free_color id req.color existing s
    write_columns id req s

  unfoldable pub reload : ℕ → World S → Result AppError Queue × World S
  unfolding show publish
  reload id w = elim (show id w.store) [
    | err e ↦ (err e, w)
    | ok q ↦ (ok q, publish (Frame.queue_updated q) w)
  ]

  unfoldable pub update_queue : ℕ → UpdateRequest → World S → Result AppError Queue × World S
  unfolding write_queue reload
  update_queue id request w = elim (write_queue id (trim_update request) w.store) [
    | err e ↦ (err e, w)
    | ok t ↦ reload id (record w { store = t })
  ]

  unfoldable pub delete_queue : ℕ → World S → Option AppError × World S
  delete_queue id w = elim (tables.remove id w.store) [
    | err e ↦ (some (wrap_error e (bytes "ERR_DB_DELETE") 500), w)
    | ok (t, rows) ↦
        if nat_beq rows 0
        then (some not_found, record w { store = t })
        else (none, publish (Frame.queue_deleted id) (record w { store = t }))
  ]
