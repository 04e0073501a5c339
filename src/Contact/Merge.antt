-- ===== src/Contact/Merge.antt =====
-- backend/internal/contact/merge.go, and `CreateOrUpdate` of service.go.
pub mod Conflict
pub mod Upsert
use whaticket_community.Prelude.{
  ℕ, ◌≡◌, Bool, true, false, Option, none, some, List, [], ◌∷◌, ◌++◌, Bytes, bytes, bytes_keyed,
  ◌==◌, if◌then◌else◌, nat_beq, not, ◌&&◌, is_nil, trim_space,
}
use whaticket_community.Platform.{
  Result, ok, err, ◌>>=◌, DbError, undefined_table, record_not_found, AppError, new_error,
  wrap_error, is_not_found, TxError, app, db, statement, transaction,
}
use whaticket_community.Contact.Model.{
  Contact, CreateOrUpdateRequest, Updates, no_updates, is_empty, normalize_number, keep_if_empty,
}
use whaticket_community.Contact.Store.{Store}

pub data Action : Type 0 where
  created updated_same merged updated_lid updated_number : Action

-- `updatesFromReq`
unfoldable pub updates_from_req : Contact → CreateOrUpdateRequest → Updates
updates_from_req existing req =
    let name = keep_if_empty existing.name req.name in
    let pic = keep_if_empty existing.profile_pic_url req.profile_pic_url in
    record no_updates {
      name = if name == existing.name then none else some name;
      profile_pic_url = if pic == existing.profile_pic_url then none else some pic;
      email =
          if not (is_nil req.email) && not (req.email == existing.email)
          then some req.email
          else none;
    }

-- `isMissingTableError`
abbrev pub is_missing_table : DbError → Bool
is_missing_table undefined_table = true
is_missing_table _ = false

-- `execTolerateMissing`
unfoldable pub exec_tolerate_missing : {S : Type 0} → (S → Result DbError S) → S → Result DbError S
exec_tolerate_missing exec s = elim (exec s) [
  | ok t ↦ ok t
  | err e ↦ if is_missing_table e then ok s else err e
]

-- The columns that a merge of two contacts sets on the one that survives.
unfoldable pub merged_updates : Contact → CreateOrUpdateRequest → Updates
unfolding updates_from_req
merged_updates by_number req =
    let updates = record (updates_from_req by_number req) { lid = some req.lid } in
    let missing : Bool = elim updates.profile_pic_url [ none ↦ true | some v ↦ is_nil v ] in
    if missing && not (is_nil req.profile_pic_url)
    then record updates { profile_pic_url = some req.profile_pic_url }
    else updates

unfoldable pub lid_updates : Contact → CreateOrUpdateRequest → Updates
unfolding updates_from_req
lid_updates existing req =
    let updates = updates_from_req existing req in
    if is_nil req.lid then updates else record updates { lid = some req.lid }

unfoldable pub number_updates : Contact → CreateOrUpdateRequest → Updates
unfolding updates_from_req
number_updates existing req =
    let updates = updates_from_req existing req in
    if is_nil req.number then updates else record updates { number = some req.number }

-- The row that `mergeInsertNew` inserts.
abbrev pub new_row : CreateOrUpdateRequest → Contact
new_row req = record {
  id = 0;
  name = req.name;
  number = req.number;
  lid = req.lid;
  email = req.email;
  profile_pic_url = req.profile_pic_url;
  is_group = req.is_group;
}

module _ {S : Type 0} (tables : Store S) (req : CreateOrUpdateRequest) where
  -- What merge answers: the id of the contact, what was done, and the tables.
  abbrev pub Merged : Type 0
  Merged = Result DbError ((ℕ × Action) × S)

  unfoldable pub insert_new : S → Merged
  insert_new s = elim (tables.create (new_row req) s) [
    | err e ↦ err e
    | ok (t, id) ↦ ok ((id, created), t)
  ]

  -- `mergeUpdateSame`, `mergeUpdateLID` and `mergeUpdateNumber`, which differ in the columns.
  unfoldable pub write_columns : ℕ → Updates → Action → S → Merged
  write_columns id updates action s =
      if is_empty updates
      then ok ((id, action), s)
      else elim (tables.update id updates s) [ err e ↦ err e | ok t ↦ ok ((id, action), t) ]

  unfoldable pub reassign_and_destroy : Contact → Contact → S → Merged
  reassign_and_destroy by_number by_lid s = do
    t ← exec_tolerate_missing (tables.move_tickets by_number.id by_lid.id) s
    u ← exec_tolerate_missing (tables.move_messages by_number.id by_lid.id) t
    v ← tables.update by_number.id (merged_updates by_number req) u
    removed ← tables.remove by_lid.id v
    ok ((by_number.id, merged), removed.0)

  unfoldable pub merge : Option Contact → Option Contact → S → Merged
  unfolding insert_new write_columns
  merge none none s = insert_new s
  merge (some by_number) none s =
      write_columns by_number.id (lid_updates by_number req) updated_lid s
  merge none (some by_lid) s = write_columns by_lid.id (number_updates by_lid req) updated_number s
  merge (some by_number) (some by_lid) s =
      if nat_beq by_number.id by_lid.id
      then write_columns by_number.id (updates_from_req by_number req) updated_same s
      else reassign_and_destroy by_number by_lid s

-- `findOneByField`
unfoldable pub find_one :
    {S : Type 0}
    → (Bytes → S → Result DbError Contact)
    → Bytes
    → S
    → Result DbError (Option Contact)
find_one first value s = if is_nil value then ok none else elim (first value s) [
  | ok c ↦ ok (some c)
  | err e ↦ if is_not_found e then ok none else err e
]

pub data Frame : Type 0 where
  contact_created contact_updated : Contact → Frame
  contact_deleted : ℕ → Frame

pub record World (S : Type 0) : Type 0 where
  pub store : S
  pub frames : List Frame

module _ {S : Type 0} (tables : Store S) (ws : Bool) where
  -- `publish`, on the channel of everybody
  unfoldable pub publish : Frame → World S → World S
  publish frame w = if ws then record w { frames = w.frames ++ frame ∷ [] } else w

  -- `loadByID`
  unfoldable pub load_by_id : ℕ → S → Result AppError Contact
  load_by_id id s = elim (tables.first id s) [
    | ok c ↦ ok c
    | err e ↦
        if is_not_found e
        then err (new_error (bytes "ERR_NO_CONTACT_FOUND") 404)
        else err (wrap_error e (bytes "ERR_DB_QUERY") 500)
  ]

  -- The request as `CreateOrUpdate` changes it.
  unfoldable pub normalized : CreateOrUpdateRequest → CreateOrUpdateRequest
  normalized req = record req {
    number = normalize_number req.number req.is_group;
    name = trim_space req.name;
  }

  -- The function that runs in the transaction.
  unfoldable pub find_and_merge : CreateOrUpdateRequest → S → Result TxError ((ℕ × Action) × S)
  unfolding find_one
  find_and_merge req s = statement (do
    by_number ← find_one tables.first_number req.number s
    by_lid ← find_one tables.first_lid req.lid s
    merge tables req by_number by_lid s)

  unfoldable pub tx_error : TxError → AppError
  tx_error (app e) = e
  tx_error (db e) = wrap_error e (bytes "ERR_DB_TRANSACTION") 500

  abbrev pub frame_of : Action → Contact → Frame
  frame_of created c = contact_created c
  frame_of updated_same c = contact_updated c
  frame_of merged c = contact_updated c
  frame_of updated_lid c = contact_updated c
  frame_of updated_number c = contact_updated c

  unfoldable pub reload_and_publish : ℕ → Action → World S → Result AppError Contact × World S
  unfolding load_by_id publish
  reload_and_publish id action w = elim (load_by_id id w.store) [
    | err e ↦ (err e, w)
    | ok c ↦ (ok c, publish (frame_of action c) w)
  ]

  -- What follows the transaction.
  abbrev pub committed :
      World S → Result TxError (ℕ × Action) × S → Result AppError Contact × World S
  committed w (err e, t) = (err (tx_error e), record w { store = t })
  committed w (ok (id, action), t) = reload_and_publish id action (record w { store = t })

  unfoldable pub create_or_update :
      CreateOrUpdateRequest → World S → Result AppError Contact × World S
  unfolding normalized find_and_merge transaction reload_and_publish
  create_or_update request w =
      let req = normalized request in
      if is_nil req.number && is_nil req.lid
      then (err (new_error (bytes "ERR_INVALID_NUMBER") 400), w)
      else committed w (transaction tables.commits (find_and_merge req) w.store)
