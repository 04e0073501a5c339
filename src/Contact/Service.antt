-- ===== src/Contact/Service.antt =====
-- backend/internal/contact/service.go and extrainfo.go: the requests on one contact, over the tables.
pub mod Rows
pub mod Writes
pub mod Changes
use whaticket_community.Prelude.{
  ℕ, ◌≡◌, Bool, true, false, Option, none, some, List, [], ◌∷◌, ◌++◌, Bytes, bytes, bytes_keyed,
  ◌==◌, if◌then◌else◌, nat_beq, not, is_nil, has, keys, nat_keyed, insert, ltb, filter, map,
}
use whaticket_community.Platform.{
  Result, ok, err, ◌>>=◌, DbError, unique_violation, record_not_found, AppError, new_error,
  wrap_error, is_not_found, TxError, app, db, statement, transaction,
}
use whaticket_community.Contact.Model.{
  Contact, CustomField, CustomFieldData, CreateRequest, UpdateRequest, Updates, no_updates,
  is_empty, normalize_number,
}
use whaticket_community.Contact.Store.{Store}
use whaticket_community.Contact.Validator.{
  Validation, trim_create, trim_update, validate_create, validate_update, validate_extra_info,
}
use whaticket_community.Contact.Merge.{World, Frame, load_by_id, publish}

-- The map `payloadIDs`
unfoldable pub payload_ids : List CustomFieldData → List (ℕ × CustomFieldData)
payload_ids [] = []
payload_ids (item ∷ items) = elim item.id [
  | none ↦ payload_ids items
  | some id ↦ insert id item (payload_ids items)
]

-- `idsToDelete`
unfoldable pub ids_to_delete : List (ℕ × CustomFieldData) → List CustomField → List ℕ
ids_to_delete kept [] = []
ids_to_delete kept (field ∷ existing) =
    let rest = ids_to_delete kept existing in
    if has field.id (keys kept) then rest else field.id ∷ rest

-- An error of a statement becomes an `AppError` that wraps it.
abbrev pub wrapping : {A : Type 0} → Bytes → Result DbError A → Result AppError A
wrapping code (ok a) = ok a
wrapping code (err e) = err (wrap_error e code 500)

abbrev pub no_error : Option AppError → {A : Type 0} → A → Result AppError A
no_error none a = ok a
no_error (some e) a = err e

module _ {S : Type 0} (tables : Store S) where
  unfoldable pub update_fields : ℕ → List (ℕ × CustomFieldData) → S → Result AppError S
  update_fields contact [] s = ok s
  update_fields contact ((id, item) ∷ items) s = do
    t ← wrapping (bytes "ERR_DB_UPDATE") (tables.update_field id contact item.name item.value s)
    update_fields contact items t

  unfoldable pub create_fields : ℕ → List CustomFieldData → S → Result DbError S
  create_fields contact [] s = ok s
  create_fields contact (item ∷ items) s = do
    t ← tables.create_field contact item.name item.value s
    create_fields contact items t

  unfoldable pub remove_listed : List ℕ → S → Result AppError S
  remove_listed ids s =
      if is_nil ids then ok s else wrapping (bytes "ERR_DB_DELETE") (tables.remove_fields ids s)

  abbrev pub is_new : CustomFieldData → Bool
  is_new item = elim item.id [ none ↦ true | some id ↦ false ]

  -- `upsertExtraInfo`
  unfoldable pub upsert_extra_info : ℕ → List CustomFieldData → S → Result AppError S
  unfolding remove_listed
  upsert_extra_info contact payload s = do
    t ← no_error (validate_extra_info [] payload) s
    existing ← wrapping (bytes "ERR_DB_QUERY") (tables.fields contact t)
    let kept = payload_ids payload
    u ← remove_listed (ids_to_delete kept existing) t
    v ← update_fields contact kept u
    wrapping (bytes "ERR_DB_INSERT") (create_fields contact (filter is_new payload) v)

  -- `translateUniqueViolation`, with what an untranslated error is wrapped in.
  abbrev pub translated : Bytes → TxError → AppError
  translated code (app e) = e
  translated code (db (unique_violation name)) = new_error (bytes "ERR_DUPLICATED_CONTACT") 400
  translated code (db e) = wrap_error e code 500

  -- The row that `Create` inserts.
  abbrev pub created_row : CreateRequest → Contact
  created_row req = record {
    id = 0;
    name = req.name;
    number = normalize_number req.number false;
    lid = [];
    email = req.email;
    profile_pic_url = [];
    is_group = false;
  }

  unfoldable pub insert_contact : CreateRequest → S → Result TxError (ℕ × S)
  insert_contact req s = statement (do
    made ← tables.create (created_row req) s
    t ← create_fields made.1 req.extra_info made.0
    ok (made.1, t))

  module _ (ws : Bool) where
    abbrev pub answer :
        (Contact → Frame) → Result AppError Contact → World S → Result AppError Contact × World S
    answer frame (err e) w = (err e, w)
    answer frame (ok c) w = (ok c, publish tables ws (frame c) w)

    -- `Create` and `Update` end by reading the contact back and telling of it.
    unfoldable pub reload : (Contact → Frame) → ℕ → World S → Result AppError Contact × World S
    reload frame id w = answer frame (load_by_id tables ws id w.store) w

    abbrev pub created_contact : World S → Result TxError ℕ × S → Result AppError Contact × World S
    created_contact w (err e, t) =
        (err (translated (bytes "ERR_DB_INSERT") e), record w { store = t })
    created_contact w (ok id, t) = reload Frame.contact_created id (record w { store = t })

    unfoldable pub create_contact :
        (Bytes → Bytes → Validation) → CreateRequest → World S → Result AppError Contact × World S
    create_contact rules request w =
        let req = trim_create request in
        elim (validate_create rules req) [
          | some e ↦ (err e, w)
          | none ↦ created_contact w (transaction tables.commits (insert_contact req) w.store)
        ]

    -- `numberTakenByOther`
    unfoldable pub number_taken : Bytes → ℕ → S → Result AppError Bool
    number_taken number id s =
        if is_nil number then ok false else elim (tables.count_number number (some id) s) [
          | err e ↦ err (wrap_error e (bytes "ERR_DB_QUERY") 500)
          | ok count ↦ ok (ltb 0 count)
        ]

    -- The map `updates` of `Update`, once the number is seen to be free.
    unfoldable pub number_column : Contact → ℕ → Option Bytes → S → Result AppError (Option Bytes)
    unfolding number_taken
    number_column existing id none s = ok none
    number_column existing id (some raw) s =
        let number = normalize_number raw existing.is_group in
        if number == existing.number then ok none else elim (number_taken number id s) [
          | err e ↦ err e
          | ok taken ↦
              if taken
              then err (new_error (bytes "ERR_DUPLICATED_CONTACT") 400)
              else ok (some number)
        ]

    abbrev pub columns : UpdateRequest → Option Bytes → Updates
    columns req number = record no_updates { name = req.name; email = req.email; number = number }

    abbrev pub app_result : {A : Type 0} → Result AppError A → Result TxError A
    app_result (ok a) = ok a
    app_result (err e) = err (app e)

    unfoldable pub write_columns : ℕ → Updates → S → Result TxError S
    write_columns id u s = if is_empty u then ok s else statement (tables.update id u s)

    unfoldable pub write_extra_info : ℕ → Option (List CustomFieldData) → S → Result TxError S
    write_extra_info id none s = ok s
    write_extra_info id (some items) s = app_result (upsert_extra_info id items s)

    unfoldable pub write_contact : ℕ → UpdateRequest → Updates → S → Result TxError (Unit {0} × S)
    write_contact id req u s = do
      t ← write_columns id u s
      v ← write_extra_info id req.extra_info t
      ok (tt, v)

    abbrev pub updated_contact :
        ℕ → World S → Result TxError (Unit {0}) × S → Result AppError Contact × World S
    updated_contact id w (err e, t) =
        (err (translated (bytes "ERR_DB_UPDATE") e), record w { store = t })
    updated_contact id w (ok done, t) = reload Frame.contact_updated id (record w { store = t })

    unfoldable pub update_existing :
        ℕ → UpdateRequest → Contact → World S → Result AppError Contact × World S
    update_existing id req existing w = elim (number_column existing id req.number w.store) [
      | err e ↦ (err e, w)
      | ok number ↦
          updated_contact id w
            (transaction tables.commits (write_contact id req (columns req number)) w.store)
    ]

    unfoldable pub update_contact :
        (Option Bytes → Option Bytes → Validation)
        → ℕ
        → UpdateRequest
        → World S
        → Result AppError Contact × World S
    unfolding update_existing
    update_contact rules id request w =
        let req = trim_update request in
        elim (validate_update rules req) [
          | some e ↦ (err e, w)
          | none ↦ elim (load_by_id tables ws id w.store) [
            | err e ↦ (err e, w)
            | ok existing ↦ update_existing id req existing w
          ]
        ]

    unfoldable pub remove_contact : ℕ → S → Result TxError (Unit {0} × S)
    remove_contact id s = statement (do
      t ← tables.remove_fields_of id s
      removed ← tables.remove id t
      if nat_beq removed.1 0 then err record_not_found else ok (tt, removed.0))

    abbrev pub delete_error : TxError → AppError
    delete_error (app e) = e
    delete_error (db record_not_found) = new_error (bytes "ERR_NO_CONTACT_FOUND") 404
    delete_error (db e) = wrap_error e (bytes "ERR_DB_DELETE") 500

    abbrev pub deleted_contact :
        ℕ → World S → Result TxError (Unit {0}) × S → Result AppError (Unit {0}) × World S
    deleted_contact id w (err e, t) = (err (delete_error e), record w { store = t })
    deleted_contact id w (ok done, t) =
        (ok tt, publish tables ws (Frame.contact_deleted id) (record w { store = t }))

    unfoldable pub delete_contact : ℕ → World S → Result AppError (Unit {0}) × World S
    unfolding remove_contact
    delete_contact id w =
        deleted_contact id w (transaction tables.commits (remove_contact id) w.store)

  -- `CountByNumber`
  unfoldable pub count_by_number : Bytes → S → Result AppError ℕ
  count_by_number number s =
      let normalized = normalize_number number false in
      if is_nil normalized
      then ok 0
      else wrapping (bytes "ERR_DB_QUERY") (tables.count_number normalized none s)
