-- ===== src/Contact/Service/Writes.antt =====
-- backend/internal/contact/service.go: what `Create` of a contact leaves, on each of its ways out.
use whaticket_community.Prelude.{
  ℕ, ◌≡◌, ◌≢◌, ◌∙◌, inl, inr, Bool, false, none, some, arith, Bytes, bytes, Option-cases, subst,
  bytes_keyed,
}
use whaticket_community.Platform.{
  Result, ok, err, Result-cases, AppError, TxError, transaction, transaction-Ran, RolledBack, Ran,
  rolled_back, ran,
}
use whaticket_community.Contact.Model.{Contact, CreateRequest, normalize_number}
use whaticket_community.Contact.Store.{Store}
use whaticket_community.Contact.Validator.{
  Validation, trim_create, validate_create, validate_number_format, IsPhone,
  validate_number-IsPhone, map_validation_error,
}
use whaticket_community.Contact.Merge.{World, Frame, load_by_id, publish}
use whaticket_community.Contact.Service.{
  create_fields, created_row, insert_contact, reload, created_contact, create_contact, translated,
}
use whaticket_community.Contact.Service.Rows.{create_fields-keeps, load_by_id-ok}

validate_create-IsPhone :
    (rules : Bytes → Bytes → Validation) (req : CreateRequest)
    → validate_create rules req ≡ none
    → IsPhone (normalize_number req.number false)
unfolding validate_create
validate_create-IsPhone rules req h =
    elim (Option-cases (map_validation_error (rules req.name req.email))) [
      | inr (e, x) ↦ absurd (ground (arith, x, h))
      | inl x ↦ elim (Option-cases (validate_number_format req.number)) [
        | inr (e, y) ↦ absurd (ground (arith, x, y, h))
        | inl y ↦ validate_number-IsPhone req.number y
      ]
    ]

module _ {S : Type 0} (tables : Store S) (ws : Bool) where
  -- Reading a contact back: what is answered is what stands in the tables, and that is told of.
  pub data Answered (frame : Contact → Frame) (id : ℕ) (w : World S)
      : Result AppError Contact × World S → Type 0 where
    not_read :
        (e : AppError) → load_by_id tables ws id w.store ≡ err e → Answered frame id w (err e, w)
    read :
        (c : Contact)
        → tables.find id w.store ≡ some c
        → Answered frame id w (ok c, publish tables ws (frame c) w)

  pub reload-Answered :
      (frame : Contact → Frame) (id : ℕ) (w : World S)
      → Answered frame id w (reload tables ws frame id w)
  unfolding reload
  reload-Answered frame id w = elim (Result-cases (load_by_id tables ws id w.store)) [
    | inr (e, x) ↦ rw (x, reload) (not_read e x)
    | inl (c, x) ↦ rw (x, reload) (read c (load_by_id-ok tables ws id w.store x))
  ]

  module _ (request : CreateRequest) (w : World S) where
    -- The row of a contact that `Create` inserts.
    pub record Inserted (t : S) (id : ℕ) : Type 0 where
      pub fresh : tables.find id w.store ≡ none
      pub found :
          tables.find id t ≡ some (record (created_row tables (trim_create request)) { id = id })
      pub others : (j : ℕ) → id ≢ j → tables.find j t ≡ tables.find j w.store

    -- Why a creation is refused, and with which error.
    pub data CreateRefusal (rules : Bytes → Bytes → Validation) : AppError → Type 0 where
      bad_request :
          (e : AppError)
          → validate_create rules (trim_create request) ≡ some e
          → CreateRefusal rules e
      not_inserted :
          (e : TxError)
          → RolledBack tables.commits (insert_contact tables (trim_create request)) w.store e
          → CreateRefusal rules (translated tables (bytes "ERR_DB_INSERT") e)

    pub data Made (rules : Bytes → Bytes → Validation)
        : Result AppError Contact × World S → Type 0 where
      refused : (e : AppError) → CreateRefusal rules e → Made rules (err e, w)
      made :
          (id : ℕ) (t : S) {p : Result AppError Contact × World S}
          → Inserted t id
          → IsPhone (normalize_number (trim_create request).number false)
          → Answered Frame.contact_created id (record w { store = t }) p
          → Made rules p

    insert-Inserted :
        (id : ℕ) {t : S}
        → insert_contact tables (trim_create request) w.store ≡ ok (id, t)
        → Inserted t id
    unfolding insert_contact
    insert-Inserted id {t} h =
        let req = trim_create request in
        elim (Result-cases (tables.create (created_row tables req) w.store)) [
          | inr (e, x) ↦ absurd (ground (arith, x, h))
          | inl ((u, i), x) ↦ elim (Result-cases (create_fields tables i req.extra_info u)) [
            | inr (e, y) ↦ absurd (ground (arith, x, y, h))
            | inl (v, y) ↦
                let same_id : i ≡ id = ground (arith, x, y, h) in
                let same : v ≡ t = ground (arith, x, y, h) in
                let keeps = λ (j : ℕ). create_fields-keeps tables i req.extra_info u j y in
                let row = λ (j : ℕ). tables.create_lem (created_row tables req) w.store j x in
                subst (λ (k : ℕ). Inserted t k) same_id
                  (subst (λ (z : S). Inserted z i) same
                    (record {
                      fresh = (row i).0;
                      found = keeps i ∙ (row i).1 ∙ ground arith;
                      others = λ j n. keeps j ∙ (row j).1 ∙ ground arith;
                    }))
          ]
        ]

    created-Made :
        (rules : Bytes → Bytes → Validation) (p : Result TxError ℕ × S)
        → IsPhone (normalize_number (trim_create request).number false)
        → Ran tables.commits (insert_contact tables (trim_create request)) w.store p
        → Made rules (created_contact tables ws w p)
    created-Made rules _ n (rolled_back e h) = refused _ (not_inserted e h)
    created-Made rules _ n (ran id t h) =
        made id t (insert-Inserted id h) n
          (reload-Answered Frame.contact_created id (record w { store = t }))

    -- `Create` changes nothing and answers why, which is that the request is not valid or that the
    -- transaction failed; or it adds a row with the columns of the trimmed request under a new
    -- id and leaves all other contacts as they were. The number is then of 8 to 15 digits. A contact
    -- that is read back is told of once, as created.
    pub create_contact-Made :
        (rules : Bytes → Bytes → Validation) → Made rules (create_contact tables ws rules request w)
    unfolding create_contact
    create_contact-Made rules =
        let req = trim_create request in
        elim (Option-cases (validate_create rules req)) [
          | inr (e, x) ↦ rw (x, create_contact) (refused e (bad_request e x))
          | inl x ↦
              rw (x, create_contact)
                (created-Made rules (transaction tables.commits (insert_contact tables req) w.store)
                  (validate_create-IsPhone rules req x)
                  (transaction-Ran tables.commits (insert_contact tables req) w.store))
        ]
