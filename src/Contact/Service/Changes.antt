-- ===== src/Contact/Service/Changes.antt =====
-- backend/internal/contact/service.go: what `Update` of a contact leaves, on each of its ways out.
use whaticket_community.Prelude.{
  ℕ, ◌≡◌, ◌≢◌, ◌∙◌, inl, inr, refl, Bool, Option, none, some, List, arith, Bytes, bytes, get_or,
  Bool-cases, Option-cases, subst, bytes_beq_iff, bytes_keyed, ◌==◌,
}
use whaticket_community.Platform.{
  Result, ok, err, Result-cases, AppError, TxError, transaction-Ran, RolledBack, Ran, rolled_back,
  ran,
}
use whaticket_community.Contact.Model.{
  Contact, CustomFieldData, UpdateRequest, Updates, apply, is_empty, normalize_number,
}
use whaticket_community.Contact.Store.{Store}
use whaticket_community.Contact.Validator.{Validation, trim_update, validate_update}
use whaticket_community.Contact.Merge.{World, Frame, load_by_id}
use whaticket_community.Contact.Merge.Upsert.{empty-apply}
use whaticket_community.Contact.Service.{
  number_taken, number_column, columns, write_columns, write_extra_info, write_contact,
  updated_contact, update_existing, update_contact, upsert_extra_info, translated,
}
use whaticket_community.Contact.Service.Rows.{upsert-keeps, load_by_id-ok}
use whaticket_community.Contact.Service.Writes.{Answered, reload-Answered}

module _ {S : Type 0} (tables : Store S) (ws : Bool) where
  module _ (id : ℕ) (request : UpdateRequest) (w : World S) where
    abbrev req : UpdateRequest
    req = trim_update request

    abbrev renumbered : Option Bytes → Contact → Bytes
    renumbered none old = old.number
    renumbered (some raw) old = normalize_number raw old.is_group

    -- Each column that the request names is the request's.
    abbrev pub requested : Contact → Contact
    requested old = record old {
      name = get_or req.name old.name;
      email = get_or req.email old.email;
      number = renumbered req.number old;
    }

    pub record Written (t : S) (old : Contact) : Type 0 where
      pub was : tables.find id w.store ≡ some old
      pub found : tables.find id t ≡ some (requested old)
      pub others : (j : ℕ) → id ≢ j → tables.find j t ≡ tables.find j w.store

    -- Why an update is refused, and with which error.
    pub data Refusal (rules : Option Bytes → Option Bytes → Validation) : AppError → Type 0 where
      invalid : (e : AppError) → validate_update rules req ≡ some e → Refusal rules e
      not_loaded : (e : AppError) → load_by_id tables ws id w.store ≡ err e → Refusal rules e
      bad_number :
          (old : Contact) (e : AppError)
          → tables.find id w.store ≡ some old
          → number_column tables ws old id req.number w.store ≡ err e
          → Refusal rules e
      undone :
          (old : Contact) (number : Option Bytes) (e : TxError)
          → number_column tables ws old id req.number w.store ≡ ok number
          → RolledBack tables.commits
              (write_contact tables ws id req (columns tables ws req number))
              w.store
              e
          → Refusal rules (translated tables (bytes "ERR_DB_UPDATE") e)

    pub data Changed (rules : Option Bytes → Option Bytes → Validation)
        : Result AppError Contact × World S → Type 0 where
      refused : (e : AppError) → Refusal rules e → Changed rules (err e, w)
      changed :
          (old : Contact) (t : S) {p : Result AppError Contact × World S}
          → Written t old
          → Answered tables ws Frame.contact_updated id (record w { store = t }) p
          → Changed rules p

    column_lem :
        (old : Contact) (raw : Option Bytes) {number : Option Bytes}
        → number_column tables ws old id raw w.store ≡ ok number
        → get_or number old.number ≡ renumbered raw old
    unfolding number_column
    column_lem old none h = ground (arith, h)
    column_lem old (some raw) h =
        let number = normalize_number raw old.is_group in
        elim (Bool-cases (number == old.number)) [
          | inl y ↦ ground (arith, y, h, bytes_beq_iff number old.number)
          | inr k ↦ elim (Result-cases (number_taken tables ws number id w.store)) [
            | inr (e, x) ↦ absurd (ground (arith, k, x, h))
            | inl (taken, x) ↦ ground (arith, k, x, h)
          ]
        ]

    column-requested :
        (old : Contact) (number : Option Bytes)
        → number_column tables ws old id req.number w.store ≡ ok number
        → apply (columns tables ws req number) old ≡ requested old
    unfolding apply
    column-requested old number h = ground (arith, column_lem old req.number h)

    -- Writing columns changes the row of this id only.
    columns-write :
        (u : Updates) (old : Contact) {t : S}
        → tables.find id w.store ≡ some old
        → write_columns tables ws id u w.store ≡ ok t
        → (tables.find id t ≡ some (apply u old))
          × ((j : ℕ) → id ≢ j → tables.find j t ≡ tables.find j w.store)
    unfolding write_columns
    columns-write u old {t} f h = elim (Bool-cases (is_empty u)) [
      | inl y ↦
          let same : t ≡ w.store = ground (arith, y, h) in
          rw (same, empty-apply u old y) (f, λ j n. refl)
      | inr k ↦ elim (Result-cases (tables.update id u w.store)) [
        | inr (e, x) ↦ absurd (ground (arith, k, x, h))
        | inl (v, x) ↦
            let same : t ≡ v = ground (arith, k, x, h) in
            rw same (
              tables.update_lem id u w.store id x ∙ ground (arith, f),
              λ j n. tables.update_lem id u w.store j x ∙ ground arith,
            )
      ]
    ]

    extra-keeps :
        (items : Option (List CustomFieldData)) (s : S) {t : S} (j : ℕ)
        → write_extra_info tables ws id items s ≡ ok t
        → tables.find j t ≡ tables.find j s
    unfolding write_extra_info
    extra-keeps none s j h = ground (arith, h)
    extra-keeps (some items) s {t} j h = elim (Result-cases (upsert_extra_info tables id items s)) [
      | inr (e, x) ↦ absurd (ground (arith, x, h))
      | inl (v, x) ↦
          let same : v ≡ t = ground (arith, x, h) in
          upsert-keeps tables id items s j (x ∙ rw same refl)
    ]

    write-Written :
        (old : Contact) (number : Option Bytes) {t : S}
        → tables.find id w.store ≡ some old
        → number_column tables ws old id req.number w.store ≡ ok number
        → write_contact tables ws id req (columns tables ws req number) w.store ≡ ok (tt, t)
        → Written t old
    unfolding write_contact
    write-Written old number {t} f h k =
        let u = columns tables ws req number in
        elim (Result-cases (write_columns tables ws id u w.store)) [
          | inr (e, x) ↦ absurd (ground (arith, x, k))
          | inl (v, x) ↦ elim (Result-cases (write_extra_info tables ws id req.extra_info v)) [
            | inr (e, y) ↦ absurd (ground (arith, x, y, k))
            | inl (z, y) ↦
                let same : z ≡ t = ground (arith, x, y, k) in
                let (row, others) = columns-write u old f x in
                let keeps = λ (j : ℕ). extra-keeps req.extra_info v j y in
                subst (λ (q : S). Written q old) same
                  (record {
                    was = f;
                    found = keeps id ∙ row ∙ rw (column-requested old number h) refl;
                    others = λ j n. keeps j ∙ others j n;
                  })
          ]
        ]

    updated-Changed :
        (rules : Option Bytes → Option Bytes → Validation) (old : Contact) (number : Option Bytes)
        {p : Result TxError (Unit {0}) × S}
        → tables.find id w.store ≡ some old
        → number_column tables ws old id req.number w.store ≡ ok number
        → Ran tables.commits
            (write_contact tables ws id req (columns tables ws req number))
            w.store
            p
        → Changed rules (updated_contact tables ws id w p)
    updated-Changed rules old number f h (rolled_back e k) = refused _ (undone old number e h k)
    updated-Changed rules old number f h (ran a t k) =
        changed old t (write-Written old number f h k)
          (reload-Answered tables ws Frame.contact_updated id (record w { store = t }))

    existing-Changed :
        (rules : Option Bytes → Option Bytes → Validation) (old : Contact)
        → tables.find id w.store ≡ some old
        → Changed rules (update_existing tables ws id req old w)
    unfolding update_existing
    existing-Changed rules old f =
        elim (Result-cases (number_column tables ws old id req.number w.store)) [
          | inr (e, x) ↦ rw (x, update_existing) (refused e (bad_number old e f x))
          | inl (number, x) ↦
              rw (x, update_existing)
                (updated-Changed rules old number f x (
                  transaction-Ran tables.commits
                    (write_contact tables ws id req (columns tables ws req number)) w.store))
        ]

    -- `Update` changes nothing and answers why: the request is not valid, the contact could not be loaded,
    -- the number is taken, or the transaction failed; or it leaves all other contacts as they were and gives this one the
    -- name, the e-mail and the normalised number that the trimmed request names; what the request
    -- does not name stays. A contact that is read back is told of once, as updated.
    pub update_contact-Changed :
        (rules : Option Bytes → Option Bytes → Validation)
        → Changed rules (update_contact tables ws rules id request w)
    unfolding update_contact
    update_contact-Changed rules = elim (Option-cases (validate_update rules req)) [
      | inr (e, x) ↦ rw (x, update_contact) (refused e (invalid e x))
      | inl x ↦ elim (Result-cases (load_by_id tables ws id w.store)) [
        | inr (e, y) ↦ rw (x, y, update_contact) (refused e (not_loaded e y))
        | inl (old, y) ↦
            rw (x, y, update_contact)
              (existing-Changed rules old (load_by_id-ok tables ws id w.store y))
      ]
    ]
