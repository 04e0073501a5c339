-- ===== src/Contact/Service/Rows.antt =====
-- What the statements on the custom fields leave of the contacts, and what reading back answers.
use whaticket_community.Prelude.{
  ℕ, ◌≡◌, ◌∙◌, inl, inr, Bool, some, List, [], ◌∷◌, arith, Bytes, bytes, Bool-cases, Option-cases,
  filter,
}
use whaticket_community.Platform.{Result, ok, err, Result-cases, DbError, is_not_found}
use whaticket_community.Contact.Model.{Contact, CustomFieldData}
use whaticket_community.Contact.Store.{Store}
use whaticket_community.Contact.Validator.{validate_extra_info}
use whaticket_community.Contact.Merge.{load_by_id}
use whaticket_community.Contact.Service.{
  wrapping, payload_ids, ids_to_delete, update_fields, create_fields, remove_listed, is_new,
  upsert_extra_info,
}

module _ {S : Type 0} (tables : Store S) where
  wrapping-ok :
      {A : Type 0} (code : Bytes) (r : Result DbError A) {a : A} → wrapping code r ≡ ok a → r ≡ ok a
  wrapping-ok code (ok a) h = ground (arith, h)
  wrapping-ok code (err e) h = absurd (ground (arith, h))

  update_fields-keeps :
      (contact : ℕ) (items : List (ℕ × CustomFieldData)) (s : S) {t : S} (j : ℕ)
      → update_fields tables contact items s ≡ ok t
      → tables.find j t ≡ tables.find j s
  unfolding update_fields
  update_fields-keeps contact [] s {t} j h = ground (arith, h)
  update_fields-keeps contact ((id, item) ∷ items) s {t} j h =
      elim (Result-cases (tables.update_field id contact item.name item.value s)) [
        | inr (e, x) ↦ absurd (ground (arith, x, h))
        | inl (u, x) ↦
            update_fields-keeps contact items u j (rw (x, update_fields) at h)
            ∙ tables.update_field_lem id contact item.name item.value s j x
      ]

  pub create_fields-keeps :
      (contact : ℕ) (items : List CustomFieldData) (s : S) {t : S} (j : ℕ)
      → create_fields tables contact items s ≡ ok t
      → tables.find j t ≡ tables.find j s
  unfolding create_fields
  create_fields-keeps contact [] s {t} j h = ground (arith, h)
  create_fields-keeps contact (item ∷ items) s {t} j h =
      elim (Result-cases (tables.create_field contact item.name item.value s)) [
        | inr (e, x) ↦ absurd (ground (arith, x, h))
        | inl (u, x) ↦
            create_fields-keeps contact items u j (rw (x, create_fields) at h)
            ∙ tables.create_field_lem contact item.name item.value s j x
      ]

  remove_listed-keeps :
      (ids : List ℕ) (s : S) {t : S} (j : ℕ)
      → remove_listed tables ids s ≡ ok t
      → tables.find j t ≡ tables.find j s
  unfolding remove_listed
  remove_listed-keeps [] s {t} j h = ground (arith, h)
  remove_listed-keeps (id ∷ ids) s {t} j h =
      tables.remove_fields_lem (id ∷ ids) s j
        (wrapping-ok (bytes "ERR_DB_DELETE") (tables.remove_fields (id ∷ ids) s) h)

  -- The custom fields of a contact are replaced, and no contact changes.
  pub upsert-keeps :
      (contact : ℕ) (payload : List CustomFieldData) (s : S) {t : S} (j : ℕ)
      → upsert_extra_info tables contact payload s ≡ ok t
      → tables.find j t ≡ tables.find j s
  unfolding upsert_extra_info
  upsert-keeps contact payload s {t} j h = elim (Option-cases (validate_extra_info [] payload)) [
    | inr (e, x) ↦ absurd (ground (arith, x, h))
    | inl x ↦ elim (Result-cases (tables.fields contact s)) [
      | inr (e, y) ↦ absurd (ground (arith, x, y, h))
      | inl (existing, y) ↦
          let ids = ids_to_delete (payload_ids payload) existing in
          elim (Result-cases (remove_listed tables ids s)) [
            | inr (e, z) ↦ absurd (ground (arith, x, y, z, h))
            | inl (u, z) ↦
                elim (Result-cases (update_fields tables contact (payload_ids payload) u)) [
                  | inr (e, k) ↦ absurd (ground (arith, x, y, z, k, h))
                  | inl (v, k) ↦
                      create_fields-keeps contact (filter (is_new tables) payload) v j (
                        wrapping-ok (bytes "ERR_DB_INSERT") _
                          (rw (x, y, z, k, upsert_extra_info) at h))
                      ∙ update_fields-keeps contact (payload_ids payload) u j k
                      ∙ remove_listed-keeps ids s j z
                ]
          ]
    ]
  ]

  pub load_by_id-ok :
      (ws : Bool) (id : ℕ) (s : S) {c : Contact}
      → load_by_id tables ws id s ≡ ok c
      → tables.find id s ≡ some c
  unfolding load_by_id
  load_by_id-ok ws id s {c} h = elim (Result-cases (tables.first id s)) [
    | inl (d, x) ↦ tables.first_lem id s (x ∙ ground (arith, x, h))
    | inr (e, x) ↦ elim (Bool-cases (is_not_found e)) [
      | inl y ↦ absurd (ground (arith, x, y, h))
      | inr k ↦ absurd (ground (arith, x, k, h))
    ]
  ]
