-- ===== src/Contact/Merge/Conflict.antt =====
-- Two contacts are never merged: the survivor is given the LID while the other one still has it.
use whaticket_community.Prelude.{
  ℕ, ◌≡◌, ◌≢◌, inl, inr, ◌∙◌, sym, refl, Bool, false, some, [], ◌∷◌, arith, Bytes, nat_beq, is_nil,
  Bool-cases,
}
use whaticket_community.Platform.{
  Result, ok, err, Result-cases, DbError, AppError, transaction, TxError, db, transaction-err,
}
use whaticket_community.Contact.Model.{Contact, CreateOrUpdateRequest, apply}
use whaticket_community.Contact.Store.{Store}
use whaticket_community.Contact.Merge.{
  is_missing_table, exec_tolerate_missing, merged_updates, reassign_and_destroy, find_one, merge,
  World, normalized, find_and_merge, create_or_update, committed, tx_error,
}

is_nil-false : (s : Bytes) → s ≢ [] → is_nil s ≡ false
is_nil-false [] n = absurd (n refl)
is_nil-false (b ∷ s) n = refl

module _ {S : Type 0} (tables : Store S) where
  pub exec-keeps :
      (exec : S → Result DbError S) (s : S) {t : S} (j : ℕ)
      → ((u : S) → exec s ≡ ok u → tables.find j u ≡ tables.find j s)
      → exec_tolerate_missing exec s ≡ ok t
      → tables.find j t ≡ tables.find j s
  unfolding exec_tolerate_missing
  exec-keeps exec s {t} j keeps h = elim (Result-cases (exec s)) [
    | inl (u, e) ↦ ground (arith, keeps u e, e)
    | inr (e, x) ↦ elim (Bool-cases (is_missing_table e)) [
      | inl y ↦ ground (arith, x, y)
      | inr n ↦ absurd (ground (arith, x, n))
    ]
  ]

  merged-lid :
      (by_number : Contact) (req : CreateOrUpdateRequest)
      → (apply (merged_updates by_number req) by_number).lid ≡ req.lid
  unfolding apply merged_updates
  merged-lid by_number req = ground arith

  module _ (req : CreateOrUpdateRequest) (by_number by_lid : Contact)
      (others : by_number.id ≢ by_lid.id) (lid : by_lid.lid ≡ req.lid) (known : req.lid ≢ []) where
    update_clashes :
        (s : S) {t : S}
        → tables.find by_number.id s ≡ some by_number
        → tables.find by_lid.id s ≡ some by_lid
        → tables.update by_number.id (merged_updates by_number req) s ≡ ok t
        → ⊥
    update_clashes s {t} n l h =
        let u = merged_updates by_number req in
        others (
          tables.update_unique by_number.id u s h by_number.id by_lid.id (apply u by_number) by_lid
            (tables.update_lem by_number.id u s by_number.id h ∙ ground (arith, n))
            (tables.update_lem by_number.id u s by_lid.id h ∙ ground (arith, l))
            (merged-lid by_number req ∙ sym lid) (λ e. known (sym (merged-lid by_number req) ∙ e)))

    pub reassign-fails :
        (s : S)
        → tables.find by_number.id s ≡ some by_number
        → tables.find by_lid.id s ≡ some by_lid
        → (e : DbError) × (reassign_and_destroy tables req by_number by_lid s ≡ err e)
    unfolding reassign_and_destroy
    reassign-fails s n l =
        let tickets = tables.move_tickets by_number.id by_lid.id in
        let messages = tables.move_messages by_number.id by_lid.id in
        elim (Result-cases (exec_tolerate_missing tickets s)) [
          | inr (e, h) ↦ (e, rw h refl)
          | inl (t, h) ↦ elim (Result-cases (exec_tolerate_missing messages t)) [
            | inr (e, k) ↦ (e, rw (h, k) refl)
            | inl (u, k) ↦
                elim (Result-cases (tables.update by_number.id (merged_updates by_number req) u)) [
                  | inr (e, x) ↦ (e, rw (h, k, x) refl)
                  | inl (v, x) ↦
                      let kept = λ (j : ℕ).
                        exec-keeps messages t j
                          (λ w y. tables.move_messages_lem by_number.id by_lid.id t j y) k
                        ∙ exec-keeps tickets s j
                            (λ w y. tables.move_tickets_lem by_number.id by_lid.id s j y) h in
                      absurd (update_clashes u (kept by_number.id ∙ n) (kept by_lid.id ∙ l) x)
                ]
          ]
        ]

  find_one-some :
      (first : Bytes → S → Result DbError Contact) (value : Bytes) (s : S) {c : Contact}
      → value ≢ []
      → first value s ≡ ok c
      → find_one first value s ≡ ok (some c)
  unfolding find_one
  find_one-some first [] s v h = absurd (v refl)
  find_one-some first (b ∷ value) s v h = rw h refl

  module _ (ws : Bool) (req : CreateOrUpdateRequest) (w : World S) (by_number by_lid : Contact)
      (number : req.number ≢ []) (lid : req.lid ≢ [])
      (n : tables.first_number req.number w.store ≡ ok by_number)
      (l : tables.first_lid req.lid w.store ≡ ok by_lid) (others : by_number.id ≢ by_lid.id) where
    merge_fails : (e : DbError) × (merge tables req (some by_number) (some by_lid) w.store ≡ err e)
    unfolding merge
    merge_fails =
        let (found, has_lid) = tables.first_lid_lem req.lid w.store l in
        let (e, h) =
          reassign-fails req by_number by_lid others has_lid lid w.store
            (tables.first_number_lem req.number w.store n).0 found in
        let differ : nat_beq by_number.id by_lid.id ≡ false = ground arith in (e, rw differ h)

    find_and_merge-fails : (e : TxError) × (find_and_merge tables ws req w.store ≡ err e)
    unfolding find_and_merge
    find_and_merge-fails =
        let (e, h) = merge_fails in
        (
          db e,
          rw
              (
                find_one-some tables.first_number req.number w.store number n,
                find_one-some tables.first_lid req.lid w.store lid l,
                h,
              )
              refl,
        )

    rolls_back :
        (e : AppError) × (committed tables ws w
            (transaction tables.commits (find_and_merge tables ws req) w.store)
          ≡ (err e, w))
    rolls_back =
        let (e, h) = find_and_merge-fails in
        (
          tx_error tables ws e,
          rw (transaction-err tables.commits (find_and_merge tables ws req) w.store h) refl,
        )

  -- When the number and the LID of a request belong to two contacts, `CreateOrUpdate` ends in an
  -- error, the tables stay as they are and nobody is told: such contacts are never merged.
  pub create_or_update-never_merges :
      (ws : Bool) (request : CreateOrUpdateRequest) (w : World S) (by_number by_lid : Contact)
      → (normalized tables ws request).number ≢ []
      → (normalized tables ws request).lid ≢ []
      → tables.first_number (normalized tables ws request).number w.store ≡ ok by_number
      → tables.first_lid (normalized tables ws request).lid w.store ≡ ok by_lid
      → by_number.id ≢ by_lid.id
      → (e : AppError) × (create_or_update tables ws request w ≡ (err e, w))
  unfolding create_or_update
  create_or_update-never_merges ws request w by_number by_lid number lid n l others =
      let req = normalized tables ws request in
      let (e, h) = rolls_back ws req w by_number by_lid number lid n l others in
      let known : is_nil req.number ≡ false = is_nil-false req.number number in (e, rw known h)
