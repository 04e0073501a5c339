-- ===== src/Contact/Merge/Upsert.antt =====
-- What `CreateOrUpdate` leaves when it succeeds: the contact of the request, and no other change.
use whaticket_community.Prelude.{
  ℕ, ◌≡◌, ◌≢◌, ◌⊎◌, inl, inr, ◌∙◌, sym, ap, refl, Bool, true, false, Option, none, some, [], ◌∷◌,
  arith, Bytes, bytes, bytes_beq_iff, nat_beq, is_nil, Bool-cases, bytes_keyed, subst, ◌&&◌,
}
use whaticket_community.Platform.{
  Result, ok, err, Result-cases, DbError, AppError, transaction, statement, TxError, db,
  transaction-Ran, RolledBack, Ran, rolled_back, ran, is_not_found, new_error,
}
use whaticket_community.Contact.Model.{
  Contact, CreateOrUpdateRequest, Updates, apply, is_empty, keep_if_empty,
}
use whaticket_community.Contact.Store.{Store}
use whaticket_community.Contact.Merge.{
  Action, created, updated_same, merged, updated_lid, updated_number, updates_from_req, new_row,
  insert_new, write_columns, lid_updates, number_updates, find_one, merge, Frame, World, normalized,
  find_and_merge, create_or_update, committed, frame_of, publish, load_by_id, reload_and_publish,
  tx_error,
}
use whaticket_community.Contact.Merge.Conflict.{reassign-fails}

-- Each column of the request takes the place of the old one, unless it is empty.
abbrev pub upserted : CreateOrUpdateRequest → Contact → Contact
upserted req old = record old {
  name = keep_if_empty old.name req.name;
  number = keep_if_empty old.number req.number;
  lid = keep_if_empty old.lid req.lid;
  email = keep_if_empty old.email req.email;
  profile_pic_url = keep_if_empty old.profile_pic_url req.profile_pic_url;
}

-- Whether the contact is a new one.
abbrev pub is_created : Action → Bool
is_created created = true
is_created updated_same = false
is_created merged = false
is_created updated_lid = false
is_created updated_number = false

same-apply :
    (req : CreateOrUpdateRequest) (old : Contact)
    → old.number ≡ req.number
    → old.lid ≡ req.lid
    → apply (updates_from_req old req) old ≡ upserted req old
unfolding apply updates_from_req
same-apply req old n l = ground (
  arith,
  bytes_beq_iff (keep_if_empty old.name req.name) old.name,
  bytes_beq_iff (keep_if_empty old.profile_pic_url req.profile_pic_url) old.profile_pic_url,
  bytes_beq_iff req.email old.email,
)

lid-apply :
    (req : CreateOrUpdateRequest) (old : Contact)
    → old.number ≡ req.number
    → apply (lid_updates old req) old ≡ upserted req old
unfolding apply lid_updates
lid-apply req old n = ground (
  arith,
  bytes_beq_iff (keep_if_empty old.name req.name) old.name,
  bytes_beq_iff (keep_if_empty old.profile_pic_url req.profile_pic_url) old.profile_pic_url,
  bytes_beq_iff req.email old.email,
)

number-apply :
    (req : CreateOrUpdateRequest) (old : Contact)
    → old.lid ≡ req.lid
    → apply (number_updates old req) old ≡ upserted req old
unfolding apply number_updates
number-apply req old l = ground (
  arith,
  bytes_beq_iff (keep_if_empty old.name req.name) old.name,
  bytes_beq_iff (keep_if_empty old.profile_pic_url req.profile_pic_url) old.profile_pic_url,
  bytes_beq_iff req.email old.email,
)

pub empty-apply : (u : Updates) (old : Contact) → is_empty u ≡ true → apply u old ≡ old
unfolding apply is_empty
empty-apply u old e = ground arith

module _ {S : Type 0} (tables : Store S) (req : CreateOrUpdateRequest) where
  -- The contact has the number or the LID of the request, which is not empty.
  abbrev pub Known : Contact → Type 0
  Known c = ((c.number ≡ req.number) × (req.number ≢ [])) ⊎ ((c.lid ≡ req.lid) × (req.lid ≢ []))

  -- The row `c` that a request leaves in the tables `t`; it is a new one exactly where `new` says so.
  pub data Origin (s : S) (c : Contact) : Bool → Type 0 where
    inserted :
        find_one tables.first_number req.number s ≡ ok none
        → find_one tables.first_lid req.lid s ≡ ok none
        → tables.find c.id s ≡ none
        → c ≡ record (new_row req) { id = c.id }
        → Origin s c true
    rewritten :
        (old : Contact)
        → Known old
        → tables.find c.id s ≡ some old
        → c ≡ upserted req old
        → Origin s c false

  pub record Upserted (s t : S) (c : Contact) (new : Bool) : Type 0 where
    pub found : tables.find c.id t ≡ some c
    pub others : (j : ℕ) → c.id ≢ j → tables.find j t ≡ tables.find j s
    pub origin : Origin s c new

  -- What a merge answers, with what it leaves.
  pub data Did (s : S) : Result DbError ((ℕ × Action) × S) → Type 0 where
    failed : (e : DbError) → Did s (err e)
    did :
        (c : Contact) (action : Action) (t : S)
        → Upserted s t c (is_created action)
        → Did s (ok ((c.id, action), t))

  insert-Did :
      (s : S)
      → find_one tables.first_number req.number s ≡ ok none
      → find_one tables.first_lid req.lid s ≡ ok none
      → Did s (insert_new tables req s)
  unfolding insert_new
  insert-Did s no_number no_lid = elim (Result-cases (tables.create (new_row req) s)) [
    | inr (e, x) ↦ rw (x, insert_new) (failed e)
    | inl ((t, id), x) ↦
        let c = record (new_row req) { id = id } in
        rw (x, insert_new)
          (did c created t (record {
            found = (tables.create_lem (new_row req) s id x).1 ∙ ground arith;
            others = λ j n. (tables.create_lem (new_row req) s j x).1 ∙ ground arith;
            origin = inserted no_number no_lid (tables.create_lem (new_row req) s id x).0 refl;
          }))
  ]

  module _ (s : S) (old : Contact) (known : tables.find old.id s ≡ some old) (is : Known old)
      (u : Updates) (same : apply u old ≡ upserted req old) where
    kept-Upserted : is_empty u ≡ true → Upserted s s old false
    kept-Upserted y = record {
      found = known;
      others = λ j n. refl;
      origin = rewritten old is known (sym (empty-apply u old y) ∙ same);
    }

    update-Upserted :
        (t : S) → tables.update old.id u s ≡ ok t → Upserted s t (upserted req old) false
    update-Upserted t h = record {
      found = tables.update_lem old.id u s old.id h ∙ ground (arith, known, same);
      others = λ j n. tables.update_lem old.id u s j h ∙ ground arith;
      origin = rewritten old is known refl;
    }

    write-Did :
        (action : Action)
        → is_created action ≡ false
        → Did s (write_columns tables req old.id u action s)
    unfolding write_columns
    write-Did action n = elim (Bool-cases (is_empty u)) [
      | inl y ↦ rw (y, write_columns) (did old action s (rw n (kept-Upserted y)))
      | inr k ↦ elim (Result-cases (tables.update old.id u s)) [
        | inr (e, x) ↦ rw (k, x, write_columns) (failed e)
        | inl (t, x) ↦
            rw (k, x, write_columns) (did (upserted req old) action t (rw n (update-Upserted t x)))
      ]
    ]

  -- What was looked up is the value's row, or nothing.
  abbrev Sought : (Contact → Bytes) → Bytes → S → Option Contact → Type 0
  Sought column value s none = Unit {0}
  Sought column value s (some c) = (tables.find c.id s ≡ some c) × (column c ≡ value) × (value ≢ [])

  merge-Did :
      (by_number by_lid : Option Contact) (s : S)
      → Sought (λ c. c.number) req.number s by_number
      → Sought (λ c. c.lid) req.lid s by_lid
      → find_one tables.first_number req.number s ≡ ok by_number
      → find_one tables.first_lid req.lid s ≡ ok by_lid
      → Did s (merge tables req by_number by_lid s)
  unfolding merge
  merge-Did none none s n l x y = insert-Did s x y
  merge-Did (some a) none s n l p q =
      write-Did s a n.0 (inl (n.1, n.2)) (lid_updates a req) (lid-apply req a n.1) updated_lid refl
  merge-Did none (some b) s n l p q =
      write-Did s b l.0 (inr (l.1, l.2)) (number_updates b req) (number-apply req b l.1)
        updated_number refl
  merge-Did (some a) (some b) s n l p q = elim (Bool-cases (nat_beq a.id b.id)) [
    | inl y ↦
        let row : b ≡ a = ground (arith, n.0, l.0) in
        rw (y, merge)
          (write-Did s a n.0 (inl (n.1, n.2)) (updates_from_req a req)
            (same-apply req a n.1 (ap (λ (c : Contact). c.lid) (sym row) ∙ l.1)) updated_same refl)
    | inr k ↦
        let (e, x) =
          reassign-fails tables req a b (λ (i : a.id ≡ b.id). ground (arith, i, k)) l.1 l.2 s n.0
            l.0 in
        rw (k, x, merge) (failed e)
  ]

  find-Sought :
      (column : Contact → Bytes) (first : Bytes → S → Result DbError Contact) (value : Bytes)
      (s : S)
      → (o : Option Contact)
      → ((c : Contact) → first value s ≡ ok c → (tables.find c.id s ≡ some c) × (column c ≡ value))
      → find_one first value s ≡ ok o
      → Sought column value s o
  unfolding find_one
  find-Sought column first value s none is h = tt
  find-Sought column first [] s (some c) is h = absurd (ground (arith, h))
  find-Sought column first (b ∷ value) s (some c) is h = elim (Result-cases (first (b ∷ value) s)) [
    | inr (e, x) ↦ elim (Bool-cases (is_not_found e)) [
      | inl y ↦ absurd (ground (arith, x, y))
      | inr k ↦ absurd (ground (arith, x, k))
    ]
    | inl (a, x) ↦
        let same : a ≡ c = ground (arith, x) in
        let (row, v) = is c (x ∙ rw same refl) in (row, v, λ e. ground (arith, e))
  ]

  module _ (ws : Bool) (w : World S) where
    -- What the function in the transaction answers.
    pub data Tried : Result TxError ((ℕ × Action) × S) → Type 0 where
      gave_up : (e : TxError) → Tried (err e)
      tried :
          (c : Contact) (action : Action) (t : S)
          → Upserted w.store t c (is_created action)
          → Tried (ok ((c.id, action), t))

    Did-Tried : {r : Result DbError ((ℕ × Action) × S)} → Did w.store r → Tried (statement r)
    Did-Tried (failed e) = gave_up (db e)
    Did-Tried (did c action t u) = tried c action t u

    find_and_merge-Tried : Tried (find_and_merge tables ws req w.store)
    unfolding find_and_merge
    find_and_merge-Tried = elim (Result-cases (find_one tables.first_number req.number w.store)) [
      | inr (e, x) ↦ rw (x, find_and_merge) (gave_up (db e))
      | inl (n, x) ↦ elim (Result-cases (find_one tables.first_lid req.lid w.store)) [
        | inr (e, y) ↦ rw (x, y, find_and_merge) (gave_up (db e))
        | inl (l, y) ↦
            rw (x, y, find_and_merge)
              (Did-Tried (
                merge-Did n l w.store
                  (find-Sought (λ c. c.number) tables.first_number req.number w.store n
                    (λ c h. tables.first_number_lem req.number w.store h) x)
                  (find-Sought (λ c. c.lid) tables.first_lid req.lid w.store l
                    (λ c h. tables.first_lid_lem req.lid w.store h) y)
                  x y))
      ]
    ]

    -- The frame that tells of a contact.
    abbrev pub told_of : Bool → Contact → Frame
    told_of true c = Frame.contact_created c
    told_of false c = Frame.contact_updated c

    frame_of-told_of :
        (a : Action) (c : Contact) → frame_of tables ws a c ≡ told_of (is_created a) c
    frame_of-told_of created c = refl
    frame_of-told_of updated_same c = refl
    frame_of-told_of merged c = refl
    frame_of-told_of updated_lid c = refl
    frame_of-told_of updated_number c = refl

    -- The ways out of `CreateOrUpdate`, with the tables and what is told.
    pub data Saved : Result AppError Contact × World S → Type 0 where
      no_identity :
          (is_nil req.number && is_nil req.lid) ≡ true
          → Saved (err (new_error (bytes "ERR_INVALID_NUMBER") 400), w)
      undone :
          (e : TxError)
          → (is_nil req.number && is_nil req.lid) ≡ false
          → RolledBack tables.commits (find_and_merge tables ws req) w.store e
          → Saved (err (tx_error tables ws e), w)
      not_reloaded :
          (e : AppError) (c : Contact) (new : Bool) (t : S)
          → load_by_id tables ws c.id t ≡ err e
          → Upserted w.store t c new
          → Saved (err e, record w { store = t })
      saved :
          (c : Contact) (new : Bool) (t : S)
          → Upserted w.store t c new
          → Saved (ok c, publish tables ws (told_of new c) (record w { store = t }))

    reload-Saved :
        (c : Contact) (action : Action) (t : S)
        → Upserted w.store t c (is_created action)
        → Saved (reload_and_publish tables ws c.id action (record w { store = t }))
    unfolding reload_and_publish load_by_id
    reload-Saved c action t u = elim (Result-cases (tables.first c.id t)) [
      | inr (e, x) ↦ elim (Bool-cases (is_not_found e)) [
        | inl y ↦
            rw (x, y, reload_and_publish, load_by_id)
              (not_reloaded _ c _ t (rw (x, y, load_by_id) refl) u)
        | inr k ↦
            rw (x, k, reload_and_publish, load_by_id)
              (not_reloaded _ c _ t (rw (x, k, load_by_id) refl) u)
      ]
      | inl (d, x) ↦
          let same : d ≡ c = ground (arith, tables.first_lem c.id t x, u.found) in
          rw (x, same, frame_of-told_of action c, reload_and_publish, load_by_id)
            (saved c (is_created action) t u)
    ]

    Tried-committed :
        {r : Result TxError ((ℕ × Action) × S)} {p : Result TxError (ℕ × Action) × S}
        → (is_nil req.number && is_nil req.lid) ≡ false
        → find_and_merge tables ws req w.store ≡ r
        → Tried r
        → Ran tables.commits (find_and_merge tables ws req) w.store p
        → Saved (committed tables ws w p)
    Tried-committed n e k (rolled_back x h) = undone x n h
    Tried-committed n e (gave_up x) (ran a t h) = absurd (ground (arith, e, h))
    Tried-committed n e (tried c action t u) (ran a v h) =
        let same : ◌≡◌ {A = (ℕ × Action) × S} ((c.id, action), t) (a, v) = ground (arith, e, h) in
        subst
          (λ (x : (ℕ × Action) × S).
            Saved (reload_and_publish tables ws x.0.0 x.0.1 (record w { store = x.1 })))
          same (reload-Saved c action t u)

    pub committed-Saved :
        (is_nil req.number && is_nil req.lid) ≡ false
        → Saved (
            committed tables ws w
              (transaction tables.commits (find_and_merge tables ws req) w.store))
    committed-Saved n =
        Tried-committed n refl find_and_merge-Tried
          (transaction-Ran tables.commits (find_and_merge tables ws req) w.store)

-- Every way out of `CreateOrUpdate`: nothing is changed and nobody is told, where the request has
-- neither a number nor a LID or the transaction failed, which is the answer; or the tables hold
-- the contact of the request and all other contacts are as they were. That contact is a new row of
-- the request, where the table was asked for the number and for the LID and had neither, or one
-- that had the request's number or its LID, where each column of the request that is not empty has
-- taken the place of the old. A contact that is then read back is told of, once, as
-- created or as updated accordingly.
pub create_or_update-Saved :
    {S : Type 0} (tables : Store S) (ws : Bool) (request : CreateOrUpdateRequest) (w : World S)
    → Saved tables (normalized tables ws request) ws w (create_or_update tables ws request w)
unfolding create_or_update
create_or_update-Saved tables ws request w =
    let req = normalized tables ws request in
    elim (Bool-cases (is_nil req.number && is_nil req.lid)) [
      | inl y ↦ rw (y, create_or_update) (no_identity y)
      | inr k ↦ rw (k, create_or_update) (committed-Saved tables req ws w k)
    ]
