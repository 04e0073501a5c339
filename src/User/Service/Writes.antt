-- ===== src/User/Service/Writes.antt =====
-- What an update of a user leaves, on each of its ways out.
use whaticket_community.Prelude.{
  ℕ, ◌+◌, ◌≡◌, ◌≢◌, ◌∙◌, inl, inr, refl, Bool, true, false, Option, none, some, List, [], ◌∷◌,
  arith, Bytes, bytes, if◌then◌else◌, get_or, is_some, Bool-cases, Option-cases, subst,
}
use whaticket_community.Platform.{
  Result, ok, err, Result-cases, AppError, TxError, transaction-Ran, RolledBack, Ran, rolled_back,
  ran, is_not_found,
}
use whaticket_community.User.Model.{User, UpdateRequest, Updates, apply, is_empty, validate_update}
use whaticket_community.User.Store.{Store, Bcrypt}
use whaticket_community.User.Service.{
  Frame, World, publish, load_by_id, reload, user_updated, write_queues, rehash, columns,
  write_columns, write_user, updated_user, update_user, no_permission, translated,
}

empty-apply : (u : Updates) (old : User) → is_empty u ≡ true → apply u old ≡ old
unfolding apply is_empty
empty-apply u old e = ground arith

module _ {S : Type 0} (tables : Store S) (crypt : Bcrypt) (ws : Bool) where
  load_by_id-ok :
      (id : ℕ) (s : S) {u : User}
      → load_by_id tables crypt ws id s ≡ ok u
      → tables.find id s ≡ some u
  unfolding load_by_id
  load_by_id-ok id s {u} h = elim (Result-cases (tables.first id s)) [
    | inl (d, x) ↦ tables.first_lem id s (x ∙ ground (arith, x, h))
    | inr (e, x) ↦ elim (Bool-cases (is_not_found e)) [
      | inl y ↦ absurd (ground (arith, x, y, h))
      | inr k ↦ absurd (ground (arith, x, k, h))
    ]
  ]

  -- Reading a user back: what is answered is what stands in the tables, and that is told of.
  pub data Answered (frame : User → Frame) (id : ℕ) (w : World S)
      : Result AppError User × World S → Type 0 where
    not_read :
        (e : AppError)
        → load_by_id tables crypt ws id w.store ≡ err e
        → Answered frame id w (err e, w)
    read :
        (u : User)
        → tables.find id w.store ≡ some u
        → Answered frame id w (ok u, publish tables crypt ws (frame u) w)

  reload-Answered :
      (frame : User → Frame) (id : ℕ) (w : World S)
      → Answered frame id w (reload tables crypt ws frame id w)
  unfolding reload
  reload-Answered frame id w = elim (Result-cases (load_by_id tables crypt ws id w.store)) [
    | inr (e, x) ↦ rw (x, reload) (not_read e x)
    | inl (u, x) ↦ rw (x, reload) (read u (load_by_id-ok id w.store x))
  ]

  queues-keep :
      (id : ℕ) (ids : Option (List ℕ)) (s : S) {t : S} (j : ℕ)
      → write_queues tables crypt ws id ids s ≡ ok t
      → tables.find j t ≡ tables.find j s
  unfolding write_queues
  queues-keep id none s j h = ground (arith, h)
  queues-keep id (some ids) s j h = tables.replace_queues_lem id ids s j h

  -- The hash that is written for the password of a request: none where it asks for none.
  pub data Rehashed : Option Bytes → Option Bytes → Type 0 where
    not_asked : Rehashed none none
    empty : Rehashed (some []) none
    hashed :
        (first : ℕ) (rest hash : Bytes)
        → crypt.generate (first ∷ rest) ≡ some hash
        → Rehashed (some (first ∷ rest)) (some hash)

  rehash-Rehashed :
      (password hash : Option Bytes)
      → rehash tables crypt ws password ≡ ok hash
      → Rehashed password hash
  unfolding rehash
  rehash-Rehashed none none h = not_asked
  rehash-Rehashed none (some x) h = absurd (ground (arith, h))
  rehash-Rehashed (some []) none h = empty
  rehash-Rehashed (some []) (some x) h = absurd (ground (arith, h))
  rehash-Rehashed (some (c ∷ s)) hash h = elim (Option-cases (crypt.generate (c ∷ s))) [
    | inl e ↦ absurd (ground (arith, e, h))
    | inr (x, e) ↦
        let same : some x ≡ hash = ground (arith, e, h) in
        subst (λ (o : Option Bytes). Rehashed (some (c ∷ s)) o) same (hashed c s x e)
  ]

  module _ (id : ℕ) (req : UpdateRequest) (w : World S) where
    -- Each column that the request names is the request's, with the new hash and, where there is one,
    -- the next version of the tokens.
    abbrev pub requested : Option Bytes → User → User
    requested hash old = record old {
      name = get_or req.name old.name;
      email = get_or req.email old.email;
      profile = get_or req.profile old.profile;
      whatsapp_id = get_or req.whatsapp_id old.whatsapp_id;
      password_hash = get_or hash old.password_hash;
      token_version = old.token_version + (if is_some hash then 1 else 0);
    }

    pub record Written (t : S) (old : User) (hash : Option Bytes) : Type 0 where
      pub was : tables.find id w.store ≡ some old
      pub found : tables.find id t ≡ some (requested hash old)
      pub others : (j : ℕ) → id ≢ j → tables.find j t ≡ tables.find j w.store
      pub rehashed : Rehashed req.password hash

    -- Why an update is refused, and with which error.
    pub data Refusal (is_email : Bytes → Bool) (is_admin : Bool) : AppError → Type 0 where
      forbidden : is_admin ≡ false → Refusal is_email is_admin no_permission
      invalid : (e : AppError) → validate_update is_email req ≡ some e → Refusal is_email is_admin e
      not_loaded :
          (e : AppError)
          → load_by_id tables crypt ws id w.store ≡ err e
          → Refusal is_email is_admin e
      not_hashed :
          (e : AppError) → rehash tables crypt ws req.password ≡ err e → Refusal is_email is_admin e
      undone :
          (hash : Option Bytes) (e : TxError)
          → Rehashed req.password hash
          → RolledBack tables.commits
              (write_user tables crypt ws id req (columns tables crypt ws req hash))
              w.store
              e
          → Refusal is_email is_admin (translated (bytes "ERR_DB_UPDATE") e)

    pub data Changed (is_email : Bytes → Bool) (is_admin : Bool)
        : Result AppError User × World S → Type 0 where
      refused : (e : AppError) → Refusal is_email is_admin e → Changed is_email is_admin (err e, w)
      changed :
          (old : User) (hash : Option Bytes) (t : S) {p : Result AppError User × World S}
          → is_admin ≡ true
          → Written t old hash
          → Answered user_updated id (record w { store = t }) p
          → Changed is_email is_admin p

    columns-requested :
        (old : User) (hash : Option Bytes)
        → apply (columns tables crypt ws req hash) old ≡ requested hash old
    unfolding apply
    columns-requested old hash = refl

    columns-write :
        (u : Updates) (old : User) {t : S}
        → tables.find id w.store ≡ some old
        → write_columns tables crypt ws id u w.store ≡ ok t
        → (tables.find id t ≡ some (apply u old))
          × ((j : ℕ) → id ≢ j → tables.find j t ≡ tables.find j w.store)
    unfolding write_columns
    columns-write u old {t} f h = elim (Bool-cases (is_empty u)) [
      | inl y ↦
          let same : t ≡ w.store = ground (arith, y, h) in
          rw (same, empty-apply u old y) (f, λ j n. refl)
      | inr k ↦
          let made : tables.update id u w.store ≡ ok t = rw (k, write_columns) at h in
          (
            tables.update_lem id u w.store id made ∙ ground (arith, f),
            λ j n. tables.update_lem id u w.store j made ∙ ground arith,
          )
    ]

    write-Written :
        (old : User) (hash : Option Bytes) {t : S}
        → tables.find id w.store ≡ some old
        → Rehashed req.password hash
        → write_user tables crypt ws id req (columns tables crypt ws req hash) w.store ≡ ok (tt, t)
        → Written t old hash
    unfolding write_user
    write-Written old hash {t} f r k =
        let u = columns tables crypt ws req hash in
        elim (Result-cases (write_columns tables crypt ws id u w.store)) [
          | inr (e, x) ↦ absurd (ground (arith, x, k))
          | inl (v, x) ↦ elim (Result-cases (write_queues tables crypt ws id req.queue_ids v)) [
            | inr (e, y) ↦ absurd (ground (arith, x, y, k))
            | inl (z, y) ↦
                let same : z ≡ t = ground (arith, x, y, k) in
                let (row, others) = columns-write u old f x in
                let keeps = λ (j : ℕ). queues-keep id req.queue_ids v j y in
                subst (λ (q : S). Written q old hash) same
                  (record {
                    was = f;
                    found = keeps id ∙ row ∙ rw (columns-requested old hash) refl;
                    others = λ j n. keeps j ∙ others j n;
                    rehashed = r;
                  })
          ]
        ]

    updated-Changed :
        (is_email : Bytes → Bool) (old : User) (hash : Option Bytes)
        {p : Result TxError (Unit {0}) × S}
        → tables.find id w.store ≡ some old
        → Rehashed req.password hash
        → Ran tables.commits
            (write_user tables crypt ws id req (columns tables crypt ws req hash))
            w.store
            p
        → Changed is_email true (updated_user tables crypt ws id w p)
    updated-Changed is_email old hash f r (rolled_back e k) = refused _ (undone hash e r k)
    updated-Changed is_email old hash f r (ran a t k) =
        changed old hash t refl (write-Written old hash f r k)
          (reload-Answered user_updated id (record w { store = t }))

    -- `Update` changes nothing, tells nobody and answers why: no administrator asked, the request is not
    -- valid, the user could not be loaded, the password not hashed, or the transaction failed,
    -- whose error is translated; or an administrator asked for it: then the user has the
    -- columns that the request names and the others as before, all other users are as they were, and
    -- a password that the request names, other than the empty one, is hashed and raises the version of
    -- the user's tokens by one; else hash and version stay. A user that is read back is told of once.
    pub update_user-Changed :
        (is_email : Bytes → Bool) (is_admin : Bool)
        → Changed is_email is_admin (update_user tables crypt ws is_email id req is_admin w)
    unfolding update_user
    update_user-Changed is_email false = refused no_permission (forbidden refl)
    update_user-Changed is_email true = elim (Option-cases (validate_update is_email req)) [
      | inr (e, x) ↦ rw (x, update_user) (refused e (invalid e x))
      | inl x ↦ elim (Result-cases (load_by_id tables crypt ws id w.store)) [
        | inr (e, y) ↦ rw (x, y, update_user) (refused e (not_loaded e y))
        | inl (old, y) ↦ elim (Result-cases (rehash tables crypt ws req.password)) [
          | inr (e, z) ↦ rw (x, y, z, update_user) (refused e (not_hashed e z))
          | inl (hash, z) ↦
              rw (x, y, z, update_user)
                (updated-Changed is_email old hash (load_by_id-ok id w.store y)
                  (rehash-Rehashed req.password hash z)
                  (transaction-Ran tables.commits
                    (write_user tables crypt ws id req (columns tables crypt ws req hash)) w.store))
        ]
      ]
    ]
