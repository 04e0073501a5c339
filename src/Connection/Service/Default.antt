-- ===== src/Connection/Service/Default.antt =====
-- What the creation of a connection leaves, of which at most one is the default.
use whaticket_community.Prelude.{
  ℕ, ◌≡◌, ◌≢◌, ◌∙◌, ap, inl, inr, refl, Bool, true, false, none, some, arith, nat_beq_iff,
  nat_keyed, if◌then◌else◌, get_or, is_nil, has, Bool-cases, Option-cases, subst, bytes,
}
use whaticket_community.Platform.Tables.{mapped}
use whaticket_community.Platform.{
  Result, ok, err, Result-cases, AppError, TxError, transaction-Ran, RolledBack, Ran, rolled_back,
  ran,
}
use whaticket_community.Connection.Model.{
  Connection, CreateRequest, new_connection, trim_create, Validation, validate_create,
}
use whaticket_community.Connection.Store.{Store, demoted}
use whaticket_community.Connection.Service.{
  World, start_session, send, tell, load_by_id, assign_queues, demote, insert_connection, created,
  create_connection, translated,
}
use whaticket_community.Connection.Service.Rows.{
  OneDefault, one_row, same_rows-OneDefault, load_by_id-ok, demote-rows, asked_DefaultAmong,
  demote-OneDefault, assign_queues-rows,
}

module _ {S : Type 0} (tables : Store S) (ws : Bool) where
  module _ (request : CreateRequest) (w : World S) where
    abbrev pub req : CreateRequest
    req = trim_create request

    -- The tables with the new connection.
    pub record Inserted (t : S) (id : ℕ) : Type 0 where
      pub fresh : tables.find id w.store ≡ none
      pub row : tables.find id t ≡ some (record (new_connection req) { id = id })
      pub others :
          (j : ℕ)
          → id ≢ j
          → tables.find j t ≡ (
              if get_or req.is_default false
              then mapped demoted (tables.find j w.store)
              else tables.find j w.store)
      pub queues :
          is_nil req.queue_ids ≡ false → (q : ℕ) → has q (tables.queues id t) ≡ has q req.queue_ids
      pub other_queues : (j : ℕ) → id ≢ j → tables.queues j t ≡ tables.queues j w.store
      pub one_default : OneDefault tables w.store → OneDefault tables t

    -- The statement that demotes the default adds no row.
    fresh_before :
        {u v : S} {id : ℕ}
        → demote tables ws (new_connection req).is_default none w.store ≡ ok u
        → tables.create (new_connection req) u ≡ ok (v, id)
        → tables.find id w.store ≡ none
    fresh_before {u} {v} {id} x y =
        let free = (tables.create_lem (new_connection req) u id y).0 in
        let rows = (demote-rows tables ws (new_connection req).is_default none w.store id x).0 in
        elim (Option-cases (tables.find id w.store)) [
          | inl e ↦ e
          | inr (c, e) ↦ absurd (elim (Bool-cases (new_connection req).is_default) [
            | inl k ↦ ground (arith, free, rows, e, k)
            | inr k ↦ ground (arith, free, rows, e, k)
          ])
        ]

    created_rows :
        {u v : S} {id : ℕ}
        → demote tables ws (new_connection req).is_default none w.store ≡ ok u
        → tables.create (new_connection req) u ≡ ok (v, id)
        → OneDefault tables w.store
        → OneDefault tables v
    created_rows {u} {v} {id} x y one =
        one_row tables id u v (some (record (new_connection req) { id = id }))
          (λ j. (tables.create_lem (new_connection req) u j y).1)
          (λ c e d j b f k.
            let same : record (new_connection req) { id = id } ≡ c = cc (e) in
            let asked : (new_connection req).is_default ≡ true =
              ap (λ (x : Connection). x.is_default) same ∙ d in
            absurd (ground (arith, asked_DefaultAmong tables ws asked none w.store u x j b f k)))
          (demote-OneDefault tables ws (new_connection req).is_default none w.store x one)

    made-Inserted :
        {u v t : S} {id : ℕ}
        → demote tables ws (new_connection req).is_default none w.store ≡ ok u
        → tables.create (new_connection req) u ≡ ok (v, id)
        → ((j : ℕ) → tables.find j t ≡ tables.find j v)
        → (is_nil req.queue_ids ≡ false
            → (q : ℕ) → has q (tables.queues id t) ≡ has q req.queue_ids)
        → ((j : ℕ) → id ≢ j → tables.queues j t ≡ tables.queues j v)
        → Inserted t id
    made-Inserted {u} {v} {t} {id} x y rows queues kept = record {
      fresh = fresh_before x y;
      row =
          rows id
          ∙ (tables.create_lem (new_connection req) u id y).1
          ∙ ground (arith, nat_beq_iff id id);
      others = λ j n.
          rows j
          ∙ (tables.create_lem (new_connection req) u j y).1
          ∙ ground (
            arith,
            nat_beq_iff id j,
            (demote-rows tables ws (new_connection req).is_default none w.store j x).0,
          );
      queues = queues;
      other_queues = λ j n.
          kept j n
          ∙ (tables.create_lem (new_connection req) u j y).2
          ∙ (demote-rows tables ws (new_connection req).is_default none w.store j x).1;
      one_default = λ one. same_rows-OneDefault tables v t rows (created_rows x y one);
    }

    insert-Inserted :
        {t : S} {id : ℕ} → insert_connection tables ws req w.store ≡ ok (id, t) → Inserted t id
    unfolding insert_connection
    insert-Inserted {t} {id} h =
        elim (Result-cases (demote tables ws (new_connection req).is_default none w.store)) [
          | inr (e, x) ↦ absurd (ground (arith, x, h))
          | inl (u, x) ↦ elim (Result-cases (tables.create (new_connection req) u)) [
            | inr (e, y) ↦ absurd (ground (arith, x, y, h))
            | inl ((v, i), y) ↦ elim (Bool-cases (is_nil req.queue_ids)) [
              | inl k ↦
                  let same : ◌≡◌ {A = ℕ × S} (i, v) (id, t) = ground (arith, x, y, k, h) in
                  subst (λ (r : ℕ × S). Inserted r.1 r.0) same
                    (made-Inserted x y (λ j. refl) (λ e. absurd (ground (arith, e, k)))
                      (λ j n. refl))
              | inr k ↦ elim (Result-cases (assign_queues tables ws i req.queue_ids v)) [
                | inr (e, z) ↦ absurd (ground (arith, x, y, k, z, h))
                | inl (a, z) ↦
                    let same : ◌≡◌ {A = ℕ × S} (i, a) (id, t) = ground (arith, x, y, k, z, h) in
                    let (rows, queues, others) = assign_queues-rows tables ws i req.queue_ids v z in
                    subst (λ (r : ℕ × S). Inserted r.1 r.0) same
                      (made-Inserted x y rows (λ e. queues) others)
              ]
            ]
          ]
        ]

    -- Why a creation is refused, and with which error.
    pub data Refusal (rules : CreateRequest → Validation) : AppError → Type 0 where
      invalid : (e : AppError) → validate_create (rules req) req ≡ some e → Refusal rules e
      undone :
          (e : TxError)
          → RolledBack tables.commits (insert_connection tables ws req) w.store e
          → Refusal rules (translated (bytes "ERR_DB_INSERT") e)

    pub data Created (rules : CreateRequest → Validation)
        : Result AppError Connection × World S → Type 0 where
      refused : (e : AppError) → Refusal rules e → Created rules (err e, w)
      not_read :
          (e : AppError) (t : S) (id : ℕ)
          → load_by_id tables ws id t ≡ err e
          → Inserted t id
          → Created rules (err e, record w { store = t })
      made :
          (t : S) (id : ℕ) (c : Connection)
          → Inserted t id
          → tables.find id t ≡ some c
          → Created rules (
            ok c,
            tell tables ws c (send (start_session c.id c.settings) (record w { store = t })),
          )

    created-Created :
        (rules : CreateRequest → Validation) {p : Result TxError ℕ × S}
        → Ran tables.commits (insert_connection tables ws req) w.store p
        → Created rules (created tables ws w p)
    created-Created rules (rolled_back e k) = refused _ (undone e k)
    created-Created rules (ran id t k) = elim (Result-cases (load_by_id tables ws id t)) [
      | inr (e, x) ↦ rw (x, created) (not_read e t id x (insert-Inserted k))
      | inl (c, x) ↦
          rw (x, created) (made t id c (insert-Inserted k) (load_by_id-ok tables ws id t x))
    ]

    -- `Create` changes nothing, tells nobody, starts no session and answers why: the request is not valid,
    -- or the transaction failed, whose error is translated; or the table has the connection of the
    -- request under an id that it did not have, with the queues of the request where that names some,
    -- every other connection has its queues and its columns as before, but is not the default where
    -- the new one is, and at most one is the default if that was so before; and if it can be read
    -- back its session is started and it is told of twice.
    pub create_connection-Created :
        (rules : CreateRequest → Validation)
        → Created rules (create_connection tables ws rules request w)
    unfolding create_connection
    create_connection-Created rules = elim (Option-cases (validate_create (rules req) req)) [
      | inr (e, x) ↦ rw (x, create_connection) (refused e (invalid e x))
      | inl x ↦
          rw (x, create_connection)
            (created-Created rules
              (transaction-Ran tables.commits (insert_connection tables ws req) w.store))
    ]
