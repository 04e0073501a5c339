-- ===== src/Connection/Service/Deletion.antt =====
-- What the deletion of a connection leaves.
use whaticket_community.Prelude.{
  ℕ, ◌≡◌, ◌≢◌, ◌∙◌, sym, inl, inr, Bool, Option, none, some, [], arith, nat_beq, nat_beq_iff,
  nat_keyed, Bool-cases, subst,
}
use whaticket_community.Platform.{
  Result, ok, Result-cases, AppError, TxError, transaction, transaction-Ran, RolledBack, Ran,
  rolled_back, ran, err,
}
use whaticket_community.Connection.Model.{Connection}
use whaticket_community.Connection.Store.{Store}
use whaticket_community.Connection.Service.{
  World, logout, send, load_by_id, remove_connection, deleted, delete_connection, publish,
  whatsapp_delete, session_delete, delete_error,
}
use whaticket_community.Connection.Service.Rows.{load_by_id-ok}

module _ {S : Type 0} (tables : Store S) (ws : Bool) where
  module _ (id : ℕ) (w : World S) where
    pub record Removed (t : S) : Type 0 where
      pub gone : tables.find id t ≡ none
      pub no_queues : tables.queues id t ≡ []
      pub others :
          (j : ℕ)
          → id ≢ j
          → (tables.find j t ≡ tables.find j w.store)
            × (tables.queues j t ≡ tables.queues j w.store)

    pub data Deletion : Option AppError × World S → Type 0 where
      not_loaded : (e : AppError) → load_by_id tables ws id w.store ≡ err e → Deletion (some e, w)
      kept :
          (c : Connection) (e : TxError)
          → tables.find id w.store ≡ some c
          → RolledBack tables.commits (remove_connection tables ws id) w.store e
          → Deletion (some (delete_error tables ws e), send (logout id) w)
      removed :
          (t : S) (c : Connection)
          → tables.find id w.store ≡ some c
          → Removed t
          → Deletion (
            none,
            publish tables ws (session_delete c) (
                publish tables ws
                  (whatsapp_delete c.id)
                  (record (send (logout id) w) { store = t })),
          )

    remove-Removed : {t : S} → remove_connection tables ws id w.store ≡ ok (tt, t) → Removed t
    unfolding remove_connection
    remove-Removed {t} h = elim (Result-cases (tables.clear_queues id w.store)) [
      | inr (e, x) ↦ absurd (ground (arith, x, h))
      | inl (u, x) ↦ elim (Result-cases (tables.remove id u)) [
        | inr (e, y) ↦ absurd (ground (arith, x, y, h))
        | inl ((v, rows), y) ↦ elim (Bool-cases (nat_beq rows 0)) [
          | inl z ↦ absurd (ground (arith, x, y, z, h))
          | inr z ↦
              let same : v ≡ t = ground (arith, x, y, z, h) in
              let clearing = λ (j : ℕ). tables.clear_queues_lem id w.store j x in
              let removing = λ (j : ℕ). tables.remove_lem id u j y in
              subst (λ (q : S). Removed q) same
                (record {
                  gone = (removing id).0 ∙ ground (arith, nat_beq_iff id id);
                  no_queues = (removing id).1 ∙ (clearing id).1 ∙ ground (arith, nat_beq_iff id id);
                  others = λ j n. (
                    (removing j).0 ∙ ground (arith, nat_beq_iff id j, (clearing j).0),
                    (removing j).1 ∙ (clearing j).1 ∙ ground (arith, nat_beq_iff id j),
                  );
                })
        ]
      ]
    ]

    deleted-Deletion :
        (c : Connection) {p : Result TxError (Unit {0}) × S}
        → tables.find id w.store ≡ some c
        → Ran tables.commits (remove_connection tables ws id) w.store p
        → Deletion (deleted tables ws c (send (logout id) w) p)
    deleted-Deletion c f (rolled_back e k) = kept c e f k
    deleted-Deletion c f (ran a t k) = removed t c f (remove-Removed k)

    -- `Delete` answers why the connection could not be loaded and does nothing at all; or its transaction
    -- fails, which is the answer, and the session was logged out all the same; or the connection and its queues are gone, every other connection is as it was,
    -- the session is logged out, and the deletion is told of twice.
    pub delete_connection-Deletion : Deletion (delete_connection tables ws id w)
    unfolding delete_connection
    delete_connection-Deletion = elim (Result-cases (load_by_id tables ws id w.store)) [
      | inr (e, x) ↦ rw (x, delete_connection) (not_loaded e x)
      | inl (c, x) ↦
          let f = load_by_id-ok tables ws id w.store x in
          let same = tables.find_id id w.store f in
          rw (x, delete_connection)
            (subst
              (λ (n : ℕ). Deletion (
                deleted tables ws c (send (logout n) w)
                  (transaction tables.commits (remove_connection tables ws n) w.store)))
              (sym same)
              (deleted-Deletion c f
                (transaction-Ran tables.commits (remove_connection tables ws id) w.store)))
    ]
