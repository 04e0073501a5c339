-- ===== src/Message/Service/Stale.antt =====
-- What storing a message leaves, of a message that comes again above all.
use whaticket_community.Prelude.{
  ℕ, ◌≡◌, ◌≢◌, ◌∙◌, ap, sym, inl, inr, refl, Bool, ◌||◌, Option, none, some, arith, Bytes,
  bytes_beq_iff, bytes_keyed, nat_beq, nat_beq_iff, is_nil, Bool-cases, subst, true, bytes,
}
use whaticket_community.Platform.{Result, ok, err, Result-cases, AppError, DbError, wrap_error}
use whaticket_community.Message.Service.{
  Message, Store, World, upserted, new_message, find_by_id, tell_created, stored, reload_and_tell,
  create_message, invalid_input,
}
use whaticket_community.Message.Service.Writes.{find_by_id-ok, ShowsNewest, body_of}

module _ {S T : Type 0} (tables : Store S T) (ws : Bool) (m : Message) (w : World S T) where
  pub record Stored (t : S) : Type 0 where
    pub row : tables.find m.id t ≡ some (upserted (new_message m) (tables.find m.id w.store))
    pub others : (j : Bytes) → m.id ≢ j → tables.find j t ≡ tables.find j w.store

  -- Why a message is not stored, and with which error.
  pub data Refusal : AppError → Type 0 where
    no_ids : (is_nil m.id || nat_beq m.ticket_id 0) ≡ true → Refusal invalid_input
    not_upserted :
        (e : DbError)
        → tables.upsert (new_message m) w.store ≡ err e
        → Refusal (wrap_error e (bytes "ERR_DB_INSERT") 500)

  pub data Created : Result AppError Message × World S T → Type 0 where
    refused : (e : AppError) → Refusal e → Created (err e, w)
    not_read :
        (e : AppError) (t : S)
        → find_by_id tables ws m.id t ≡ err e
        → Stored t
        → Created (err e, record w { store = t })
    not_told :
        (e : AppError) (u t : S)
        → tables.update_last_message m.ticket_id
            (upserted (new_message m) (tables.find m.id w.store)).body
            u
          ≡ (some e, t)
        → Stored t
        → Created (err e, record w { store = t })
    created :
        (u t : S)
        → tables.upsert (new_message m) w.store ≡ ok u
        → ((k : ℕ) → tables.newest k t ≡ tables.newest k u)
        → Stored t
        → tables.last_message m.ticket_id t
          ≡ (upserted (new_message m) (tables.find m.id w.store)).body
        → Created (
          ok (upserted (new_message m) (tables.find m.id w.store)),
          tell_created tables ws m.ticket_id
              (upserted (new_message m) (tables.find m.id w.store))
              (record w { store = t }),
        )

  module _ (u : S) (x : tables.upsert (new_message m) w.store ≡ ok u) where
    upsert-Stored : Stored u
    upsert-Stored = record {
      row =
          (tables.upsert_lem (new_message m) w.store m.id 0 x).0
          ∙ ground (arith, bytes_beq_iff m.id m.id);
      others = λ j n.
          (tables.upsert_lem (new_message m) w.store j 0 x).0
          ∙ ground (arith, bytes_beq_iff m.id j);
    }

    same-Stored : (t : S) → ((j : Bytes) → tables.find j t ≡ tables.find j u) → Stored t
    same-Stored t same = record {
      row = same m.id ∙ upsert-Stored.row;
      others = λ j n. same j ∙ upsert-Stored.others j n;
    }

    stored-Created :
        (p : Option AppError × S)
        → tables.update_last_message m.ticket_id
            (upserted (new_message m) (tables.find m.id w.store)).body
            u
          ≡ p
        → Created (
            stored tables ws m.ticket_id
              (upserted (new_message m) (tables.find m.id w.store))
              p
              (record w { store = u }))
    stored-Created (some e, t) h =
        not_told e u t h
          (same-Stored t (λ j. (tables.update_last_message_lem m.ticket_id _ u j 0 h).0))
    stored-Created (none, t) h =
        created u t x (λ k. (tables.update_last_message_lem m.ticket_id _ u m.id k h).1)
          (same-Stored t (λ j. (tables.update_last_message_lem m.ticket_id _ u j 0 h).0))
          (tables.update_last_message-last m.ticket_id _ u m.ticket_id h
            ∙ ground (arith, nat_beq_iff m.ticket_id m.ticket_id))

    reload-Created : Created (reload_and_tell tables ws m.ticket_id m.id (record w { store = u }))
    unfolding reload_and_tell
    reload-Created = elim (Result-cases (find_by_id tables ws m.id u)) [
      | inr (e, y) ↦ rw (y, reload_and_tell) (not_read e u y upsert-Stored)
      | inl (found, y) ↦
          let same : found ≡ upserted (new_message m) (tables.find m.id w.store) =
            cc (sym (find_by_id-ok tables ws m.id u y) ∙ upsert-Stored.row) in
          rw (y ∙ ap ok same, reload_and_tell) (stored-Created _ refl)
    ]

  -- `Create` changes nothing, tells nobody and answers why: the message has no id or no ticket, or the
  -- insertion failed; or the message is stored, over one of its id if there is
  -- one, every other one is as it was, and the message is answered and told of twice if its
  -- ticket took its body for its last message, else the error is answered.
  pub create_message-Created : Created (create_message tables ws m w)
  unfolding create_message
  create_message-Created = elim (Bool-cases (is_nil m.id || nat_beq m.ticket_id 0)) [
    | inl y ↦ rw (y, create_message) (refused _ (no_ids y))
    | inr n ↦ elim (Result-cases (tables.upsert (new_message m) w.store)) [
      | inr (e, x) ↦ rw (n, x, create_message) (refused _ (not_upserted e x))
      | inl (u, x) ↦ rw (n, x, create_message) (reload-Created u x)
    ]
  ]

  pub tell_created-store :
      (ticket : ℕ) (n : Message) (v : World S T)
      → (tell_created tables ws ticket n v).store ≡ v.store
  unfolding tell_created
  tell_created-store ticket n v = elim (Bool-cases ws) [ inl y ↦ rw (y) refl | inr k ↦ rw (k) refl ]

  -- A message that is there already, and a later one of its ticket with another body.
  module _ (old newer : Message) (there : tables.find m.id w.store ≡ some old)
      (last : tables.newest m.ticket_id w.store ≡ some newer) (other : newer.id ≢ m.id)
      (differ : newer.body ≢ m.body) where
    Created-stale :
        {p : Result AppError Message × World S T} {answer : Message}
        → Created p
        → p.0 ≡ ok answer
        → (tables.last_message m.ticket_id p.1.store ≡ m.body)
          × (¬ ShowsNewest tables ws m.ticket_id p.1.store)
    unfolding tell_created
    Created-stale (refused e r) h = absurd (ground (arith, h))
    Created-stale (not_read e t f is) h = absurd (ground (arith, h))
    Created-stale (not_told e v t f is) h = absurd (ground (arith, h))
    Created-stale (created u t x newest is shown) h =
        let row = upserted (new_message m) (tables.find m.id w.store) in
        let same = tell_created-store m.ticket_id row (record w { store = t }) in
        let text : row.body ≡ m.body =
          ap (λ (o : Option Message). (upserted (new_message m) o).body) there in
        let kept =
          newest m.ticket_id
          ∙ tables.upsert-newest (new_message m) w.store m.ticket_id x there last other in
        (
          ap (λ (q : S). tables.last_message m.ticket_id q) same ∙ shown ∙ text,
          λ shows.
              let here = subst (λ (q : S). ShowsNewest tables ws m.ticket_id q) same shows in
              differ (sym (ap body_of kept) ∙ sym here ∙ shown ∙ text),
        )

    -- Where a message comes again that is not the newest of its ticket, with a body other than the
    -- newest one's, and it is stored, the ticket shows the body that came again and no longer that
    -- of the newest message.
    pub create_message-stale :
        (answer : Message)
        → (create_message tables ws m w).0 ≡ ok answer
        → (tables.last_message m.ticket_id (create_message tables ws m w).1.store ≡ m.body)
          × (¬ ShowsNewest tables ws m.ticket_id (create_message tables ws m w).1.store)
    create_message-stale answer h = Created-stale create_message-Created h
