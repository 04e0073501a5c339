-- ===== src/Ticket/Service/Single.antt =====
-- The requests that change one column, and the deletion of a ticket.
use whaticket_community.Prelude.{
  ℕ, ◌≡◌, ◌≢◌, ◌⊎◌, inl, inr, refl, Bool, true, false, Option, none, some, arith, Bytes, Bool-cases,
  Option-cases, nat_beq, nat_beq_iff, bytes_beq_iff, ◌++◌, bytes_keyed, if◌then◌else◌,
}
use whaticket_community.Ticket.Model.{
  Ticket, UserClaims, Updates, no_updates, is_empty, Result, ok, err, Result-cases, admin,
  no_permission, AppError, db_update, db_delete, ticket_not_found,
}
use whaticket_community.Ticket.Plan.{is_admin}
use whaticket_community.Ticket.Emit.{emit_update, emit_delete}
use whaticket_community.Ticket.Store.{Store}
use whaticket_community.Ticket.Service.{
  World, load_by_id, set_messages_as_read, write_and_emit, reload_and_emit, update_last_message,
  update_queue, read_messages, removed, delete_ticket,
}
use whaticket_community.Ticket.Service.Writes.{
  Wrote, load_by_id-ok, update-Wrote, read-Wrote, empty-Written,
}

-- The three requests that change one column.
pub data Single : Type 0 where
  say : Bytes → Single
  to_queue : ℕ → Single
  read_all : Single

abbrev pub single : {S : Type 0} → Store S → Bool → ℕ → Single → World S → Result Ticket × World S
single db ws id (say body) = update_last_message db ws id body
single db ws id (to_queue q) = update_queue db ws id q
single db ws id read_all = read_messages db ws id

abbrev pub columns : Single → Updates
columns (say body) = record no_updates { last_message = some body }
columns (to_queue q) = record no_updates { queue_id = some (some q) }
columns read_all = no_updates

abbrev pub reads : Single → Bool
reads (say body) = false
reads (to_queue q) = false
reads read_all = true

module _ {S : Type 0} (db : Store S) (ws : Bool) (id : ℕ) where
  -- A request that writes `u`, and the counter of unread messages where it is read, and tells of it.
  pub record Changed (u : Updates) (read : Bool) (w after : World S) (new : Ticket) : Type 0 where
    pub old : Ticket
    pub was : db.find id w.store ≡ some old
    pub wrote : Wrote db id u read old w.store after.store
    pub is : db.find id after.store ≡ some new
    pub told : after.frames ≡ w.frames ++ emit_update ws new old.status

  -- The one write of a request.
  abbrev pub statement_of : Single → S → Option S
  statement_of (say body) = db.update id (columns (say body))
  statement_of (to_queue q) = db.update id (columns (to_queue q))
  statement_of read_all = set_messages_as_read db id

  -- The ways in which a request that changes one column ends.
  pub data Ended (r : Single) (w : World S) : Result Ticket × World S → Type 0 where
    not_loaded : (e : AppError) → load_by_id db id w.store ≡ err e → Ended r w (err e, w)
    not_written :
        (old : Ticket)
        → db.find id w.store ≡ some old
        → statement_of r w.store ≡ none
        → Ended r w (err db_update, w)
    not_reloaded :
        (e : AppError) (old : Ticket) (t : S)
        → db.find id w.store ≡ some old
        → Wrote db id (columns r) (reads r) old w.store t
        → load_by_id db id t ≡ err e
        → Ended r w (err e, record w { store = t })
    changed :
        (after : World S) (new : Ticket)
        → Changed (columns r) (reads r) w after new
        → Ended r w (ok new, after)

  statement_of-Wrote :
      (r : Single) (s t : S) (old : Ticket)
      → db.find id s ≡ some old
      → statement_of r s ≡ some t
      → Wrote db id (columns r) (reads r) old s t
  statement_of-Wrote (say body) s t old f h = update-Wrote db id (columns (say body)) s t old f h
  statement_of-Wrote (to_queue q) s t old f h =
      update-Wrote db id (columns (to_queue q)) s t old f h
  statement_of-Wrote read_all s t old f h =
      read-Wrote db id no_updates s s t old
        (record {
          new = old;
          found = f;
          written = empty-Written no_updates old (unfold is_empty in refl);
          others = λ j n. refl;
        })
        h

  single-write_and_emit :
      (r : Single) (w : World S) → single db ws id r w ≡ write_and_emit db ws id (statement_of r) w
  unfolding update_last_message update_queue read_messages
  single-write_and_emit (say body) w = refl
  single-write_and_emit (to_queue q) w = refl
  single-write_and_emit read_all w = refl

  write-Ended : (r : Single) (w : World S) → Ended r w (write_and_emit db ws id (statement_of r) w)
  unfolding write_and_emit reload_and_emit
  write-Ended r w = elim (Result-cases (load_by_id db id w.store)) [
    | inr (e, l) ↦ rw (l, write_and_emit) (not_loaded e l)
    | inl (old, l) ↦
        let f = load_by_id-ok db id w.store l in
        elim (Option-cases (statement_of r w.store)) [
          | inl n ↦ rw (l, n, write_and_emit) (not_written old f n)
          | inr (t, k) ↦
              let wrote = statement_of-Wrote r w.store t old f k in
              elim (Result-cases (load_by_id db id t)) [
                | inr (e, x) ↦
                    rw (l, k, x, write_and_emit, reload_and_emit) (not_reloaded e old t f wrote x)
                | inl (new, x) ↦
                    rw (l, k, x, write_and_emit, reload_and_emit)
                      (changed _ new (record {
                        old = old;
                        was = f;
                        wrote = wrote;
                        is = load_by_id-ok db id t x;
                        told = refl;
                      }))
              ]
        ]
  ]

  -- `UpdateLastMessage`, `UpdateQueue` and `SetMessagesAsRead` fail and change nothing, as the ticket
  -- was not found or the write failed; or they write, as said below, and the ticket cannot be
  -- loaded again, which is the answer, and nobody is told; or they write and tell of the ticket
  -- as it is now. What is written is the message, the queue, or that no message is unread, and
  -- the other columns of the ticket, and every other ticket, are as they were.
  pub single-Ended : (r : Single) (w : World S) → Ended r w (single db ws id r w)
  single-Ended r w = rw (single-write_and_emit r w) (write-Ended r w)

  removed_cases :
      (s : S)
      → ((removed db ws id s).0 ≡ none)
        ⊎ ((t : S) × ((removed db ws id s).0 ≡ some t)
            × (db.find id t ≡ none)
            × ((j : ℕ) → id ≢ j → db.find j t ≡ db.find j s))
  unfolding removed
  removed_cases s = elim (Option-cases (db.remove id s)) [
    | inl e ↦ inl (ground (arith, e))
    | inr ((t, rows), e) ↦ elim (Bool-cases (nat_beq rows 0)) [
      | inl z ↦ inl (ground (arith, e, z))
      | inr z ↦ elim (Bool-cases (db.commits t)) [
        | inr n ↦ inl (ground (arith, e, z, n))
        | inl y ↦ inr (
          t,
          ground (arith, e, z, y),
          ground (arith, db.remove_lem id s id e, nat_beq_iff id id),
          (λ j n. ground (arith, db.remove_lem id s j e, nat_beq_iff id j)),
        )
      ]
    ]
  ]

  -- The ways in which a deletion ends.
  pub data Deletion (actor : Option UserClaims) (w : World S)
      : Result (Unit {0}) × World S → Type 0 where
    nobody : actor ≡ none → Deletion actor w (err no_permission, w)
    forbidden :
        (user : UserClaims)
        → actor ≡ some user
        → user.profile ≢ admin
        → Deletion actor w (err no_permission, w)
    not_loaded : (e : AppError) → load_by_id db id w.store ≡ err e → Deletion actor w (err e, w)
    not_removed :
        (removed db ws id w.store).0 ≡ none
        → Deletion actor w
            (err (if (removed db ws id w.store).1 then ticket_not_found else db_delete), w)
    gone :
        (user : UserClaims) (old : Ticket) (s : S)
        → actor ≡ some user
        → user.profile ≡ admin
        → db.find id w.store ≡ some old
        → db.find id s ≡ none
        → ((j : ℕ) → id ≢ j → db.find j s ≡ db.find j w.store)
        → Deletion actor w (ok tt, record { store = s; frames = w.frames ++ emit_delete ws old })

  -- A deletion changes nothing and answers why: nobody asked, or a user who is no administrator, or the
  -- ticket could not be loaded, or it was not removed. Or an administrator asked for it: then
  -- the ticket was there and is gone, every other ticket is left, and the deletion is told of.
  pub delete_ticket-Deletion :
      (actor : Option UserClaims) (w : World S) → Deletion actor w (delete_ticket db ws id actor w)
  unfolding delete_ticket
  delete_ticket-Deletion none w = nobody refl
  delete_ticket-Deletion (some user) w = elim (Bool-cases (is_admin user)) [
    | inr n ↦
        rw (delete_ticket, n)
          (forbidden user refl (λ h. ground (arith, n, (bytes_beq_iff user.profile admin).1 h)))
    | inl y ↦ elim (Result-cases (load_by_id db id w.store)) [
      | inr (e, l) ↦ rw (delete_ticket, y, l) (not_loaded e l)
      | inl (old, l) ↦ elim (removed_cases w.store) [
        | inl e ↦ rw (delete_ticket, y, l, e) (not_removed e)
        | inr (s, e, f, others) ↦
            rw (delete_ticket, y, l, e)
              (gone user old s refl ((bytes_beq_iff user.profile admin).0 y)
                (load_by_id-ok db id w.store l) f others)
      ]
    ]
  ]
