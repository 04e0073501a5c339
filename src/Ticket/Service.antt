-- ===== src/Ticket/Service.antt =====
-- backend/internal/ticket/service.go and messages.go: the requests on one ticket, over the tables.
pub mod Writes
pub mod Requests
pub mod Single
pub mod Sight
pub mod Listeners
use whaticket_community.Prelude.{
  ℕ, Bool, true, false, ◌&&◌, not, Option, none, some, List, [], ◌∷◌, ◌++◌, Bytes, ◌==◌,
  bytes_keyed, if◌then◌else◌, nat_beq,
}
use whaticket_community.Ticket.Model.{
  Ticket, UserClaims, UpdateData, Updates, no_updates, is_empty, valid_status, Result, ok, err,
  AppError, ticket_not_found, no_permission, invalid_status, db_query, db_update, db_delete,
}
use whaticket_community.Ticket.Visibility.{can_see, can_modify}
use whaticket_community.Ticket.Plan.{plan, is_admin}
use whaticket_community.Ticket.Emit.{Frame, emit_update, emit_delete}
use whaticket_community.Ticket.Store.{Store, Marked, marked, missing_table, mark_failed}

-- The database, and the frames published so far.
pub record World (S : Type 0) : Type 0 where
  pub store : S
  pub frames : List Frame

abbrev pub unread_zero : Updates
unread_zero = record no_updates { unread_messages = some 0 }

module _ {S : Type 0} (db : Store S) where
  unfoldable pub load_by_id : ℕ → S → Result Ticket
  load_by_id id s = elim (db.first id s) [
    | none ↦ err db_query
    | some none ↦ err ticket_not_found
    | some (some t) ↦ ok t
  ]

  unfoldable pub user_queue_ids : Option UserClaims → S → Result (List ℕ)
  user_queue_ids none s = err no_permission
  user_queue_ids (some actor) s = elim (db.queue_ids actor.id s) [
    | none ↦ err db_query
    | some ids ↦ ok ids
  ]

  unfoldable pub show : ℕ → Option UserClaims → S → Result Ticket
  unfolding load_by_id user_queue_ids
  show id actor s = elim (load_by_id id s) [
    | err e ↦ err e
    | ok t ↦ elim (user_queue_ids actor s) [
      | err e ↦ err e
      | ok queues ↦ if not (can_see actor t queues) then err no_permission else ok t
    ]
  ]

  -- `Transaction`: an error, or a commit that fails, leaves the tables as they were.
  unfoldable pub transaction : (S → Option S) → S → Option S
  transaction body s = elim (body s) [
    | none ↦ none
    | some t ↦ if db.commits t then some t else none
  ]

  abbrev pub clear_unread : ℕ → Marked S → Option S
  clear_unread id mark_failed = none
  clear_unread id (marked t) = db.update id unread_zero t
  clear_unread id (missing_table t) = db.update id unread_zero t

  unfoldable pub set_messages_as_read : ℕ → S → Option S
  set_messages_as_read id s = clear_unread id (db.mark_read id s)

  -- What `Update` finds out before it writes.
  unfoldable pub planned : ℕ → UpdateData → Option UserClaims → S → Result (Ticket × Updates × Bool)
  unfolding load_by_id user_queue_ids
  planned id d actor s = if refused d.status then err invalid_status else elim (load_by_id id s) [
    | err e ↦ err e
    | ok t ↦ elim actor [
      | none ↦ err no_permission
      | some user ↦ elim (user_queue_ids (some user) s) [
        | err e ↦ err e
        | ok queues ↦
            if not (can_modify (some user) t queues)
            then err no_permission
            else elim (plan user t d) [ err e ↦ err e | ok (u, read) ↦ ok (t, u, read) ]
      ]
    ]
  ]
    where
      refused : Option Bytes → Bool
      refused none = false
      refused (some status) = not (valid_status status)

  -- The transaction of `Update`.
  unfoldable pub changes : ℕ → Updates → Bool → S → Option S
  unfolding set_messages_as_read
  changes id u read s = elim (if is_empty u then some s else db.update id u s) [
    | none ↦ none
    | some t ↦ if read then set_messages_as_read id t else some t
  ]

  -- `ws` says whether there is a publisher.
  module _ (ws : Bool) where
    unfoldable pub reload_and_emit : ℕ → Bytes → World S → Result Ticket × World S
    unfolding load_by_id
    reload_and_emit id old w = elim (load_by_id id w.store) [
      | err e ↦ (err e, w)
      | ok t ↦ (ok t, record w { frames = w.frames ++ emit_update ws t old })
    ]

    -- `Update` from its transaction on.
    unfoldable pub carry_out : ℕ → Ticket → Updates → Bool → World S → Result Ticket × World S
    unfolding transaction changes reload_and_emit
    carry_out id old u read w = elim (transaction (changes id u read) w.store) [
      | none ↦ (err db_update, w)
      | some s ↦ reload_and_emit id old.status (record w { store = s })
    ]

    unfoldable pub update_ticket :
        ℕ → UpdateData → Option UserClaims → World S → Result Ticket × World S
    unfolding planned carry_out
    update_ticket id d actor w = elim (planned id d actor w.store) [
      | err e ↦ (err e, w)
      | ok (t, u, read) ↦ if is_empty u && not read then (ok t, w) else carry_out id t u read w
    ]

    -- One write outside of a transaction, then the frames: `UpdateLastMessage`, `UpdateQueue` and
    -- `SetMessagesAsRead`, which return the error alone; here the ticket that is told of comes along.
    unfoldable pub write_and_emit : ℕ → (S → Option S) → World S → Result Ticket × World S
    unfolding load_by_id reload_and_emit
    write_and_emit id write w = elim (load_by_id id w.store) [
      | err e ↦ (err e, w)
      | ok t ↦ elim (write w.store) [
        | none ↦ (err db_update, w)
        | some s ↦ reload_and_emit id t.status (record w { store = s })
      ]
    ]

    unfoldable pub update_last_message : ℕ → Bytes → World S → Result Ticket × World S
    unfolding write_and_emit
    update_last_message id body =
        write_and_emit id (db.update id (record no_updates { last_message = some body }))

    unfoldable pub update_queue : ℕ → ℕ → World S → Result Ticket × World S
    unfolding write_and_emit
    update_queue id queue =
        write_and_emit id (db.update id (record no_updates { queue_id = some (some queue) }))

    unfoldable pub read_messages : ℕ → World S → Result Ticket × World S
    unfolding write_and_emit set_messages_as_read
    read_messages id = write_and_emit id (set_messages_as_read id)

    -- `tx.Delete`, where no row is an error as well; the flag says that it is that one.
    unfoldable pub removed : ℕ → S → Option S × Bool
    removed id s = elim (db.remove id s) [
      | none ↦ (none, false)
      | some (t, rows) ↦
          if nat_beq rows 0 then (none, true) else (if db.commits t then some t else none, false)
    ]

    unfoldable pub delete_ticket : ℕ → Option UserClaims → World S → Result (Unit {0}) × World S
    unfolding load_by_id removed
    delete_ticket id none w = (err no_permission, w)
    delete_ticket id (some actor) w =
        if not (is_admin actor) then (err no_permission, w) else elim (load_by_id id w.store) [
          | err e ↦ (err e, w)
          | ok t ↦
              let (after, missing) = removed id w.store in
              elim after [
                | none ↦ (err (if missing then ticket_not_found else db_delete), w)
                | some s ↦ (ok tt, record { store = s; frames = w.frames ++ emit_delete ws t })
              ]
        ]

  -- `WSAuthorizer.CanSee`; `none` is an error.
  unfoldable pub can_see_ticket : S → ℕ → Bytes → ℕ → Option Bool
  can_see_ticket s user profile id = elim (db.first id s) [
    | none ↦ none
    | some none ↦ some false
    | some (some t) ↦ elim (db.queue_ids user s) [
      | none ↦ none
      | some queues ↦ some (can_see (some (record { id = user; profile = profile })) t queues)
    ]
  ]
