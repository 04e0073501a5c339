-- ===== src/Ticket/Service/Requests.antt =====
-- What `Update` does on each of its ways out.
use whaticket_community.Prelude.{
  ℕ, ◌≡◌, ◌⊎◌, inl, inr, ◌∙◌, Bool, true, false, ◌&&◌, not, some, List, ◌++◌, arith, Bool-cases,
  Option-cases, subst,
}
use whaticket_community.Ticket.Model.{
  Ticket, UserClaims, Updates, UpdateData, is_empty, AppError, db_query, Result, ok, err,
  Result-cases, db_update,
}
use whaticket_community.Ticket.Visibility.{can_modify}
use whaticket_community.Ticket.Plan.{plan}
use whaticket_community.Ticket.Emit.{emit_update}
use whaticket_community.Ticket.Store.{Store}
use whaticket_community.Ticket.Service.{
  World, load_by_id, user_queue_ids, planned, transaction, changes, reload_and_emit, update_ticket,
  carry_out,
}
use whaticket_community.Ticket.Service.Writes.{
  Wrote, changes-Wrote, load_by_id-ok, transaction-some,
}

module _ {S : Type 0} (db : Store S) (ws : Bool) (id : ℕ) (d : UpdateData)
    (actor : UserClaims) where
  -- What `Update` found out about a request that it carries out.
  pub record Granted (s : S) (old : Ticket) (u : Updates) (read : Bool) : Type 0 where
    pub queues : List ℕ
    pub was : db.find id s ≡ some old
    pub its_queues : db.queue_ids actor.id s ≡ some queues
    pub may : can_modify (some actor) old queues ≡ true
    pub plans : plan actor old d ≡ ok (u, read)

  queues_lem :
      (s : S) {queues : List ℕ}
      → user_queue_ids db (some actor) s ≡ ok queues
      → db.queue_ids actor.id s ≡ some queues
  unfolding user_queue_ids
  queues_lem s h = ground arith

  planned-Granted :
      (s : S) (old : Ticket) (u : Updates) (read : Bool)
      → planned db id d (some actor) s ≡ ok (old, u, read)
      → Granted s old u read
  unfolding planned
  planned-Granted s old u read h = elim (Result-cases (load_by_id db id s)) [
    | inr (e, l) ↦ absurd (ground (arith, l))
    | inl (t, l) ↦ elim (Result-cases (user_queue_ids db (some actor) s)) [
      | inr (e, q) ↦ absurd (ground (arith, l, q))
      | inl (queues, q) ↦ elim (Result-cases (plan actor t d)) [
        | inr (e, p) ↦ absurd (ground (arith, l, q, p))
        | inl ((v, b), p) ↦ record {
          queues = queues;
          was = load_by_id-ok db id s l ∙ ground (arith, l, q, p);
          its_queues = queues_lem s q;
          may = ground (arith, l, q, p);
          plans = ground (arith, l, q, p);
        }
      ]
    ]
  ]

  -- The ways out of `Update`, with what each leaves behind.
  pub data Outcome (w : World S) : Result Ticket × World S → Type 0 where
    refused : (e : AppError) → planned db id d (some actor) w.store ≡ err e → Outcome w (err e, w)
    unchanged :
        (old : Ticket) (u : Updates)
        → Granted w.store old u false
        → is_empty u ≡ true
        → Outcome w (ok old, w)
    rolled_back :
        (old : Ticket) (u : Updates) (read : Bool)
        → Granted w.store old u read
        → Outcome w (err db_update, w)
    not_reloaded :
        (old : Ticket) (u : Updates) (read : Bool) (s : S)
        → Granted w.store old u read
        → Wrote db id u read old w.store s
        → Outcome w (err db_query, record w { store = s })
    written :
        (old : Ticket) (u : Updates) (read : Bool) (s : S)
        → Granted w.store old u read
        → (x : Wrote db id u read old w.store s)
        → Outcome w
            (ok x.new, record { store = s; frames = w.frames ++ emit_update ws x.new old.status })

  -- What was written is found, so a reload that fails is a database error.
  reload_cases :
      (s : S) (new : Ticket)
      → db.find id s ≡ some new
      → (load_by_id db id s ≡ ok new) ⊎ (load_by_id db id s ≡ err db_query)
  unfolding load_by_id
  reload_cases s new h = elim (Option-cases (db.first id s)) [
    | inl e ↦ ground (arith, e)
    | inr (o, e) ↦ ground (arith, e, db.first_lem id s e, h)
  ]

  reload-Outcome :
      (w : World S) (old : Ticket) (u : Updates) (read : Bool) (s : S)
      → Granted w.store old u read
      → Wrote db id u read old w.store s
      → Outcome w (reload_and_emit db ws id old.status (record w { store = s }))
  unfolding reload_and_emit
  reload-Outcome w old u read s g x = elim (reload_cases s x.new x.found) [
    | inl l ↦ rw (reload_and_emit, l) (written old u read s g x)
    | inr l ↦ rw (reload_and_emit, l) (not_reloaded old u read s g x)
  ]

  write-Outcome :
      (w : World S) (old : Ticket) (u : Updates) (read : Bool)
      → Granted w.store old u read
      → Outcome w (carry_out db ws id old u read w)
  unfolding carry_out
  write-Outcome w old u read g =
      elim (Option-cases (transaction db (changes db id u read) w.store)) [
        | inl n ↦ rw (carry_out, n) (rolled_back old u read g)
        | inr (s, k) ↦
            rw (carry_out, k)
              (reload-Outcome w old u read s g (
                changes-Wrote db id u read w.store s old g.was
                  (transaction-some db (changes db id u read) w.store k)))
      ]

  -- Every call of `Update` by a user ends in one of five ways. It is refused, and nothing changes. It
  -- asks for no change, and the ticket is returned as it was. It is rolled back with
  -- `ERR_DB_UPDATE`, and nothing changes. Or it is carried out for a user who may modify the
  -- ticket: the ticket gets the columns planned, other tickets stay, and the ticket as it is now is
  -- returned and told of once; or, where it cannot be read again, `ERR_DB_QUERY` is returned and
  -- nothing is told.
  pub update_ticket-Outcome : (w : World S) → Outcome w (update_ticket db ws id d (some actor) w)
  unfolding update_ticket
  update_ticket-Outcome w = elim (Result-cases (planned db id d (some actor) w.store)) [
    | inr (e, p) ↦ rw (update_ticket, p) (refused e p)
    | inl ((old, u, read), p) ↦
        let g = planned-Granted w.store old u read p in
        elim (Bool-cases (is_empty u && not read)) [
          | inr n ↦ rw (update_ticket, p, n) (write-Outcome w old u read g)
          | inl y ↦
              rw (update_ticket, p, y)
                (unchanged old u (subst (λ b. Granted w.store old u b) (ground (arith, y)) g)
                  (ground (arith, y)))
        ]
  ]
