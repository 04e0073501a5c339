-- ===== src/Ticket/Service/Writes.antt =====
-- What the statements of a request leave in the tables.
use whaticket_community.Prelude.{
  ℕ, ◌≡◌, ◌≢◌, ◌∙◌, refl, Bool, true, false, Option, some, arith, if◌then◌else◌, nat_beq_iff,
  get_or, Option-cases, inl, inr, Bool-cases, subst,
}
use whaticket_community.Ticket.Model.{Ticket, Updates, is_empty, apply, ok}
use whaticket_community.Ticket.Store.{Store, Marked, marked, missing_table, mark_failed}
use whaticket_community.Ticket.Service.{
  load_by_id, transaction, set_messages_as_read, changes, unread_zero, clear_unread,
}

-- The columns of a ticket after a write of `u`, and of `unread_messages` once more where it is read.
pub record Written (u : Updates) (read : Bool) (old new : Ticket) : Type 0 where
  pub status : new.status ≡ get_or u.status old.status
  pub user_id : new.user_id ≡ get_or u.user_id old.user_id
  pub queue_id : new.queue_id ≡ get_or u.queue_id old.queue_id
  pub last_message : new.last_message ≡ get_or u.last_message old.last_message
  pub unread :
      new.unread_messages ≡ (if read then 0 else get_or u.unread_messages old.unread_messages)
  pub same_contact : new.contact_id ≡ old.contact_id
  pub same_whatsapp : new.whatsapp_id ≡ old.whatsapp_id

apply-Written : (now : ℕ) (u : Updates) (old : Ticket) → Written u false old (apply now u old)
unfolding apply
apply-Written now u old = record {
  status = refl;
  user_id = refl;
  queue_id = refl;
  last_message = refl;
  unread = refl;
  same_contact = refl;
  same_whatsapp = refl;
}

read-Written :
    (now : ℕ) (u : Updates) (old new : Ticket)
    → Written u false old new
    → Written u true old (apply now unread_zero new)
unfolding apply
read-Written now u old new h = record {
  status = h.status;
  user_id = h.user_id;
  queue_id = h.queue_id;
  last_message = h.last_message;
  unread = refl;
  same_contact = h.same_contact;
  same_whatsapp = h.same_whatsapp;
}

pub empty-Written : (u : Updates) (old : Ticket) → is_empty u ≡ true → Written u false old old
unfolding is_empty
empty-Written u old e = record {
  status = ground arith;
  user_id = ground arith;
  queue_id = ground arith;
  last_message = ground arith;
  unread = ground arith;
  same_contact = refl;
  same_whatsapp = refl;
}

module _ {S : Type 0} (db : Store S) where
  pub load_by_id-ok :
      (id : ℕ) (s : S) {t : Ticket} → load_by_id db id s ≡ ok t → db.find id s ≡ some t
  unfolding load_by_id
  load_by_id-ok id s {t} h = elim (Option-cases (db.first id s)) [
    | inl e ↦ ground (arith, e)
    | inr (o, e) ↦ ground (arith, e, db.first_lem id s e)
  ]

  pub transaction-some :
      (body : S → Option S) (s : S) {t : S} → transaction db body s ≡ some t → body s ≡ some t
  unfolding transaction
  transaction-some body s h = ground arith

  -- The row of the id becomes what is written; the other rows stay.
  pub update-find :
      (id : ℕ) (u : Updates) (s : S) {t : S} {old : Ticket}
      → db.update id u s ≡ some t
      → db.find id s ≡ some old
      → db.find id t ≡ some (apply (db.clock s) u old)
  update-find id u s h e = ground (arith, db.update_lem id u s id h, e, nat_beq_iff id id)

  pub update-others :
      (id : ℕ) (u : Updates) (s : S) {t : S} (j : ℕ)
      → db.update id u s ≡ some t
      → id ≢ j
      → db.find j t ≡ db.find j s
  update-others id u s j h n = ground (arith, db.update_lem id u s j h, nat_beq_iff id j)

  -- Marking messages as read leaves the tickets; then the counter is written.
  abbrev pub Cleared : ℕ → S → S → Type 0
  Cleared id s t =
      (m : S) × ((j : ℕ) → db.find j m ≡ db.find j s) × (db.update id unread_zero m ≡ some t)

  clear_unread-some :
      (id : ℕ) (s t : S) (o : Marked S)
      → db.mark_read id s ≡ o
      → clear_unread db id o ≡ some t
      → Cleared id s t
  clear_unread-some id s t mark_failed e h = cc
  clear_unread-some id s t (marked m) e h = (m, (λ j. (db.mark_read-marked id s j e).0), h)
  clear_unread-some id s t (missing_table m) e h =
      (m, (λ j. db.mark_read-missing_table id s j e), h)

  pub read-Cleared : (id : ℕ) (s t : S) → set_messages_as_read db id s ≡ some t → Cleared id s t
  unfolding set_messages_as_read
  read-Cleared id s t h = clear_unread-some id s t (db.mark_read id s) refl h

  -- What a write makes of the tickets: the row of the id is written, the others stay.
  pub record Wrote (id : ℕ) (u : Updates) (read : Bool) (old : Ticket) (s t : S) : Type 0 where
    pub new : Ticket
    pub found : db.find id t ≡ some new
    pub written : Written u read old new
    pub others : (j : ℕ) → id ≢ j → db.find j t ≡ db.find j s

  pub update-Wrote :
      (id : ℕ) (u : Updates) (s t : S) (old : Ticket)
      → db.find id s ≡ some old
      → db.update id u s ≡ some t
      → Wrote id u false old s t
  update-Wrote id u s t old e h = record {
    new = apply (db.clock s) u old;
    found = update-find id u s h e;
    written = apply-Written (db.clock s) u old;
    others = λ j n. update-others id u s j h n;
  }

  columns-Wrote :
      (id : ℕ) (u : Updates) (s t : S) (old : Ticket)
      → db.find id s ≡ some old
      → (if is_empty u then some s else db.update id u s) ≡ some t
      → Wrote id u false old s t
  columns-Wrote id u s t old e h = elim (Bool-cases (is_empty u)) [
    | inl y ↦
        let same : s ≡ t = ground (arith, y) in
        record {
          new = old;
          found = rw (← same) e;
          written = empty-Written u old y;
          others = λ j n. rw same refl;
        }
    | inr n ↦ update-Wrote id u s t old e (ground (arith, n))
  ]

  pub read-Wrote :
      (id : ℕ) (u : Updates) (s m t : S) (old : Ticket)
      → Wrote id u false old s m
      → set_messages_as_read db id m ≡ some t
      → Wrote id u true old s t
  read-Wrote id u s m t old w h =
      let (k, same, e) = read-Cleared id m t h in
      record {
        new = apply (db.clock k) unread_zero w.new;
        found = update-find id unread_zero k e (same id ∙ w.found);
        written = read-Written (db.clock k) u old w.new w.written;
        others = λ j n. update-others id unread_zero k j e n ∙ (same j ∙ w.others j n);
      }

  pub changes-Wrote :
      (id : ℕ) (u : Updates) (read : Bool) (s t : S) (old : Ticket)
      → db.find id s ≡ some old
      → changes db id u read s ≡ some t
      → Wrote id u read old s t
  unfolding changes
  changes-Wrote id u read s t old e h =
      elim (Option-cases (if is_empty u then some s else db.update id u s)) [
        | inl n ↦ absurd (ground (arith, n))
        | inr (m, k) ↦
            let w = columns-Wrote id u s m old e k in
            elim (Bool-cases read) [
              | inl y ↦ rw y (read-Wrote id u s m t old w (ground (arith, k, y)))
              | inr n ↦ rw n (subst (λ x. Wrote id u false old s x) (ground (arith, k, n)) w)
            ]
      ]
