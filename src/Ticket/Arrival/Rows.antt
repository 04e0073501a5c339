-- ===== src/Ticket/Arrival/Rows.antt =====
-- What the arrival of a message leaves in the tables, on each branch.
use whaticket_community.Prelude.{
  ℕ, ◌≡◌, ◌≢◌, inl, inr, sym, ◌∙◌, refl, Bool, Option, none, some, arith, nat_beq_iff, Option-cases,
}
use whaticket_community.Ticket.Model.{Ticket, apply}
use whaticket_community.Ticket.Store.{Store, Active, pending}
use whaticket_community.Ticket.Service.Writes.{update-find, update-others}
use whaticket_community.Ticket.Arrival.{
  Action, bump, reopen, fresh, cutoff, reopen_or_create, find_or_create_locked,
}

module _ {S : Type 0} (db : Store S) where
  unfoldable pub OneActive : S → Type 0
  OneActive s =
      (i j : ℕ) (t v : Ticket)
      → db.find i s ≡ some t
      → db.find j s ≡ some v
      → Active t.status
      → Active v.status
      → t.contact_id ≡ v.contact_id
      → t.whatsapp_id ≡ v.whatsapp_id
      → i ≡ j

  -- No other ticket than that of `id` is active for the contact and the connection.
  abbrev pub Clear : ℕ → ℕ → ℕ → S → Type 0
  Clear id contact whatsapp s =
      (j : ℕ) (v : Ticket)
      → db.find j s ≡ some v
      → Active v.status
      → v.contact_id ≡ contact
      → v.whatsapp_id ≡ whatsapp
      → id ≡ j

  -- What the arrival of a message for the contact on the connection leaves in the tables.
  pub record Arrived (contact whatsapp unread id : ℕ) (s t : S) : Type 0 where
    pub new : Ticket
    pub found : db.find id t ≡ some new
    pub others : (j : ℕ) → id ≢ j → db.find j t ≡ db.find j s
    pub active : Active new.status
    pub its_contact : new.contact_id ≡ contact
    pub its_whatsapp : new.whatsapp_id ≡ whatsapp
    pub its_unread : new.unread_messages ≡ unread
    pub clear : OneActive s → Clear id contact whatsapp s

  module _ (contact whatsapp unread : ℕ) where
    bump-Arrived :
        (s t : S) (old : Ticket)
        → db.first_active contact whatsapp s ≡ some (some old)
        → db.update old.id (bump unread) s ≡ some t
        → Arrived contact whatsapp unread old.id s t
    unfolding apply OneActive
    bump-Arrived s t old e h =
        let (at, c, w, a) = db.first_active-some contact whatsapp s e in
        record {
          new = apply (db.clock s) (bump unread) old;
          found = update-find db old.id (bump unread) s h at;
          others = λ j n. update-others db old.id (bump unread) s j h n;
          active = a;
          its_contact = c;
          its_whatsapp = w;
          its_unread = refl;
          clear = λ one j v k b vc vw. one old.id j old v at k a b (c ∙ sym vc) (w ∙ sym vw);
        }

    none-Clear :
        (id : ℕ) (s : S)
        → db.first_active contact whatsapp s ≡ some none
        → Clear id contact whatsapp s
    none-Clear id s e j v k b vc vw = absurd (db.first_active-none contact whatsapp s j e k vc vw b)

    reopen-Arrived :
        (since : Option ℕ) (s t : S) (old : Ticket)
        → db.first_active contact whatsapp s ≡ some none
        → db.first_since contact whatsapp since s ≡ some (some old)
        → db.update old.id (reopen unread) s ≡ some t
        → Arrived contact whatsapp unread old.id s t
    unfolding apply
    reopen-Arrived since s t old n e h =
        let (at, c, w) = db.first_since-some contact whatsapp since s e in
        record {
          new = apply (db.clock s) (reopen unread) old;
          found = update-find db old.id (reopen unread) s h at;
          others = λ j m. update-others db old.id (reopen unread) s j h m;
          active = pending refl;
          its_contact = c;
          its_whatsapp = w;
          its_unread = refl;
          clear = λ one. none-Clear old.id s n;
        }

    create-Arrived :
        (is_group : Bool) (s t : S) (id : ℕ)
        → db.first_active contact whatsapp s ≡ some none
        → db.create (fresh contact whatsapp is_group unread) s ≡ some (t, id)
        → Arrived contact whatsapp unread id s t
    create-Arrived is_group s t id n h =
        let row = fresh contact whatsapp is_group unread in
        record {
          new = record row { id = id; updated_at = db.clock s };
          found = ground (arith, (db.create_lem row s id h).1, nat_beq_iff id id);
          others = λ j m. ground (arith, (db.create_lem row s j h).1, nat_beq_iff id j);
          active = pending refl;
          its_contact = refl;
          its_whatsapp = refl;
          its_unread = refl;
          clear = λ one. none-Clear id s n;
        }

    module _ (is_group : Bool) where
      reopen_or_create-Arrived :
          (s t : S) (id : ℕ) (action : Action)
          → db.first_active contact whatsapp s ≡ some none
          → reopen_or_create db contact whatsapp is_group unread s ≡ some (t, id, action)
          → Arrived contact whatsapp unread id s t
      unfolding reopen_or_create
      reopen_or_create-Arrived s t id action n h =
          let since = cutoff is_group (db.clock s) in
          elim (Option-cases (db.first_since contact whatsapp since s)) [
            | inl e ↦ absurd (ground (arith, e))
            | inr (none, e) ↦
                elim (Option-cases (db.create (fresh contact whatsapp is_group unread) s)) [
                  | inl k ↦ absurd (ground (arith, e, k))
                  | inr ((v, j), k) ↦ create-Arrived is_group s t id n (k ∙ ground (arith, e, k))
                ]
            | inr (some old, e) ↦ elim (Option-cases (db.update old.id (reopen unread) s)) [
              | inl k ↦ absurd (ground (arith, e, k))
              | inr (v, k) ↦
                  let same : old.id ≡ id = ground (arith, e, k) in
                  rw (← same) (reopen-Arrived since s t old n e (k ∙ ground (arith, e, k)))
            ]
          ]

      pub locked-Arrived :
          (s t : S) (id : ℕ) (action : Action)
          → find_or_create_locked db contact whatsapp is_group unread s ≡ some (t, id, action)
          → Arrived contact whatsapp unread id s t
      unfolding find_or_create_locked
      locked-Arrived s t id action h = elim (Option-cases (db.first_active contact whatsapp s)) [
        | inl e ↦ absurd (ground (arith, e))
        | inr (none, e) ↦ reopen_or_create-Arrived s t id action e (ground (arith, e))
        | inr (some old, e) ↦ elim (Option-cases (db.update old.id (bump unread) s)) [
          | inl k ↦ absurd (ground (arith, e, k))
          | inr (v, k) ↦
              let same : old.id ≡ id = ground (arith, e, k) in
              rw (← same) (bump-Arrived s t old e (k ∙ ground (arith, e, k)))
        ]
      ]
