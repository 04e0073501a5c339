-- ===== src/Ticket/Arrival/OneActive.antt =====
-- A contact has one active ticket on a connection at most.
use whaticket_community.Prelude.{
  ℕ, ◌≡◌, ◌≢◌, ◌⊎◌, inl, inr, sym, ◌∙◌, ap, Bool, Option, some, arith, nat_beq, nat_beq_iff,
  Bool-cases, Option-cases, subst,
}
use whaticket_community.Ticket.Model.{
  Ticket, Result, ok, err, Result-cases, AppError, invalid_input, db_transaction,
}
use whaticket_community.Ticket.Store.{Store, Active}
use whaticket_community.Ticket.Service.{World, load_by_id}
use whaticket_community.Ticket.Service.Writes.{load_by_id-ok}
use whaticket_community.Ticket.Arrival.Rows.{OneActive, Arrived, locked-Arrived}
use whaticket_community.Ticket.Arrival.{
  Action, find_or_create_locked, with_contact_lock, find_or_create, tell_arrival, lookup_contact,
  is_some_group,
}

module _ {S : Type 0} (db : Store S) where
  -- The lock leaves the tickets as they are.
  OneActive-same :
      (s t : S) → ((j : ℕ) → db.find j t ≡ db.find j s) → OneActive db s → OneActive db t
  unfolding OneActive
  OneActive-same s t same one i j a b x y = one i j a b (sym (same i) ∙ x) (sym (same j) ∙ y)

  -- A row of the tables after the arrival is the new one, or an old one of another id.
  row_cases :
      (contact whatsapp unread id : ℕ) (s t : S)
      → (r : Arrived db contact whatsapp unread id s t) → (i : ℕ) (a : Ticket)
      → db.find i t ≡ some a
      → ((id ≡ i) × (a ≡ r.new)) ⊎ ((id ≢ i) × (db.find i s ≡ some a))
  row_cases contact whatsapp unread id s t r i a x = elim (Bool-cases (nat_beq id i)) [
    | inl e ↦ let same = (nat_beq_iff id i).0 e in inl (same, ground (arith, r.found, same))
    | inr n ↦ let other : id ≢ i = λ e. ground arith in inr (other, sym (r.others i other) ∙ x)
  ]

  Arrived-OneActive :
      (contact whatsapp unread id : ℕ) (s t : S)
      → Arrived db contact whatsapp unread id s t
      → OneActive db s
      → OneActive db t
  unfolding OneActive
  Arrived-OneActive contact whatsapp unread id s t r one i j a b x y p q c w =
      elim (row_cases contact whatsapp unread id s t r i a x) [
        | inl (ei, ea) ↦ elim (row_cases contact whatsapp unread id s t r j b y) [
          | inl (ej, eb) ↦ sym ei ∙ ej
          | inr (nj, k) ↦
              sym ei
              ∙ r.clear one j b k q (sym c ∙ ap (λ (u : Ticket). u.contact_id) ea ∙ r.its_contact)
                  (sym w ∙ ap (λ (u : Ticket). u.whatsapp_id) ea ∙ r.its_whatsapp)
        ]
        | inr (ni, h) ↦ elim (row_cases contact whatsapp unread id s t r j b y) [
          | inl (ej, eb) ↦
              sym (
                r.clear one i a h p (c ∙ ap (λ (u : Ticket). u.contact_id) eb ∙ r.its_contact)
                  (w ∙ ap (λ (u : Ticket). u.whatsapp_id) eb ∙ r.its_whatsapp))
              ∙ ej
          | inr (nj, k) ↦ one i j a b h k p q c w
        ]
      ]

  locked_cases :
      (contact whatsapp : ℕ) (body : S → Option (S × ℕ × Action)) (s v : S) (id : ℕ)
      → (action : Action) → with_contact_lock db contact whatsapp body s ≡ some (v, id, action)
      → (m : S) × ((j : ℕ) → db.find j m ≡ db.find j s) × (body m ≡ some (v, id, action))
  unfolding with_contact_lock
  locked_cases contact whatsapp body s v id action h =
      elim (Option-cases (db.lock contact whatsapp s)) [
        | inl e ↦ absurd (ground (arith, e))
        | inr (m, e) ↦ elim (Option-cases (body m)) [
          | inl k ↦ absurd (ground (arith, e, k))
          | inr (o, k) ↦ (m, (λ j. db.lock_lem contact whatsapp s j e), k ∙ ground (arith, e, k))
        ]
      ]

  arrival-OneActive :
      (contact whatsapp unread : ℕ) (is_group : Bool) (s v : S) (id : ℕ) (action : Action)
      → with_contact_lock db contact whatsapp
          (find_or_create_locked db contact whatsapp is_group unread)
          s
        ≡ some (v, id, action)
      → OneActive db s
      → OneActive db v
  arrival-OneActive contact whatsapp unread is_group s v id action h one =
      let (m, same, k) = locked_cases contact whatsapp _ s v id action h in
      Arrived-OneActive contact whatsapp unread id m v
        (locked-Arrived db contact whatsapp unread is_group m v id action k)
        (OneActive-same s m same one)

  -- A result of the arrival of a message: it is the contact's active ticket on the connection.
  pub record IsArrival (contact whatsapp unread : ℕ) (t : Ticket) (s : S) : Type 0 where
    pub found : db.find t.id s ≡ some t
    pub active : Active t.status
    pub its_contact : t.contact_id ≡ contact
    pub its_whatsapp : t.whatsapp_id ≡ whatsapp
    pub its_unread : t.unread_messages ≡ unread

  Arrived-ticket :
      (contact whatsapp unread id : ℕ) (s v : S) (t : Ticket)
      → Arrived db contact whatsapp unread id s v
      → db.find id v ≡ some t
      → IsArrival contact whatsapp unread t v
  Arrived-ticket contact whatsapp unread id s v t r e =
      let same : r.new ≡ t = ground (arith, r.found, e) in
      record {
        found = ap (λ (n : ℕ). db.find n v) (db.find_id id v e) ∙ e;
        active = subst (λ (u : Ticket). Active u.status) same r.active;
        its_contact = ap (λ (u : Ticket). u.contact_id) (sym same) ∙ r.its_contact;
        its_whatsapp = ap (λ (u : Ticket). u.whatsapp_id) (sym same) ∙ r.its_whatsapp;
        its_unread = ap (λ (u : Ticket). u.unread_messages) (sym same) ∙ r.its_unread;
      }

  module _ (ws : Bool) where
    -- The two ways in which `FindOrCreate` ends: an error, or the ticket of the message.
    pub data Outcome (contact : Option ℕ) (whatsapp unread : ℕ) (group : Option ℕ)
        : Result Ticket × World S → Type 0 where
      failed :
          (e : AppError) (w : World S)
          → OneActive db w.store
          → Outcome contact whatsapp unread group (err e, w)
      arrived :
          (wanted : ℕ) (t : Ticket) (w : World S)
          → lookup_contact db contact group ≡ some wanted
          → OneActive db w.store
          → IsArrival wanted whatsapp unread t w.store
          → Outcome contact whatsapp unread group (ok t, w)

    tell_arrival-Outcome :
        (contact : Option ℕ) (whatsapp unread : ℕ) (group : Option ℕ) (w : World S)
        → (wanted id : ℕ) (action : Action) (s : S) → lookup_contact db contact group ≡ some wanted
        → OneActive db w.store
        → Arrived db wanted whatsapp unread id s w.store
        → Outcome contact whatsapp unread group (tell_arrival db ws id action w)
    unfolding tell_arrival
    tell_arrival-Outcome contact whatsapp unread group w wanted id action s l one r =
        elim (Result-cases (load_by_id db id w.store)) [
          | inr (e, k) ↦ rw (tell_arrival, k) (failed e w one)
          | inl (t, k) ↦
              rw (tell_arrival, k)
                (arrived wanted t _ l one (
                  Arrived-ticket wanted whatsapp unread id s w.store t r
                    (load_by_id-ok db id w.store k)))
        ]

    -- Where each contact has one active ticket on a connection at most, `FindOrCreate` leaves it
    -- so, on each of its ways out; the ticket that it returns is in the table, is active, belongs
    -- to the contact (the group's, where there is one) and the connection, and has the number of
    -- unread messages given.
    pub find_or_create-Outcome :
        (contact : Option ℕ) (whatsapp unread : ℕ) (group : Option ℕ) (w : World S)
        → OneActive db w.store
        → Outcome contact whatsapp unread group
            (find_or_create db ws contact whatsapp unread group w)
    unfolding find_or_create
    find_or_create-Outcome contact whatsapp unread group w one =
        elim (Option-cases (lookup_contact db contact group)) [
          | inl l ↦ rw (find_or_create, l) (failed invalid_input w one)
          | inr (wanted, l) ↦ elim (Bool-cases (nat_beq whatsapp 0)) [
            | inl z ↦ rw (find_or_create, l, z) (failed invalid_input w one)
            | inr z ↦
                let body =
                  find_or_create_locked db wanted whatsapp (is_some_group db group) unread in
                elim (Option-cases (with_contact_lock db wanted whatsapp body w.store)) [
                  | inl k ↦ rw (find_or_create, l, z, k) (failed db_transaction w one)
                  | inr ((v, id, action), k) ↦
                      let (m, same, b) = locked_cases wanted whatsapp body w.store v id action k in
                      rw (find_or_create, l, z, k)
                        (tell_arrival-Outcome contact whatsapp unread group (record w { store = v })
                          wanted id action m l
                          (arrival-OneActive wanted whatsapp unread (is_some_group db group) w.store
                            v id action k one)
                          (locked-Arrived db wanted whatsapp unread (is_some_group db group) m v id
                            action b))
                ]
          ]
        ]
