-- ===== src/Ticket/Arrival/Conflict.antt =====
-- An update takes no lock on the contact: it may open a second ticket.
use whaticket_community.Prelude.{
  ℕ, ◌≡◌, ◌≢◌, sym, ◌∙◌, ap, Bool, true, false, Option, some, arith, get_or, subst,
}
use whaticket_community.Ticket.Model.{
  Ticket, UserClaims, Updates, UpdateData, is_empty, status_open, Result, ok,
}
use whaticket_community.Ticket.Plan.Rights.{plan-status}
use whaticket_community.Ticket.Store.{Store, Active, opened}
use whaticket_community.Ticket.Service.{World, update_ticket}
use whaticket_community.Ticket.Service.Writes.{Wrote}
use whaticket_community.Ticket.Service.Requests.{
  Granted, Outcome, refused, unchanged, rolled_back, not_reloaded, written, update_ticket-Outcome,
}
use whaticket_community.Ticket.Arrival.Rows.{OneActive}

module _ {S : Type 0} (db : Store S) (ws : Bool) (id j : ℕ) (d : UpdateData) (actor : UserClaims)
    (old other : Ticket) (n : id ≢ j) (asks : d.status ≡ some status_open)
    (active : Active other.status) (contact : old.contact_id ≡ other.contact_id)
    (whatsapp : old.whatsapp_id ≡ other.whatsapp_id) where
  -- Both tickets are in the table, active, and of one contact and connection.
  pub record BothActive (t : S) : Type 0 where
    pub first : Ticket
    pub first_found : db.find id t ≡ some first
    pub first_open : first.status ≡ status_open
    pub other_found : db.find j t ≡ some other
    pub other_active : Active other.status
    pub same_contact : first.contact_id ≡ other.contact_id
    pub same_whatsapp : first.whatsapp_id ≡ other.whatsapp_id

  BothActive-breaks : (t : S) → BothActive t → ¬ OneActive db t
  unfolding OneActive
  BothActive-breaks t b one = n (
      one id j b.first other b.first_found b.other_found (opened b.first_open) b.other_active
        b.same_contact b.same_whatsapp)

  written_twice :
      (s t : S) (u : Updates) (read : Bool)
      → Granted db ws id d actor s old u read
      → db.find j s ≡ some other
      → Wrote db id u read old s t
      → BothActive t
  written_twice s t u read g k x = record {
    first = x.new;
    first_found = x.found;
    first_open =
        x.written.status
        ∙ plan-status actor old d u read g.plans
        ∙ ap (λ (o : Option _). get_or o old.status) asks;
    other_found = x.others j n ∙ k;
    other_active = active;
    same_contact = x.written.same_contact ∙ contact;
    same_whatsapp = x.written.same_whatsapp ∙ whatsapp;
  }

  -- The row found is the one that was looked up.
  same_row : (s : S) (t : Ticket) → db.find id s ≡ some old → db.find id s ≡ some t → t ≡ old
  same_row s t h e = ground arith

  already_open :
      (s : S) (u : Updates)
      → Granted db ws id d actor s old u false
      → is_empty u ≡ true
      → db.find j s ≡ some other
      → BothActive s
  unfolding is_empty
  already_open s u g e k =
      let kept : get_or u.status old.status ≡ old.status = ground arith in
      record {
        first = old;
        first_found = g.was;
        first_open =
            sym kept
            ∙ plan-status actor old d u false g.plans
            ∙ ap (λ (o : Option _). get_or o old.status) asks;
        other_found = k;
        other_active = active;
        same_contact = contact;
        same_whatsapp = whatsapp;
      }

  Outcome-BothActive :
      (w : World S) {p : Result Ticket × World S} (new : Ticket)
      → db.find id w.store ≡ some old
      → db.find j w.store ≡ some other
      → Outcome db ws id d actor w p
      → p.0 ≡ ok new
      → BothActive p.1.store
  Outcome-BothActive w new h k (refused e p) o = absurd (ground (arith, o))
  Outcome-BothActive w new h k (unchanged t u g e) o =
      already_open w.store u
        (subst (λ r. Granted db ws id d actor w.store r u false) (same_row w.store t h g.was) g) e k
  Outcome-BothActive w new h k (rolled_back t u read g) o = absurd (ground (arith, o))
  Outcome-BothActive w new h k (not_reloaded t u read s g x) o = absurd (ground (arith, o))
  Outcome-BothActive w new h k (written t u read s g x) o =
      let same = same_row w.store t h g.was in
      written_twice w.store s u read (subst (λ r. Granted db ws id d actor w.store r u read) same g)
        k (subst (λ r. Wrote db id u read r w.store s) same x)

  -- When `Update` carries out a request to open a ticket while another ticket of the same contact
  -- and connection is active, both are in the table and active afterwards, the one open: the contact
  -- has two active tickets on the connection.
  pub update_ticket-breaks-OneActive :
      (w : World S) (new : Ticket)
      → db.find id w.store ≡ some old
      → db.find j w.store ≡ some other
      → (update_ticket db ws id d (some actor) w).0 ≡ ok new
      → BothActive (update_ticket db ws id d (some actor) w).1.store
        × (¬ OneActive db (update_ticket db ws id d (some actor) w).1.store)
  update_ticket-breaks-OneActive w new h k o =
      let both = Outcome-BothActive w new h k (update_ticket-Outcome db ws id d actor w) o in
      (both, BothActive-breaks _ both)
