-- ===== src/Ticket/Listing/Visible.antt =====
-- The list of tickets against the right to see one of them.
use whaticket_community.Prelude.{
  ℕ, ◌≡◌, ◌≢◌, Bool, true, false, ◌||◌, some, List, arith, bytes_keyed, bytes_beq_iff,
}
use whaticket_community.Ticket.Model.{Ticket, UserClaims, admin, status_pending}
use whaticket_community.Ticket.Visibility.{
  can_see, sees, can_modify, contains_uint, in_queues, is_null,
}
use whaticket_community.Ticket.Listing.{scope_visibility}

module _ (actor : UserClaims) (t : Ticket) (queues : List ℕ) where
  -- Whoever may change a ticket may see it.
  pub can_see-can_modify :
      can_modify (some actor) t queues ≡ true → can_see (some actor) t queues ≡ true
  unfolding can_modify can_see sees
  can_see-can_modify h = ground arith

  -- The list leaves out no ticket that the user may see.
  pub scope_visibility_complete :
      (show_all : Bool)
      → can_see (some actor) t queues ≡ true
      → scope_visibility actor queues show_all t ≡ true
  unfolding can_see sees scope_visibility contains_uint
  scope_visibility_complete show_all h = ground arith

  -- A ticket of somebody else or of nobody that is not pending and not in the user's queues is not
  -- one that a user without administrator rights may see; the list shows it all the same with
  -- `showAll`, and without it where the ticket has no queue, and then only.
  pub scope_visibility-exceeds :
      (show_all : Bool)
      → actor.profile ≢ admin
      → t.user_id ≢ some actor.id
      → t.status ≢ status_pending
      → in_queues t.queue_id queues ≡ false
      → (can_see (some actor) t queues ≡ false)
        × (scope_visibility actor queues show_all t ≡ (show_all || is_null t.queue_id))
  unfolding can_see sees scope_visibility
  scope_visibility-exceeds show_all p u s q =
      ground (arith, bytes_beq_iff actor.profile admin, bytes_beq_iff t.status status_pending)
