-- ===== src/Ticket/Service/Sight.antt =====
-- Who is shown a ticket, by a request and by the websockets.
use whaticket_community.Prelude.{
  ℕ, ◌≡◌, ◌↔◌, inl, inr, true, none, some, arith, Bool-cases, Option-cases,
}
use whaticket_community.Ticket.Model.{Ticket, UserClaims, ok}
use whaticket_community.Ticket.Visibility.{can_see}
use whaticket_community.Ticket.Store.{Store}
use whaticket_community.Ticket.Service.{load_by_id, user_queue_ids, show, can_see_ticket}

-- The websockets let a user see a ticket exactly when a request of the same user is shown one.
pub can_see_ticket-show :
    {S : Type 0} (db : Store S) (s : S) (actor : UserClaims) (id : ℕ)
    → (can_see_ticket db s actor.id actor.profile id ≡ some true)
      ↔ ((t : Ticket) × (show db id (some actor) s ≡ ok t))
unfolding can_see_ticket show load_by_id user_queue_ids
can_see_ticket-show db s actor id = elim (Option-cases (db.first id s)) [
  | inl e ↦ ground (arith, e)
  | inr (none, e) ↦ ground (arith, e)
  | inr (some t, e) ↦ elim (Option-cases (db.queue_ids actor.id s)) [
    | inl q ↦ ground (arith, e, q)
    | inr (queues, q) ↦ elim (Bool-cases (can_see (some actor) t queues)) [
      | inl y ↦ ((λ h. (t, ground (arith, e, q, y))), (λ h. ground (arith, e, q, y)))
      | inr n ↦ ground (arith, e, q, n)
    ]
  ]
]
