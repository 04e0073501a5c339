-- ===== src/Ticket/Service/Listeners.antt =====
-- Who may listen to the frames of a ticket, against who is shown the ticket.
use whaticket_community.Prelude.{
  ℕ, ◌<◌, ◌^◌, ◌≡◌, ◌≢◌, ◌↔◌, ◌⊎◌, inl, inr, sym, ◌∙◌, refl, true, Option, some, arith, Bytes, [],
  ◌∷◌, if◌then◌else◌, ◌==◌, bytes_keyed, bytes_beq_iff, Bool-cases, Option-cases, print_uint,
  print_uint-ne-nil, parse_uint, parse_uint-print_uint, bytes_beq, ap,
}
use whaticket_community.Ws.Channels.{namespace_ticket, all_name}
use whaticket_community.Ws.Channels.Parts.{join_channel-append}
use whaticket_community.Ws.Authz.{
  TicketAuthorizer, authorize_subscribe, authorize_parts, authorize_ticket, authorize_seen, allow,
  profile_admin,
}
use whaticket_community.Ws.Authz.Grants.{by_parts, all_suffix-parse_uint}
use whaticket_community.Ticket.Model.{Ticket, UserClaims, admin, ok}
use whaticket_community.Ticket.Emit.{ticket_channel}
use whaticket_community.Ticket.Store.{Store}
use whaticket_community.Ticket.Service.{show, can_see_ticket}
use whaticket_community.Ticket.Service.Sight.{can_see_ticket-show}

module _ (authz : Option TicketAuthorizer) (user : ℕ) (profile : Bytes) where
  authorize_channel :
      (id : ℕ)
      → id ≢ 0
      → id < 2 ^ 64
      → authorize_subscribe authz user profile (ticket_channel id)
        ≡ authorize_ticket authz user profile (print_uint id)
  unfolding ticket_channel authorize_parts bytes_beq
  authorize_channel id z h =
      let digits = print_uint id in
      ap (authorize_subscribe authz user profile)
        (sym (join_channel-append namespace_ticket digits (print_uint-ne-nil id)))
      ∙ by_parts authz user profile namespace_ticket digits (λ e. cc) (unfold all_name in refl)
          (all_suffix-parse_uint digits id (parse_uint-print_uint id h))

  authorize_id :
      (s : Bytes) (id : ℕ)
      → s ≢ []
      → id ≢ 0
      → parse_uint s ≡ some id
      → authorize_ticket authz user profile s
        ≡ (if profile == profile_admin then allow else authorize_seen authz user profile id)
  unfolding authorize_ticket
  authorize_id [] id n z p = absurd (n refl)
  authorize_id (c ∷ s) id n z p = rw (authorize_ticket, p) (ground arith)

seen_iff :
    (can_see : TicketAuthorizer) (user : ℕ) (profile : Bytes) (id : ℕ)
    → ((authorize_seen (some can_see) user profile id).allowed ≡ true)
      ↔ (can_see user profile id ≡ some true)
unfolding authorize_seen
seen_iff can_see user profile id = elim (Option-cases (can_see user profile id)) [
  | inl n ↦ ground (arith, n)
  | inr (seen, e) ↦ ground (arith, e)
]

module _ {S : Type 0} (db : Store S) (s : S) (actor : UserClaims) (id : ℕ) where
  -- With the tickets' own authorizer, a user may listen to the channel of a ticket, of an id that is
  -- not 0 and fits 64 bits, exactly when the user is an administrator or a request of the user is
  -- shown the ticket.
  pub ticket_channel-show :
      id ≢ 0
      → id < 2 ^ 64
      → ((authorize_subscribe
            (some (can_see_ticket db s))
            actor.id
            actor.profile
            (ticket_channel id)).allowed
          ≡ true)
        ↔ ((actor.profile ≡ admin) ⊎ ((t : Ticket) × (show db id (some actor) s ≡ ok t)))
  ticket_channel-show z h =
      let authz = some (can_see_ticket db s) in
      let same =
        authorize_channel authz actor.id actor.profile id z h
        ∙ authorize_id authz actor.id actor.profile (print_uint id) id (print_uint-ne-nil id) z
            (parse_uint-print_uint id h) in
      let (seen, shown) = seen_iff (can_see_ticket db s) actor.id actor.profile id in
      let (to_show, from_show) = can_see_ticket-show db s actor id in
      let (is_admin, from_admin) = bytes_beq_iff actor.profile admin in
      elim (Bool-cases (actor.profile == profile_admin)) [
        | inl y ↦ ((λ k. inl (is_admin y)), (λ k. rw (same, y) refl))
        | inr n ↦ (
          (λ k. inr (to_show (seen (rw (same, n) at k)))),
          (λ k. elim k [
            | inl a ↦ absurd (ground (arith, from_admin a, n))
            | inr p ↦ rw (same, n) (shown (from_show p))
          ]),
        )
      ]
