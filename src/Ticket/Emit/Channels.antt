-- ===== src/Ticket/Emit/Channels.antt =====
-- Every channel that a ticket's frames go to is one that somebody may subscribe to.
use whaticket_community.Prelude.{
  ℕ, ◌≡◌, ◌≢◌, ◌<◌, ◌^◌, sym, refl, Bool, Option, List, [], arith, Bytes, bytes, All, print_uint,
  parse_uint-print_uint, print_uint-ne-nil, bytes_keyed,
}
use whaticket_community.Ws.Channels.{namespace_tickets, namespace_ticket}
use whaticket_community.Ws.Authz.{TicketAuthorizer, authorize_subscribe, allow, profile_admin}
use whaticket_community.Ws.Authz.Grants.{
  MaySee, as_admin, IsStatus, notification, tickets, ticket, authorize_subscribe_complete,
}
use whaticket_community.Ws.Channels.Parts.{join_channel-append}
use whaticket_community.Ticket.Model.{Ticket}
use whaticket_community.Ticket.Emit.{
  Frame, emit_create, emit_update, emit_delete, ticket_status_channel, ticket_channel,
}

status-ne-nil : (s : Bytes) → IsStatus s → s ≢ []
status-ne-nil s (IsStatus.pending e) n = cc
status-ne-nil s (IsStatus.opened e) n = cc
status-ne-nil s (IsStatus.closed e) n = cc

module _ (authz : Option TicketAuthorizer) (user : ℕ) where
  status_channel_granted :
      (profile status : Bytes)
      → IsStatus status
      → authorize_subscribe authz user profile (ticket_status_channel status) ≡ allow
  unfolding ticket_status_channel
  status_channel_granted profile status s = authorize_subscribe_complete authz user profile _ (
      tickets status s
        (sym (join_channel-append namespace_tickets status (status-ne-nil status s))))

  ticket_channel_granted :
      (profile : Bytes) (id : ℕ)
      → id ≢ 0
      → id < 2 ^ 64
      → MaySee authz user profile id
      → authorize_subscribe authz user profile (ticket_channel id) ≡ allow
  unfolding ticket_channel
  ticket_channel_granted profile id z h m = authorize_subscribe_complete authz user profile _ (
      ticket (print_uint id) id (parse_uint-print_uint id h) z m
        (sym (join_channel-append namespace_ticket (print_uint id) (print_uint-ne-nil id))))

  abbrev pub Granted : List Frame → Type 0
  Granted = All (λ f. authorize_subscribe authz user profile_admin f.channel ≡ allow)

  module _ (dto : Ticket) (s : IsStatus dto.status) (z : dto.id ≢ 0) (h : dto.id < 2 ^ 64) where
    of_status :
        authorize_subscribe authz user profile_admin (ticket_status_channel dto.status) ≡ allow
    of_status = status_channel_granted profile_admin dto.status s

    of_ticket : authorize_subscribe authz user profile_admin (ticket_channel dto.id) ≡ allow
    of_ticket = ticket_channel_granted profile_admin dto.id z h (as_admin refl)

    of_notify : authorize_subscribe authz user profile_admin (bytes "notification") ≡ allow
    of_notify = authorize_subscribe_complete authz user profile_admin _ (notification refl)

    -- For a ticket with one of the three statuses and an id that is not 0 and fits 64 bits, each
    -- channel that is told of its creation, of an update from another such status or of its
    -- deletion is one that an administrator may subscribe to.
    pub emit-Granted :
        (ws : Bool) (old : Bytes)
        → IsStatus old
        → Granted (emit_create ws dto)
          × Granted (emit_update ws dto old)
          × Granted (emit_delete ws dto)
    unfolding emit_create emit_update emit_delete
    emit-Granted ws old o =
        let of_old = status_channel_granted profile_admin old o in
        (
          ground (arith, of_status, of_notify),
          ground (arith, of_old, of_status, of_ticket, of_notify),
          ground (arith, of_status, of_ticket, of_notify),
        )
