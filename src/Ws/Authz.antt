-- ===== src/Ws/Authz.antt =====
-- backend/internal/ws/authz.go: who may subscribe to which channel.
pub mod Grants
use whaticket_community.Prelude.{
  ℕ, Bool, true, false, ◌||◌, ◌==◌, Option, none, some, Bytes, bytes, nat_beq, if◌then◌else◌,
  is_nil, parse_uint, bytes_keyed, not,
}
use whaticket_community.Ws.Channels.{
  Code, invalid_channel, no_permission, internal, channel_system, channel_notification,
  channel_global, namespace_ticket, namespace_tickets, status_pending, status_open, status_closed,
  validate_channel_name, parse_channel,
}

abbrev pub profile_admin : Bytes
profile_admin = bytes "admin"

-- `Code` is the empty text where the subscription is allowed.
pub record AuthzResult : Type 0 where
  pub allowed : Bool
  pub code : Option Code

-- The answer of `CanSee(ctx, userID, profile, ticketID)`; `none` is an error.
abbrev pub TicketAuthorizer : Type 0
TicketAuthorizer = ℕ → Bytes → ℕ → Option Bool

abbrev pub allow : AuthzResult
allow = record { allowed = true; code = none }

abbrev pub deny : Code → AuthzResult
deny c = record { allowed = false; code = some c }

-- `NoopTicketAuthorizer`
pub noop_authorizer : TicketAuthorizer
noop_authorizer user profile ticket = some false

unfoldable pub authorize_seen : Option TicketAuthorizer → ℕ → Bytes → ℕ → AuthzResult
authorize_seen none user profile ticket = deny internal
authorize_seen (some can_see) user profile ticket = elim (can_see user profile ticket) [
  | none ↦ deny internal
  | some seen ↦ if seen then allow else deny no_permission
]

-- The case `NamespaceTicket`.
unfoldable pub authorize_ticket : Option TicketAuthorizer → ℕ → Bytes → Bytes → AuthzResult
authorize_ticket authz user profile suffix =
    if is_nil suffix then deny invalid_channel else elim (parse_uint suffix) [
      | none ↦ deny invalid_channel
      | some ticket ↦
          if nat_beq ticket 0
          then deny invalid_channel
          else if profile == profile_admin
          then allow
          else authorize_seen authz user profile ticket
    ]

-- The `switch` on the namespace.
unfoldable pub authorize_parts : Option TicketAuthorizer → ℕ → Bytes → Bytes → Bytes → AuthzResult
authorize_parts authz user profile namespace suffix =
    if namespace == channel_system
    then (if is_nil suffix then deny no_permission else deny invalid_channel)
    else if namespace == channel_notification || namespace == channel_global
    then (if is_nil suffix then allow else deny invalid_channel)
    else if namespace == namespace_ticket
    then authorize_ticket authz user profile suffix
    else if namespace == namespace_tickets
    then (if suffix == status_pending || (suffix == status_open || suffix == status_closed)
        then allow
        else deny invalid_channel)
    else deny invalid_channel

unfoldable pub authorize_subscribe : Option TicketAuthorizer → ℕ → Bytes → Bytes → AuthzResult
authorize_subscribe authz user profile channel =
    if not (validate_channel_name channel)
    then deny invalid_channel
    else elim (parse_channel channel) [
      | none ↦ deny invalid_channel
      | some (namespace, suffix) ↦ authorize_parts authz user profile namespace suffix
    ]
