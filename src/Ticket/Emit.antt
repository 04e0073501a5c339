-- ===== src/Ticket/Emit.antt =====
-- backend/internal/ticket/wsemit.go: the frames that tell of a change of a ticket.
pub mod Channels
use whaticket_community.Prelude.{
  ℕ, Bool, true, false, not, List, [], ◌∷◌, ◌++◌, Bytes, bytes, ◌==◌, bytes_keyed, if◌then◌else◌,
  print_uint, map,
}
use whaticket_community.Ticket.Model.{Ticket}

pub data Body : Type 0 where
  created updated : Ticket → Body
  deleted : ℕ → Body

pub record Frame : Type 0 where
  pub channel : Bytes
  pub event : Bytes
  pub body : Body

abbrev pub event_update : Bytes
event_update = bytes "ticket.update"

abbrev pub event_delete : Bytes
event_delete = bytes "ticket.delete"

abbrev pub channel_notify : Bytes
channel_notify = bytes "notification"

unfoldable pub ticket_status_channel : Bytes → Bytes
ticket_status_channel status = bytes "tickets:" ++ status

unfoldable pub ticket_channel : ℕ → Bytes
ticket_channel id = bytes "ticket:" ++ print_uint id

abbrev pub frame : Bytes → Bytes → Body → Frame
frame channel event body = record { channel = channel; event = event; body = body }

-- `ws` says whether there is a publisher.
unfoldable pub emit_create : Bool → Ticket → List Frame
emit_create ws dto =
    if not ws
    then []
    else frame (ticket_status_channel dto.status) event_update (created dto)
      ∷ frame channel_notify event_update (created dto)
      ∷ []

unfoldable pub emit_update : Bool → Ticket → Bytes → List Frame
emit_update ws dto old =
    if not ws
    then []
    else if not (old == dto.status)
    then frame (ticket_status_channel old) event_update (updated dto)
      ∷ frame (ticket_status_channel dto.status) event_update (updated dto)
      ∷ frame (ticket_channel dto.id) event_update (updated dto)
      ∷ frame channel_notify event_update (updated dto)
      ∷ []
    else frame (ticket_status_channel dto.status) event_update (updated dto)
      ∷ frame (ticket_channel dto.id) event_update (updated dto)
      ∷ []

unfoldable pub emit_delete : Bool → Ticket → List Frame
emit_delete ws dto =
    if not ws
    then []
    else frame (ticket_status_channel dto.status) event_delete (deleted dto.id)
      ∷ frame (ticket_channel dto.id) event_delete (deleted dto.id)
      ∷ frame channel_notify event_delete (deleted dto.id)
      ∷ []
