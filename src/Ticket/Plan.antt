-- ===== src/Ticket/Plan.antt =====
-- backend/internal/ticket/service.go, `Update`: which columns a request changes, and which requests
-- are refused.
pub mod Rights
use whaticket_community.Prelude.{
  ℕ, ◌<◌, ◌≡◌, Bool, true, false, ◌&&◌, ◌||◌, not, Option, none, some, Bytes, ◌==◌, bytes_keyed,
  if◌then◌else◌, nat_beq, ltb, is_some, get_or,
}
use whaticket_community.Ticket.Model.{
  Ticket, UserClaims, admin, status_pending, status_open, Updates, no_updates, UpdateData, AppError,
  no_permission, Result, ok, err,
}
use whaticket_community.Ticket.Visibility.{is_user}

abbrev pub is_admin : UserClaims → Bool
is_admin actor = actor.profile == admin

-- `applyUserIDUpdate`
unfoldable pub apply_user_id_update : Updates → Option (Option ℕ) → UserClaims → Updates
apply_user_id_update u none actor = u
apply_user_id_update u (some none) actor =
    if is_admin actor then record u { user_id = some none } else u
apply_user_id_update u (some (some id)) actor = record u { user_id = some (some id) }

-- `assignRejection`
unfoldable pub assign_rejection : Option (Option ℕ) → UserClaims → Option AppError
assign_rejection none actor = none
assign_rejection (some none) actor = if not (is_admin actor) then some no_permission else none
assign_rejection (some (some id)) actor =
    if not (nat_beq id actor.id) && not (is_admin actor) then some no_permission else none

-- The columns that are copied before the `switch`.
unfoldable pub copied : UpdateData → Updates
copied d = record no_updates {
  last_message = d.last_message;
  unread_messages = d.unread_messages;
  queue_id = d.queue_id;
}

-- `data.Status != nil && *data.Status != t.Status`
unfoldable pub status_change : Ticket → Option Bytes → Bool
status_change t none = false
status_change t (some s) = not (s == t.status)

-- The case `statusOpen`: who gets the ticket.
unfoldable pub open_user : UserClaims → Ticket → Option (Option ℕ) → Updates → Result Updates
open_user actor t (some none) u =
    if not (is_admin actor) then err no_permission else ok (record u { user_id = some none })
open_user actor t (some (some id)) u =
    if not (nat_beq id actor.id) && not (is_admin actor)
    then err no_permission
    else ok (record u { user_id = some (some id) })
open_user actor t none u =
    if not (is_user t.user_id actor.id)
    then ok (record u { user_id = some (some actor.id) })
    else ok u

-- The last two cases.
unfoldable pub assign : UserClaims → Option (Option ℕ) → Updates → Result (Updates × Bool)
assign actor user u =
    let v = apply_user_id_update u user actor in
    elim (assign_rejection user actor) [ some e ↦ err e | none ↦ ok (v, false) ]

-- The `switch`; the flag is `autoRead`.
unfoldable pub plan : UserClaims → Ticket → UpdateData → Result (Updates × Bool)
plan actor t d =
    let u = copied d in
    let change = status_change t d.status in
    elim d.status [
      | none ↦ assign actor d.user_id u
      | some s ↦
          if s == status_open
          then elim (open_user actor t d.user_id u) [
            | err e ↦ err e
            | ok v ↦ ok (
              if change then record v { status = some status_open } else v,
              change && ltb 0 t.unread_messages,
            )
          ]
          else if s == status_pending
          then ok (
            if change then record u { status = some status_pending; user_id = some none } else u,
            false,
          )
          else assign actor d.user_id (if change then record u { status = some s } else u)
    ]
