-- ===== src/Ticket/Plan/Rights.antt =====
-- What a request may change: the owner, the status, and the unread messages.
use whaticket_community.Prelude.{
  ℕ, ◌<◌, ◌≡◌, ◌≢◌, ◌⊎◌, ◌↔◌, Bool, true, Option, none, some, arith, bytes_beq_iff, nat_beq_iff,
  get_or, bytes_beq, bytes_keyed, [],
}
use whaticket_community.Ticket.Model.{
  Ticket, UserClaims, admin, status_pending, status_open, Updates, UpdateData, ok,
}
use whaticket_community.Ticket.Plan.{
  plan, assign, open_user, copied, status_change, apply_user_id_update, assign_rejection,
}

module _ (actor : UserClaims) (t : Ticket) (d : UpdateData) (u : Updates) (read : Bool) where
  abbrev owner_after : Option ℕ
  owner_after = get_or u.user_id t.user_id

  -- A user who is no administrator leaves the owner alone, becomes the owner, or frees the ticket by
  -- making it pending: an accepted request never gives the ticket to somebody else.
  pub plan-owner :
      actor.profile ≢ admin
      → plan actor t d ≡ ok (u, read)
      → (owner_after ≡ t.user_id)
        ⊎ (owner_after ≡ some actor.id)
        ⊎ ((owner_after ≡ none) × (u.status ≡ some status_pending))
  unfolding plan assign open_user copied status_change apply_user_id_update assign_rejection
  plan-owner h e = ground (arith, bytes_beq_iff actor.profile admin)

  -- An accepted request leaves the status that it asks for, or the old one where it asks for none.
  pub plan-status :
      plan actor t d ≡ ok (u, read) → get_or u.status t.status ≡ get_or d.status t.status
  unfolding plan assign open_user copied status_change apply_user_id_update assign_rejection
  plan-status e =
      let asked = get_or d.status [] in
      ground (
        arith,
        bytes_beq_iff asked t.status,
        bytes_beq_iff asked status_open,
        bytes_beq_iff asked status_pending,
      )

  -- An accepted request to open the ticket that names no user gives it to the one who asks.
  pub plan-open-takes :
      d.status ≡ some status_open
      → d.user_id ≡ none
      → plan actor t d ≡ ok (u, read)
      → owner_after ≡ some actor.id
  unfolding plan assign open_user copied status_change
  plan-open-takes s n e = ground (
    arith,
    s,
    n,
    bytes_beq_iff status_open status_open,
    nat_beq_iff (get_or t.user_id 0) actor.id,
  )

  -- An accepted request that makes the ticket pending frees it of its owner, whatever user it names.
  pub plan-pending-frees :
      d.status ≡ some status_pending
      → t.status ≢ status_pending
      → plan actor t d ≡ ok (u, read)
      → owner_after ≡ none
  unfolding plan copied status_change bytes_beq
  plan-pending-frees s n e = ground (arith, s, bytes_beq_iff status_pending t.status)

  -- An accepted request marks the messages as read exactly when it opens a ticket that was not open
  -- and had unread messages.
  pub plan-read :
      plan actor t d ≡ ok (u, read)
      → (read ≡ true)
        ↔ ((d.status ≡ some status_open) × (t.status ≢ status_open) × (0 < t.unread_messages))
  unfolding plan assign open_user copied status_change apply_user_id_update assign_rejection
  plan-read e =
      let asked = get_or d.status [] in
      ground (
        arith,
        bytes_beq_iff asked t.status,
        bytes_beq_iff asked status_open,
        bytes_beq_iff asked status_pending,
      )
