-- ===== src/Ws/Authz/Grants.antt =====
-- The channels that a user may listen to, said without the code's tests.
use mathlib.Core.Bool.{false≢true}
use whaticket_community.Prelude.{
  ℕ, ◌≡◌, refl, ◌∙◌, ◌≢◌, ◌⊎◌, inl, inr, Bool, true, ◌||◌, ◌==◌, Option, some, [], ◌∷◌, arith,
  Bytes, bytes_beq_iff, parse_uint, Option-cases, bytes_keyed, bytes_beq, parse_digits, ◌+◌, ◌*◌,
  ◌-◌,
}
use whaticket_community.Ws.Channels.{
  channel_notification, channel_global, namespace_ticket, namespace_tickets, status_pending,
  status_open, status_closed, parse_channel, join_channel, all_suffix, all_name,
}
use whaticket_community.Ws.Channels.Parts.{
  join_channel-parse_channel, parse_channel-join_channel, parse_channel-valid,
}
use whaticket_community.Ws.Authz.{
  TicketAuthorizer, profile_admin, authorize_subscribe, authorize_ticket, authorize_seen, allow,
  authorize_parts,
}

-- An administrator sees every ticket; the authorizer speaks for the others.
pub data MaySee (authz : Option TicketAuthorizer) (user : ℕ) (profile : Bytes) (ticket : ℕ)
    : Type 0 where
  as_admin : profile ≡ profile_admin → MaySee authz user profile ticket
  seen :
      (can_see : TicketAuthorizer)
      → authz ≡ some can_see
      → can_see user profile ticket ≡ some true
      → MaySee authz user profile ticket

pub data IsStatus (s : Bytes) : Type 0 where
  pending : s ≡ status_pending → IsStatus s
  opened : s ≡ status_open → IsStatus s
  closed : s ≡ status_closed → IsStatus s

pub data MayListen (authz : Option TicketAuthorizer) (user : ℕ) (profile channel : Bytes)
    : Type 0 where
  notification : channel ≡ channel_notification → MayListen authz user profile channel
  global : channel ≡ channel_global → MayListen authz user profile channel
  tickets :
      (status : Bytes)
      → IsStatus status
      → channel ≡ join_channel namespace_tickets status
      → MayListen authz user profile channel
  ticket :
      (suffix : Bytes) (id : ℕ)
      → parse_uint suffix ≡ some id
      → id ≢ 0
      → MaySee authz user profile id
      → channel ≡ join_channel namespace_ticket suffix
      → MayListen authz user profile channel

all_suffix-parse_digits :
    (acc : ℕ) (s : Bytes) (n : ℕ) → parse_digits acc s ≡ some n → all_suffix s ≡ true
unfolding parse_digits all_suffix
all_suffix-parse_digits acc [] n h = refl
all_suffix-parse_digits acc (c ∷ s) n h =
    ground (arith, all_suffix-parse_digits (acc * 10 + (c - b'0')) s n)

-- What reads as a number may stand behind the `:`.
pub all_suffix-parse_uint : (s : Bytes) (n : ℕ) → parse_uint s ≡ some n → all_suffix s ≡ true
unfolding parse_uint
all_suffix-parse_uint [] n h = cc
all_suffix-parse_uint (c ∷ s) n h = elim (Option-cases (parse_digits 0 (c ∷ s))) [
  | inl e ↦ ground (arith, e)
  | inr (m, e) ↦ all_suffix-parse_digits 0 (c ∷ s) m e
]

IsStatus-suffix : (s : Bytes) → IsStatus s → all_suffix s ≡ true
unfolding all_suffix
IsStatus-suffix s (pending e) = rw e refl
IsStatus-suffix s (opened e) = rw e refl
IsStatus-suffix s (closed e) = rw e refl

abbrev status_test : Bytes → Bool
status_test s = s == status_pending || (s == status_open || s == status_closed)

IsStatus-status_test : (s : Bytes) → status_test s ≡ true → IsStatus s
IsStatus-status_test s h = grind (
  arith,
  pending,
  opened,
  closed,
  bytes_beq_iff s status_pending,
  bytes_beq_iff s status_open,
  bytes_beq_iff s status_closed,
)

status_test-IsStatus : (s : Bytes) → IsStatus s → status_test s ≡ true
unfolding bytes_beq
status_test-IsStatus s (pending e) = rw e refl
status_test-IsStatus s (opened e) = rw e refl
status_test-IsStatus s (closed e) = rw e refl

module _ (authz : Option TicketAuthorizer) (user : ℕ) (profile : Bytes) where
  authorize_seen-cases :
      (id : ℕ)
      → (authorize_seen authz user profile id).allowed ≡ true
      → MaySee authz user profile id
  unfolding authorize_seen
  authorize_seen-cases id h = elim (Option-cases authz) [
    | inl e ↦ absurd (false≢true (rw (e, authorize_seen) at h))
    | inr (can_see, e) ↦ seen can_see e (ground (arith, e))
  ]

  authorize_ticket-cases :
      (suffix : Bytes)
      → (authorize_ticket authz user profile suffix).allowed ≡ true
      → (id : ℕ) × (parse_uint suffix ≡ some id)
        × (id ≢ 0)
        × ((profile ≡ profile_admin) ⊎ ((authorize_seen authz user profile id).allowed ≡ true))
  unfolding authorize_ticket
  authorize_ticket-cases suffix h = elim (Option-cases (parse_uint suffix)) [
    | inl e ↦ ground (arith, e)
    | inr (id, e) ↦
        (id, e, ground (arith, e), ground (arith, e, bytes_beq_iff profile profile_admin))
  ]

  authorize_ticket_sound :
      (suffix : Bytes)
      → (authorize_ticket authz user profile suffix).allowed ≡ true
      → MayListen authz user profile (join_channel namespace_ticket suffix)
  authorize_ticket_sound suffix h =
      let (id, p, z, who) = authorize_ticket-cases suffix h in
      elim who [
        | inl e ↦ ticket suffix id p z (as_admin e) refl
        | inr e ↦ ticket suffix id p z (authorize_seen-cases id e) refl
      ]

  authorize_parts-cases :
      (namespace suffix : Bytes)
      → (authorize_parts authz user profile namespace suffix).allowed ≡ true
      → ((namespace ≡ channel_notification) × (suffix ≡ []))
        ⊎ ((namespace ≡ channel_global) × (suffix ≡ []))
        ⊎ ((namespace ≡ namespace_ticket)
            × ((authorize_ticket authz user profile suffix).allowed ≡ true))
        ⊎ ((namespace ≡ namespace_tickets) × (status_test suffix ≡ true))
  unfolding authorize_parts
  authorize_parts-cases namespace suffix h = ground (
    arith,
    bytes_beq_iff namespace channel_notification,
    bytes_beq_iff namespace channel_global,
    bytes_beq_iff namespace namespace_ticket,
    bytes_beq_iff namespace namespace_tickets,
  )

  parts_sound :
      (namespace suffix : Bytes)
      → (authorize_parts authz user profile namespace suffix).allowed ≡ true
      → MayListen authz user profile (join_channel namespace suffix)
  parts_sound namespace suffix h = elim (authorize_parts-cases namespace suffix h) [
    | inl (e, s) ↦ notification (rw (e, s) (unfold join_channel in refl))
    | inr (inl (e, s)) ↦ global (rw (e, s) (unfold join_channel in refl))
    | inr (inr (inl (e, s))) ↦ rw e (authorize_ticket_sound suffix s)
    | inr (inr (inr (e, s))) ↦ tickets suffix (IsStatus-status_test suffix s) (rw e)
  ]

  parsed :
      (channel : Bytes)
      → (authorize_subscribe authz user profile channel).allowed ≡ true
      → (namespace : Bytes) × (suffix : Bytes) × (parse_channel channel ≡ some (namespace, suffix))
        × ((authorize_parts authz user profile namespace suffix).allowed ≡ true)
  unfolding authorize_subscribe
  parsed channel h = elim (Option-cases (parse_channel channel)) [
    | inl e ↦ ground (arith, e)
    | inr ((namespace, suffix), e) ↦ (namespace, suffix, e, ground (arith, e))
  ]

  -- Whoever is let in may listen to that channel: it is the one of notifications or the global one,
  -- which are everybody's, a list of tickets of one of the three statuses, which is too, or a ticket,
  -- whose id is a number other than 0 below 2 ^ 64, and then the user is an administrator or the
  -- authorizer lets the user see that ticket.
  pub authorize_subscribe_sound :
      (channel : Bytes)
      → (authorize_subscribe authz user profile channel).allowed ≡ true
      → MayListen authz user profile channel
  authorize_subscribe_sound channel h =
      let (namespace, suffix, p, a) = parsed channel h in
      rw (join_channel-parse_channel channel namespace suffix p) at (parts_sound namespace suffix a)

  pub by_parts :
      (namespace suffix : Bytes)
      → namespace ≢ []
      → all_name namespace ≡ true
      → all_suffix suffix ≡ true
      → authorize_subscribe authz user profile (join_channel namespace suffix)
        ≡ authorize_parts authz user profile namespace suffix
  unfolding authorize_subscribe
  by_parts namespace suffix n h k =
      let p = parse_channel-join_channel namespace suffix n h k in
      rw (
        parse_channel-valid (join_channel namespace suffix) namespace suffix p,
        p,
        authorize_subscribe,
      )

  ticket_complete :
      (suffix : Bytes) (id : ℕ)
      → parse_uint suffix ≡ some id
      → id ≢ 0
      → MaySee authz user profile id
      → authorize_ticket authz user profile suffix ≡ allow
  unfolding authorize_ticket
  ticket_complete [] id p z m = unfold parse_uint in cc
  ticket_complete (c ∷ s) id p z (as_admin a) =
      ground (arith, p, bytes_beq_iff profile profile_admin)
  ticket_complete (c ∷ s) id p z (seen can_see e k) =
      rw (p, e) (unfold authorize_seen in ground (arith, k))

  -- Whoever may listen to a channel is let in.
  pub authorize_subscribe_complete :
      (channel : Bytes)
      → MayListen authz user profile channel
      → authorize_subscribe authz user profile channel ≡ allow
  unfolding authorize_parts bytes_beq join_channel
  authorize_subscribe_complete channel (notification e) = rw e (
      by_parts channel_notification [] (λ n. cc) (unfold all_name in refl)
        (unfold all_suffix in refl))
  authorize_subscribe_complete channel (global e) =
      rw e
        (by_parts channel_global [] (λ n. cc) (unfold all_name in refl) (unfold all_suffix in refl))
  authorize_subscribe_complete channel (tickets status s e) = rw e (
      by_parts namespace_tickets status (λ n. cc) (unfold all_name in refl)
        (IsStatus-suffix status s)
      ∙ rw (status_test-IsStatus status s))
  authorize_subscribe_complete channel (ticket suffix id p z m e) = rw e (
      by_parts namespace_ticket suffix (λ n. cc) (unfold all_name in refl)
        (all_suffix-parse_uint suffix id p)
      ∙ ticket_complete suffix id p z m)
