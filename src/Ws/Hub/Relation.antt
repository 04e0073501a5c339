-- ===== src/Ws/Hub/Relation.antt =====
-- The hub as a relation between clients and channels: what each operation adds and takes away.
use whaticket_community.Prelude.{
  ℕ, ◌≡◌, ◌&&◌, not, [], arith, Bytes, ◌==◌, has, add, remove, has-add, has-remove, lookup-insert,
  lookup-delete, bytes_beq_iff, nat_beq_iff, nat_keyed, bytes_keyed, ◌||◌,
}
use whaticket_community.Ws.Hub.Leave.{has-leave_all, has-leave_channel}
use whaticket_community.Ws.Hub.{
  Hub, members, subscriptions, register_client, unregister_client, subscribe, unsubscribe, listens,
  receives, is_registered,
}

module _ (c : ℕ) (h : Hub) where
  pub is_registered-register_client :
      (d : ℕ) → is_registered (register_client c h) d ≡ (c == d || is_registered h d)
  unfolding register_client is_registered
  is_registered-register_client d =
      ground (arith, nat_beq_iff c d, lookup-insert d c ([]) h.clients)

  pub listens-register_client :
      (d : ℕ) (channel : Bytes) → listens (register_client c h) d channel ≡ listens h d channel
  unfolding register_client is_registered listens subscriptions has
  listens-register_client d channel =
      ground (arith, nat_beq_iff c d, lookup-insert d c ([]) h.clients)

  pub receives-register_client :
      (d : ℕ) (channel : Bytes) → receives (register_client c h) d channel ≡ receives h d channel
  unfolding register_client receives
  receives-register_client d channel = ground arith

  pub is_registered-unregister_client :
      (d : ℕ) → is_registered (unregister_client c h) d ≡ (not (c == d) && is_registered h d)
  unfolding unregister_client is_registered
  is_registered-unregister_client d = ground (arith, nat_beq_iff c d, lookup-delete d c h.clients)

  pub listens-unregister_client :
      (d : ℕ) (channel : Bytes)
      → listens (unregister_client c h) d channel ≡ (not (c == d) && listens h d channel)
  unfolding unregister_client listens subscriptions has
  listens-unregister_client d channel = ground (arith, nat_beq_iff c d, lookup-delete d c h.clients)

  pub receives-unregister_client :
      (d : ℕ) (channel : Bytes)
      → receives (unregister_client c h) d channel
        ≡ (not (c == d && listens h c channel) && receives h d channel)
  unfolding unregister_client receives listens subscriptions has
  receives-unregister_client d channel =
      ground (arith, has-leave_all c d (subscriptions h.clients c) h.channels channel)

  module _ (channel : Bytes) where
    pub listens-subscribe :
        (d : ℕ) (other : Bytes)
        → listens (subscribe c channel h) d other
          ≡ ((is_registered h c && (c == d && channel == other)) || listens h d other)
    unfolding subscribe listens subscriptions is_registered has
    listens-subscribe d other = ground (
      arith,
      nat_beq_iff c d,
      bytes_beq_iff channel other,
      lookup-insert d c (add channel (subscriptions h.clients c)) h.clients,
      has-add other channel (subscriptions h.clients c),
    )

    pub receives-subscribe :
        (d : ℕ) (other : Bytes)
        → receives (subscribe c channel h) d other ≡ (
            (is_registered h c && (not (listens h c channel) && (c == d && channel == other)))
            || receives h d other)
    unfolding subscribe receives listens subscriptions is_registered has members
    receives-subscribe d other = ground (
      arith,
      nat_beq_iff c d,
      bytes_beq_iff channel other,
      lookup-insert other channel (add c (members h.channels channel)) h.channels,
      has-add d c (members h.channels channel),
    )

    pub is_registered-subscribe :
        (d : ℕ) → is_registered (subscribe c channel h) d ≡ is_registered h d
    unfolding subscribe is_registered subscriptions
    is_registered-subscribe d = ground (
      arith,
      nat_beq_iff c d,
      lookup-insert d c (add channel (subscriptions h.clients c)) h.clients,
    )

    pub listens-unsubscribe :
        (d : ℕ) (other : Bytes)
        → listens (unsubscribe c channel h) d other
          ≡ (not (c == d && channel == other) && listens h d other)
    unfolding unsubscribe listens subscriptions has
    listens-unsubscribe d other = ground (
      arith,
      nat_beq_iff c d,
      bytes_beq_iff channel other,
      lookup-insert d c (remove channel (subscriptions h.clients c)) h.clients,
      has-remove other channel (subscriptions h.clients c),
    )

    pub receives-unsubscribe :
        (d : ℕ) (other : Bytes)
        → receives (unsubscribe c channel h) d other
          ≡ (not (listens h c channel && (c == d && channel == other)) && receives h d other)
    unfolding unsubscribe receives listens subscriptions has
    receives-unsubscribe d other = ground (arith, has-leave_channel c d channel other h.channels)

    pub is_registered-unsubscribe :
        (d : ℕ) → is_registered (unsubscribe c channel h) d ≡ is_registered h d
    unfolding unsubscribe is_registered subscriptions
    is_registered-unsubscribe d = ground (
      arith,
      nat_beq_iff c d,
      lookup-insert d c (remove channel (subscriptions h.clients c)) h.clients,
    )
