-- ===== src/Ws/Hub/Agree.antt =====
-- The hub's two maps say the same, and no empty channel is kept.
use whaticket_community.Prelude.{
  ℕ, ◌≡◌, refl, ◌≢◌, some, List, [], ◌∷◌, arith, Bytes, has, add, lookup, lookup-insert, Distinct,
  add-Distinct, bytes_beq_iff, nat_beq_iff, nat_keyed, bytes_keyed,
}
use whaticket_community.Ws.Hub.Leave.{
  NoEmpty, Once, leave_channel-NoEmpty, leave_channel-Once, leave_all-NoEmpty, leave_all-Once,
}
use whaticket_community.Ws.Hub.Relation.{
  receives-register_client, listens-register_client, receives-unregister_client,
  listens-unregister_client, receives-subscribe, listens-subscribe, receives-unsubscribe,
  listens-unsubscribe,
}
use whaticket_community.Ws.Hub.{
  Hub, new_hub, members, subscriptions, register_client, unregister_client, subscribe, unsubscribe,
  listens, receives,
}

pub record Agrees (h : Hub) : Type 0 where
  pub same : (c : ℕ) (channel : Bytes) → receives h c channel ≡ listens h c channel
  pub no_empty : (channel : Bytes) → lookup channel h.channels ≢ some []
  pub once : (channel : Bytes) → Distinct (members h.channels channel)

pub new_hub-Agrees : Agrees new_hub
unfolding new_hub receives listens members subscriptions lookup has
new_hub-Agrees = record {
  same = λ c channel. refl;
  no_empty = λ channel e. cc;
  once = λ channel. tt;
}

module _ (c : ℕ) (h : Hub) (a : Agrees h) where
  pub register_client-Agrees : Agrees (register_client c h)
  register_client-Agrees = record {
    same = λ d other. ground (
      arith,
      receives-register_client c h d other,
      listens-register_client c h d other,
      a.same d other,
    );
    no_empty = λ other. unfold register_client in ground (arith, a.no_empty other);
    once = λ other. unfold register_client in ground (arith, a.once other);
  }

  pub unregister_client-Agrees : Agrees (unregister_client c h)
  unregister_client-Agrees = record {
    same = λ d other. ground (
      arith,
      receives-unregister_client c h d other,
      listens-unregister_client c h d other,
      nat_beq_iff c d,
      a.same d other,
    );
    no_empty = λ other.
        unfold unregister_client subscriptions in
        ground (
          arith,
          a.no_empty other,
          leave_all-NoEmpty c (subscriptions h.clients c) h.channels a.no_empty other,
        );
    once = λ other.
        unfold unregister_client subscriptions in
        ground (
          arith,
          a.once other,
          leave_all-Once c (subscriptions h.clients c) h.channels a.once other,
        );
  }

  module _ (channel : Bytes) where
    add-ne-nil : (ms : List ℕ) → add c ms ≢ []
    unfolding add has
    add-ne-nil ms = ground arith

    subscribe-NoEmpty : NoEmpty (subscribe c channel h).channels
    unfolding subscribe members
    subscribe-NoEmpty other = ground (
      arith,
      a.no_empty other,
      bytes_beq_iff channel other,
      add-ne-nil (members h.channels channel),
      lookup-insert other channel (add c (members h.channels channel)) h.channels,
    )

    subscribe-Once : Once (subscribe c channel h).channels
    unfolding subscribe members
    subscribe-Once other = ground (
      arith,
      a.once other,
      bytes_beq_iff channel other,
      add-Distinct c (members h.channels channel) (a.once channel),
      lookup-insert other channel (add c (members h.channels channel)) h.channels,
    )

    pub subscribe-Agrees : Agrees (subscribe c channel h)
    subscribe-Agrees = record {
      same = λ d other. ground (
        arith,
        receives-subscribe c h channel d other,
        listens-subscribe c h channel d other,
        nat_beq_iff c d,
        bytes_beq_iff channel other,
        a.same d other,
      );
      no_empty = subscribe-NoEmpty;
      once = subscribe-Once;
    }

    pub unsubscribe-Agrees : Agrees (unsubscribe c channel h)
    unsubscribe-Agrees = record {
      same = λ d other. ground (
        arith,
        receives-unsubscribe c h channel d other,
        listens-unsubscribe c h channel d other,
        nat_beq_iff c d,
        bytes_beq_iff channel other,
        a.same d other,
      );
      no_empty = λ other.
          unfold unsubscribe in
          ground
            (arith, a.no_empty other, leave_channel-NoEmpty c channel h.channels a.no_empty other);
      once = λ other.
          unfold unsubscribe in
          ground (arith, a.once other, leave_channel-Once c channel h.channels a.once other);
    }

-- The operations of the hub, as its clients make them.
pub data Call : Type 0 where
  registers unregisters : ℕ → Call
  subscribes unsubscribes : ℕ → Bytes → Call

unfoldable pub step : Hub → Call → Hub
step h (registers c) = register_client c h
step h (unregisters c) = unregister_client c h
step h (subscribes c channel) = subscribe c channel h
step h (unsubscribes c channel) = unsubscribe c channel h

unfoldable pub run : Hub → List Call → Hub
unfolding step
run h [] = h
run h (c ∷ cs) = run (step h c) cs

step-Agrees : (h : Hub) (c : Call) → Agrees h → Agrees (step h c)
unfolding step
step-Agrees h (registers c) a = register_client-Agrees c h a
step-Agrees h (unregisters c) a = unregister_client-Agrees c h a
step-Agrees h (subscribes c channel) a = subscribe-Agrees c h a channel
step-Agrees h (unsubscribes c channel) a = unsubscribe-Agrees c h a channel

run-Agrees : (h : Hub) (cs : List Call) → Agrees h → Agrees (run h cs)
unfolding run
run-Agrees h [] a = a
run-Agrees h (c ∷ cs) a = run-Agrees (step h c) cs (step-Agrees h c a)

-- After any calls on a new hub, a client is among a channel's members exactly when the channel is
-- among the client's subscriptions, no channel is kept without a member, and none has one twice.
pub run-new_hub-Agrees : (cs : List Call) → Agrees (run new_hub cs)
run-new_hub-Agrees cs = run-Agrees new_hub cs new_hub-Agrees
