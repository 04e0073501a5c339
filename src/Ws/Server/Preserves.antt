-- ===== src/Ws/Server/Preserves.antt =====
-- Each operation of the server keeps the invariant.
use whaticket_community.Prelude.{
  suc, sym, ◌∙◌, ℕ, ◌≡◌, ◌⊎◌, true, false, Option, arith, Bytes, has, nat_beq, nat_beq_iff,
  nat_keyed, bytes_beq_iff, inl, inr, Bool-cases,
}
use whaticket_community.Ws.Server.Keeps.{Keeps, signal_close-Keeps, update-Keeps}
use whaticket_community.Ws.Authz.{TicketAuthorizer}
use whaticket_community.Ws.Hub.{
  Hub, listens, is_registered, register_client, subscribe, unsubscribe, subscriptions,
}
use whaticket_community.Ws.Hub.Relation.{
  listens-register_client, listens-unregister_client, listens-subscribe, listens-unsubscribe,
  is_registered-register_client, is_registered-unregister_client, is_registered-subscribe,
  is_registered-unsubscribe,
}
use whaticket_community.Ws.Hub.Agree.{
  register_client-Agrees, unregister_client-Agrees, subscribe-Agrees, unsubscribe-Agrees,
}
use whaticket_community.Ws.Server.Good.{Good, Granted, Good-keep}
use whaticket_community.Ws.Server.Steps.{
  Phase, World, unmade, made, reading, subscribing, is_past, move,
}
use whaticket_community.Ws.Server.{
  Client, update, signal_close, close, take_payload, new_client, tail,
}

listens-needs-registered :
    (h : Hub) (c : ℕ) (channel : Bytes) → is_registered h c ≡ false → listens h c channel ≡ false
unfolding is_registered listens subscriptions has
listens-needs-registered h c channel e = ground arith

newly :
    (c : ℕ) (channel : Bytes) (h : Hub) (d : ℕ) (other : Bytes)
    → listens (subscribe c channel h) d other ≡ true
    → (listens h d other ≡ true) ⊎ ((c ≡ d) × (channel ≡ other))
newly c channel h d other l =
    ground
      (arith, listens-subscribe c h channel d other, nat_beq_iff c d, bytes_beq_iff channel other)

module _ {P : Type 0} (cap : ℕ) (authz : ℕ → Option TicketAuthorizer) where
  abbrev Holds : World P → Type 0
  Holds = Good cap authz

  pub take_payload-Good :
      (c : ℕ) (w : World P) → Holds w → Holds (record w { server = take_payload c w.server })
  unfolding take_payload
  take_payload-Good c w g =
      Good-keep cap authz w _
        (update-Keeps cap (λ d o. record o { send = tail o.send }) (λ d. tail-Keeps) c
          w.server.object)
        g
    where
      tail-Keeps : (o : Client P) → Keeps cap o (record o { send = tail o.send })
      tail-Keeps o = ground arith

  pub makes-Good :
      (c user : ℕ) (profile : Bytes) (w : World P)
      → w.phase c ≡ unmade
      → Holds w
      → Holds (record w {
        server = record w.server {
          object = update c (λ o. new_client user profile) w.server.object;
        };
        phase = move c made w.phase;
      })
  unfolding update new_client move
  makes-Good c user profile w fresh g = record {
    agrees = g.agrees;
    within = λ d. ground (arith, g.within d);
    torn = λ d h. ground (arith, g.torn d);
    gone = λ d h. ground (arith, g.gone d);
    granted = λ d channel h. elim (Bool-cases (nat_beq c d)) [
      | inl e ↦ absurd (
          ground (
            arith,
            nat_beq_iff c d,
            fresh,
            g.outside c fresh,
            listens-needs-registered w.server.hub c channel,
          ))
      | inr e ↦ rw e (g.granted d channel h)
    ];
    pending = λ d channel h. elim (Bool-cases (nat_beq c d)) [
      | inl e ↦ absurd (ground (arith, e, h))
      | inr e ↦ rw e (g.pending d channel (ground (arith, e, h)))
    ];
    outside = λ d h. ground (arith, h, g.outside d);
    early = λ d h. ground (arith, h, g.early d);
  }

  pub registers-Good :
      (c : ℕ) (w : World P)
      → w.phase c ≡ made
      → Holds w
      → Holds (record w {
        server = record w.server { hub = register_client c w.server.hub };
        phase = move c reading w.phase;
      })
  unfolding move
  registers-Good c w m g = record {
    agrees = register_client-Agrees c w.server.hub g.agrees;
    within = g.within;
    torn = g.torn;
    gone = λ d h. ground (
      arith,
      g.gone d,
      nat_beq_iff c d,
      g.early c m,
      is_registered-register_client c w.server.hub d,
    );
    granted = λ d channel h.
        g.granted d channel (sym (listens-register_client c w.server.hub d channel) ∙ h);
    pending = λ d channel h. g.pending d channel (ground (arith, h));
    outside = λ d h. ground (arith, h, g.outside d, is_registered-register_client c w.server.hub d);
    early = λ d h. g.early d (ground (arith, h));
  }

  -- A client in `readPump` that moves on.
  pub moves-Good :
      (c : ℕ) (p : Phase) (w : World P)
      → is_past p ≡ true
      → ((channel : Bytes)
          → p ≡ subscribing channel
          → Granted authz w.now (w.server.object c) channel)
      → Holds w
      → Holds (record w { phase = move c p w.phase })
  unfolding move is_past
  moves-Good c p w past mine g = record {
    agrees = g.agrees;
    within = g.within;
    torn = g.torn;
    gone = g.gone;
    granted = g.granted;
    pending = λ d channel h. elim (Bool-cases (nat_beq c d)) [
      | inl e ↦ rw (sym ((nat_beq_iff c d).0 e)) (mine channel (ground (arith, e, h)))
      | inr e ↦ g.pending d channel (ground (arith, e, h))
    ];
    outside = λ d h. g.outside d (ground (arith, h, past));
    early = λ d h. g.early d (ground (arith, h, past));
  }

  -- A hub on which some may have left or stopped to listen, and none has come.
  pub subscribe-Good :
      (c : ℕ) (channel : Bytes) (w : World P)
      → w.phase c ≡ subscribing channel
      → Holds w
      → Holds (record w { server = record w.server { hub = subscribe c channel w.server.hub } })
  subscribe-Good c channel w s g = record {
    agrees = subscribe-Agrees c w.server.hub g.agrees channel;
    within = g.within;
    torn = g.torn;
    gone = λ d h. ground (arith, g.gone d, is_registered-subscribe c w.server.hub channel d);
    granted = λ d other h. elim (newly c channel w.server.hub d other h) [
      | inl old ↦ g.granted d other old
      | inr (e, k) ↦ rw (← e, ← k) (g.pending c channel s)
    ];
    pending = g.pending;
    outside =
        λ d h. ground (arith, h, g.outside d, is_registered-subscribe c w.server.hub channel d);
    early = g.early;
  }

  pub unsubscribe-Good :
      (c : ℕ) (channel : Bytes) (w : World P)
      → Holds w
      → Holds (record w { server = record w.server { hub = unsubscribe c channel w.server.hub } })
  unsubscribe-Good c channel w g = record {
    agrees = unsubscribe-Agrees c w.server.hub g.agrees channel;
    within = g.within;
    torn = g.torn;
    gone = λ d h. ground (arith, g.gone d, is_registered-unsubscribe c w.server.hub channel d);
    granted = λ d other h.
        g.granted d other (ground (arith, listens-unsubscribe c w.server.hub channel d other));
    pending = g.pending;
    outside =
        λ d h. ground (arith, h, g.outside d, is_registered-unsubscribe c w.server.hub channel d);
    early = g.early;
  }

  pub signals-Good :
      (c : ℕ) (w : World P)
      → Holds w
      → Holds
          (record w { server = record w.server { object = update c signal_close w.server.object } })
  signals-Good c w g =
      Good-keep cap authz w _
        (update-Keeps cap (λ d. signal_close) (λ d. signal_close-Keeps cap) c w.server.object) g

  pub torn_down-Good :
      (c : ℕ) (w : World P)
      → is_past (w.phase c) ≡ true
      → (w.server.object c).torn_down ≡ false
      → Holds w
      → Holds (record w { server = close c w.server })
  unfolding close update signal_close is_past
  torn_down-Good c w past up g =
      rw (up, close)
        (record {
          agrees = unregister_client-Agrees c w.server.hub g.agrees;
          within = λ d. ground (arith, g.within d);
          torn = λ d h. ground (arith, g.torn d);
          gone = λ d h. ground (arith, g.gone d, is_registered-unregister_client c w.server.hub d);
          granted = λ d channel h. elim (Bool-cases (nat_beq c d)) [
            | inl e ↦ absurd (ground (arith, e, listens-unregister_client c w.server.hub d channel))
            | inr e ↦ rw e (
                g.granted d channel
                  (ground (arith, e, listens-unregister_client c w.server.hub d channel)))
          ];
          pending = λ d channel h. elim (Bool-cases (nat_beq c d)) [
            | inl e ↦ rw e (g.pending d channel h)
            | inr e ↦ rw e (g.pending d channel h)
          ];
          outside = λ d h.
              ground (arith, h, g.outside d, is_registered-unregister_client c w.server.hub d);
          early = λ d h. ground (arith, h, past, nat_beq_iff c d, g.early d h);
        })

  pub close-Good :
      (c : ℕ) (w : World P)
      → is_past (w.phase c) ≡ true
      → Holds w
      → Holds (record w { server = close c w.server })
  unfolding close
  close-Good c w past g = elim (Bool-cases (w.server.object c).torn_down) [
    | inl e ↦ rw (e, close) (signals-Good c w g)
    | inr e ↦ torn_down-Good c w past e g
  ]

  pub later-Good : (w : World P) → Holds w → Holds (record w { now = suc w.now })
  later-Good w g = record {
    agrees = g.agrees;
    within = g.within;
    torn = g.torn;
    gone = g.gone;
    granted = λ c channel h. let (n, le, m) = g.granted c channel h in (n, omega arith, m);
    pending = λ c channel h. let (n, le, m) = g.pending c channel h in (n, omega arith, m);
    outside = g.outside;
    early = g.early;
  }
