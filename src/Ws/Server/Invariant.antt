-- ===== src/Ws/Server/Invariant.antt =====
-- What holds of the server between two steps: the buffers are bounded, a closed client is gone from
-- the hub, and nobody listens to a channel that is not granted.
use whaticket_community.Prelude.{
  subst, ℕ, ◌≡◌, refl, Bool, true, Option, arith, Bytes, has, nat_keyed, lookup, inl, inr,
  Option-cases,
}
use whaticket_community.Ws.Server.Keeps.{offer-Keeps, offer_quietly-Keeps, update-Keeps}
use whaticket_community.Ws.Authz.{TicketAuthorizer}
use whaticket_community.Ws.Authz.Grants.{authorize_subscribe_sound}
use whaticket_community.Ws.Hub.{listens, is_registered, subscribe, subscriptions, new_hub}
use whaticket_community.Ws.Hub.Agree.{new_hub-Agrees}
use whaticket_community.Ws.Server.Preserves.{
  take_payload-Good, makes-Good, registers-Good, moves-Good, subscribe-Good, unsubscribe-Good,
  signals-Good, close-Good, later-Good,
}
use whaticket_community.Ws.Server.Good.{Good, Granted, Good-keep, Good-flag}
use whaticket_community.Ws.Server.Steps.{
  World, reading, ended, subscribing, is_past, new_world, Step, makes, registers, welcomes, allows,
  denies, subscribes, unsubscribes, offers, offers_quietly, writes, signals, closes, shuts_down,
  later, Reach, here, next,
}
use whaticket_community.Ws.Server.{
  Frame, offer, offer_quietly, close, queue_system, send_error, send_system, new_client,
}

subscribing-inj : {a b : Bytes} → subscribing a ≡ subscribing b → a ≡ b
subscribing-inj e = cc

module _ {D P : Type 0} (marshal : Frame D → Option P) (cap : ℕ)
    (authz : ℕ → Option TicketAuthorizer) where
  abbrev Holds : World P → Type 0
  Holds = Good cap authz

  queue_system-Good :
      (skips : ℕ → Bool) (c : ℕ) (frame : Frame D) (w : World P)
      → Holds w
      → Holds (record w { server = queue_system marshal cap skips c frame w.server })
  unfolding queue_system
  queue_system-Good skips c frame w g = elim (Option-cases (marshal frame)) [
    | inl e ↦ rw (e, queue_system) g
    | inr (p, e) ↦
        rw (e, queue_system)
          (Good-keep cap authz w _
            (update-Keeps cap (λ d. offer (skips c) cap p) (λ d. offer-Keeps cap (skips c) p) c
              w.server.object)
            g)
  ]

  pub Step-Good : {w v : World P} → Step marshal cap authz w v → Holds w → Holds v
  unfolding is_past send_error send_system
  Step-Good {w} (makes c user profile fresh) g = makes-Good cap authz c user profile w fresh g
  Step-Good {w} (registers c m) g = registers-Good cap authz c w m g
  Step-Good {w} (welcomes skips c user profile) g = queue_system-Good skips c _ w g
  Step-Good {w} (allows c channel r a) g =
      moves-Good cap authz c (subscribing channel) w refl
        (λ other e.
          let o = w.server.object c in
          let grant : Granted authz w.now o channel = (
            w.now,
            omega arith,
            authorize_subscribe_sound (authz w.now) o.user_id o.profile channel a,
          ) in
          subst (Granted authz w.now o) (subscribing-inj e) grant)
        g
  Step-Good {w} (denies skips c channel r a) g = queue_system-Good skips c _ w g
  Step-Good {w} (subscribes c channel s) g =
      moves-Good cap authz c reading
        (record w { server = record w.server { hub = subscribe c channel w.server.hub } }) refl
        (λ other e. cc) (subscribe-Good cap authz c channel w s g)
  Step-Good {w} (unsubscribes c channel r) g = unsubscribe-Good cap authz c channel w g
  Step-Good {w} (offers skips c p) g =
      Good-keep cap authz w _
        (update-Keeps cap (λ d. offer skips cap p) (λ d. offer-Keeps cap skips p) c w.server.object)
        g
  Step-Good {w} (offers_quietly skips c p) g =
      Good-keep cap authz w _
        (update-Keeps cap (λ d. offer_quietly skips cap p) (λ d. offer_quietly-Keeps cap skips p) c
          w.server.object)
        g
  Step-Good {w} (writes c) g = take_payload-Good cap authz c w g
  Step-Good {w} (signals c) g = signals-Good cap authz c w g
  Step-Good {w} (closes c past) g =
      moves-Good cap authz c ended (record w { server = close c w.server }) refl (λ other e. cc)
        (close-Good cap authz c w past g)
  Step-Good {w} shuts_down g = Good-flag cap authz w true g
  Step-Good {w} later g = later-Good cap authz w g

  Reach-Good : {w v : World P} → Reach marshal cap authz w v → Holds w → Holds v
  Reach-Good here g = g
  Reach-Good (next r st) g = Step-Good st (Reach-Good r g)

  new_world-Good : Holds new_world
  unfolding new_world new_client new_hub is_registered listens subscriptions has lookup
  new_world-Good = record {
    agrees = new_hub-Agrees;
    within = λ c. omega arith;
    torn = λ c h. cc;
    gone = λ c h. cc;
    granted = λ c channel h. cc;
    pending = λ c channel h. cc;
    outside = λ c h. refl;
    early = λ c h. refl;
  }

  -- Whatever clients come, ask, read and go, and whatever is offered to them in between, in any order
  -- of the goroutines' steps, at any choice of the selects, and however the authorizer's answers
  -- change with time: the two maps of the hub agree, no buffer outgrows its capacity, a client that
  -- was torn down is closed and out of the hub, and each client listens only to channels that its
  -- user might listen to, by the authorizer's answer at some time since the server began.
  pub new_server-reaches-Good :
      (w : World P) → Reach marshal cap authz new_world w → Good cap authz w
  new_server-reaches-Good w r = Reach-Good r new_world-Good
