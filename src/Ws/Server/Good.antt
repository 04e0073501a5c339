-- ===== src/Ws/Server/Good.antt =====
-- The invariant of the server: the maps agree, the buffers are bounded, a closed client is gone from
-- the hub, and nobody listens to a channel that was never granted.
use whaticket_community.Prelude.{
  sym, ◌∙◌, ℕ, ◌≡◌, ◌≤◌, Bool, true, false, Option, Bytes, nat_keyed, length,
}
use whaticket_community.Ws.Server.Keeps.{Keeps}
use whaticket_community.Ws.Authz.{TicketAuthorizer}
use whaticket_community.Ws.Authz.Grants.{MayListen}
use whaticket_community.Ws.Hub.{Hub, listens, receives, is_registered}
use whaticket_community.Ws.Hub.Agree.{Agrees}
use whaticket_community.Ws.Server.{Client}
use whaticket_community.Ws.Server.Steps.{World, unmade, made, subscribing}

-- At some time up to `now` the user of a client might listen to a channel.
abbrev pub Granted : {P : Type 0} → (ℕ → Option TicketAuthorizer) → ℕ → Client P → Bytes → Type 0
Granted authz now o channel = (n : ℕ) × (n ≤ now) × MayListen (authz n) o.user_id o.profile channel

Agrees-flag : (h : Hub) (b : Bool) → Agrees h → Agrees (record h { shutting_down = b })
unfolding receives listens
Agrees-flag h b a = record { same = a.same; no_empty = a.no_empty; once = a.once }

module _ {P : Type 0} (cap : ℕ) (authz : ℕ → Option TicketAuthorizer) where
  pub record Good (w : World P) : Type 0 where
    pub agrees : Agrees w.server.hub
    pub within : (c : ℕ) → length (w.server.object c).send ≤ cap
    pub torn : (c : ℕ) → (w.server.object c).torn_down ≡ true → (w.server.object c).closed ≡ true
    pub gone : (c : ℕ) → (w.server.object c).torn_down ≡ true → is_registered w.server.hub c ≡ false
    pub granted :
        (c : ℕ) (channel : Bytes)
        → listens w.server.hub c channel ≡ true
        → Granted authz w.now (w.server.object c) channel
    pub pending :
        (c : ℕ) (channel : Bytes)
        → w.phase c ≡ subscribing channel
        → Granted authz w.now (w.server.object c) channel
    pub outside : (c : ℕ) → w.phase c ≡ unmade → is_registered w.server.hub c ≡ false
    pub early : (c : ℕ) → w.phase c ≡ made → (w.server.object c).torn_down ≡ false

  -- A step that leaves the hub's maps and the phases alone and keeps each object.
  pub Good-keep :
      (w : World P) (object : ℕ → Client P)
      → ((c : ℕ) → Keeps cap (w.server.object c) (object c))
      → Good w
      → Good (record w { server = record w.server { object = object } })
  Good-keep w object k g = record {
    agrees = g.agrees;
    within = λ c. (k c).bounded (g.within c);
    torn = λ c h. (k c).stays_closed (g.torn c (sym (k c).same_torn ∙ h));
    gone = λ c h. g.gone c (sym (k c).same_torn ∙ h);
    granted = λ c channel h. rw ((k c).same_user, (k c).same_profile) (g.granted c channel h);
    pending = λ c channel h. rw ((k c).same_user, (k c).same_profile) (g.pending c channel h);
    outside = g.outside;
    early = λ c h. (k c).same_torn ∙ g.early c h;
  }

  pub Good-flag :
      (w : World P) (b : Bool)
      → Good w
      → Good (record w {
        server = record w.server { hub = record w.server.hub { shutting_down = b } };
      })
  unfolding listens is_registered
  Good-flag w b g = record {
    agrees = Agrees-flag w.server.hub b g.agrees;
    within = g.within;
    torn = g.torn;
    gone = g.gone;
    granted = g.granted;
    pending = g.pending;
    outside = g.outside;
    early = g.early;
  }
