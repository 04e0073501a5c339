-- ===== src/Ws/Server/Delivery.antt =====
-- What a published event does to each client's buffer.
use whaticket_community.Prelude.{
  ℕ, ap, ◌∙◌, ◌≡◌, ◌++◌, refl, Bool, true, false, Option, some, List, [], ◌∷◌, arith, Bytes,
  if◌then◌else◌, has, ltb, nat_beq_iff, nat_keyed, Distinct, length,
}
use whaticket_community.Ws.Hub.{members, receives, listens}
use whaticket_community.Ws.Hub.Agree.{Agrees}
use whaticket_community.Ws.Server.{
  Client, Server, Frame, app, update, each, offer, publish, deliver,
}

module _ {P : Type 0} (f : ℕ → Client P → Client P) where
  -- A loop over distinct clients treats each of them once, and no other.
  pub each_lem :
      (cs : List ℕ) (object : ℕ → Client P) (d : ℕ)
      → Distinct cs
      → each f cs object d ≡ (if has d cs then f d (object d) else object d)
  unfolding each has update
  each_lem [] object d h = refl
  each_lem (c ∷ cs) object d h =
      ground (arith, each_lem cs (update c (f c) object) d h.1, nat_beq_iff c d)

  pub deliver-object : (cs : List ℕ) (s : Server P) → (deliver f cs s).object ≡ each f cs s.object
  unfolding deliver
  deliver-object [] s = refl
  deliver-object (c ∷ cs) s = refl

  pub deliver-hub : (cs : List ℕ) (s : Server P) → (deliver f cs s).hub ≡ s.hub
  unfolding deliver
  deliver-hub [] s = refl
  deliver-hub (c ∷ cs) s = refl

module _ {D P : Type 0} (marshal : Frame D → Option P) (cap : ℕ) (skips : ℕ → Bool) where
  publish_each :
      (channel event : Bytes) (body : D) (s : Server P) (p : P) (d : ℕ)
      → Distinct (members s.hub.channels channel)
      → s.hub.shutting_down ≡ false
      → marshal (record { channel = channel; event = event; body = app body }) ≡ some p
      → (publish marshal cap skips channel event body s).object d
        ≡ (if receives s.hub d channel then offer (skips d) cap p (s.object d) else s.object d)
  unfolding publish receives
  publish_each channel event body s p d once running m =
      rw (running, m, publish)
        (ap (λ (object : ℕ → Client P). object d)
            (deliver-object (λ c. offer (skips c) cap p) (members s.hub.channels channel) s)
          ∙ each_lem (λ c. offer (skips c) cap p) (members s.hub.channels channel) s.object d once)

  -- Publishing on a hub whose maps agree and that is not shutting down, where the frame marshals,
  -- and a client that is not closed: the payload goes once to the end of the client's buffer where
  -- it listens to the channel and has room; the client is closed where it listens and has no room;
  -- and it is left alone where it does not listen.
  pub publish-delivers :
      (channel event : Bytes) (body : D) (s : Server P) (p : P) (d : ℕ)
      → Agrees s.hub
      → s.hub.shutting_down ≡ false
      → marshal (record { channel = channel; event = event; body = app body }) ≡ some p
      → (s.object d).closed ≡ false
      → (publish marshal cap skips channel event body s).object d ≡ (
          if listens s.hub d channel
          then (if ltb (length (s.object d).send) cap
              then record (s.object d) { send = (s.object d).send ++ p ∷ [] }
              else record (s.object d) { closed = true })
          else s.object d)
  unfolding offer
  publish-delivers channel event body s p d a running m o =
      let e = publish_each channel event body s p d (a.once channel) running m in
      let r = a.same d channel in ground (arith, e, r, o)
