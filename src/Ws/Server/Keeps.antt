-- ===== src/Ws/Server/Keeps.antt =====
-- What no offer and no loop over the clients changes.
use whaticket_community.Prelude.{
  ℕ, ◌≡◌, ◌≤◌, Bool, true, List, [], ◌∷◌, arith, nat_keyed, length, length-append,
}
use whaticket_community.Ws.Server.{Client, update, each, offer, offer_quietly, signal_close}

-- What no loop over clients and no offer changes: who the client is, and whether it is torn down.
-- Nor does a closed client open again, or a buffer outgrow its capacity.
pub record Keeps {P : Type 0} (cap : ℕ) (o q : Client P) : Type 0 where
  pub same_user : q.user_id ≡ o.user_id
  pub same_profile : q.profile ≡ o.profile
  pub same_torn : q.torn_down ≡ o.torn_down
  pub stays_closed : o.closed ≡ true → q.closed ≡ true
  pub bounded : length o.send ≤ cap → length q.send ≤ cap

module _ {P : Type 0} (cap : ℕ) where
  pub Keeps-refl : (o : Client P) → Keeps cap o o
  Keeps-refl o = ground arith

  Keeps-trans : (o q r : Client P) → Keeps cap o q → Keeps cap q r → Keeps cap o r
  Keeps-trans o q r h k = ground arith

  pub offer-Keeps : (skips : Bool) (p : P) (o : Client P) → Keeps cap o (offer skips cap p o)
  unfolding offer
  offer-Keeps skips p o = ground (arith, length-append o.send (p ∷ []))

  pub offer_quietly-Keeps :
      (skips : Bool) (p : P) (o : Client P) → Keeps cap o (offer_quietly skips cap p o)
  unfolding offer_quietly
  offer_quietly-Keeps skips p o = ground (arith, length-append o.send (p ∷ []))

  pub signal_close-Keeps : (o : Client P) → Keeps cap o (signal_close o)
  unfolding signal_close
  signal_close-Keeps o = ground arith

  module _ (f : ℕ → Client P → Client P) (h : (c : ℕ) (o : Client P) → Keeps cap o (f c o)) where
    pub update-Keeps :
        (c : ℕ) (object : ℕ → Client P) (d : ℕ) → Keeps cap (object d) (update c (f c) object d)
    unfolding update
    update-Keeps c object d = ground (arith, h c (object d), Keeps-refl (object d))

    pub each-Keeps :
        (cs : List ℕ) (object : ℕ → Client P) (d : ℕ) → Keeps cap (object d) (each f cs object d)
    unfolding each
    each-Keeps [] object d = Keeps-refl (object d)
    each-Keeps (c ∷ cs) object d =
        Keeps-trans _ _ _ (update-Keeps c object d) (each-Keeps cs (update c (f c) object) d)
