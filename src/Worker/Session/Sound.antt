-- ===== src/Worker/Session/Sound.antt =====
-- What holds of the sessions, the goroutines and the wait group, and each step that keeps it.
use whaticket_community.Prelude.{
  ℕ, suc, ◌+◌, ◌≡◌, ◌∙◌, ap, refl, Bool, true, false, ◌&&◌, ◌||◌, some, List, [], ◌∷◌, ◌++◌, arith,
  lookup, keys, is_some, length, length-append, Distinct, nat_beq, nat_beq_iff, nat_keyed,
  Option-cases, inl, inr, lookup-insert, Bytes,
}
use whaticket_community.Worker.Manager.{
  Manager, Session, AdvancedSettings, set, delete_session, try_start_connect, update_settings,
  wg_done,
}
use whaticket_community.Worker.Manager.Counts.{
  Fresh, set_counts, set-Fresh, set-Distinct, delete_session-Deleted, wg_done_lem,
  update_settings_counts, update_settings-Distinct, lookup-update_settings,
}
use whaticket_community.Worker.Session.{
  Phase, resolving, opened, waiting, unwinding, cleared, deleted, cleaned, Routine, World,
  StartConfig, start_session, session_of, at, moved, At,
}

-- The goroutine will still call `Delete` for its connection.
abbrev pub is_owner : Phase → Bool
is_owner resolving = true
is_owner opened = true
is_owner (waiting ch) = true
is_owner unwinding = true
is_owner cleared = true
is_owner deleted = false
is_owner cleaned = false

unfoldable pub owns : ℕ → List Routine → Bool
owns id [] = false
owns id (r ∷ rs) = (nat_beq r.conn id && is_owner r.phase) || owns id rs

owns-append : (id : ℕ) (xs ys : List Routine) → owns id (xs ++ ys) ≡ (owns id xs || owns id ys)
unfolding owns
owns-append id [] ys = ground arith
owns-append id (r ∷ xs) ys = ground (arith, owns-append id xs ys)

owns-cons :
    (id : ℕ) (r : Routine) (ys : List Routine)
    → owns id (r ∷ ys) ≡ ((nat_beq r.conn id && is_owner r.phase) || owns id ys)
unfolding owns
owns-cons id r ys = refl

pub record Sound (w : World) : Type 0 where
  pub counted : w.mgr.handler_wg ≡ length w.mgr.sessions + length w.routines
  pub distinct : Distinct (keys w.mgr.sessions)
  pub fresh : Fresh w.next_client w.mgr.sessions
  pub owned : (id : ℕ) → is_some (lookup id w.mgr.sessions) ≡ true → owns id w.routines ≡ true

module _ (w : World) (xs ys : List Routine) (r : Routine) (p : Phase) (h : At w xs r p ys) where
  length-at : (q : Phase) → length w.routines ≡ length (xs ++ at r q ∷ ys)
  length-at q =
      omega (arith, ap length h, length-append xs (at r p ∷ ys), length-append xs (at r q ∷ ys))

  owns_at :
      (id : ℕ)
      → owns id w.routines ≡ (owns id xs || ((nat_beq r.conn id && is_owner p) || owns id ys))
  owns_at id =
      rw h (owns-append id xs (at r p ∷ ys) ∙ ap (λ b. owns id xs || b) (owns-cons id (at r p) ys))

owns_moved :
    (xs ys : List Routine) (r : Routine) (q : Phase) (id : ℕ)
    → owns id (xs ++ at r q ∷ ys)
      ≡ (owns id xs || ((nat_beq r.conn id && is_owner q) || owns id ys))
owns_moved xs ys r q id =
    owns-append id xs (at r q ∷ ys) ∙ ap (λ b. owns id xs || b) (owns-cons id (at r q) ys)

-- A move within the phases that own the connection, which leaves the sessions and the count alone.
pub moved-Sound :
    (w : World) (xs ys : List Routine) (r : Routine) (p q : Phase) (m : Manager)
    → At w xs r p ys
    → is_owner p ≡ is_owner q
    → m.sessions ≡ w.mgr.sessions
    → m.handler_wg ≡ w.mgr.handler_wg
    → Sound w
    → Sound (moved w xs r q ys m)
moved-Sound w xs ys r p q m h o s c g = record {
  counted = omega (arith, c, ap length s, g.counted, length-at w xs ys r p h q);
  distinct = rw s g.distinct;
  fresh = rw s g.fresh;
  owned =
      λ id l. ground (arith, s, o, g.owned id, owns_at w xs ys r p h id, owns_moved xs ys r q id);
}

pub opens-Sound :
    (w : World) (xs ys : List Routine) (r : Routine) (handler : ℕ)
    → At w xs r resolving ys
    → Sound w
    → Sound (record {
      mgr = set r.conn (session_of w.next_client handler r) w.mgr;
      routines = xs ++ at r opened ∷ ys;
      next_client = suc w.next_client;
    })
opens-Sound w xs ys r handler h g = record {
  counted = omega (
    arith,
    g.counted,
    length-at w xs ys r resolving h opened,
    set_counts r.conn sess w.mgr w.next_client g.fresh (unfold session_of in refl),
  );
  distinct = set-Distinct r.conn sess w.mgr g.distinct;
  fresh = set-Fresh r.conn sess w.mgr w.next_client g.fresh (unfold session_of in refl);
  owned = λ id l.
      unfold set in
      ground (
        arith,
        g.owned id,
        lookup-insert id r.conn sess w.mgr.sessions,
        nat_beq_iff r.conn id,
        owns_at w xs ys r resolving h id,
        owns_moved xs ys r opened id,
      );
}
  where
    sess : Session
    sess = session_of w.next_client handler r

pub deletes-Sound :
    (w : World) (xs ys : List Routine) (r : Routine) (m : Manager)
    → At w xs r cleared ys
    → delete_session r.conn w.mgr ≡ some m
    → Sound w
    → Sound (moved w xs r deleted ys m)
deletes-Sound w xs ys r m h e g =
    let d = delete_session-Deleted r.conn w.mgr m g.distinct e in
    record {
      counted = omega (arith, g.counted, length-at w xs ys r cleared h deleted, d.counts);
      distinct = d.distinct;
      fresh = λ id sess l. g.fresh id sess (d.others id sess l);
      owned = λ id l. elim (Option-cases (lookup id m.sessions)) [
        | inl e' ↦ absurd (ground (arith, e'))
        | inr (sess, e') ↦ ground (
          arith,
          e',
          d.gone,
          d.others id sess e',
          g.owned id,
          nat_beq_iff r.conn id,
          owns_at w xs ys r cleared h id,
          owns_moved xs ys r deleted id,
        )
      ];
    }

pub finishes-Sound :
    (w : World) (xs ys : List Routine) (r : Routine) (m : Manager)
    → At w xs r cleaned ys
    → wg_done w.mgr ≡ some m
    → Sound w
    → Sound (record w { mgr = m; routines = xs ++ ys })
finishes-Sound w xs ys r m h e g =
    let (s, n) = wg_done_lem w.mgr m e in
    record {
      counted = omega (
        arith,
        g.counted,
        n,
        ap length s,
        ap length h,
        length-append xs (at r cleaned ∷ ys),
        length-append xs ys,
      );
      distinct = rw s g.distinct;
      fresh = rw s g.fresh;
      owned = λ id l.
          ground (arith, s, g.owned id, owns_at w xs ys r cleaned h id, owns-append id xs ys);
    }

pub starts-Sound :
    (w : World) (connected : ℕ → Bool) (container handler : Bool) (cfg : StartConfig)
    → Sound w
    → Sound (start_session connected container handler cfg w).0
starts-Sound w connected container handler cfg g = record {
  counted = unfold start_session try_start_connect in ground (arith, g.counted);
  distinct = rw same g.distinct;
  fresh = rw (same, unchanged) g.fresh;
  owned = λ id l.
      unfold start_session try_start_connect owns in
      ground (arith, ap (lookup id) same, g.owned id);
}
  where
    same : (start_session connected container handler cfg w).0.mgr.sessions ≡ w.mgr.sessions
    same = unfold start_session try_start_connect in ground arith

    unchanged : (start_session connected container handler cfg w).0.next_client ≡ w.next_client
    unchanged = unfold start_session try_start_connect in ground arith

pub updates-Sound :
    (w : World) (id : ℕ) (settings : AdvancedSettings) (mode : Bytes)
    → Sound w
    → Sound (record w { mgr = (update_settings id settings mode w.mgr).0 })
updates-Sound w id settings mode g =
    let (n, l) = update_settings_counts id settings mode w.mgr in
    record {
      counted = omega (arith, g.counted, n, l);
      distinct = update_settings-Distinct id settings mode w.mgr g.distinct;
      fresh = λ j sess l.
          let (old, e, c) = lookup-update_settings id settings mode w.mgr j sess l in
          let (k, d, lt) = g.fresh j old e in (k, c ∙ d, lt);
      owned = λ j l.
          elim (Option-cases (lookup j (update_settings id settings mode w.mgr).0.sessions)) [
            | inl e ↦ absurd (ground (arith, e))
            | inr (sess, e) ↦
                let (old, e', c) = lookup-update_settings id settings mode w.mgr j sess e in
                g.owned j (rw e')
          ];
    }

-- The manager's sessions and count are as they were.
pub same-Sound :
    (w : World) (m : Manager)
    → m.sessions ≡ w.mgr.sessions
    → m.handler_wg ≡ w.mgr.handler_wg
    → Sound w
    → Sound (record w { mgr = m })
same-Sound w m s c g = record {
  counted = omega (arith, c, ap length s, g.counted);
  distinct = rw s g.distinct;
  fresh = rw s g.fresh;
  owned = λ id l. ground (arith, s, g.owned id);
}
