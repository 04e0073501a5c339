-- ===== src/Worker/Session/Waits.antt =====
-- The wait group counts the sessions and the goroutines, so no `Done` panics and `Shutdown` ends.
use whaticket_community.Prelude.{
  ℕ, ◌+◌, ◌<◌, ◌≡◌, ◌≢◌, ap, refl, false, none, List, [], ◌∷◌, arith, lookup, is_some, length,
  length-append, nat_beq_iff, nat_keyed,
}
use whaticket_community.Worker.Manager.{
  Session, delete_session, clear_connecting, register_kill, send_kill, cleanup_kill, begin_shutdown,
  wg_done,
}
use whaticket_community.Worker.Manager.Counts.{delete_session-ne-none, wg_done-ne-none}
use whaticket_community.Worker.Session.{
  Phase, resolving, opened, waiting, unwinding, cleared, deleted, cleaned, Routine, World,
  new_world, at, At, Step, starts, fails_to_resolve, opens, registers, returns, clears, deletes,
  cleans, finishes, kills, updates, shuts_down, Reach, here, next,
}
use whaticket_community.Worker.Session.Sound.{
  Sound, owns, moved-Sound, opens-Sound, deletes-Sound, finishes-Sound, starts-Sound, updates-Sound,
  same-Sound,
}

Step-Sound : {w v : World} → Step w v → Sound w → Sound v
Step-Sound {w} (starts connected container handler cfg) g =
    starts-Sound w connected container handler cfg g
Step-Sound {w} (fails_to_resolve xs ys r h) g =
    moved-Sound w xs ys r resolving unwinding w.mgr h refl refl refl g
Step-Sound {w} (opens xs ys r handler h) g = opens-Sound w xs ys r handler h g
Step-Sound {w} (registers xs ys r h) g =
    moved-Sound w xs ys r opened (waiting _) _ h refl (unfold register_kill in ground arith)
      (unfold register_kill in ground arith) g
Step-Sound {w} (returns xs ys r ch h) g =
    moved-Sound w xs ys r (waiting ch) unwinding w.mgr h refl refl refl g
Step-Sound {w} (clears xs ys r h) g =
    moved-Sound w xs ys r unwinding cleared _ h refl (unfold clear_connecting in refl)
      (unfold clear_connecting in refl) g
Step-Sound {w} (deletes xs ys r m h e) g = deletes-Sound w xs ys r m h e g
Step-Sound {w} (cleans xs ys r h) g =
    moved-Sound w xs ys r deleted cleaned _ h refl (unfold cleanup_kill in refl)
      (unfold cleanup_kill in refl) g
Step-Sound {w} (finishes xs ys r m h e) g = finishes-Sound w xs ys r m h e g
Step-Sound {w} (kills id) g =
    same-Sound w _ (unfold send_kill in ground arith) (unfold send_kill in ground arith) g
Step-Sound {w} (updates id settings mode) g = updates-Sound w id settings mode g
Step-Sound {w} shuts_down g =
    same-Sound w _ (unfold begin_shutdown in ground arith) (unfold begin_shutdown in ground arith) g

Reach-Sound : {w v : World} → Reach w v → Sound w → Sound v
Reach-Sound here g = g
Reach-Sound (next r st) g = Step-Sound st (Reach-Sound r g)

new_world-Sound : Sound new_world
unfolding new_world lookup owns
new_world-Sound = record {
  counted = refl;
  distinct = tt;
  fresh = λ id sess l. cc;
  owned = λ id l. l;
}

-- In every world that the worker reaches, the wait group counts the sessions and the goroutines.
pub handler_wg-counts :
    (w : World) → Reach new_world w → w.mgr.handler_wg ≡ length w.mgr.sessions + length w.routines
handler_wg-counts w r = (Reach-Sound r new_world-Sound).counted

positive-At :
    (w : World) (xs ys : List Routine) (r : Routine) (p : Phase)
    → At w xs r p ys
    → Sound w
    → 0 < w.mgr.handler_wg
positive-At w xs ys r p h g = omega (arith, g.counted, ap length h, length-append xs (at r p ∷ ys))

-- In every world that the worker reaches, a goroutine's call of `Delete` and its last call of `Done`
-- find the wait group above zero: neither panics.
pub done_never_panics :
    (w : World) (xs ys : List Routine) (r : Routine) (p : Phase)
    → Reach new_world w
    → At w xs r p ys
    → (delete_session r.conn w.mgr ≢ none) × (wg_done w.mgr ≢ none)
done_never_panics w xs ys r p reach h =
    let some_left = positive-At w xs ys r p h (Reach-Sound reach new_world-Sound) in
    (delete_session-ne-none r.conn w.mgr some_left, wg_done-ne-none w.mgr some_left)

no-sessions :
    (sessions : List (ℕ × Session))
    → ((id : ℕ) → is_some (lookup id sessions) ≡ false)
    → sessions ≡ []
unfolding lookup
no-sessions [] h = refl
no-sessions ((id, sess) ∷ rest) h = ground (arith, h id, nat_beq_iff id id)

-- Once every session goroutine has returned, in any order of their steps, no session is left and the
-- wait group is at zero, so that `Shutdown`'s wait ends.
pub returned_routines_leave_nothing :
    (w : World)
    → Reach new_world w
    → w.routines ≡ []
    → (w.mgr.sessions ≡ []) × (w.mgr.handler_wg ≡ 0)
returned_routines_leave_nothing w reach e =
    let g = Reach-Sound reach new_world-Sound in
    let none_left = no-sessions w.mgr.sessions (λ id. unowned id g) in
    (none_left, omega (arith, g.counted, ap length none_left, ap length e))
  where
    unowned : (id : ℕ) → Sound w → is_some (lookup id w.mgr.sessions) ≡ false
    unowned id g = unfold owns in ground (arith, g.owned id, e)
