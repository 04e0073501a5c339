-- ===== src/Worker/Session.antt =====
-- worker/internal/whatsmeow/session.go: the goroutine of each session over the manager, as steps that
-- interleave. A goroutine is its connection and how far it has come. The calls of `Get` and
-- `TryStartConnect` and the `Add` of `StartSession`, which the source makes one after another, are one
-- step here.
pub mod Sound
pub mod Waits
use whaticket_community.Prelude.{
  ℕ, suc, ◌+◌, ◌≡◌, ◌⊎◌, Bool, true, false, ◌&&◌, ◌||◌, Option, none, some, List, [], ◌∷◌, ◌++◌,
  Bytes, if◌then◌else◌, has, lookup, is_some, nat_beq, nat_keyed, not,
}
use whaticket_community.Worker.Manager.{
  Manager, Session, AdvancedSettings, new_manager, set, get, delete_session, try_start_connect,
  clear_connecting, register_kill, send_kill, cleanup_kill, update_settings, begin_shutdown, wg_add,
  wg_done,
}

-- `waiting ch` is between `RegisterKill`, which gave `ch`, and the return; `unwinding` to `cleaned`
-- are the deferred calls in the order in which they run.
pub data Phase : Type 0 where
  resolving : Phase
  opened : Phase
  waiting : ℕ → Phase
  unwinding cleared deleted cleaned : Phase

pub record Routine : Type 0 where
  pub conn : ℕ
  pub phase : Phase
  pub settings : AdvancedSettings
  pub media_mode : Bytes

pub record World : Type 0 where
  pub mgr : Manager
  pub routines : List Routine
  pub next_client : ℕ

unfoldable pub new_world : World
unfolding new_manager
new_world = record { mgr = new_manager; routines = []; next_client = 0 }

pub record StartConfig : Type 0 where
  pub connection_id : ℕ
  pub advanced_settings : AdvancedSettings
  pub media_mode : Bytes

pub data StartError : Type 0 where
  no_container no_event_handler already_running already_connecting : StartError

-- `StartSession`; the two flags say that the runtime has a container and an event handler.
unfoldable pub start_session :
    (ℕ → Bool) → Bool → Bool → StartConfig → World → World × Option StartError
unfolding wg_add get
start_session connected container handler cfg w =
    if not container
    then (w, some no_container)
    else if not handler
    then (w, some no_event_handler)
    else if is_some (get cfg.connection_id w.mgr)
    then (w, some already_running)
    else let (m, started) = try_start_connect connected cfg.connection_id w.mgr in
      if not started then (w, some already_connecting) else (
        record w {
          mgr = wg_add m;
          routines =
              record {
                conn = cfg.connection_id;
                phase = resolving;
                settings = cfg.advanced_settings;
                media_mode = cfg.media_mode;
              }
              ∷ w.routines;
        },
        none,
      )

-- The session that the goroutine sets, with a client that it has just made. Its `Cancel` is named
-- as the client is.
unfoldable pub session_of : ℕ → ℕ → Routine → Session
session_of client handler r = record {
  connection_id = r.conn;
  client = some client;
  handler_id = handler;
  settings = r.settings;
  media_mode = r.media_mode;
  cancel = some client;
}

abbrev pub at : Routine → Phase → Routine
at r p = record r { phase = p }

-- A goroutine `r` among the others moves on to the phase `p`, and leaves the manager `m`.
abbrev pub moved : World → List Routine → Routine → Phase → List Routine → Manager → World
moved w xs r p ys m = record w { mgr = m; routines = xs ++ at r p ∷ ys }

abbrev pub At : World → List Routine → Routine → Phase → List Routine → Type 0
At w xs r p ys = w.routines ≡ xs ++ at r p ∷ ys

pub data Step (w : World) : World → Type 0 where
  starts :
      (connected : ℕ → Bool) (container handler : Bool) (cfg : StartConfig)
      → Step w (start_session connected container handler cfg w).0
  fails_to_resolve :
      (xs ys : List Routine) (r : Routine)
      → At w xs r resolving ys
      → Step w (moved w xs r unwinding ys w.mgr)
  opens :
      (xs ys : List Routine) (r : Routine) (handler : ℕ)
      → At w xs r resolving ys
      → Step w (record {
        mgr = set r.conn (session_of w.next_client handler r) w.mgr;
        routines = xs ++ at r opened ∷ ys;
        next_client = suc w.next_client;
      })
  registers :
      (xs ys : List Routine) (r : Routine)
      → At w xs r opened ys
      → Step w
          (moved w xs r (waiting (register_kill r.conn w.mgr).1) ys (register_kill r.conn w.mgr).0)
  -- The pairing fails, the kill signal comes, or the context is cancelled.
  returns :
      (xs ys : List Routine) (r : Routine) (ch : ℕ)
      → At w xs r (waiting ch) ys
      → Step w (moved w xs r unwinding ys w.mgr)
  clears :
      (xs ys : List Routine) (r : Routine)
      → At w xs r unwinding ys
      → Step w (moved w xs r cleared ys (clear_connecting r.conn w.mgr))
  deletes :
      (xs ys : List Routine) (r : Routine) (m : Manager)
      → At w xs r cleared ys
      → delete_session r.conn w.mgr ≡ some m
      → Step w (moved w xs r deleted ys m)
  cleans :
      (xs ys : List Routine) (r : Routine)
      → At w xs r deleted ys
      → Step w (moved w xs r cleaned ys (cleanup_kill r.conn w.mgr))
  finishes :
      (xs ys : List Routine) (r : Routine) (m : Manager)
      → At w xs r cleaned ys
      → wg_done w.mgr ≡ some m
      → Step w (record w { mgr = m; routines = xs ++ ys })
  kills : (id : ℕ) → Step w (record w { mgr = send_kill id w.mgr })
  updates :
      (id : ℕ) (settings : AdvancedSettings) (mode : Bytes)
      → Step w (record w { mgr = (update_settings id settings mode w.mgr).0 })
  shuts_down : Step w (record w { mgr = begin_shutdown w.mgr })

pub data Reach (w : World) : World → Type 0 where
  here : Reach w w
  next : {t u : World} → Reach w t → Step t u → Reach w u
