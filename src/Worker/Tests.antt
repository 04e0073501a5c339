-- ===== src/Worker/Tests.antt =====
-- The worker's theorems at a concrete run: a session starts, and a stop and a new start meet it.
use whaticket_community.Prelude.{
  ◌≡◌, refl, suc, ◌++◌, Option, none, some, true, false, [], ◌∷◌, bytes, has, lookup, insert,
  nat_keyed,
}
use whaticket_community.Worker.Manager.{
  AdvancedSettings, new_manager, get, try_start_connect, is_connected, Manager, set, delete_session,
  register_kill, clear_connecting, cleanup_kill, wg_add, wg_done, replaces,
}
use whaticket_community.Worker.Session.{
  World, Routine, Reach, here, next, starts, StartConfig, start_session, new_world, resolving,
  opened, waiting, unwinding, cleared, deleted, cleaned, opens, registers, returns, clears, deletes,
  cleans, finishes, session_of, at, moved,
}
use whaticket_community.Worker.Session.Waits.{returned_routines_leave_nothing}

abbrev plain : AdvancedSettings
plain = record {
  always_online = false;
  reject_call = false;
  msg_reject_call = [];
  read_messages = false;
  ignore_groups = false;
  ignore_status = false;
}

abbrev first : StartConfig
first = record { connection_id = 1; advanced_settings = plain; media_mode = bytes "base64" }

abbrev routine : Routine
routine = record { conn = 1; phase = resolving; settings = plain; media_mode = bytes "base64" }

abbrev started : World
started = (start_session (λ c. true) true true first new_world).0

started_reached : Reach new_world started
started_reached = next here (starts (λ c. true) true true first)

started_has : started.routines ≡ routine ∷ []
unfolding start_session new_world new_manager get try_start_connect is_connected lookup has
started_has = refl

abbrev got : Option Manager → Manager
got none = new_manager
got (some m) = m

-- The session is opened, waits for its kill signal, and is taken down.
abbrev opened_world : World
opened_world = record {
  mgr = set 1 (session_of started.next_client 7 routine) started.mgr;
  routines = [] ++ at routine opened ∷ [];
  next_client = suc started.next_client;
}

abbrev waiting_world : World
waiting_world =
    moved opened_world [] routine (waiting (register_kill 1 opened_world.mgr).1) []
      (register_kill 1 opened_world.mgr).0

abbrev unwinding_world : World
unwinding_world = moved waiting_world [] routine unwinding [] waiting_world.mgr

abbrev cleared_world : World
cleared_world = moved unwinding_world [] routine cleared [] (clear_connecting 1 unwinding_world.mgr)

abbrev deleted_world : World
deleted_world = moved cleared_world [] routine deleted [] (got (delete_session 1 cleared_world.mgr))

abbrev cleaned_world : World
cleaned_world = moved deleted_world [] routine cleaned [] (cleanup_kill 1 deleted_world.mgr)

abbrev finished_world : World
finished_world = record cleaned_world { mgr = got (wg_done cleaned_world.mgr); routines = [] ++ [] }

finished_reached : Reach new_world finished_world
unfolding start_session new_world new_manager get try_start_connect is_connected lookup has set
    delete_session wg_done register_kill clear_connecting cleanup_kill session_of wg_add replaces
    insert
finished_reached =
    let a : Reach new_world opened_world =
      next started_reached (opens [] [] routine 7 started_has) in
    let b : Reach new_world waiting_world = next a (registers [] [] routine refl) in
    let c : Reach new_world unwinding_world = next b (returns [] [] routine 0 refl) in
    let d : Reach new_world cleared_world = next c (clears [] [] routine refl) in
    let e : Reach new_world deleted_world = next d (deletes [] [] routine _ refl refl) in
    let f : Reach new_world cleaned_world = next e (cleans [] [] routine refl) in
    next f (finishes [] [] routine _ refl refl)

returned_routines_leave_nothing_example :
    (finished_world.mgr.sessions ≡ []) × (finished_world.mgr.handler_wg ≡ 0)
returned_routines_leave_nothing_example =
    returned_routines_leave_nothing finished_world finished_reached refl
