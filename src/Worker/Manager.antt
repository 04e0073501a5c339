-- ===== src/Worker/Manager.antt =====
-- worker/internal/whatsmeow/manager.go: the sessions by connection, the kill signals, the connections
-- that are being made, and the wait group. Each method runs under the manager's lock.
pub mod Counts
use whaticket_community.Prelude.{
  ℕ, zero, suc, ◌+◌, Bool, true, false, ◌&&◌, ◌||◌, not, Option, none, some, List, [], ◌∷◌, ◌++◌,
  Bytes, if◌then◌else◌, has, add, remove, lookup, insert, delete, keys, is_some, nat_beq, nat_keyed,
}

pub record AdvancedSettings : Type 0 where
  pub always_online : Bool
  pub reject_call : Bool
  pub msg_reject_call : Bytes
  pub read_messages : Bool
  pub ignore_groups : Bool
  pub ignore_status : Bool

-- A client of the whatsmeow library is its pointer; so is a `Cancel` function.
pub record Session : Type 0 where
  pub connection_id : ℕ
  pub client : Option ℕ
  pub handler_id : ℕ
  pub settings : AdvancedSettings
  pub media_mode : Bytes
  pub cancel : Option ℕ

-- The calls that the manager makes of code that is not here, in order.
pub data Effect : Type 0 where
  remove_event_handler : ℕ → ℕ → Effect
  disconnect : ℕ → Effect
  cancels : ℕ → Effect

-- A kill signal is a Go channel: `kills` holds its pointer, `fired` those that were closed.
pub record Manager : Type 0 where
  pub sessions : List (ℕ × Session)
  pub kills : List (ℕ × ℕ)
  pub fired : List ℕ
  pub next_signal : ℕ
  pub connecting : List ℕ
  pub handler_wg : ℕ
  pub shutting_down : Bool
  pub effects : List Effect

unfoldable pub new_manager : Manager
new_manager = record {
  sessions = [];
  kills = [];
  fired = [];
  next_signal = 0;
  connecting = [];
  handler_wg = 0;
  shutting_down = false;
  effects = [];
}

unfoldable pub wg_add : Manager → Manager
wg_add m = record m { handler_wg = m.handler_wg + 1 }

-- `Done` on a wait group at zero panics.
unfoldable pub wg_done : Manager → Option Manager
wg_done m = elim m.handler_wg [ zero ↦ none | suc n ↦ some (record m { handler_wg = n }) ]

abbrev drop_client : Option ℕ → ℕ → List Effect
drop_client none handler = []
drop_client (some c) handler = remove_event_handler c handler ∷ disconnect c ∷ []

abbrev cancel_effect : Option ℕ → List Effect
cancel_effect none = []
cancel_effect (some f) = cancels f ∷ []

-- `ok && old.Client != nil && old.Client != sess.Client`
unfoldable pub replaces : Option Session → Session → Bool
replaces none sess = false
replaces (some old) sess = other old.client sess.client
  where
    other : Option ℕ → Option ℕ → Bool
    other none c = false
    other (some c) none = true
    other (some c) (some d) = not (nat_beq c d)

abbrev old_effects : Option Session → List Effect
old_effects none = []
old_effects (some old) = drop_client old.client old.handler_id

unfoldable pub set : ℕ → Session → Manager → Manager
unfolding wg_add
set id sess m =
    let old = lookup id m.sessions in
    let t =
      if replaces old sess then record m { effects = m.effects ++ old_effects old } else wg_add m in
    record t { sessions = insert id sess m.sessions; connecting = remove id m.connecting }

unfoldable pub get : ℕ → Manager → Option Session
get id m = lookup id m.sessions

unfoldable pub delete_session : ℕ → Manager → Option Manager
unfolding wg_done
delete_session id m = elim (lookup id m.sessions) [
  | none ↦ some m
  | some sess ↦ wg_done (record m {
    sessions = delete id m.sessions;
    effects = m.effects ++ (cancel_effect sess.cancel ++ drop_client sess.client sess.handler_id);
  })
]

-- `connected` is the library's `IsConnected` of a client, now.
module _ (connected : ℕ → Bool) where
  abbrev client_connected : Option ℕ → Bool
  client_connected none = false
  client_connected (some c) = connected c

  abbrev session_connected : Option Session → Bool
  session_connected none = false
  session_connected (some sess) = client_connected sess.client

  unfoldable pub is_connected : ℕ → Manager → Bool
  is_connected id m = session_connected (lookup id m.sessions)

  unfoldable pub try_start_connect : ℕ → Manager → Manager × Bool
  unfolding is_connected
  try_start_connect id m =
      if m.shutting_down
      then (m, false)
      else if has id m.connecting
      then (m, false)
      else if is_connected id m
      then (m, false)
      else (record m { connecting = add id m.connecting }, true)

unfoldable pub clear_connecting : ℕ → Manager → Manager
clear_connecting id m = record m { connecting = remove id m.connecting }

unfoldable pub register_kill : ℕ → Manager → Manager × ℕ
register_kill id m = elim (lookup id m.kills) [
  | some ch ↦ (m, ch)
  | none ↦ (
    record m { kills = insert id m.next_signal m.kills; next_signal = m.next_signal + 1 },
    m.next_signal,
  )
]

unfoldable pub send_kill : ℕ → Manager → Manager
send_kill id m = elim (lookup id m.kills) [
  | none ↦ m
  | some ch ↦ record m { fired = add ch m.fired }
]

unfoldable pub cleanup_kill : ℕ → Manager → Manager
cleanup_kill id m = record m { kills = delete id m.kills }

unfoldable pub update_settings : ℕ → AdvancedSettings → Bytes → Manager → Manager × Bool
update_settings id settings mode m = elim (lookup id m.sessions) [
  | none ↦ (m, false)
  | some sess ↦ (
    record m {
      sessions = insert id (record sess { settings = settings; media_mode = mode }) m.sessions;
    },
    true,
  )
]

-- The loop `for id, ch := range m.kills`, which closes each signal once.
unfoldable pub fire_all : List (ℕ × ℕ) → List ℕ → List ℕ
fire_all [] fired = fired
fire_all ((id, ch) ∷ kills) fired = fire_all kills (add ch fired)

unfoldable pub stop_all : List (ℕ × Session) → List Effect
stop_all [] = []
stop_all ((id, sess) ∷ rest) =
    (cancel_effect sess.cancel ++ drop_client sess.client sess.handler_id) ++ stop_all rest

-- `Shutdown` up to its wait for the wait group.
unfoldable pub begin_shutdown : Manager → Manager
unfolding fire_all stop_all
begin_shutdown m = if m.shutting_down then m else record m {
  shutting_down = true;
  fired = fire_all m.kills m.fired;
  kills = [];
  effects = m.effects ++ stop_all m.sessions;
}
