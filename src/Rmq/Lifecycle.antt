-- ===== src/Rmq/Lifecycle.antt =====
-- backend/internal/rmq/client.go: `Start`, `Shutdown` and `reconnectLoop`, as steps that interleave.
-- A step ends where another goroutine can see the state.
pub mod Shutdowns
use whaticket_community.Prelude.{◌≡◌, ◌≢◌, Bool, true, false}
use whaticket_community.Rmq.Client.{State}

-- How far `reconnectLoop` is, or `Start` before it: `starting` is `Start` in `dialAndSetup`; `noticed`
-- is behind the check of the state, `lost` has cleared the connection, `trying` is before an attempt's
-- check of the context and `dialing` behind it.
pub data Loop : Type 0 where
  absent starting watching noticed lost trying dialing ended : Loop

-- `run_cancelled` says that `runCtx` has ended; `open` that there are a connection and channels.
pub record World : Type 0 where
  pub state : State
  pub loop : Loop
  pub run_cancelled : Bool
  pub open_channels : Bool

abbrev pub new_client : World
new_client = record {
  state = State.disconnected;
  loop = absent;
  run_cancelled = false;
  open_channels = false;
}

-- What `Shutdown` does at once.
unfoldable pub shut_down : World → World
shut_down w = record w { state = State.shutting_down; run_cancelled = true }

unfoldable pub connects : World → World
connects w = record w { state = State.connected; loop = watching; open_channels = true }

unfoldable pub gives_up : World → World
gives_up w = record w { state = State.disabled; loop = ended }

pub data Step (w : World) : World → Type 0 where
  starts :
      w.state ≡ State.disconnected
      → w.loop ≡ absent
      → Step w (record w { state = State.connecting; loop = starting; run_cancelled = false })
  start_fails : w.loop ≡ starting → Step w (gives_up w)
  start_connects : w.loop ≡ starting → Step w (connects w)
  -- The connection is closed with an error, and the client is not shutting down.
  notices : w.loop ≡ watching → w.state ≢ State.shutting_down → Step w (record w { loop = noticed })
  loses :
      w.loop ≡ noticed
      → Step w (record w { state = State.disconnected; loop = lost; open_channels = false })
  reconnects : w.loop ≡ lost → Step w (record w { state = State.connecting; loop = trying })
  attempts : w.loop ≡ trying → w.run_cancelled ≡ false → Step w (record w { loop = dialing })
  is_cancelled : w.loop ≡ trying → w.run_cancelled ≡ true → Step w (gives_up w)
  attempt_fails : w.loop ≡ dialing → Step w (record w { loop = trying })
  exhausts : w.loop ≡ dialing → Step w (gives_up w)
  redials : w.loop ≡ dialing → Step w (connects w)
  -- The context has ended, the client is shutting down, or the connection is closed without an error.
  leaves : w.loop ≡ watching → Step w (record w { loop = ended })
  shuts_down : Step w (shut_down w)
  -- `Shutdown` closes the connection once the handlers have returned.
  closes : w.run_cancelled ≡ true → Step w (record w { open_channels = false })

pub data Reach (w : World) : World → Type 0 where
  here : Reach w w
  next : {u v : World} → Reach w u → Step u v → Reach w v
