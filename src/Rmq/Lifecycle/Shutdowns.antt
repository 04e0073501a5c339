-- ===== src/Rmq/Lifecycle/Shutdowns.antt =====
-- When a shutdown is final, and that it is not when it meets an attempt to reconnect.
use whaticket_community.Prelude.{◌≡◌, ◌≢◌, ◌↔◌, refl, true, false, arith}
use whaticket_community.Rmq.Client.{State}
use whaticket_community.Rmq.Lifecycle.{
  Loop, absent, starting, watching, noticed, lost, trying, dialing, ended, World, new_client,
  shut_down, connects, gives_up, Step, starts, start_fails, start_connects, notices, loses,
  reconnects, attempts, is_cancelled, attempt_fails, exhausts, redials, leaves, shuts_down, closes,
  Reach, here, next,
}

-- No attempt to connect is under way.
pub data Calm : Loop → Type 0 where
  not_started : Calm absent
  is_watching : Calm watching
  has_ended : Calm ended

abbrev Down : World → Type 0
Down w = (w.state ≡ State.shutting_down) × Calm w.loop

not-Calm :
    {l : Loop} → Calm l → (l ≢ starting) × (l ≢ noticed) × (l ≢ lost) × (l ≢ trying) × (l ≢ dialing)
not-Calm not_started = (λ e. cc, λ e. cc, λ e. cc, λ e. cc, λ e. cc)
not-Calm is_watching = (λ e. cc, λ e. cc, λ e. cc, λ e. cc, λ e. cc)
not-Calm has_ended = (λ e. cc, λ e. cc, λ e. cc, λ e. cc, λ e. cc)

Step-Down : {w v : World} → Step w v → Down w → Down v
Step-Down (starts s l) (d, c) = absurd (ground (arith, s, d))
Step-Down (start_fails l) (d, c) = absurd ((not-Calm c).0 l)
Step-Down (start_connects l) (d, c) = absurd ((not-Calm c).0 l)
Step-Down (notices l n) (d, c) = absurd (n d)
Step-Down (loses l) (d, c) = absurd ((not-Calm c).1 l)
Step-Down (reconnects l) (d, c) = absurd ((not-Calm c).2 l)
Step-Down (attempts l n) (d, c) = absurd ((not-Calm c).3 l)
Step-Down (is_cancelled l n) (d, c) = absurd ((not-Calm c).3 l)
Step-Down (attempt_fails l) (d, c) = absurd ((not-Calm c).4 l)
Step-Down (exhausts l) (d, c) = absurd ((not-Calm c).4 l)
Step-Down (redials l) (d, c) = absurd ((not-Calm c).4 l)
Step-Down (leaves l) (d, c) = (d, has_ended)
Step-Down shuts_down (d, c) = unfold shut_down in (refl, c)
Step-Down (closes r) (d, c) = (d, c)

Reach-Down : {w v : World} → Reach w v → Down w → Down v
Reach-Down here d = d
Reach-Down (next r s) d = Step-Down s (Reach-Down r d)

-- What follows a shutdown that meets `Start` or `reconnectLoop` on its way to a connection.
final-Calm :
    (w : World) (l : Loop)
    → w.loop ≡ l
    → ((v : World) → Reach (shut_down w) v → v.state ≡ State.shutting_down)
    → Calm l
unfolding shut_down connects gives_up
final-Calm w absent e h = not_started
final-Calm w watching e h = is_watching
final-Calm w ended e h = has_ended
final-Calm w starting e h = absurd (ground (arith, h _ (next here (start_fails e))))
final-Calm w noticed e h = absurd (ground (arith, h _ (next here (loses e))))
final-Calm w lost e h = absurd (ground (arith, h _ (next here (reconnects e))))
final-Calm w trying e h = absurd (ground (arith, h _ (next here (is_cancelled e refl))))
final-Calm w dialing e h = absurd (ground (arith, h _ (next here (redials e))))

-- A shutdown is final exactly where it meets no attempt to connect: where `Start` was not called or
-- has ended, or `reconnectLoop` watches the connection or has ended, the client stays in the state of
-- shutting down whatever steps follow; and where `Start` or `reconnectLoop` is on its way to a
-- connection, some step takes the client out of that state.
pub shut_down-final :
    (w : World)
    → ((v : World) → Reach (shut_down w) v → v.state ≡ State.shutting_down) ↔ Calm w.loop
unfolding shut_down
shut_down-final w = (final-Calm w w.loop refl, λ c v r. (Reach-Down r (refl, c)).0)

-- While the client is not being shut down, it is connected only with open channels.
abbrev Good : World → Type 0
Good w = (w.state ≡ State.connected) → (w.run_cancelled ≡ false) → w.open_channels ≡ true

Step-Good : {w v : World} → Step w v → Good w → Good v
Step-Good (starts s l) g = λ c r. absurd (ground (arith, c))
Step-Good (start_fails l) g = unfold gives_up in λ c r. absurd (ground (arith, c))
Step-Good (start_connects l) g = unfold connects in λ c r. refl
Step-Good (notices l n) g = g
Step-Good (loses l) g = λ c r. absurd (ground (arith, c))
Step-Good (reconnects l) g = λ c r. absurd (ground (arith, c))
Step-Good (attempts l n) g = g
Step-Good (is_cancelled l n) g = unfold gives_up in λ c r. absurd (ground (arith, c))
Step-Good (attempt_fails l) g = g
Step-Good (exhausts l) g = unfold gives_up in λ c r. absurd (ground (arith, c))
Step-Good (redials l) g = unfold connects in λ c r. refl
Step-Good (leaves l) g = g
Step-Good shuts_down g = unfold shut_down in λ c r. absurd (ground (arith, c))
Step-Good (closes x) g = λ c r. absurd (ground (arith, x, r))

Reach-Good : {w v : World} → Reach w v → Good w → Good v
Reach-Good here g = g
Reach-Good (next r s) g = Step-Good s (Reach-Good r g)

-- In every state that a new client reaches: while it is not being shut down, it is connected only
-- with open channels.
pub new_client-open :
    (v : World)
    → Reach new_client v
    → v.state ≡ State.connected
    → v.run_cancelled ≡ false
    → v.open_channels ≡ true
new_client-open v r c n = Reach-Good r (λ c n. absurd (ground (arith, c))) c n
