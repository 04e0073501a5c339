-- ===== src/Ws/Server/Steps.antt =====
-- backend/internal/ws/handler.go, client.go and hub.go: what the goroutines of the server do between
-- two locks, channel operations or questions to the database, one step each. `Publish` and `Shutdown`
-- offer a payload to one client of their snapshot at a time, whoever has come or gone since.
use whaticket_community.Prelude.{
  ℕ, suc, ◌≡◌, Bool, true, false, Option, Bytes, if◌then◌else◌, nat_beq,
}
use whaticket_community.Ws.Authz.{TicketAuthorizer, authorize_subscribe}
use whaticket_community.Ws.Hub.{register_client, subscribe, unsubscribe}
use whaticket_community.Ws.Server.{
  Server, Frame, welcome, event_connected, new_client, new_server, signal_close, offer,
  offer_quietly, update, close, take_payload, send_error, send_system,
}

-- Where the goroutine of `Handle` stands for a client: before `newClient`; before `registerClient`;
-- in `readPump`'s loop; between the authorisation of a channel and the subscription; after `close`.
pub data Phase : Type 0 where
  unmade made reading ended : Phase
  subscribing : Bytes → Phase

unfoldable pub is_past : Phase → Bool
is_past unmade = false
is_past made = false
is_past reading = true
is_past ended = true
is_past (subscribing channel) = true

-- `now` counts the changes of the tables that the authorizer asks.
pub record World (P : Type 0) : Type 0 where
  pub server : Server P
  pub phase : ℕ → Phase
  pub now : ℕ

unfoldable pub new_world : {P : Type 0} → World P
unfolding new_server
new_world = record { server = new_server; phase = λ c. unmade; now = 0 }

unfoldable pub move : ℕ → Phase → (ℕ → Phase) → ℕ → Phase
move c p phase d = if nat_beq c d then p else phase d

-- `authz` is the authorizer as it answers at each time, and `skips` the choice of the selects.
module _ {D P : Type 0} (marshal : Frame D → Option P) (cap : ℕ)
    (authz : ℕ → Option TicketAuthorizer) where
  pub data Step (w : World P) : World P → Type 0 where
    makes :
        (c user : ℕ) (profile : Bytes)
        → w.phase c ≡ unmade
        → Step w (record w {
          server = record w.server {
            object = update c (λ o. new_client user profile) w.server.object;
          };
          phase = move c made w.phase;
        })
    registers :
        (c : ℕ)
        → w.phase c ≡ made
        → Step w (record w {
          server = record w.server { hub = register_client c w.server.hub };
          phase = move c reading w.phase;
        })
    welcomes :
        (skips : ℕ → Bool) (c user : ℕ) (profile : Bytes)
        → Step w (record w {
          server = send_system marshal cap skips c event_connected (welcome user profile) w.server;
        })
    allows :
        (c : ℕ) (channel : Bytes)
        → w.phase c ≡ reading
        → (authorize_subscribe
            (authz w.now)
            (w.server.object c).user_id
            (w.server.object c).profile
            channel).allowed
          ≡ true
        → Step w (record w { phase = move c (subscribing channel) w.phase })
    denies :
        (skips : ℕ → Bool) (c : ℕ) (channel : Bytes)
        → w.phase c ≡ reading
        → (authorize_subscribe
            (authz w.now)
            (w.server.object c).user_id
            (w.server.object c).profile
            channel).allowed
          ≡ false
        → Step w (record w {
          server =
              send_error marshal cap skips c channel
                (authorize_subscribe
                  (authz w.now)
                  (w.server.object c).user_id
                  (w.server.object c).profile
                  channel).code
                w.server;
        })
    subscribes :
        (c : ℕ) (channel : Bytes)
        → w.phase c ≡ subscribing channel
        → Step w (record w {
          server = record w.server { hub = subscribe c channel w.server.hub };
          phase = move c reading w.phase;
        })
    unsubscribes :
        (c : ℕ) (channel : Bytes)
        → w.phase c ≡ reading
        → Step w
            (record w { server = record w.server { hub = unsubscribe c channel w.server.hub } })
    offers :
        (skips : Bool) (c : ℕ) (p : P)
        → Step w (record w {
          server = record w.server { object = update c (offer skips cap p) w.server.object };
        })
    offers_quietly :
        (skips : Bool) (c : ℕ) (p : P)
        → Step w (record w {
          server = record w.server {
            object = update c (offer_quietly skips cap p) w.server.object;
          };
        })
    writes : (c : ℕ) → Step w (record w { server = take_payload c w.server })
    signals :
        (c : ℕ)
        → Step w (record w {
          server = record w.server { object = update c signal_close w.server.object };
        })
    closes :
        (c : ℕ)
        → is_past (w.phase c) ≡ true
        → Step w (record w { server = close c w.server; phase = move c ended w.phase })
    shuts_down : Step w (record w {
      server = record w.server { hub = record w.server.hub { shutting_down = true } };
    })
    later : Step w (record w { now = suc w.now })

  pub data Reach (w : World P) : World P → Type 0 where
    here : Reach w w
    next : {u v : World P} → Reach w u → Step u v → Reach w v
