-- ===== src/Connection/Lookup.antt =====
-- `GetDefault` and `GetDefaultByUser` of backend/internal/whatsapp/service.go, and `StartAllSessions` of
-- bootstrap.go. Their statements are arguments beside the tables.
use whaticket_community.Prelude.{
  ℕ, ◌≡◌, ◌∙◌, ap, inl, inr, refl, Bool, Option, none, some, List, [], ◌∷◌, ◌++◌, bytes,
  if◌then◌else◌, ltb,
}
use mathlib.Core.List.{append-nil, append_assoc}
use whaticket_community.Platform.{
  Result, ok, err, Result-cases, DbError, AppError, new_error, wrap_error, is_not_found,
}
use whaticket_community.Connection.Model.{Connection}
use whaticket_community.Connection.Store.{Store}
use whaticket_community.Connection.Service.{World, Command, start_session, send, load_by_id}

-- `not_disconnected` lists the connections with another status than `DISCONNECTED`, by their ids;
-- `connection_of` is the column `whatsapp_id` of a user.
pub record Queries (S : Type 0) : Type 0 where
  pub first_default : S → Result DbError Connection
  pub connection_of : ℕ → S → Result DbError (Option ℕ)
  pub not_disconnected : S → Result DbError (List Connection)
  pub clear_qrcode : ℕ → S → Result DbError S

abbrev pub query_error : DbError → AppError
query_error e = wrap_error e (bytes "ERR_DB_QUERY") 500

module _ {S : Type 0} (tables : Store S) (queries : Queries S) (ws : Bool) where
  unfoldable pub get_default : S → Result AppError Connection
  get_default s = elim (queries.first_default s) [
    | ok c ↦ ok c
    | err e ↦
        if is_not_found e
        then err (new_error (bytes "ERR_NO_DEFAULT_WHATSAPP") 404)
        else err (query_error e)
  ]

  abbrev pub assigned_or_default : Option ℕ → S → Result AppError Connection
  assigned_or_default none s = get_default s
  assigned_or_default (some id) s = if ltb 0 id then load_by_id tables ws id s else get_default s

  unfoldable pub get_default_by_user : ℕ → S → Result AppError Connection
  unfolding get_default
  get_default_by_user user s = elim (queries.connection_of user s) [
    | ok id ↦ assigned_or_default id s
    | err e ↦ if is_not_found e then get_default s else err (query_error e)
  ]

  -- A connection whose QR code cannot be cleared is passed over.
  unfoldable pub start_sessions : List Connection → World S → World S
  start_sessions [] w = w
  start_sessions (c ∷ sessions) w = elim (queries.clear_qrcode c.id w.store) [
    | err e ↦ start_sessions sessions w
    | ok t ↦ start_sessions sessions (send (start_session c.id c.settings) (record w { store = t }))
  ]

  -- `StartAllSessions`
  unfoldable pub start_all_sessions : World S → Option AppError × World S
  unfolding start_sessions
  start_all_sessions w = elim (queries.not_disconnected w.store) [
    | err e ↦ (some (query_error e), w)
    | ok sessions ↦ (none, start_sessions sessions w)
  ]

  -- The commands that a list of connections leads to, in its order: one for each connection whose QR
  -- code was cleared in the table that the ones before it left.
  pub data Starts : List Connection → S → List Command → S → Type 0 where
    all_started : (s : S) → Starts [] s [] s
    passed_over :
        (c : Connection) (cs : List Connection) (s : S) (e : DbError) (commands : List Command)
        (t : S)
        → queries.clear_qrcode c.id s ≡ err e
        → Starts cs s commands t
        → Starts (c ∷ cs) s commands t
    starts :
        (c : Connection) (cs : List Connection) (s u : S) (commands : List Command) (t : S)
        → queries.clear_qrcode c.id s ≡ ok u
        → Starts cs u commands t
        → Starts (c ∷ cs) s (start_session c.id c.settings ∷ commands) t

  -- An error of one connection does not keep the others from being started.
  pub start_sessions-Starts :
      (cs : List Connection) (w : World S)
      → (commands : List Command) × (t : S) × Starts cs w.store commands t
        × (start_sessions cs w ≡ record w { store = t; commands = w.commands ++ commands })
  unfolding start_sessions
  start_sessions-Starts [] w = ([], w.store, all_started w.store, rw (append-nil w.commands) refl)
  start_sessions-Starts (c ∷ cs) w = elim (Result-cases (queries.clear_qrcode c.id w.store)) [
    | inr (e, x) ↦
        let (commands, t, is, same) = start_sessions-Starts cs w in
        (commands, t, passed_over c cs w.store e commands t x is, rw (x, start_sessions) same)
    | inl (u, x) ↦
        let next : World S = send (start_session c.id c.settings) (record w { store = u }) in
        let (commands, t, is, same) = start_sessions-Starts cs next in
        (
          start_session c.id c.settings ∷ commands,
          t,
          starts c cs w.store u commands t x is,
          rw (x, start_sessions)
              (same
                ∙ ap (λ (l : List Command). record w { store = t; commands = l })
                    (append_assoc w.commands (start_session c.id c.settings ∷ []) commands)),
        )
  ]
