-- ===== src/Events/Lifecycle.antt =====
-- backend/internal/waevents/lifecycle.go and `dispatch` of consumer.go, without messages and receipts.
pub mod Statuses
use whaticket_community.Prelude.{
  ℕ, ◌≡◌, Bool, true, false, ◌||◌, Option, none, some, List, [], ◌∷◌, ◌++◌, Bytes, bytes, ◌==◌,
  bytes_keyed, if◌then◌else◌, contains,
}
use whaticket_community.Events.Types.{parse_event_type}
use whaticket_community.Events.Connections.{
  Connections, Row, Outcome, ok, err, AppError, error_text, is_record_not_found, get_row, to_status,
  to_connected, to_retry, to_disconnected, status_qrcode, status_opening, status_disconnected,
}

-- What is published: the two frames on a connection, the code of a pairing, and the commands to the
-- worker; a command that cannot be published is logged and passed over.
pub data Said : Type 0 where
  whatsapp_update session_update : ℕ → Row → Said
  pairphone : ℕ → Bytes → Said
  logout stop_session : ℕ → Said

pub record World (S : Type 0) : Type 0 where
  pub store : S
  pub said : List Said

-- A code is `none` where the payload does not decode.
pub data Event : Type 0 where
  qr_code pairphone_code : Option Bytes → Event
  qr_timeout connected logged_out stream_replaced temporary_ban connect_failure : Event
  session_restored : Event
  ignored : Event

-- The cases of `switch eventName` that end here; `code` is the decoded payload.
unfoldable pub event_of : Bytes → Option Bytes → Event
event_of name code =
    if name == bytes "qr.code"
    then qr_code code
    else if name == bytes "qr.timeout"
    then qr_timeout
    else if name == bytes "pairphone.code"
    then pairphone_code code
    else if name == bytes "Connected" || name == bytes "PushNameSetting"
    then connected
    else if name == bytes "LoggedOut"
    then logged_out
    else if name == bytes "StreamReplaced"
    then stream_replaced
    else if name == bytes "TemporaryBan"
    then temporary_ban
    else if name == bytes "ConnectFailure"
    then connect_failure
    else if name == bytes "SessionRestored"
    then session_restored
    else ignored

abbrev pub is_whatsapp_not_found : AppError → Bool
is_whatsapp_not_found e = contains (error_text e) (bytes "ERR_WAPP_NOT_FOUND")

module _ {S : Type 0} (db : Connections S) where
  -- The outcome is the state, and whether there was no error.
  unfoldable pub emit_session_update : ℕ → World S → World S × Bool
  unfolding get_row
  emit_session_update id w = elim (get_row db id w.store) [
    | ok r ↦ (record w { said = w.said ++ whatsapp_update id r ∷ session_update id r ∷ [] }, true)
    | err e ↦
        if is_whatsapp_not_found e
        then (record w { said = w.said ++ logout id ∷ [] }, true)
        else (w, false)
  ]

  -- One update of the row, then the frames.
  unfoldable pub write_and_emit : ℕ → (Row → Row) → World S → World S × Bool
  unfolding emit_session_update
  write_and_emit id f w = elim (db.update id f w.store) [
    | none ↦ (w, false)
    | some s ↦ emit_session_update id (record w { store = s })
  ]

  unfoldable pub handle_session_restored : ℕ → World S → World S × Bool
  unfolding get_row write_and_emit
  handle_session_restored id w = elim (get_row db id w.store) [
    | err e ↦
        if is_record_not_found e.wrapped
        then (record w { said = w.said ++ logout id ∷ [] }, true)
        else (w, false)
    | ok r ↦
        if r.status == status_disconnected
        then (record w { said = w.said ++ stop_session id ∷ [] }, true)
        else write_and_emit id (to_status status_opening []) w
  ]

  unfoldable pub handle_event : ℕ → Event → World S → World S × Bool
  unfolding write_and_emit handle_session_restored
  handle_event id (qr_code none) w = (w, true)
  handle_event id (qr_code (some code)) w = write_and_emit id (to_status status_qrcode code) w
  handle_event id qr_timeout w = write_and_emit id (to_status status_disconnected []) w
  handle_event id (pairphone_code none) w = (w, true)
  handle_event id (pairphone_code (some code)) w =
      (record w { said = w.said ++ pairphone id code ∷ [] }, true)
  handle_event id connected w = write_and_emit id to_connected w
  handle_event id logged_out w = write_and_emit id to_disconnected w
  handle_event id stream_replaced w = write_and_emit id to_retry w
  handle_event id temporary_ban w = write_and_emit id to_retry w
  handle_event id connect_failure w = write_and_emit id to_retry w
  handle_event id session_restored w = handle_session_restored id w
  handle_event id ignored w = (w, true)

  -- `dispatch` of an envelope with that type; the events `Message` and `Receipt` are left to their
  -- handlers.
  unfoldable pub dispatch : Bytes → Option Bytes → World S → World S × Bool
  unfolding handle_event
  dispatch type code w = elim (parse_event_type type) [
    | none ↦ (w, true)
    | some (id, name) ↦ handle_event id (event_of name code) w
  ]
