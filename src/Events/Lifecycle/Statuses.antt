-- ===== src/Events/Lifecycle/Statuses.antt =====
-- The status of a connection after each event.
use whaticket_community.Prelude.{
  ◌<◌, ◌^◌, Option, ℕ, ◌≡◌, ◌≢◌, ◌⊎◌, inl, inr, Bool, true, false, some, [], ◌∷◌, ◌++◌, arith, none,
  contains, has_prefix, bytes, Bytes, Option-cases, Bool-cases, bytes_keyed, refl,
}
use whaticket_community.Events.Connections.{
  Connections, DbError, other, Row, Found, row, no_row, record_not_found, new_error, wrap_error,
  error_text, get_row, to_status, to_connected, to_retry, to_disconnected, status_qrcode,
  status_disconnected,
}
use whaticket_community.Events.Types.{event_type, parse_event_type-event_type}
use whaticket_community.Events.Lifecycle.{
  dispatch, event_of, World, whatsapp_update, session_update, logout, Event, qr_code, qr_timeout,
  connected, logged_out, stream_replaced, temporary_ban, connect_failure, session_restored,
  emit_session_update, write_and_emit, handle_session_restored, handle_event, is_whatsapp_not_found,
}

module _ {S : Type 0} (db : Connections S) where
  -- A session that the worker restores for a connection that was deleted is an error, after which
  -- the event comes again, and no logout is sent: `Get` makes a new error of `ErrRecordNotFound`,
  -- which the test of `handleSessionRestored` does not find in it.
  pub session_restored-requeues :
      (id : ℕ) (w : World S)
      → db.first id w.store ≡ no_row record_not_found
      → handle_event db id session_restored w ≡ (w, false)
  unfolding handle_event handle_session_restored get_row
  session_restored-requeues id w e = ground (arith, e)

  -- The ways in which an event that writes `f` to the row of a connection ends.
  pub data Changed (f : Row → Row) (id : ℕ) (w : World S) : World S × Bool → Type 0 where
    not_written : db.update id f w.store ≡ none → Changed f id w (w, false)
    not_reloaded :
        (s : S) (text : Bytes)
        → db.update id f w.store ≡ some s
        → db.first id s ≡ no_row (other text)
        → is_whatsapp_not_found (wrap_error (other text) (bytes "ERR_DB_QUERY")) ≡ false
        → Changed f id w (record w { store = s }, false)
    taken_for_gone :
        (s : S) (text : Bytes)
        → db.update id f w.store ≡ some s
        → db.first id s ≡ no_row (other text)
        → is_whatsapp_not_found (wrap_error (other text) (bytes "ERR_DB_QUERY")) ≡ true
        → Changed f id w (record { store = s; said = w.said ++ logout id ∷ [] }, true)
    gone :
        (s : S)
        → db.update id f w.store ≡ some s
        → db.first id s ≡ no_row record_not_found
        → Changed f id w (record { store = s; said = w.said ++ logout id ∷ [] }, true)
    told :
        (s : S) (r : Row)
        → db.find id w.store ≡ some r
        → db.find id s ≡ some (f r)
        → ((j : ℕ) → id ≢ j → db.find j s ≡ db.find j w.store)
        → Changed f id w (
          record {
            store = s;
            said = w.said ++ whatsapp_update id (f r) ∷ session_update id (f r) ∷ [];
          },
          true,
        )

  row_before :
      (id : ℕ) (f : Row → Row) (s t : S) (r : Row)
      → db.update id f s ≡ some t
      → db.find id t ≡ some r
      → (q : Row) × (db.find id s ≡ some q) × (f q ≡ r)
  row_before id f s t r u h = elim (Option-cases (db.find id s)) [
    | inl n ↦ absurd (ground (arith, db.update_none id f s u n, h))
    | inr (q, e) ↦ (q, e, ground (arith, db.update_lem id f s u e, h))
  ]

  found_cases : (o : Found) → ((r : Row) × (o ≡ row r)) ⊎ ((e : DbError) × (o ≡ no_row e))
  found_cases (row r) = inl (r, refl)
  found_cases (no_row e) = inr (e, refl)

  names_not_found : is_whatsapp_not_found (new_error (bytes "ERR_WAPP_NOT_FOUND")) ≡ true
  unfolding contains has_prefix error_text
  names_not_found = refl

  -- What a row that is not there makes of the reload.
  unread-Changed :
      (id : ℕ) (f : Row → Row) (w : World S) (s : S)
      → db.update id f w.store ≡ some s
      → (e : DbError) → db.first id s ≡ no_row e
      → Changed f id w (emit_session_update db id (record w { store = s }))
  unfolding emit_session_update get_row
  unread-Changed id f w s u record_not_found h =
      rw (emit_session_update, get_row, h, names_not_found) (gone s u h)
  unread-Changed id f w s u (other text) h =
      elim (Bool-cases (is_whatsapp_not_found (wrap_error (other text) (bytes "ERR_DB_QUERY")))) [
        | inl y ↦ rw (emit_session_update, get_row, h, y) (taken_for_gone s text u h y)
        | inr n ↦ rw (emit_session_update, get_row, h, n) (not_reloaded s text u h n)
      ]

  write-Changed : (id : ℕ) (f : Row → Row) (w : World S) → Changed f id w (write_and_emit db id f w)
  unfolding write_and_emit emit_session_update get_row
  write-Changed id f w = elim (Option-cases (db.update id f w.store)) [
    | inl n ↦ rw (write_and_emit, n) (not_written n)
    | inr (s, u) ↦ elim (found_cases (db.first id s)) [
      | inl (r, k) ↦
          let (q, before, same) = row_before id f w.store s r u (db.first-row id s k) in
          rw (write_and_emit, u, emit_session_update, get_row, k, ← same)
            (told s q before (db.update_lem id f w.store u before)
              (λ j n. db.update_others id f w.store j u n))
      | inr (e, k) ↦ rw (write_and_emit, u) (unread-Changed id f w s u e k)
    ]
  ]

  -- What each event writes.
  pub data Writes : Event → (Row → Row) → Type 0 where
    scanned : (code : Bytes) → Writes (qr_code (some code)) (to_status status_qrcode code)
    timed_out : Writes qr_timeout (to_status status_disconnected [])
    connects : Writes connected to_connected
    logs_out : Writes logged_out to_disconnected
    replaced : Writes stream_replaced to_retry
    banned : Writes temporary_ban to_retry
    fails : Writes connect_failure to_retry

  -- An event that changes the status of a connection ends in one of these ways. The row gets the
  -- columns of that event, every other connection is left, and the row as it is now is told of in
  -- two frames. Or the update fails, and nothing is written. Or, after the update, the row is found
  -- missing, and the worker is told to log out; or the database answers another error, and the
  -- event ends in an error, unless the text of that error names ERR_WAPP_NOT_FOUND, when the row is
  -- taken for missing.
  pub handle_event-Changed :
      (id : ℕ) (e : Event) (f : Row → Row) (w : World S)
      → Writes e f
      → Changed f id w (handle_event db id e w)
  unfolding handle_event
  handle_event-Changed id _ f w (scanned code) = write-Changed id f w
  handle_event-Changed id _ f w timed_out = write-Changed id f w
  handle_event-Changed id _ f w connects = write-Changed id f w
  handle_event-Changed id _ f w logs_out = write-Changed id f w
  handle_event-Changed id _ f w replaced = write-Changed id f w
  handle_event-Changed id _ f w banned = write-Changed id f w
  handle_event-Changed id _ f w fails = write-Changed id f w

-- An event that the worker publishes reaches the connection that it is published for and the handler of
-- its name, where the name is not empty and the id fits 64 bits.
pub dispatch-event_type :
    {S : Type 0} (db : Connections S) (id : ℕ) (name : Bytes) (code : Option Bytes) (w : World S)
    → id < 2 ^ 64
    → name ≢ []
    → dispatch db (event_type id name) code w ≡ handle_event db id (event_of name code) w
unfolding dispatch
dispatch-event_type db id name code w h n =
    rw (dispatch, parse_event_type-event_type id name h n) refl
