-- ===== src/Events/Receipts.antt =====
-- backend/internal/waevents/receipts.go: the receipts of messages, with their retries.
pub mod Acks
use whaticket_community.Prelude.{
  ℕ, ◌<◌, ◌≡◌, Bool, true, false, ◌&&◌, ◌||◌, Option, none, some, List, [], ◌∷◌, ◌++◌, Bytes, bytes,
  ◌==◌, bytes_keyed, if◌then◌else◌, is_nil, ltb, nat_beq, print_uint,
}

abbrev pub ack_delivered : ℕ
ack_delivered = 2

abbrev pub ack_read : ℕ
ack_read = 3

unfoldable pub receipt_state_to_ack : Bytes → Option ℕ
receipt_state_to_ack state =
    if state == bytes "Read" || state == bytes "ReadSelf"
    then some ack_read
    else if state == bytes "Delivered"
    then some ack_delivered
    else none

-- The table of messages, and `BuildAckUpdatePayload`; `none` is an error.
pub record AckTable (S D : Type 0) : Type 0 where
  pub ack_of : Bytes → S → Option ℕ
  pub set_ack : ℕ → Bytes → S → Option (S × ℕ)
  pub ticket_of : Bytes → S → Option ℕ
  pub ack_payload : Bytes → S → Option D
  pub set_ack_lem :
      (ack : ℕ) (id : Bytes) (s : S) {t : S} {rows : ℕ}
      → set_ack ack id s ≡ some (t, rows)
      → 0 < rows
      → ack_of id t ≡ some ack

-- A frame of `appMessage.update` goes to the channel of a ticket.
pub record World (S D : Type 0) : Type 0 where
  pub store : S
  pub frames : List (Bytes × D)

abbrev pub ticket_channel : ℕ → Bytes
ticket_channel id = bytes "ticket:" ++ print_uint id

-- Milliseconds.
abbrev pub ack_retry_backoffs : List ℕ
ack_retry_backoffs = 0 ∷ 100 ∷ 300 ∷ 900 ∷ []

-- `cancelled` says whether the context ends during the wait of that length.
module _ {S D : Type 0} (db : AckTable S D) (cancelled : ℕ → Bool) where
  open db use {set_ack, ticket_of, ack_payload}

  -- The frame for a message whose row was changed.
  unfoldable pub tell_ack : Bytes → World S D → World S D
  tell_ack id w = elim (ticket_of id w.store) [
    | none ↦ w
    | some ticket ↦ if nat_beq ticket 0 then w else elim (ack_payload id w.store) [
      | none ↦ w
      | some payload ↦ record w { frames = w.frames ++ (ticket_channel ticket, payload) ∷ [] }
    ]
  ]

  -- The rest of the loop over `ackRetryBackoffs`; the outcome says whether there was no error.
  unfoldable pub attempts : List ℕ → Bytes → ℕ → World S D → World S D × Bool
  unfolding tell_ack
  attempts [] id ack w = (w, true)
  attempts (backoff ∷ rest) id ack w = elim (ltb 0 backoff && cancelled backoff) [
    | true ↦ (w, false)
    | false ↦ elim (set_ack ack id w.store) [
      | none ↦ attempts rest id ack w
      | some (t, rows) ↦ elim (ltb 0 rows) [
        | true ↦ (tell_ack id (record w { store = t }), true)
        | false ↦ attempts rest id ack (record w { store = t })
      ]
    ]
  ]

  unfoldable pub update_ack_with_retry : Bytes → ℕ → World S D → World S D × Bool
  unfolding attempts
  update_ack_with_retry = attempts ack_retry_backoffs

  -- The loop over the ids, where an error is logged and passed over.
  unfoldable pub update_acks : List Bytes → ℕ → World S D → World S D
  unfolding update_ack_with_retry
  update_acks [] ack w = w
  update_acks (id ∷ ids) ack w =
      update_acks ids ack (if is_nil id then w else (update_ack_with_retry id ack w).0)

  -- The payload is `none` where it does not decode. There is never an error.
  unfoldable pub handle_receipt : Option (List Bytes × Bytes) → World S D → World S D
  unfolding update_acks
  handle_receipt none w = w
  handle_receipt (some (ids, state)) w = elim (receipt_state_to_ack state) [
    | none ↦ w
    | some ack ↦ update_acks ids ack w
  ]
