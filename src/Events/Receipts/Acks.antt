-- ===== src/Events/Receipts/Acks.antt =====
-- What a receipt writes and tells.
use whaticket_community.Prelude.{
  ℕ, ◌≡◌, ◌≢◌, inl, inr, Bool, true, false, ◌&&◌, some, List, [], ◌∷◌, ◌++◌, arith, Bytes, ltb,
  nat_beq, Option-cases, Bool-cases,
}
use whaticket_community.Events.Receipts.{
  AckTable, World, ticket_channel, ack_retry_backoffs, tell_ack, attempts, update_ack_with_retry,
}

module _ {S D : Type 0} (db : AckTable S D) (cancelled : ℕ → Bool) (id : Bytes) (ack : ℕ) where
  open db use {ack_of, set_ack, set_ack_lem, ticket_of, ack_payload}

  -- The ways in which the update of a message's ack ends.
  pub data Acked (w : World S D) : World S D × Bool → Type 0 where
    not_found : (s : S) (fine : Bool) → Acked w (record w { store = s }, fine)
    quiet : (s : S) → ack_of id s ≡ some ack → Acked w (record w { store = s }, true)
    told :
        (s : S) (ticket : ℕ) (payload : D)
        → ack_of id s ≡ some ack
        → ticket_of id s ≡ some ticket
        → ticket ≢ 0
        → ack_payload id s ≡ some payload
        → Acked w
            (record { store = s; frames = w.frames ++ (ticket_channel ticket, payload) ∷ [] }, true)

  tell-Acked :
      (w : World S D) (s : S)
      → ack_of id s ≡ some ack
      → Acked w (tell_ack db cancelled id (record w { store = s }), true)
  unfolding tell_ack
  tell-Acked w s h = elim (Option-cases (ticket_of id s)) [
    | inl n ↦ rw (tell_ack, n) (quiet s h)
    | inr (ticket, k) ↦ elim (Bool-cases (nat_beq ticket 0)) [
      | inl z ↦ rw (tell_ack, k, z) (quiet s h)
      | inr z ↦ elim (Option-cases (ack_payload id s)) [
        | inl n ↦ rw (tell_ack, k, z, n) (quiet s h)
        | inr (payload, p) ↦
            rw (tell_ack, k, z, p) (told s ticket payload h k (λ e. ground arith) p)
      ]
    ]
  ]

  attempts-Acked :
      (backoffs : List ℕ) (w : World S D) (s : S)
      → Acked w (attempts db cancelled backoffs id ack (record w { store = s }))
  unfolding attempts
  attempts-Acked [] w s = not_found s true
  attempts-Acked (backoff ∷ rest) w s = elim (Bool-cases (ltb 0 backoff && cancelled backoff)) [
    | inl y ↦ rw (attempts, y) (not_found s false)
    | inr n ↦ elim (Option-cases (set_ack ack id s)) [
      | inl e ↦ rw (attempts, n, e) (attempts-Acked rest w s)
      | inr ((t, rows), e) ↦ elim (Bool-cases (ltb 0 rows)) [
        | inl y ↦ rw (attempts, n, e, y) (tell-Acked w t (set_ack_lem ack id s e (ground arith)))
        | inr z ↦ rw (attempts, n, e, z) (attempts-Acked rest w t)
      ]
    ]
  ]

  -- Over its four attempts the update of a message's ack tells of it once at most, on the channel of
  -- the message's ticket, and only when the message has the new ack.
  pub update_ack_with_retry-Acked :
      (w : World S D) → Acked w (update_ack_with_retry db cancelled id ack w)
  unfolding update_ack_with_retry
  update_ack_with_retry-Acked w = attempts-Acked ack_retry_backoffs w w.store
