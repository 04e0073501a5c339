-- ===== src/Rmq/Client/Dials.antt =====
-- The attempts to connect are bounded, and they succeed exactly when one of them does in time.
use whaticket_community.Prelude.{
  ℕ, zero, suc, ◌+◌, ◌≤◌, ◌<◌, ◌≡◌, ◌≢◌, ◌↔◌, ◌⊎◌, refl, inl, inr, false, arith, Bool-cases,
  ℕ-cases, ℤ, pos, negsuc,
}
use whaticket_community.Rmq.Client.{
  RawConfig, positive_or, completed, Dialed, refused, setup_failed, ready, Attempt, up,
  attempts_from, dial_and_setup,
}

positive_or-pos : (fallback : ℕ) (n : ℤ) → 0 < fallback → 0 < positive_or fallback n
unfolding positive_or
positive_or-pos fallback (pos zero) h = h
positive_or-pos fallback (pos (suc n)) h = omega arith
positive_or-pos fallback (negsuc n) h = h

module _ (meets : ℕ → Attempt) where
  -- From `left` rounds there come at most that many dials, and one wait less.
  attempts-bounds :
      (left attempt dials waits : ℕ)
      → 0 < left
      → ((attempts_from meets left attempt dials waits).dials ≤ dials + left)
        × ((attempts_from meets left attempt dials waits).waits < waits + left)
  unfolding attempts_from
  attempts-bounds zero attempt dials waits h = absurd (omega arith)
  attempts-bounds (suc zero) attempt dials waits h = ground arith
  attempts-bounds (suc (suc left)) attempt dials waits h =
      ground (arith, attempts-bounds (suc left) (attempt + 1) (dials + 1) (waits + 1))

  -- An attempt fails and the next one is waited for.
  pub record Fails (attempt : ℕ) : Type 0 where
    pub begun : (meets attempt).ended ≡ false
    pub not_ready : (meets attempt).dialed ≢ ready
    pub waited : (meets attempt).ended_waiting ≡ false

  -- The `k`-th attempt from the one given is the first that does not fail, and it connects.
  pub record Connects (attempt k : ℕ) : Type 0 where
    pub before : (i : ℕ) → i < k → Fails (attempt + i)
    pub begun : (meets (attempt + k)).ended ≡ false
    pub is_ready : (meets (attempt + k)).dialed ≡ ready

  Dialed-cases : (d : Dialed) → (d ≡ ready) ⊎ (d ≢ ready)
  Dialed-cases refused = inr (λ e. cc)
  Dialed-cases setup_failed = inr (λ e. cc)
  Dialed-cases ready = inl refl

  -- A failed attempt that is not the last one leads to the next.
  failed-next :
      (left attempt dials waits : ℕ)
      → Fails attempt
      → attempts_from meets (suc (suc left)) attempt dials waits
        ≡ attempts_from meets (suc left) (attempt + 1) (dials + 1) (waits + 1)
  unfolding attempts_from
  failed-next left attempt dials waits f = ground arith

  first-Connects :
      (attempt : ℕ)
      → (meets attempt).ended ≡ false
      → (meets attempt).dialed ≡ ready
      → Connects attempt 0
  first-Connects attempt e r =
      let here : attempt + 0 ≡ attempt = omega arith in
      record { before = λ i h. absurd (omega arith); begun = rw here e; is_ready = rw here r }

  next-Connects :
      (attempt k : ℕ) → Fails attempt → Connects (attempt + 1) k → Connects attempt (suc k)
  next-Connects attempt k f c =
      let there : attempt + suc k ≡ attempt + 1 + k = omega arith in
      record {
        before = λ i h. elim (ℕ-cases i) [
          | inl z ↦ let here : attempt + i ≡ attempt = omega arith in rw here f
          | inr (j, e) ↦
              let next : attempt + i ≡ attempt + 1 + j = omega arith in
              rw next (c.before j (omega arith))
        ];
        begun = rw there c.begun;
        is_ready = rw there c.is_ready;
      }

  rest-Connects :
      (attempt k : ℕ) → Connects attempt (suc k) → Fails attempt × Connects (attempt + 1) k
  rest-Connects attempt k c =
      let there : attempt + 1 + k ≡ attempt + suc k = omega arith in
      let here : attempt ≡ attempt + 0 = omega arith in
      (
        rw here (c.before 0 (omega arith)),
        record {
          before = λ i h.
              let next : attempt + 1 + i ≡ attempt + suc i = omega arith in
              rw next (c.before (suc i) (omega arith));
          begun = rw there c.begun;
          is_ready = rw there c.is_ready;
        },
      )

  up-Connects :
      (left attempt dials waits : ℕ)
      → (attempts_from meets left attempt dials waits).verdict ≡ up
      → (k : ℕ) × (k < left) × Connects attempt k
  unfolding attempts_from
  up-Connects zero attempt dials waits h = absurd (ground (arith, h))
  up-Connects (suc left) attempt dials waits h = elim (Bool-cases (meets attempt).ended) [
    | inl e ↦ absurd (ground (arith, h, e))
    | inr e ↦ elim (Dialed-cases (meets attempt).dialed) [
      | inl r ↦ (0, omega arith, first-Connects attempt e r)
      | inr r ↦ elim (ℕ-cases left) [
        | inl z ↦ absurd (ground (arith, h, e, r, z))
        | inr (rounds, z) ↦ elim (Bool-cases (meets attempt).ended_waiting) [
          | inl w ↦ absurd (ground (arith, h, e, r, z, w))
          | inr w ↦
              let (k, b, c) =
                up-Connects left (attempt + 1) (dials + 1) (waits + 1)
                  (ground (arith, h, e, r, z, w)) in
              (
                suc k,
                omega arith,
                next-Connects attempt k (record { begun = e; not_ready = r; waited = w }) c,
              )
        ]
      ]
    ]
  ]

  Connects-up :
      (k left attempt dials waits : ℕ)
      → k < left
      → Connects attempt k
      → (attempts_from meets left attempt dials waits).verdict ≡ up
  Connects-up k zero attempt dials waits h c = absurd (omega arith)
  Connects-up zero (suc left) attempt dials waits h c =
      let here : attempt ≡ attempt + 0 = omega arith in
      let begun : (meets attempt).ended ≡ false = rw here c.begun in
      let is_ready : (meets attempt).dialed ≡ ready = rw here c.is_ready in
      unfold attempts_from in ground arith
  Connects-up (suc k) (suc zero) attempt dials waits h c = absurd (omega arith)
  Connects-up (suc k) (suc (suc left)) attempt dials waits h c =
      let (f, rest) = rest-Connects attempt k c in
      rw (failed-next left attempt dials waits f)
        (Connects-up k (suc left) (attempt + 1) (dials + 1) (waits + 1) (omega arith) rest)

  -- Whatever the broker does, `dialAndSetup` ends after as many calls of `Dial` as the completed
  -- configuration says at most, and it waits for its backoff fewer times than that. It succeeds
  -- exactly when one of these attempts gets a connection with its channels, all attempts before it
  -- having failed, before the context ends.
  pub dial_and_setup-bounds :
      (raw : RawConfig)
      → ((dial_and_setup meets (completed raw)).dials ≤ (completed raw).reconnect_attempts)
        × ((dial_and_setup meets (completed raw)).waits < (completed raw).reconnect_attempts)
        × (((dial_and_setup meets (completed raw)).verdict ≡ up)
            ↔ ((k : ℕ) × (k < (completed raw).reconnect_attempts) × Connects 1 k))
  unfolding dial_and_setup
  dial_and_setup-bounds raw =
      let cfg = completed raw in
      let (d, w) =
        attempts-bounds cfg.reconnect_attempts 1 0 0
          (unfold completed in positive_or-pos 10 raw.reconnect_attempts (omega arith)) in
      (
        omega (arith, d),
        omega (arith, w),
        (
          λ h. up-Connects cfg.reconnect_attempts 1 0 0 h,
          λ c. Connects-up c.0 cfg.reconnect_attempts 1 0 0 c.1 c.2,
        ),
      )
