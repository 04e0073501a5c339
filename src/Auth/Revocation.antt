-- ===== src/Auth/Revocation.antt =====
-- How long the tokens of a session serve, and what ends them early.
use whaticket_community.Prelude.{
  ℕ, ◌+◌, ◌≡◌, ◌≢◌, ◌<◌, ◌∙◌, ap, sym, inl, inr, refl, true, none, some, [], ◌∷◌, ◌++◌, arith,
  Bytes, bytes, nat_beq, nat_beq_iff, bytes_beq, Bool-cases, Option-cases,
}
use whaticket_community.Platform.{ok, Result-cases}
use whaticket_community.User.Model.{User}
use whaticket_community.User.Store.{Store, Bcrypt}
use whaticket_community.Auth.Tokens.{
  Library, Secrets, refresh_claims, access_claims, create_access_token, create_refresh_token,
  parse_refresh_token, parse_access_token, access_token_ttl, refresh_token_ttl,
}
use whaticket_community.Auth.Sessions.{
  UserRecord, Session, to_auth_record, summary, find_by_id, find_by_email, token_pair, login,
  refresh_claimed, refresh,
}
use whaticket_community.Auth.Middleware.{bearer, is_auth}

module _ {S : Type 0} (tables : Store S) (crypt : Bcrypt) (lib : Library) (secrets : Secrets) where
  -- A token pair is of the claims of the user, at the time that it is made.
  token_pair-signed :
      (now : ℕ) (u : UserRecord) {access token : Bytes} {v : UserRecord}
      → token_pair tables crypt lib secrets now u ≡ ok (access, token, v)
      → (v ≡ u)
        × (lib.access.signed_string secrets.access_secret (access_claims now (summary u))
            ≡ some access)
        × (lib.refresh.signed_string secrets.refresh_secret
              (refresh_claims now u.id u.token_version)
            ≡ some token)
  unfolding token_pair create_access_token create_refresh_token
  token_pair-signed now u {access} {token} {v} h =
      let first = lib.access.signed_string secrets.access_secret (access_claims now (summary u)) in
      let second =
        lib.refresh.signed_string secrets.refresh_secret
          (refresh_claims now u.id u.token_version) in
      elim (Option-cases first) [
        | inl x ↦ absurd (ground (arith, x, h))
        | inr (a, x) ↦ elim (Option-cases second) [
          | inl y ↦ absurd (ground (arith, x, y, h))
          | inr (r, y) ↦
              (ground (arith, x, y, h), x ∙ ground (arith, x, y, h), y ∙ ground (arith, x, y, h))
        ]
      ]

  login-pair :
      (now : ℕ) (email password : Bytes) (s : S) {session : Session}
      → login tables crypt lib secrets now email password s ≡ ok session
      → (u : UserRecord) × (crypt.matches u.password_hash password ≡ true)
        × (token_pair tables crypt lib secrets now u ≡ ok session)
  unfolding login
  login-pair now email password s h =
      elim (Result-cases (find_by_email tables crypt lib secrets email s)) [
        | inr (e, x) ↦ absurd (ground (arith, x, h))
        | inl (none, x) ↦ absurd (ground (arith, x, h))
        | inl (some u, x) ↦ elim (Bool-cases (crypt.matches u.password_hash password)) [
          | inr k ↦ absurd (ground (arith, x, k, h))
          | inl y ↦ (u, y, rw (x, y, login) at h)
        ]
      ]

  is_auth-signed :
      (now : ℕ) (u : UserRecord) (access : Bytes)
      → access ≢ []
      → lib.access.signed_string secrets.access_secret (access_claims now (summary u)) ≡ some access
      → (later : ℕ) → later < now + access_token_ttl
      → is_auth lib secrets.access_secret later (bytes "Bearer " ++ access)
        ≡ ok (record { id = u.id; profile = u.profile })
  unfolding is_auth bearer parse_access_token bytes_beq
  is_auth-signed now u [] n h later lt = absurd (n refl)
  is_auth-signed now u (c ∷ access) n h later lt =
      let in_time : later < lib.access.expiry (access_claims now (summary u)) =
        rw (lib.access_expiry (access_claims now (summary u))) lt in
      rw
        (
          is_auth,
          bearer,
          parse_access_token,
          lib.access.parse-signed secrets.access_secret (access_claims now (summary u)) later h
              in_time,
        )
        refl

  refresh-serves :
      (now : ℕ) (u : UserRecord) (token : Bytes) (t : S) (row : User) (later : ℕ)
      → token ≢ []
      → lib.refresh.signed_string secrets.refresh_secret (refresh_claims now u.id u.token_version)
        ≡ some token
      → later < now + refresh_token_ttl
      → tables.first u.id t ≡ ok row
      → row.token_version ≡ u.token_version
      → refresh tables crypt lib secrets later token t
        ≡ token_pair tables crypt lib secrets later (to_auth_record row)
  unfolding refresh parse_refresh_token refresh_claimed find_by_id
  refresh-serves now u [] t row later n h lt f v = absurd (n refl)
  refresh-serves now u (b ∷ token) t row later n h lt f v =
      let c = refresh_claims now u.id u.token_version in
      let in_time : later < lib.refresh.expiry c = rw (lib.refresh_expiry c) lt in
      let same : nat_beq row.token_version u.token_version ≡ true =
        (nat_beq_iff row.token_version u.token_version).1 v in
      rw
        (
          refresh,
          parse_refresh_token,
          lib.refresh.parse-signed secrets.refresh_secret c later h in_time,
          refresh_claimed,
          find_by_id,
          f,
          same,
        )
        refl

  -- A session that `Login` gives serves as long as its tokens live: for 15 minutes the access token
  -- passes `IsAuth` as its user, and for 7 days the refresh token gives a new pair of tokens of the
  -- user's row, if that is read and still has the version of the session.
  pub login-serves :
      (now : ℕ) (email password : Bytes) (s t : S) (access token : Bytes) (u : UserRecord)
      → (row : User) (soon later : ℕ) → access ≢ []
      → token ≢ []
      → login tables crypt lib secrets now email password s ≡ ok (access, token, u)
      → soon < now + access_token_ttl
      → later < now + refresh_token_ttl
      → tables.first u.id t ≡ ok row
      → row.token_version ≡ u.token_version
      → (is_auth lib secrets.access_secret soon (bytes "Bearer " ++ access)
          ≡ ok (record { id = u.id; profile = u.profile }))
        × (refresh tables crypt lib secrets later token t
            ≡ token_pair tables crypt lib secrets later (to_auth_record row))
  login-serves now email password s t access token u row soon later a n h lt gt f v =
      let (is, y, pair) = login-pair now email password s h in
      let (same, access_signed, refresh_signed) = token_pair-signed now is pair in
      (
        is_auth-signed now is access a access_signed soon lt ∙ rw same refl,
        refresh-serves now is token t row later n refresh_signed gt
            (ap (λ (r : UserRecord). tables.first r.id t) (sym same) ∙ f)
            (v ∙ ap (λ (r : UserRecord). r.token_version) same),
      )
