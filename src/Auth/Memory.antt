-- ===== src/Auth/Memory.antt =====
-- Tokens that carry their claims and their secret in the open: the assumptions on the library of tokens
-- can be met.
use whaticket_community.Prelude.{
  ℕ, ◌≡◌, ◌≤◌, ◌<◌, ◌∙◌, ap, sym, refl, Bool, some, [], ◌∷◌, ◌++◌, arith, Bytes, bytes_beq,
  bytes_beq_iff, if◌then◌else◌, ltb, take, drop, length, take-length-append, drop-length-append,
}
use whaticket_community.Auth.Tokens.{
  AccessClaims, RefreshClaims, Parsed, claims, expired, malformed, Library,
}

abbrev field_of : Bytes → Bytes → Bytes
field_of text rest = length text ∷ text ++ rest

-- A token whose claims are read: they hold for the secret, until they expire.
abbrev pub checked : {C : Type 0} → Bool → ℕ → ℕ → C → Parsed C
checked fits now expiry c = if fits then if ltb now expiry then claims c else expired else malformed

abbrev pub refresh_token : Bytes → RefreshClaims → Bytes
refresh_token secret c = c.id ∷ c.token_version ∷ c.issued_at ∷ c.expires_at ∷ secret

abbrev pub read_refresh : ℕ → Bytes → Bytes → Parsed RefreshClaims
read_refresh now secret (id ∷ version ∷ issued ∷ expires ∷ signature) =
    checked (bytes_beq signature secret) now expires
      (record { id = id; token_version = version; issued_at = issued; expires_at = expires })
read_refresh now secret other = malformed

abbrev pub access_token : Bytes → AccessClaims → Bytes
access_token secret c =
    c.id ∷ c.issued_at ∷ c.expires_at ∷ field_of c.usarname (field_of c.profile secret)

abbrev read_profile : ℕ → Bytes → ℕ → ℕ → ℕ → Bytes → Bytes → Parsed AccessClaims
read_profile now secret id issued expires name [] = malformed
read_profile now secret id issued expires name (m ∷ t) =
    checked (bytes_beq (drop m t) secret) now expires (record {
      usarname = name;
      profile = take m t;
      id = id;
      issued_at = issued;
      expires_at = expires;
    })

abbrev pub read_access : ℕ → Bytes → Bytes → Parsed AccessClaims
read_access now secret (id ∷ issued ∷ expires ∷ n ∷ s) =
    read_profile now secret id issued expires (take n s) (drop n s)
read_access now secret other = malformed

pub some-inj {ℓ} : {A : Type ℓ} {a b : A} → some a ≡ some b → a ≡ b
some-inj h = cc

checked-live :
    {C : Type 0} (secret : Bytes) (now expiry : ℕ) (c : C)
    → now < expiry
    → checked (bytes_beq secret secret) now expiry c ≡ claims c
checked-live secret now expiry c h = ground (arith, bytes_beq_iff secret secret)

checked-late :
    {C : Type 0} (secret : Bytes) (now expiry : ℕ) (c : C)
    → expiry ≤ now
    → checked (bytes_beq secret secret) now expiry c ≡ expired
checked-late secret now expiry c h = ground (arith, bytes_beq_iff secret secret)

read_back :
    (secret : Bytes) (c : AccessClaims) (now : ℕ)
    → read_access now secret (access_token secret c)
      ≡ checked (bytes_beq secret secret) now c.expires_at c
read_back secret c now =
    rw
      (
        drop-length-append c.usarname (field_of c.profile secret),
        take-length-append c.usarname (field_of c.profile secret),
        take-length-append c.profile secret,
        drop-length-append c.profile secret,
      )
      refl

pub access-live :
    (secret : Bytes) (c : AccessClaims) (now : ℕ) {token : Bytes}
    → some (access_token secret c) ≡ some token
    → now < c.expires_at
    → read_access now secret token ≡ claims c
access-live secret c now h lt =
    ap (read_access now secret) (sym (some-inj h))
    ∙ read_back secret c now
    ∙ checked-live secret now c.expires_at c lt

pub access-late :
    (secret : Bytes) (c : AccessClaims) (now : ℕ) {token : Bytes}
    → some (access_token secret c) ≡ some token
    → c.expires_at ≤ now
    → read_access now secret token ≡ expired
access-late secret c now h le =
    ap (read_access now secret) (sym (some-inj h))
    ∙ read_back secret c now
    ∙ checked-late secret now c.expires_at c le

pub refresh-live :
    (secret : Bytes) (c : RefreshClaims) (now : ℕ) {token : Bytes}
    → some (refresh_token secret c) ≡ some token
    → now < c.expires_at
    → read_refresh now secret token ≡ claims c
refresh-live secret c now h lt =
    ap (read_refresh now secret) (sym (some-inj h)) ∙ checked-live secret now c.expires_at c lt

pub refresh-late :
    (secret : Bytes) (c : RefreshClaims) (now : ℕ) {token : Bytes}
    → some (refresh_token secret c) ≡ some token
    → c.expires_at ≤ now
    → read_refresh now secret token ≡ expired
refresh-late secret c now h le =
    ap (read_refresh now secret) (sym (some-inj h)) ∙ checked-late secret now c.expires_at c le

abbrev pub tokens : Library
tokens = record {
  access = record {
    expiry = λ c. c.expires_at;
    signed_string = λ secret c. some (access_token secret c);
    parse = read_access;
    parse-signed = access-live;
    parse-late = access-late;
  };
  refresh = record {
    expiry = λ c. c.expires_at;
    signed_string = λ secret c. some (refresh_token secret c);
    parse = read_refresh;
    parse-signed = refresh-live;
    parse-late = refresh-late;
  };
  access_expiry = λ c. refl;
  refresh_expiry = λ c. refl;
}
