-- ===== src/Auth/Tokens.antt =====
-- backend/internal/auth/jwt.go: the claims of the tokens. The library of tokens is an interface; times
-- are in seconds, to which the library truncates them.
use whaticket_community.Prelude.{
  ℕ, ◌+◌, ◌*◌, ◌≡◌, ◌≤◌, ◌<◌, ◌&&◌, not, Option, none, some, Bytes, bytes, bytes_keyed, ◌==◌,
  if◌then◌else◌, is_nil, length, ltb,
}

abbrev pub access_token_ttl : ℕ
access_token_ttl = 15 * 60

abbrev pub refresh_token_ttl : ℕ
refresh_token_ttl = 7 * (24 * 3600)

abbrev pub min_secret_length : ℕ
min_secret_length = 16

pub record AccessClaims : Type 0 where
  pub usarname : Bytes
  pub profile : Bytes
  pub id : ℕ
  pub issued_at : ℕ
  pub expires_at : ℕ

pub record RefreshClaims : Type 0 where
  pub id : ℕ
  pub token_version : ℕ
  pub issued_at : ℕ
  pub expires_at : ℕ

pub data Parsed (C : Type 0) : Type 0 where
  claims : C → Parsed C
  expired malformed : Parsed C

-- Package golang-jwt for one type of claims, with HS256: a token that was signed with a secret parses
-- with it until it expires.
pub record Jwt (C : Type 0) : Type 0 where
  pub expiry : C → ℕ
  pub signed_string : Bytes → C → Option Bytes
  pub parse : ℕ → Bytes → Bytes → Parsed C
  pub parse-signed :
      (secret : Bytes) (c : C) (now : ℕ) {token : Bytes}
      → signed_string secret c ≡ some token
      → now < expiry c
      → parse now secret token ≡ claims c
  pub parse-late :
      (secret : Bytes) (c : C) (now : ℕ) {token : Bytes}
      → signed_string secret c ≡ some token
      → expiry c ≤ now
      → parse now secret token ≡ expired

pub record Library : Type 0 where
  pub access : Jwt AccessClaims
  pub refresh : Jwt RefreshClaims
  pub access_expiry : (c : AccessClaims) → access.expiry c ≡ c.expires_at
  pub refresh_expiry : (c : RefreshClaims) → refresh.expiry c ≡ c.expires_at

pub record Secrets : Type 0 where
  pub access_secret : Bytes
  pub refresh_secret : Bytes

-- `UserSummary`
pub record UserSummary : Type 0 where
  pub id : ℕ
  pub name : Bytes
  pub profile : Bytes

abbrev pub access_claims : ℕ → UserSummary → AccessClaims
access_claims now user = record {
  usarname = user.name;
  profile = user.profile;
  id = user.id;
  issued_at = now;
  expires_at = now + access_token_ttl;
}

abbrev pub refresh_claims : ℕ → ℕ → ℕ → RefreshClaims
refresh_claims now user_id token_version = record {
  id = user_id;
  token_version = token_version;
  issued_at = now;
  expires_at = now + refresh_token_ttl;
}

module _ (lib : Library) where
  unfoldable pub create_access_token : ℕ → UserSummary → Bytes → Option Bytes
  create_access_token now user secret = lib.access.signed_string secret (access_claims now user)

  unfoldable pub create_refresh_token : ℕ → ℕ → ℕ → Bytes → Option Bytes
  create_refresh_token now user_id token_version secret =
      lib.refresh.signed_string secret (refresh_claims now user_id token_version)

  unfoldable pub parse_access_token : ℕ → Bytes → Bytes → Parsed AccessClaims
  parse_access_token now token secret = lib.access.parse now secret token

  unfoldable pub parse_refresh_token : ℕ → Bytes → Bytes → Parsed RefreshClaims
  parse_refresh_token now token secret = lib.refresh.parse now secret token

abbrev pub or_default : Bytes → Bytes → Bytes
or_default value fallback = if is_nil value then fallback else value

-- `MustLoadSecrets` of the three variables of the environment; `none` is a panic.
unfoldable pub must_load_secrets : Bytes → Bytes → Bytes → Option Secrets
must_load_secrets access refresh env =
    let short = λ (secret : Bytes). ltb (length secret) min_secret_length in
    if not (env == bytes "test") && short access
    then none
    else if not (env == bytes "test") && short refresh
    then none
    else some (record {
      access_secret = or_default access (bytes "test-access-secret-development-only");
      refresh_secret = or_default refresh (bytes "test-refresh-secret-development-only");
    })
