-- ===== src/Auth/Sessions.antt =====
-- backend/internal/auth/auth.go and user/auth_loader.go: logging in and refreshing a session.
use whaticket_community.Prelude.{
  ℕ, Option, none, some, Bytes, bytes, if◌then◌else◌, nat_beq, is_nil,
}
use whaticket_community.Platform.{
  Result, ok, err, ◌>>=◌, DbError, other_error, AppError, new_error, wrap_error, is_not_found,
}
use whaticket_community.User.Model.{User}
use whaticket_community.User.Store.{Store, Bcrypt}
use whaticket_community.Auth.Tokens.{
  Library, Secrets, UserSummary, claims, expired, malformed, RefreshClaims, create_access_token,
  create_refresh_token, parse_refresh_token,
}

pub record UserRecord : Type 0 where
  pub id : ℕ
  pub name : Bytes
  pub email : Bytes
  pub password_hash : Bytes
  pub profile : Bytes
  pub token_version : ℕ

-- `toAuthRecord`
abbrev pub to_auth_record : User → UserRecord
to_auth_record u = record {
  id = u.id;
  name = u.name;
  email = u.email;
  password_hash = u.password_hash;
  profile = u.profile;
  token_version = u.token_version;
}

-- The access token, the refresh token and the user.
abbrev pub Session : Type 0
Session = Bytes × Bytes × UserRecord

abbrev pub invalid_credentials : AppError
invalid_credentials = new_error (bytes "ERR_INVALID_CREDENTIALS") 401

abbrev pub session_expired : AppError
session_expired = new_error (bytes "ERR_SESSION_EXPIRED") 401

abbrev pub summary : UserRecord → UserSummary
summary u = record { id = u.id; name = u.name; profile = u.profile }

abbrev pub signed : Option Bytes → Result AppError Bytes
signed none = err (wrap_error other_error (bytes "ERR_TOKEN_SIGN") 500)
signed (some token) = ok token

-- What the loader answers: a user, none, or an error, where the callers treat the last two alike.
abbrev pub loaded : Result DbError User → Result DbError (Option UserRecord)
loaded (ok u) = ok (some (to_auth_record u))
loaded (err e) = if is_not_found e then ok none else err e

module _ {S : Type 0} (tables : Store S) (crypt : Bcrypt) (lib : Library) (secrets : Secrets) where
  unfoldable pub find_by_email : Bytes → S → Result DbError (Option UserRecord)
  find_by_email email s = loaded (tables.first_email email s)

  unfoldable pub find_by_id : ℕ → S → Result DbError (Option UserRecord)
  find_by_id id s = loaded (tables.first id s)

  -- The pair of tokens that both calls end with.
  unfoldable pub token_pair : ℕ → UserRecord → Result AppError Session
  unfolding create_access_token create_refresh_token
  token_pair now u = do
    access ← signed (create_access_token lib now (summary u) secrets.access_secret)
    refresh ← signed (create_refresh_token lib now u.id u.token_version secrets.refresh_secret)
    ok (access, refresh, u)

  unfoldable pub login : ℕ → Bytes → Bytes → S → Result AppError Session
  unfolding find_by_email token_pair
  login now email password s = elim (find_by_email email s) [
    | err e ↦ err invalid_credentials
    | ok none ↦ err invalid_credentials
    | ok (some u) ↦
        if crypt.matches u.password_hash password then token_pair now u else err invalid_credentials
  ]

  unfoldable pub refresh_claimed : ℕ → RefreshClaims → S → Result AppError Session
  unfolding find_by_id token_pair
  refresh_claimed now c s = elim (find_by_id c.id s) [
    | err e ↦ err session_expired
    | ok none ↦ err session_expired
    | ok (some u) ↦
        if nat_beq u.token_version c.token_version then token_pair now u else err session_expired
  ]

  unfoldable pub refresh : ℕ → Bytes → S → Result AppError Session
  unfolding parse_refresh_token refresh_claimed
  refresh now token s =
      if is_nil token
      then err session_expired
      else elim (parse_refresh_token lib now token secrets.refresh_secret) [
        | claims c ↦ refresh_claimed now c s
        | expired ↦ err session_expired
        | malformed ↦ err session_expired
      ]
