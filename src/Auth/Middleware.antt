-- ===== src/Auth/Middleware.antt =====
-- backend/internal/auth/middleware.go: who passes to a route, by the header `Authorization`.
use whaticket_community.Prelude.{
  ℕ, suc, Bool, ◌||◌, not, Option, none, some, Bytes, bytes, bytes_keyed, ◌==◌, if◌then◌else◌,
  is_nil, index_byte, take, drop,
}
use whaticket_community.Platform.{Result, ok, err, AppError, new_error}
use whaticket_community.Auth.Tokens.{Library, claims, expired, malformed, parse_access_token}

pub record UserClaims : Type 0 where
  pub id : ℕ
  pub profile : Bytes

abbrev pub session_expired : ℕ → AppError
session_expired status = new_error (bytes "ERR_SESSION_EXPIRED") status

abbrev pub invalid_token : AppError
invalid_token = new_error (bytes "ERR_INVALID_TOKEN") 401

-- The token behind `Bearer`, by `strings.SplitN(header, " ", 2)`.
unfoldable pub bearer : Bytes → Option Bytes
unfolding index_byte take drop
bearer header = elim (index_byte b' ' header) [
  | none ↦ none
  | some i ↦
      let token = drop (suc i) header in
      if not (take i header == bytes "Bearer") || is_nil token then none else some token
]

-- `IsAuth`
unfoldable pub is_auth : Library → Bytes → ℕ → Bytes → Result AppError UserClaims
unfolding bearer parse_access_token
is_auth lib secret now header =
    if is_nil header then err (session_expired 401) else elim (bearer header) [
      | none ↦ err invalid_token
      | some token ↦ elim (parse_access_token lib now token secret) [
        | claims c ↦ ok (record { id = c.id; profile = c.profile })
        | expired ↦ err (session_expired 403)
        | malformed ↦ err invalid_token
      ]
    ]

-- `IsAdmin`, behind `IsAuth` or not.
unfoldable pub is_admin : Option UserClaims → Option AppError
is_admin none = some (new_error (bytes "ERR_NO_PERMISSION") 403)
is_admin (some c) =
    if c.profile == bytes "admin" then none else some (new_error (bytes "ERR_NO_PERMISSION") 403)

-- `IsAuthAPI`; `find` is `FindAPIToken` of the settings.
unfoldable pub is_auth_api : (Bytes → Result AppError Bool) → Bytes → Option AppError
unfolding bearer
is_auth_api find header =
    if is_nil header then some (session_expired 401) else elim (bearer header) [
      | none ↦ some (session_expired 401)
      | some token ↦ elim (find token) [
        | err e ↦ some (session_expired 401)
        | ok known ↦ if known then none else some (session_expired 401)
      ]
    ]
