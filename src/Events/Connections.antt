-- ===== src/Events/Connections.antt =====
-- backend/internal/platform/errors and the connections of backend/internal/whatsapp/service.go, as
-- far as the events need them, over an interface of the table `whatsapps`.
use whaticket_community.Prelude.{
  ℕ, ◌+◌, ◌≡◌, Bool, true, false, Option, none, some, [], ◌++◌, Bytes, bytes, if◌then◌else◌, ◌≢◌,
}

-- An error of gorm: `ErrRecordNotFound`, or another one with its text.
pub data DbError : Type 0 where
  record_not_found : DbError
  other : Bytes → DbError

-- `AppError`, without the HTTP status.
pub record AppError : Type 0 where
  pub code : Bytes
  pub wrapped : Option DbError

abbrev pub db_error_text : DbError → Bytes
db_error_text record_not_found = bytes "record not found"
db_error_text (other text) = text

-- `Error`
abbrev pub wrapped_text : Bytes → Option DbError → Bytes
wrapped_text code none = code
wrapped_text code (some e) = code ++ (bytes ": " ++ db_error_text e)

unfoldable pub error_text : AppError → Bytes
error_text e = wrapped_text e.code e.wrapped

-- `errors.Is(err, gorm.ErrRecordNotFound)`, which asks the wrapped error.
abbrev pub is_record_not_found : Option DbError → Bool
is_record_not_found none = false
is_record_not_found (some record_not_found) = true
is_record_not_found (some (other text)) = false

abbrev pub new_error : Bytes → AppError
new_error code = record { code = code; wrapped = none }

abbrev pub wrap_error : DbError → Bytes → AppError
wrap_error e code = record { code = code; wrapped = some e }

abbrev pub status_qrcode : Bytes
status_qrcode = bytes "qrcode"

abbrev pub status_opening : Bytes
status_opening = bytes "OPENING"

abbrev pub status_connected : Bytes
status_connected = bytes "CONNECTED"

abbrev pub status_disconnected : Bytes
status_disconnected = bytes "DISCONNECTED"

pub record Row : Type 0 where
  pub status : Bytes
  pub qrcode : Bytes
  pub retries : ℕ
  pub session : Option Bytes

pub data Outcome (A : Type 0) : Type 0 where
  ok : A → Outcome A
  err : AppError → Outcome A

pub data Found : Type 0 where
  row : Row → Found
  no_row : DbError → Found

-- The table; `first` and `update` are the statements, and `none` is a database error.
pub record Connections (S : Type 0) : Type 0 where
  pub find : ℕ → S → Option Row
  pub first : ℕ → S → Found
  pub update : ℕ → (Row → Row) → S → Option S
  pub first-row : (id : ℕ) (s : S) {r : Row} → first id s ≡ row r → find id s ≡ some r
  pub update_lem :
      (id : ℕ) (f : Row → Row) (s : S) {t : S} {r : Row}
      → update id f s ≡ some t
      → find id s ≡ some r
      → find id t ≡ some (f r)
  pub update_none :
      (id : ℕ) (f : Row → Row) (s : S) {t : S}
      → update id f s ≡ some t
      → find id s ≡ none
      → find id t ≡ none
  pub update_others :
      (id : ℕ) (f : Row → Row) (s : S) {t : S} (j : ℕ)
      → update id f s ≡ some t
      → id ≢ j
      → find j t ≡ find j s

-- The columns that each of the four updates sets.
abbrev pub to_status : Bytes → Bytes → Row → Row
to_status status qrcode r = record r { status = status; qrcode = qrcode }

abbrev pub to_connected : Row → Row
to_connected r = record r { status = status_connected; qrcode = []; retries = 0 }

abbrev pub to_retry : Row → Row
to_retry r = record r { status = status_opening; retries = r.retries + 1 }

abbrev pub to_disconnected : Row → Row
to_disconnected r = record r { status = status_disconnected; qrcode = []; session = none }

module _ {S : Type 0} (db : Connections S) where
  -- `Get`
  unfoldable pub get_row : ℕ → S → Outcome Row
  get_row id s = elim (db.first id s) [
    | row r ↦ ok r
    | no_row e ↦
        if is_record_not_found (some e)
        then err (new_error (bytes "ERR_WAPP_NOT_FOUND"))
        else err (wrap_error e (bytes "ERR_DB_QUERY"))
  ]
