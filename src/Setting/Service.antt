-- ===== src/Setting/Service.antt =====
-- backend/internal/setting: settings, their checks, and the requests on them over the table `settings`.
pub mod Token
use whaticket_community.Prelude.{
  ℕ, ◌≡◌, ◌≢◌, Bool, true, false, ◌&&◌, ◌||◌, not, Option, none, some, List, [], ◌∷◌, ◌++◌, Bytes,
  bytes, bytes_keyed, ◌==◌, if◌then◌else◌, ltb, length, is_nil,
}
use whaticket_community.Platform.{
  Result, ok, err, DbError, AppError, new_error, wrap_error, is_not_found,
}

pub record Setting : Type 0 where
  pub key : Bytes
  pub value : Bytes

abbrev pub key_user_creation : Bytes
key_user_creation = bytes "userCreation"

abbrev pub key_user_api_token : Bytes
key_user_api_token = bytes "userApiToken"

abbrev pub api_token_min_length : ℕ
api_token_min_length = 16

abbrev pub api_token_max_length : ℕ
api_token_max_length = 128

-- The map `sensitiveKeys`
abbrev pub is_sensitive : Bytes → Bool
is_sensitive key = key == key_user_api_token

abbrev pub unknown_key : AppError
unknown_key = new_error (bytes "ERR_UNKNOWN_SETTING_KEY") 400

abbrev pub invalid_value : AppError
invalid_value = new_error (bytes "ERR_INVALID_SETTING_VALUE") 400

abbrev pub no_setting : AppError
no_setting = new_error (bytes "ERR_NO_SETTING_FOUND") 404

-- `validateValue`
unfoldable pub validate_value : Bytes → Bytes → Option AppError
validate_value key value =
    if key == key_user_creation
    then (if value == bytes "enabled" || value == bytes "disabled"
        then none
        else some invalid_value)
    else if key == key_user_api_token
    then (if ltb (length value) api_token_min_length || ltb api_token_max_length (length value)
        then some invalid_value
        else none)
    else some unknown_key

-- `value` is the value of a key in the table; `first` and `first_value` are statements, the latter with
-- `key = ? AND value = ?`.
pub record Store (S : Type 0) : Type 0 where
  pub value : Bytes → S → Option Bytes
  pub first : Bytes → S → Result DbError Setting
  pub first_value : Bytes → Bytes → S → Result DbError Setting
  pub write : Bytes → Bytes → S → Result DbError S
  pub first_lem :
      (key : Bytes) (s : S) {r : Setting}
      → first key s ≡ ok r
      → (r.key ≡ key) × (value key s ≡ some r.value)
  pub first_value_lem :
      (key v : Bytes) (s : S) {r : Setting} → first_value key v s ≡ ok r → value key s ≡ some v
  pub first_value_none :
      (key v : Bytes) (s : S) {e : DbError}
      → first_value key v s ≡ err e
      → is_not_found e ≡ true
      → value key s ≢ some v
  pub write_lem :
      (key v : Bytes) (s : S) {t : S} {old : Bytes} (j : Bytes)
      → write key v s ≡ ok t
      → value key s ≡ some old
      → value j t ≡ (if key == j then some v else value j s)

-- `frames` is told to the browsers; `logged` holds the lines of the log, with their values.
pub record World (S : Type 0) : Type 0 where
  pub store : S
  pub frames : List Setting
  pub logged : List Setting

abbrev pub masked : Bytes → Setting
masked key = record { key = key; value = bytes "***" }

module _ {S : Type 0} (tables : Store S) (ws : Bool) where
  unfoldable pub announce : Setting → World S → World S
  announce r w =
      if is_sensitive r.key then record w { logged = w.logged ++ masked r.key ∷ [] } else record w {
        logged = w.logged ++ r ∷ [];
        frames = if ws then w.frames ++ r ∷ [] else w.frames;
      }

  abbrev pub update_error : DbError → AppError
  update_error e = wrap_error e (bytes "ERR_UPDATE_SETTING") 500

  -- `Update`
  unfoldable pub update_setting : Bytes → Bytes → World S → Result AppError Setting × World S
  unfolding validate_value announce
  update_setting key value w = elim (validate_value key value) [
    | some e ↦ (err e, w)
    | none ↦ elim (tables.first key w.store) [
      | err e ↦ (err (if is_not_found e then no_setting else update_error e), w)
      | ok r ↦ elim (tables.write r.key value w.store) [
        | err e ↦ (err (update_error e), w)
        | ok t ↦ (
          ok (record r { value = value }),
          announce (record r { value = value }) (record w { store = t }),
        )
      ]
    ]
  ]

  -- `Check`
  unfoldable pub check_setting : Bytes → S → Result AppError Bytes
  check_setting key s = elim (tables.first key s) [
    | ok r ↦ ok r.value
    | err e ↦
        if is_not_found e
        then err no_setting
        else err (wrap_error e (bytes "ERR_CHECK_SETTING") 500)
  ]

  -- `FindByValue`
  unfoldable pub find_by_value : Bytes → S → Result AppError Setting
  find_by_value v s =
      if is_nil v then err no_setting else elim (tables.first_value key_user_api_token v s) [
        | ok r ↦ ok r
        | err e ↦
            if is_not_found e
            then err no_setting
            else err (wrap_error e (bytes "ERR_FIND_SETTING_BY_VALUE") 500)
      ]

  -- `FindAPIToken`
  unfoldable pub find_api_token : Bytes → S → Result AppError Bool
  unfolding find_by_value
  find_api_token token s = elim (find_by_value token s) [
    | ok r ↦ ok true
    | err e ↦ if e.code == bytes "ERR_NO_SETTING_FOUND" then ok false else err e
  ]
