-- ===== src/User/Model.antt =====
-- backend/internal/user/user.go and validator.go: users, requests and the columns of an update. The
-- queues and the connection that are loaded for display are left out.
use whaticket_community.Prelude.{
  ℕ, ◌+◌, Bool, true, false, ◌||◌, not, Option, none, some, List, [], ◌∷◌, Bytes, bytes,
  bytes_keyed, ◌==◌, if◌then◌else◌, get_or, is_some, is_nil, length, ltb, nat_beq,
}
use whaticket_community.Platform.{AppError, new_error}

pub record User : Type 0 where
  pub id : ℕ
  pub name : Bytes
  pub email : Bytes
  pub password_hash : Bytes
  pub profile : Bytes
  pub whatsapp_id : Option ℕ
  pub token_version : ℕ

pub record CreateRequest : Type 0 where
  pub name : Bytes
  pub email : Bytes
  pub password : Bytes
  pub profile : Bytes
  pub queue_ids : Option (List ℕ)
  pub whatsapp_id : Option ℕ

pub record UpdateRequest : Type 0 where
  pub name : Option Bytes
  pub email : Option Bytes
  pub password : Option Bytes
  pub profile : Option Bytes
  pub queue_ids : Option (List ℕ)
  pub whatsapp_id : Option (Option ℕ)

-- The map `updates`: `rehashed` holds the new hash of the password, with which `token_version + 1`
-- is written.
pub record Updates : Type 0 where
  pub name : Option Bytes
  pub email : Option Bytes
  pub profile : Option Bytes
  pub whatsapp_id : Option (Option ℕ)
  pub rehashed : Option Bytes

-- `len(updates) == 0`
unfoldable pub is_empty : Updates → Bool
is_empty u = not (
    is_some u.name
    || (is_some u.email || (is_some u.profile || (is_some u.whatsapp_id || is_some u.rehashed))))

-- What `UPDATE … SET` of these columns makes of a row.
unfoldable pub apply : Updates → User → User
apply u r = record r {
  name = get_or u.name r.name;
  email = get_or u.email r.email;
  profile = get_or u.profile r.profile;
  whatsapp_id = get_or u.whatsapp_id r.whatsapp_id;
  password_hash = get_or u.rehashed r.password_hash;
  token_version = r.token_version + (if is_some u.rehashed then 1 else 0);
}

-- What `validate.Struct` answers to a request to create: the fields at fault, or another error.
pub data Validation : Type 0 where
  valid : Validation
  field_errors : List Bytes → Validation
  invalid : Validation

abbrev pub bad_request : Bytes → AppError
bad_request code = new_error code 400

unfoldable pub first_field_error : List Bytes → AppError
first_field_error [] = bad_request (bytes "ERR_INVALID_INPUT")
first_field_error (field ∷ fields) =
    let rest = first_field_error fields in
    if field == bytes "Name"
    then bad_request (bytes "ERR_INVALID_NAME")
    else if field == bytes "Email"
    then bad_request (bytes "ERR_INVALID_EMAIL")
    else if field == bytes "Password"
    then bad_request (bytes "ERR_INVALID_PASSWORD")
    else if field == bytes "Profile"
    then bad_request (bytes "ERR_INVALID_PROFILE")
    else if field == bytes "QueueIDs"
    then bad_request (bytes "ERR_INVALID_QUEUE")
    else rest

-- `mapFieldError`, where no error is `none`.
unfoldable pub map_field_error : Validation → Option AppError
unfolding first_field_error
map_field_error valid = none
map_field_error (field_errors fields) = some (first_field_error fields)
map_field_error invalid = some (bad_request (bytes "ERR_INVALID_INPUT"))

abbrev pub refused_if : Bool → Bytes → Option AppError
refused_if true code = some (bad_request code)
refused_if false code = none

abbrev pub check : {A : Type 0} → (A → Option AppError) → Option A → Option AppError
check f none = none
check f (some a) = f a

abbrev pub or_else : Option AppError → Option AppError → Option AppError
or_else none next = next
or_else (some e) next = some e

abbrev pub has_zero : List ℕ → Bool
has_zero [] = false
has_zero (id ∷ ids) = nat_beq id 0 || has_zero ids

-- `validateUpdate`; whether a text is an e-mail is what the library of validation says.
unfoldable pub validate_update : (Bytes → Bool) → UpdateRequest → Option AppError
validate_update is_email req =
    or_else
      (check
        (λ name.
          refused_if (ltb (length name) 2 || ltb 255 (length name)) (bytes "ERR_INVALID_NAME"))
        req.name)
      (or_else
        (check (λ email. refused_if (not (is_email email)) (bytes "ERR_INVALID_EMAIL")) req.email)
        (or_else
          (check
            (λ password.
              if is_nil password
              then none
              else refused_if (ltb (length password) 5) (bytes "ERR_INVALID_PASSWORD"))
            req.password)
          (or_else
            (check
              (λ profile.
                refused_if (not (profile == bytes "admin" || profile == bytes "user"))
                  (bytes "ERR_INVALID_PROFILE"))
              req.profile)
            (check (λ ids. refused_if (has_zero ids) (bytes "ERR_INVALID_QUEUE")) req.queue_ids))))
