-- ===== src/Contact/Validator.antt =====
-- backend/internal/contact/validator.go: what a request to create or update a contact must be. What
-- the library of validation answers for the rules of a request's name and e-mail is an argument.
use whaticket_community.Prelude.{
  ℕ, ◌≡◌, ◌≤◌, inl, inr, Bool, true, false, ◌&&◌, Option, none, some, List, [], ◌∷◌, Bytes, bytes,
  bytes_keyed, ◌==◌, if◌then◌else◌, is_nil, trim_space, is_digit, length, leb, has, nat_keyed, add,
  arith, Bool-cases, All,
}
use whaticket_community.Platform.{AppError, new_error}
use whaticket_community.Contact.Model.{
  CustomFieldData, CreateRequest, UpdateRequest, normalize_number,
}

-- What `validate.Struct` answers: the fields at fault, or an error of another kind.
pub data Validation : Type 0 where
  valid : Validation
  field_errors : List Bytes → Validation
  invalid : Validation

unfoldable pub first_field_error : List Bytes → AppError
first_field_error [] = new_error (bytes "ERR_BAD_REQUEST") 400
first_field_error (field ∷ fields) =
    let rest = first_field_error fields in
    if field == bytes "Name"
    then new_error (bytes "ERR_INVALID_NAME") 400
    else if field == bytes "Email"
    then new_error (bytes "ERR_INVALID_EMAIL") 400
    else rest

-- `mapValidationError`, where `nil` is no error.
unfoldable pub map_validation_error : Validation → Option AppError
unfolding first_field_error
map_validation_error valid = none
map_validation_error (field_errors fields) = some (first_field_error fields)
map_validation_error invalid = some (new_error (bytes "ERR_BAD_REQUEST") 400)

abbrev pub invalid_number : AppError
invalid_number = new_error (bytes "ERR_INVALID_NUMBER") 400

abbrev pub invalid_extra_info : AppError
invalid_extra_info = new_error (bytes "ERR_INVALID_EXTRAINFO") 400

-- The expression `^\d{8,15}$`
unfoldable pub all_digits : Bytes → Bool
all_digits [] = true
all_digits (c ∷ s) = is_digit c && all_digits s

unfoldable pub digits_only : Bytes → Bool
unfolding all_digits
digits_only s = all_digits s && (leb 8 (length s) && leb (length s) 15)

unfoldable pub validate_number_format : Bytes → Option AppError
unfolding normalize_number
validate_number_format raw =
    let normalized = normalize_number raw false in
    if is_nil normalized
    then some invalid_number
    else if digits_only normalized
    then none
    else some invalid_number

-- `validateExtraInfo`, with the ids that were seen.
unfoldable pub validate_extra_info : List ℕ → List CustomFieldData → Option AppError
validate_extra_info seen [] = none
validate_extra_info seen (item ∷ items) =
    let unnamed = is_nil (trim_space item.name) in
    elim item.id [
      | none ↦
          let rest = validate_extra_info seen items in
          if unnamed then some invalid_extra_info else rest
      | some id ↦
          let rest = validate_extra_info (add id seen) items in
          if has id seen
          then some invalid_extra_info
          else if unnamed
          then some invalid_extra_info
          else rest
    ]

abbrev pub trimmed : Option Bytes → Option Bytes
trimmed none = none
trimmed (some v) = some (trim_space v)

unfoldable pub trim_create : CreateRequest → CreateRequest
trim_create req = record req {
  name = trim_space req.name;
  number = trim_space req.number;
  email = trim_space req.email;
}

unfoldable pub trim_update : UpdateRequest → UpdateRequest
trim_update req = record req {
  name = trimmed req.name;
  number = trimmed req.number;
  email = trimmed req.email;
}

-- The first error of two checks.
abbrev pub or_else : Option AppError → Option AppError → Option AppError
or_else none next = next
or_else (some e) next = some e

unfoldable pub validate_create : (Bytes → Bytes → Validation) → CreateRequest → Option AppError
validate_create rules req =
    or_else (map_validation_error (rules req.name req.email))
      (or_else (validate_number_format req.number) (validate_extra_info [] req.extra_info))

unfoldable pub check : {A : Type 0} → (A → Option AppError) → Option A → Option AppError
check f none = none
check f (some a) = f a

unfoldable pub validate_update :
    (Option Bytes → Option Bytes → Validation) → UpdateRequest → Option AppError
unfolding check
validate_update rules req = or_else (map_validation_error (rules req.name req.email)) (
    or_else (check validate_number_format req.number)
      (check (validate_extra_info []) req.extra_info))

-- A number that passes has 8 to 15 bytes, which are digits.
abbrev pub IsPhone : Bytes → Type 0
IsPhone s = All (λ c. is_digit c ≡ true) s × (8 ≤ length s) × (length s ≤ 15)

all_digits-All : (s : Bytes) → all_digits s ≡ true → All (λ c. is_digit c ≡ true) s
unfolding all_digits
all_digits-All [] h = tt
all_digits-All (c ∷ s) h = (ground (arith, h), all_digits-All s (ground (arith, h)))

pub digits_only-IsPhone : (s : Bytes) → digits_only s ≡ true → IsPhone s
unfolding digits_only
digits_only-IsPhone s h = (all_digits-All s (ground (arith, h)), ground arith, ground arith)

pub validate_number-IsPhone :
    (raw : Bytes) → validate_number_format raw ≡ none → IsPhone (normalize_number raw false)
unfolding validate_number_format
validate_number-IsPhone raw h = elim (Bool-cases (digits_only (normalize_number raw false))) [
  | inl y ↦ digits_only-IsPhone (normalize_number raw false) y
  | inr k ↦ elim (Bool-cases (is_nil (normalize_number raw false))) [
    | inl z ↦ absurd (ground (arith, h, z))
    | inr z ↦ absurd (ground (arith, h, z, k))
  ]
]
