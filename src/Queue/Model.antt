-- ===== src/Queue/Model.antt =====
-- backend/internal/queue/queue.go and validator.go: queues, requests and their checks.
use whaticket_community.Prelude.{
  ℕ, Bool, true, false, ◌&&◌, ◌||◌, not, Option, none, some, List, [], ◌∷◌, ◌++◌, Bytes, bytes,
  bytes_keyed, ◌==◌, if◌then◌else◌, get_or, is_some, is_nil, length, leb, nat_beq, trim_space,
}
use whaticket_community.Platform.{AppError, new_error}

pub record Queue : Type 0 where
  pub id : ℕ
  pub name : Bytes
  pub color : Bytes
  pub greeting_message : Bytes

pub record CreateRequest : Type 0 where
  pub name : Bytes
  pub color : Bytes
  pub greeting_message : Bytes

pub record UpdateRequest : Type 0 where
  pub name : Option Bytes
  pub color : Option Bytes
  pub greeting_message : Option Bytes

-- What `UPDATE … SET` of the columns that a request names makes of a row; the map `updates` has the
-- fields of the request.
unfoldable pub apply : UpdateRequest → Queue → Queue
apply u q = record q {
  name = get_or u.name q.name;
  color = get_or u.color q.color;
  greeting_message = get_or u.greeting_message q.greeting_message;
}

-- `len(updates) == 0`
unfoldable pub is_empty : UpdateRequest → Bool
is_empty u = not (is_some u.name || (is_some u.color || is_some u.greeting_message))

abbrev pub is_hex : ℕ → Bool
is_hex c = leb b'0' c && leb c b'9' || (leb b'a' c && leb c b'f' || leb b'A' c && leb c b'F')

abbrev pub all_hex : Bytes → Bool
all_hex [] = true
all_hex (c ∷ s) = is_hex c && all_hex s

-- `(?i)^#[0-9a-f]{3,6}$`
unfoldable pub color_hex : Bytes → Bool
color_hex [] = false
color_hex (c ∷ s) = nat_beq c b'#' && (leb 3 (length s) && (leb (length s) 6 && all_hex s))

abbrev pub trimmed : Option Bytes → Option Bytes
trimmed none = none
trimmed (some s) = some (trim_space s)

-- `trimCreate`
unfoldable pub trim_create : CreateRequest → CreateRequest
trim_create req = record req { name = trim_space req.name; color = trim_space req.color }

-- `trimUpdate`
unfoldable pub trim_update : UpdateRequest → UpdateRequest
trim_update req = record req { name = trimmed req.name; color = trimmed req.color }

-- The fields that `validate.Struct` finds at fault, in the order of the struct. `fits` says whether a
-- text has the lengths of the rules, between 2 and 255.
module _ (fits : Bytes → Bool) where
  abbrev pub name_fault : Bool → List Bytes
  name_fault good = if good then [] else bytes "Name" ∷ []

  abbrev pub color_fault : Bool → List Bytes
  color_fault good = if good then [] else bytes "Color" ∷ []

  abbrev pub passes : (Bytes → Bool) → Option Bytes → Bool
  passes test none = true
  passes test (some s) = test s

  unfoldable pub create_faults : CreateRequest → List Bytes
  unfolding color_hex
  create_faults req =
      name_fault (not (is_nil req.name) && fits req.name)
      ++ color_fault (not (is_nil req.color) && color_hex req.color)

  unfoldable pub update_faults : UpdateRequest → List Bytes
  unfolding color_hex
  update_faults req = name_fault (passes fits req.name) ++ color_fault (passes color_hex req.color)

-- `mapValidationError`, where no fault is `none`.
unfoldable pub map_validation_error : List Bytes → Option AppError
map_validation_error [] = none
map_validation_error (field ∷ fields) =
    if field == bytes "Name"
    then some (new_error (bytes "ERR_QUEUE_INVALID_NAME") 400)
    else some (new_error (bytes "ERR_QUEUE_INVALID_COLOR") 400)
