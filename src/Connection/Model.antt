-- ===== src/Connection/Model.antt =====
-- backend/internal/whatsapp/whatsapp.go and validator.go: connections, requests and their checks. The
-- columns `session`, `battery` and `plugged`, which the requests leave, are left out, and so is the
-- `MediaDelivery` of a request, which its JSON does not carry.
use whaticket_community.Prelude.{
  ℕ, Bool, false, ◌&&◌, ◌||◌, not, Option, none, some, List, [], ◌∷◌, Bytes, bytes, bytes_keyed,
  ◌==◌, if◌then◌else◌, get_or, is_some, is_nil, length, leb, trim_space,
}
use whaticket_community.Platform.{AppError, new_error}

pub record AdvancedSettings : Type 0 where
  pub always_online : Bool
  pub reject_call : Bool
  pub msg_reject_call : Bytes
  pub read_messages : Bool
  pub ignore_groups : Bool
  pub ignore_status : Bool

pub record Connection : Type 0 where
  pub id : ℕ
  pub name : Bytes
  pub status : Bytes
  pub qrcode : Bytes
  pub retries : ℕ
  pub is_default : Bool
  pub greeting_message : Bytes
  pub farewell_message : Bytes
  pub settings : AdvancedSettings
  pub media_delivery : Bytes

pub record CreateRequest : Type 0 where
  pub name : Bytes
  pub queue_ids : List ℕ
  pub greeting_message : Bytes
  pub farewell_message : Bytes
  pub is_default : Option Bool
  pub settings : Option AdvancedSettings

pub record UpdateRequest : Type 0 where
  pub name : Option Bytes
  pub queue_ids : Option (List ℕ)
  pub greeting_message : Option Bytes
  pub farewell_message : Option Bytes
  pub is_default : Option Bool
  pub settings : Option AdvancedSettings

-- The map that `buildUpdateMap` makes.
pub record Updates : Type 0 where
  pub name : Option Bytes
  pub greeting_message : Option Bytes
  pub farewell_message : Option Bytes
  pub is_default : Option Bool
  pub settings : Option AdvancedSettings

abbrev pub build_update_map : UpdateRequest → Updates
build_update_map req = record {
  name = req.name;
  greeting_message = req.greeting_message;
  farewell_message = req.farewell_message;
  is_default = req.is_default;
  settings = req.settings;
}

-- `len(updates) == 0`
unfoldable pub is_empty : Updates → Bool
is_empty u = not (
    is_some u.name
    || (is_some u.greeting_message
        || (is_some u.farewell_message || (is_some u.is_default || is_some u.settings))))

-- What `UPDATE … SET` of these columns makes of a row.
unfoldable pub apply : Updates → Connection → Connection
apply u c = record c {
  name = get_or u.name c.name;
  greeting_message = get_or u.greeting_message c.greeting_message;
  farewell_message = get_or u.farewell_message c.farewell_message;
  is_default = get_or u.is_default c.is_default;
  settings = get_or u.settings c.settings;
}

abbrev pub no_settings : AdvancedSettings
no_settings = record {
  always_online = false;
  reject_call = false;
  msg_reject_call = [];
  read_messages = false;
  ignore_groups = false;
  ignore_status = false;
}

-- The row that `Create` inserts.
abbrev pub new_connection : CreateRequest → Connection
new_connection req = record {
  id = 0;
  name = req.name;
  status = bytes "OPENING";
  qrcode = [];
  retries = 0;
  is_default = get_or req.is_default false;
  greeting_message = req.greeting_message;
  farewell_message = req.farewell_message;
  settings = get_or req.settings no_settings;
  media_delivery = bytes "s3";
}

abbrev pub trimmed : Option Bytes → Option Bytes
trimmed none = none
trimmed (some s) = some (trim_space s)

-- `trimCreate`
unfoldable pub trim_create : CreateRequest → CreateRequest
trim_create req = record req {
  name = trim_space req.name;
  greeting_message = trim_space req.greeting_message;
  farewell_message = trim_space req.farewell_message;
}

-- `trimUpdate`
unfoldable pub trim_update : UpdateRequest → UpdateRequest
trim_update req = record req {
  name = trimmed req.name;
  greeting_message = trimmed req.greeting_message;
  farewell_message = trimmed req.farewell_message;
}

-- What `validate.Struct` answers: the fields at fault, or another error.
pub data Validation : Type 0 where
  valid : Validation
  field_errors : List Bytes → Validation
  invalid : Validation

abbrev pub invalid_input : AppError
invalid_input = new_error (bytes "ERR_INVALID_INPUT") 400

unfoldable pub first_field_error : List Bytes → AppError
first_field_error [] = invalid_input
first_field_error (field ∷ fields) =
    let rest = first_field_error fields in
    if field == bytes "Name"
    then new_error (bytes "ERR_INVALID_NAME") 400
    else if field == bytes "MediaDelivery"
    then new_error (bytes "ERR_INVALID_MEDIA_DELIVERY") 400
    else rest

-- `mapValidationError`, where no error is `none`.
unfoldable pub map_validation_error : Validation → Option AppError
unfolding first_field_error
map_validation_error valid = none
map_validation_error (field_errors fields) = some (first_field_error fields)
map_validation_error invalid = some invalid_input

abbrev pub greeting_required : AppError
greeting_required = new_error (bytes "ERR_WAPP_GREETING_REQUIRED") 400

-- `validateCreate`
unfoldable pub validate_create : Validation → CreateRequest → Option AppError
unfolding map_validation_error
validate_create v req = elim (map_validation_error v) [
  | some e ↦ some e
  | none ↦
      if leb 2 (length req.queue_ids) && is_nil req.greeting_message
      then some greeting_required
      else none
]

abbrev pub many : Option (List ℕ) → Bool
many none = false
many (some ids) = leb 2 (length ids)

abbrev pub is_blank : Option Bytes → Bool
is_blank none = false
is_blank (some s) = is_nil s

-- `validateUpdate`
unfoldable pub validate_update : Validation → UpdateRequest → Option AppError
unfolding map_validation_error
validate_update v req = elim (map_validation_error v) [
  | some e ↦ some e
  | none ↦
      if many req.queue_ids && is_blank req.greeting_message then some greeting_required else none
]
