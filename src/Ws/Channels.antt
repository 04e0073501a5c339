-- ===== src/Ws/Channels.antt =====
-- backend/internal/ws/channels.go: the names of channels, their syntax and their parts.
pub mod Parts
use whaticket_community.Prelude.{
  index_byte, ℕ, Bool, true, false, ◌&&◌, ◌||◌, Option, none, some, [], ◌∷◌, ◌++◌, Bytes, bytes,
  leb, nat_beq, if◌then◌else◌, is_nil, suc, is_digit, take, drop,
}

abbrev pub channel_system : Bytes
channel_system = bytes "system"

abbrev pub channel_notification : Bytes
channel_notification = bytes "notification"

abbrev pub channel_global : Bytes
channel_global = bytes "global"

abbrev pub namespace_ticket : Bytes
namespace_ticket = bytes "ticket"

abbrev pub namespace_tickets : Bytes
namespace_tickets = bytes "tickets"

abbrev pub status_pending : Bytes
status_pending = bytes "pending"

abbrev pub status_open : Bytes
status_open = bytes "open"

abbrev pub status_closed : Bytes
status_closed = bytes "closed"

-- The `Code…` constants of channels.go.
pub data Code : Type 0 where
  invalid_channel no_permission internal : Code

-- `[a-z_]`
abbrev pub is_name_byte : ℕ → Bool
is_name_byte c = (leb b'a' c && leb c b'z') || nat_beq c b'_'

-- `[a-zA-Z0-9_-]`
abbrev pub is_suffix_byte : ℕ → Bool
is_suffix_byte c =
    (leb b'a' c && leb c b'z')
    || ((leb b'A' c && leb c b'Z') || (is_digit c || (nat_beq c b'_' || nat_beq c b'-')))

unfoldable pub all_suffix : Bytes → Bool
all_suffix [] = true
all_suffix (c ∷ s) = is_suffix_byte c && all_suffix s

-- What may follow the first byte: more of the name, then `(:[a-zA-Z0-9_-]+)?` and the end.
unfoldable pub match_rest : Bytes → Bool
match_rest [] = true
match_rest (c ∷ s) =
    let name = match_rest s in
    if nat_beq c b':' then (if is_nil s then false else all_suffix s) else is_name_byte c && name

-- `^[a-z_]+(:[a-zA-Z0-9_-]+)?$` matches; a `:` is no byte of a name, so nothing is tried twice.
unfoldable pub validate_channel_name : Bytes → Bool
validate_channel_name [] = false
validate_channel_name (c ∷ s) = is_name_byte c && match_rest s

-- The namespace and the suffix; `none` where the name is not valid.
unfoldable pub parse_channel : Bytes → Option (Bytes × Bytes)
parse_channel name =
    if validate_channel_name name
    then elim (index_byte b':' name) [
      | none ↦ some (name, [])
      | some i ↦ some (take i name, drop (suc i) name)
    ]
    else none

-- The name that has these two parts.
unfoldable pub join_channel : Bytes → Bytes → Bytes
join_channel namespace [] = namespace
join_channel namespace (c ∷ s) = namespace ++ b':' ∷ c ∷ s

unfoldable pub all_name : Bytes → Bool
all_name [] = true
all_name (c ∷ s) = is_name_byte c && all_name s
