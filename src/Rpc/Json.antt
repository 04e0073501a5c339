-- ===== src/Rpc/Json.antt =====
-- Go's package encoding/json on the structs of the calls: values, and how a struct's fields are written
-- and read. A string that is read is what was written, which is UTF-8. A float is the text of its number.
-- All keys are ASCII.
use whaticket_community.Prelude.{
  ℕ, ◌+◌, ◌^◌, Bool, ◌&&◌, Option, none, some, List, [], ◌∷◌, Bytes, bytes_keyed, ◌==◌,
  if◌then◌else◌, ltb, leb, is_nil, map,
}
use whaticket_community.Prelude.Utf8.{to_utf8}
use whaticket_community.Prelude.Options.{◌>>=◌}

mutual
  pub data Value : Type 0 where
    null : Value
    boolean : Bool → Value
    number : ℕ → Value
    float : Bytes → Value
    text : Bytes → Value
    array : Values → Value
    object : Fields → Value

  pub data Values : Type 0 where
    no_more : Values
    item : Value → Values → Values

  pub data Fields : Type 0 where
    no_fields : Fields
    field : Bytes → Value → Fields → Fields

-- What is written of a string of Go.
abbrev pub string : Bytes → Value
string s = text (to_utf8 s)

-- A field of a struct as it is written: under `omitempty`, one that is empty is left out.
unfoldable pub fields_of : List (Bytes × Option Value) → Fields
fields_of [] = no_fields
fields_of ((name, none) ∷ rest) = fields_of rest
fields_of ((name, some v) ∷ rest) = field name v (fields_of rest)

abbrev pub struct : List (Bytes × Option Value) → Value
struct fields = object (fields_of fields)

unfoldable pub omit_empty : Bytes → Option Value
omit_empty s = if is_nil s then none else some (string s)

abbrev pub texts : List Bytes → Values
texts [] = no_more
texts (s ∷ rest) = item (string s) (texts rest)

-- Keys are compared without regard to case.
abbrev pub lower : ℕ → ℕ
lower c = if leb b'A' c && leb c b'Z' then c + 32 else c

unfoldable pub same_key : Bytes → Bytes → Bool
same_key a b = map lower a == map lower b

-- What a value makes of a field: `null` leaves it, and each other value must fit.
unfoldable pub put : {A : Type 0} → (Value → Option A) → A → Value → Option A
put fits a null = some a
put fits a v = fits v

-- A field of a struct as it is read, from the value that it has.
unfoldable pub read_field : {A : Type 0} → (Value → Option A) → Bytes → A → Fields → Option A
unfolding same_key put
read_field fits name a no_fields = some a
read_field fits name a (field key v rest) =
    if same_key key name
    then elim (put fits a v) [ none ↦ none | some b ↦ read_field fits name b rest ]
    else read_field fits name a rest

-- How a value fits a type of Go: a text, a Boolean, an `int` or a `uint32`, a float, texts, a struct.
abbrev pub as_text : Value → Option Bytes
as_text (text s) = some s
as_text v = none

abbrev pub as_boolean : Value → Option Bool
as_boolean (boolean b) = some b
as_boolean v = none

abbrev pub below : ℕ → Value → Option ℕ
below bound (number n) = if ltb n bound then some n else none
below bound v = none

abbrev pub as_int : Value → Option ℕ
as_int = below (2 ^ 63)

abbrev pub as_uint32 : Value → Option ℕ
as_uint32 = below (2 ^ 32)

abbrev pub as_float : Value → Option Bytes
as_float (float s) = some s
as_float v = none

abbrev pub as_texts : Values → Option (List Bytes)
as_texts no_more = some []
as_texts (item null rest) = do more ← as_texts rest; some ([] ∷ more)
as_texts (item v rest) = do s ← as_text v; more ← as_texts rest; some (s ∷ more)

abbrev pub as_array : Value → Option (List Bytes)
as_array (array vs) = as_texts vs
as_array v = none

abbrev pub as_struct : {A : Type 0} → (Fields → Option A) → Value → Option A
as_struct f (object fs) = f fs
as_struct f v = none

-- A value as a whole, into which `null` puts nothing.
unfoldable pub unmarshal : {A : Type 0} → (Fields → Option A) → Value → Option A
unmarshal f null = f no_fields
unmarshal f v = as_struct f v
