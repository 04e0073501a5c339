-- ===== src/Rpc/Fields.antt =====
-- What is read of a struct that was written: each field is met under its own key, and those of other
-- keys do not matter.
use whaticket_community.Prelude.{
  ℕ, ◌^◌, ◌<◌, ◌≡◌, refl, ap, inl, inr, Bool, true, false, Option, none, some, List, [], ◌∷◌, Bytes,
  map, bytes_keyed, if◌then◌else◌, nat_beq, arith, Bool-cases, Option-cases,
}
use whaticket_community.Prelude.Utf8.{to_utf8}
use whaticket_community.Rpc.Json.{
  Value, boolean, number, float, text, array, fields_of, omit_empty, texts, same_key, put,
  read_field, as_text, as_int, as_uint32, as_boolean, as_float, as_array, as_texts,
}

-- What a field that may have been left out makes of a value.
unfoldable pub put_field : {A : Type 0} → (Value → Option A) → A → Option Value → Option A
unfolding put
put_field fits a none = some a
put_field fits a (some v) = put fits a v

unfoldable pub read_list :
    {A : Type 0} → (Value → Option A) → Bytes → A → List (Bytes × Option Value) → Option A
unfolding same_key put_field
read_list fits name a [] = some a
read_list fits name a ((key, o) ∷ rest) =
    if same_key key name
    then elim (put_field fits a o) [ none ↦ none | some b ↦ read_list fits name b rest ]
    else read_list fits name a rest

pub read_field-fields_of :
    {A : Type 0} (fits : Value → Option A) (name : Bytes) (a : A) (fs : List (Bytes × Option Value))
    → read_field fits name a (fields_of fs) ≡ read_list fits name a fs
unfolding read_field read_list fields_of put_field
read_field-fields_of fits name a [] = refl
read_field-fields_of fits name a ((key, none) ∷ rest) = elim (Bool-cases (same_key key name)) [
  | inl y ↦ rw (y, read_list) (read_field-fields_of fits name a rest)
  | inr n ↦ rw (n, read_list) (read_field-fields_of fits name a rest)
]
read_field-fields_of fits name a ((key, some v) ∷ rest) = elim (Bool-cases (same_key key name)) [
  | inr n ↦ rw (n, read_list, read_field) (read_field-fields_of fits name a rest)
  | inl y ↦ elim (Option-cases (put fits a v)) [
    | inl e ↦ rw (y, e, read_list, read_field) refl
    | inr (b, e) ↦ rw (y, e, read_list, read_field) (read_field-fields_of fits name b rest)
  ]
]

pub put-text : (a s : Bytes) → put_field as_text a (some (text s)) ≡ some s
unfolding put_field put
put-text a s = refl

pub put-omit_empty : (s : Bytes) → put_field as_text [] (omit_empty s) ≡ some (to_utf8 s)
unfolding put_field put omit_empty to_utf8
put-omit_empty [] = refl
put-omit_empty (c ∷ s) = refl

pub put-int : (a n : ℕ) → n < 2 ^ 63 → put_field as_int a (some (number n)) ≡ some n
unfolding put_field put
put-int a n h = ground arith

pub put-seconds :
    (n : ℕ)
    → n < 2 ^ 32
    → put_field as_uint32 0 (if nat_beq n 0 then none else some (number n)) ≡ some n
unfolding put_field put
put-seconds n h = elim (Bool-cases (nat_beq n 0)) [
  | inl y ↦ rw (y) (let z : 0 ≡ n = ground (arith, y) in ap some z)
  | inr k ↦ rw (k) (ground arith)
]

pub put-float : (a s : Bytes) → put_field as_float a (some (float s)) ≡ some s
unfolding put_field put
put-float a s = refl

pub as_texts-texts : (l : List Bytes) → as_texts (texts l) ≡ some (map to_utf8 l)
as_texts-texts [] = refl
as_texts-texts (s ∷ l) = rw (as_texts-texts l)

pub put-texts :
    (a l : List Bytes) → put_field as_array a (some (array (texts l))) ≡ some (map to_utf8 l)
unfolding put_field put
put-texts a l = as_texts-texts l

pub put-flag :
    (b : Bool) → put_field as_boolean false (if b then some (boolean true) else none) ≡ some b
unfolding put_field put
put-flag true = refl
put-flag false = refl

pub ruleset fields = (
  read_field-fields_of, put-text, put-omit_empty, put-int, put-seconds, put-float, put-texts,
  put-flag,
)
