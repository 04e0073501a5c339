-- ===== src/Events/Types.antt =====
-- The routing keys of the events: worker/internal/whatsmeow/events.go prints them, and
-- backend/internal/waevents/consumer.go reads them.
use whaticket_community.Prelude.{
  ℕ, suc, ◌<◌, ◌^◌, ◌≡◌, ◌≢◌, refl, true, false, ◌||◌, not, Option, none, some, [], ◌∷◌, ◌++◌,
  arith, Bytes, bytes, bytes_keyed, if◌then◌else◌, nat_beq, length, length-append, drop_past, take,
  drop, index_byte, has_prefix, trim_prefix, parse_uint, print_uint, all_digits,
  all_digits-print_uint, print_uint-ne-nil, parse_uint-print_uint, take-length-append,
  has_prefix-append,
}

abbrev pub type_prefix : Bytes
type_prefix = bytes "wa.event."

-- `fmt.Sprintf("wa.event.%d.%s", connID, eventType)`
unfoldable pub event_type : ℕ → Bytes → Bytes
event_type id name = type_prefix ++ print_uint id ++ b'.' ∷ name

-- The id and the name around the first dot.
unfoldable pub split_type : Bytes → Option (ℕ × Bytes)
split_type rest = elim (index_byte b'.' rest) [
  | none ↦ none
  | some dot ↦
      if nat_beq dot 0 || nat_beq (suc dot) (length rest)
      then none
      else elim (parse_uint (take dot rest)) [
        | none ↦ none
        | some id ↦ some (id, drop (suc dot) rest)
      ]
]

unfoldable pub parse_event_type : Bytes → Option (ℕ × Bytes)
unfolding split_type
parse_event_type s =
    if not (has_prefix type_prefix s) then none else split_type (trim_prefix type_prefix s)

trim_type : (s : Bytes) → trim_prefix type_prefix (type_prefix ++ s) ≡ s
unfolding trim_prefix has_prefix drop
trim_type s = refl

index-digits :
    (d name : Bytes) → all_digits d ≡ true → index_byte b'.' (d ++ b'.' ∷ name) ≡ some (length d)
unfolding index_byte all_digits
index-digits [] name h = refl
index-digits (c ∷ d) name h = ground (arith, index-digits d name)

split_type-digits :
    (d name : Bytes) (id : ℕ)
    → all_digits d ≡ true
    → d ≢ []
    → name ≢ []
    → parse_uint d ≡ some id
    → split_type (d ++ b'.' ∷ name) ≡ some (id, name)
unfolding split_type
split_type-digits [] name id a n m p = absurd (n refl)
split_type-digits (c ∷ d) [] id a n m p = absurd (m refl)
split_type-digits (c ∷ d) (e ∷ name) id a n m p =
    let long : nat_beq (suc (length (c ∷ d))) (length ((c ∷ d) ++ b'.' ∷ e ∷ name)) ≡ false =
      ground (arith, length-append d (b'.' ∷ e ∷ name)) in
    rw
      (
        split_type,
        index-digits (c ∷ d) (e ∷ name) a,
        long,
        take-length-append (c ∷ d) (b'.' ∷ e ∷ name),
        p,
        drop_past (c ∷ d) (e ∷ name) b'.',
      )
      (ground arith)

-- An event that the worker publishes for a connection, with a name that is not empty and an id of 64
-- bits, is read as that connection and that name.
pub parse_event_type-event_type :
    (id : ℕ) (name : Bytes)
    → id < 2 ^ 64
    → name ≢ []
    → parse_event_type (event_type id name) ≡ some (id, name)
unfolding parse_event_type event_type
parse_event_type-event_type id name h n =
    rw
      (
        has_prefix-append type_prefix (print_uint id ++ b'.' ∷ name),
        trim_type (print_uint id ++ b'.' ∷ name),
      )
      (split_type-digits (print_uint id) name id (all_digits-print_uint id) (print_uint-ne-nil id) n
        (parse_uint-print_uint id h))
