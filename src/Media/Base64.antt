-- ===== src/Media/Base64.antt =====
-- Go's `base64.StdEncoding`, which backend/internal/message/send.go writes and
-- worker/internal/media/outbound.go reads.
use whaticket_community.Prelude.{
  ℕ, ◌+◌, ◌-◌, ◌*◌, ◌/◌, ◌%◌, ◌<◌, ◌≡◌, refl, Bool, true, false, ◌&&◌, Option, none, some, [], ◌∷◌,
  Bytes, if◌then◌else◌, ltb, leb, nat_beq, All, filter, is_nil, arith, ◌++◌, not, ◌||◌,
}
use whaticket_community.Prelude.Options.{◌>>=◌}

unfoldable pub digit : ℕ → ℕ
digit n =
    if ltb n 26
    then n + b'A'
    else if ltb n 52
    then n - 26 + b'a'
    else if ltb n 62
    then n - 52 + b'0'
    else if nat_beq n 62
    then b'+'
    else b'/'

unfoldable pub value : ℕ → Option ℕ
value c =
    if leb b'A' c && leb c b'Z'
    then some (c - b'A')
    else if leb b'a' c && leb c b'z'
    then some (c - b'a' + 26)
    else if leb b'0' c && leb c b'9'
    then some (c - b'0' + 52)
    else if nat_beq c b'+'
    then some 62
    else if nat_beq c b'/'
    then some 63
    else none

abbrev pub pad : ℕ
pad = b'='

-- `EncodeToString`
unfoldable pub encode_base64 : Bytes → Bytes
unfolding digit
encode_base64 [] = []
encode_base64 (a ∷ []) = digit (a / 4) ∷ digit (a % 4 * 16) ∷ pad ∷ pad ∷ []
encode_base64 (a ∷ b ∷ []) =
    digit (a / 4) ∷ digit (a % 4 * 16 + b / 16) ∷ digit (b % 16 * 4) ∷ pad ∷ []
encode_base64 (a ∷ b ∷ c ∷ s) =
    digit (a / 4)
    ∷ digit (a % 4 * 16 + b / 16)
    ∷ digit (b % 16 * 4 + c / 64)
    ∷ digit (c % 64)
    ∷ encode_base64 s

abbrev pub fourth : ℕ → ℕ → ℕ → ℕ → Bool → Option Bytes
fourth w x y d last =
    if nat_beq d pad
    then if last then some ((w * 4 + x / 16) ∷ (x % 16 * 16 + y / 4) ∷ []) else none
    else value d >>= λ z. some ((w * 4 + x / 16) ∷ (x % 16 * 16 + y / 4) ∷ (y % 4 * 64 + z) ∷ [])

abbrev pub third : ℕ → ℕ → ℕ → ℕ → Bool → Option Bytes
third w x c d last =
    if nat_beq c pad
    then if nat_beq d pad && last then some ((w * 4 + x / 16) ∷ []) else none
    else value c >>= λ y. fourth w x y d last

-- The bytes of four characters, of which the last two may be padding where nothing follows.
unfoldable pub quantum : ℕ → ℕ → ℕ → ℕ → Bool → Option Bytes
unfolding value
quantum a b c d last = do w ← value a; x ← value b; third w x c d last

unfoldable pub quanta : Bytes → Option Bytes
unfolding quantum
quanta [] = some []
quanta (a ∷ []) = none
quanta (a ∷ b ∷ []) = none
quanta (a ∷ b ∷ c ∷ []) = none
quanta (a ∷ b ∷ c ∷ d ∷ s) = do
  front ← quantum a b c d (is_nil s)
  rest ← quanta s
  some (front ++ rest)

abbrev pub no_newline : ℕ → Bool
no_newline c = not (nat_beq c 10 || nat_beq c 13)

-- A character that neither is white nor stands in the encoding of a longer rune.
abbrev pub IsPlain : ℕ → Type 0
IsPlain c = (ltb 32 c && ltb c 128) ≡ true

-- `DecodeString`, which skips the ends of lines.
unfoldable pub decode_base64 : Bytes → Option Bytes
unfolding quanta filter
decode_base64 s = quanta (filter no_newline s)

value-digit : (n : ℕ) → n < 64 → value (digit n) ≡ some n
unfolding value digit
value-digit n h = ground arith

digit-ne-pad : (n : ℕ) → n < 64 → nat_beq (digit n) pad ≡ false
unfolding digit
digit-ne-pad n h = ground arith

digit-IsPlain : (n : ℕ) → n < 64 → IsPlain (digit n)
unfolding digit
digit-IsPlain n h = ground arith

abbrev pub IsByte : ℕ → Type 0
IsByte b = b < 256

-- The first byte of a quantum, from six bits and two.
first_byte : (a b : ℕ) → b < 256 → a / 4 * 4 + (a % 4 * 16 + b / 16) / 16 ≡ a
first_byte a b h = omega arith

quantum-one :
    (a : ℕ) → a < 256 → quantum (digit (a / 4)) (digit (a % 4 * 16)) pad pad true ≡ some (a ∷ [])
unfolding quantum
quantum-one a ha =
    let same : a / 4 * 4 + a % 4 * 16 / 16 ≡ a = omega arith in
    rw (value-digit (a / 4) (omega arith), value-digit (a % 4 * 16) (omega arith), same) refl

quantum-two :
    (a b : ℕ)
    → a < 256
    → b < 256
    → quantum (digit (a / 4)) (digit (a % 4 * 16 + b / 16)) (digit (b % 16 * 4)) pad true
      ≡ some (a ∷ b ∷ [])
unfolding quantum
quantum-two a b ha hb =
    let same : (a % 4 * 16 + b / 16) % 16 * 16 + b % 16 * 4 / 4 ≡ b = omega arith in
    rw
      (
        value-digit (a / 4) (omega arith),
        value-digit (a % 4 * 16 + b / 16) (omega arith),
        digit-ne-pad (b % 16 * 4) (omega arith),
        value-digit (b % 16 * 4) (omega arith),
        first_byte a b hb,
        same,
      )
      refl

quantum-three :
    (a b c : ℕ) (last : Bool)
    → a < 256
    → b < 256
    → c < 256
    → quantum
        (digit (a / 4))
        (digit (a % 4 * 16 + b / 16))
        (digit (b % 16 * 4 + c / 64))
        (digit (c % 64))
        last
      ≡ some (a ∷ b ∷ c ∷ [])
unfolding quantum
quantum-three a b c last ha hb hc =
    let same : (a % 4 * 16 + b / 16) % 16 * 16 + (b % 16 * 4 + c / 64) / 4 ≡ b = omega arith in
    let third : (b % 16 * 4 + c / 64) % 4 * 64 + c % 64 ≡ c = omega arith in
    rw
      (
        value-digit (a / 4) (omega arith),
        value-digit (a % 4 * 16 + b / 16) (omega arith),
        digit-ne-pad (b % 16 * 4 + c / 64) (omega arith),
        value-digit (b % 16 * 4 + c / 64) (omega arith),
        digit-ne-pad (c % 64) (omega arith),
        value-digit (c % 64) (omega arith),
        first_byte a b hb,
        same,
        third,
      )
      refl

quanta-encode_base64 : (s : Bytes) → All IsByte s → quanta (encode_base64 s) ≡ some s
unfolding quanta encode_base64
quanta-encode_base64 [] h = refl
quanta-encode_base64 (a ∷ []) h = rw (quantum-one a h.0) refl
quanta-encode_base64 (a ∷ b ∷ []) h = rw (quantum-two a b h.0 h.1.0) refl
quanta-encode_base64 (a ∷ b ∷ c ∷ s) h =
    rw
      (
        quantum-three a b c (is_nil (encode_base64 s)) h.0 h.1.0 h.1.1.0,
        quanta-encode_base64 s h.1.1.1,
      )
      refl

pub encode_base64-IsPlain : (s : Bytes) → All IsByte s → All IsPlain (encode_base64 s)
unfolding encode_base64
encode_base64-IsPlain [] h = tt
encode_base64-IsPlain (a ∷ []) h = (
  digit-IsPlain (a / 4) (omega (arith, h.0)),
  (digit-IsPlain (a % 4 * 16) (omega arith), (refl, (refl, tt))),
)
encode_base64-IsPlain (a ∷ b ∷ []) h = (
  digit-IsPlain (a / 4) (omega (arith, h.0)),
  (
    digit-IsPlain (a % 4 * 16 + b / 16) (omega (arith, h.1.0)),
    (digit-IsPlain (b % 16 * 4) (omega arith), (refl, tt)),
  ),
)
encode_base64-IsPlain (a ∷ b ∷ c ∷ s) h = (
  digit-IsPlain (a / 4) (omega (arith, h.0)),
  (
    digit-IsPlain (a % 4 * 16 + b / 16) (omega (arith, h.1.0)),
    (
      digit-IsPlain (b % 16 * 4 + c / 64) (omega (arith, h.1.1.0)),
      (digit-IsPlain (c % 64) (omega arith), encode_base64-IsPlain s h.1.1.1),
    ),
  ),
)

-- No line ends in a plain text.
filter-plain : (s : Bytes) → All IsPlain s → filter no_newline s ≡ s
unfolding filter
filter-plain [] h = refl
filter-plain (c ∷ s) h = ground (arith, h.0, filter-plain s h.1)

-- What was encoded is decoded to the same bytes.
pub decode-encode_base64 : (s : Bytes) → All IsByte s → decode_base64 (encode_base64 s) ≡ some s
unfolding decode_base64
decode-encode_base64 s h =
    rw (filter-plain (encode_base64 s) (encode_base64-IsPlain s h)) (quanta-encode_base64 s h)
