-- ===== src/Prelude/Utf8.antt =====
-- Runes, as Go reads them out of a string, and what encoding/json writes of a string.
use whaticket_community.Prelude.{
  ℕ, zero, suc, ◌≡◌, ◌<◌, refl, ap, Bool, true, false, ◌&&◌, [], ◌∷◌, Bytes, if◌then◌else◌, nat_beq,
  leb, All, arith,
}

abbrev pub within : ℕ → ℕ → Bytes → Bool
within low high [] = false
within low high (c ∷ s) = leb low c && leb c high

abbrev pub continued : ℕ → Bytes → Bool
continued zero s = true
continued (suc n) [] = false
continued (suc n) (c ∷ s) = (leb 128 c && leb c 191) && continued n s

abbrev pub rest_of : Bytes → Bytes
rest_of [] = []
rest_of (c ∷ s) = s

-- How many bytes after this one belong to its rune, as `range` reads it: none where it is no UTF-8.
unfoldable pub rune_tail : ℕ → Bytes → ℕ
rune_tail c s =
    let two = if leb 194 c && leb c 223 && within 128 191 s then 1 else 0 in
    let low = if nat_beq c 224 then 160 else if nat_beq c 240 then 144 else 128 in
    let high = if nat_beq c 237 then 159 else if nat_beq c 244 then 143 else 191 in
    let three =
      if leb 224 c && leb c 239 && (within low high s && continued 1 (rest_of s)) then 2 else two in
    if leb 240 c && leb c 244 && (within low high s && continued 2 (rest_of s)) then 3 else three

-- The bytes of each rune, and the replacement character for each byte that belongs to none; the first
-- argument counts the bytes of a rune that follow.
abbrev pub runes_or_replacements : ℕ → Bytes → Bytes
runes_or_replacements n [] = []
runes_or_replacements (suc n) (c ∷ s) = c ∷ runes_or_replacements n s
runes_or_replacements zero (c ∷ s) =
    let n = rune_tail c s in
    let later = runes_or_replacements n s in
    if leb 128 c && nat_beq n 0 then 239 ∷ 191 ∷ 189 ∷ later else c ∷ later

-- A string of JSON is UTF-8: encoding/json replaces what is not.
unfoldable pub to_utf8 : Bytes → Bytes
unfolding rune_tail
to_utf8 s = runes_or_replacements 0 s

abbrev pub IsAscii : ℕ → Type 0
IsAscii c = c < 128

rune_tail-IsAscii : (c : ℕ) (s : Bytes) → IsAscii c → rune_tail c s ≡ 0
unfolding rune_tail
rune_tail-IsAscii c s h = ground arith

-- An ASCII text is left as it is.
pub to_utf8-IsAscii : (s : Bytes) → All IsAscii s → to_utf8 s ≡ s
unfolding to_utf8
to_utf8-IsAscii [] h = refl
to_utf8-IsAscii (c ∷ s) (a, rest) =
    let low : leb 128 c ≡ false = ground (arith, a) in
    rw (rune_tail-IsAscii c s a, low) (ap (λ (t : Bytes). c ∷ t) (to_utf8-IsAscii s rest))
