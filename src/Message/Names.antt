-- ===== src/Message/Names.antt =====
-- backend/internal/message/send.go: the kind of a file and its name in the store of media.
use whaticket_community.Prelude.Utf8.{rune_tail}
use whaticket_community.Prelude.{
  ℕ, zero, suc, ◌+◌, ◌≡◌, refl, inl, inr, Bool, true, ◌&&◌, ◌||◌, not, [], ◌∷◌, Bytes, bytes,
  bytes_keyed, ◌==◌, if◌then◌else◌, nat_beq, leb, is_nil, map, reverse, has_prefix, trim_space, All,
  Bool-cases,
}

pub data Kind : Type 0 where
  image audio video document sticker : Kind

abbrev pub kind_text : Kind → Bytes
kind_text image = bytes "image"
kind_text audio = bytes "audio"
kind_text video = bytes "video"
kind_text document = bytes "document"
kind_text sticker = bytes "sticker"

-- `strings.ToLower` of an ASCII text. The other runes whose lower case is ASCII, a Kelvin sign and a dotted
-- I, are left as they are; they stand in no type.
abbrev pub lower : ℕ → ℕ
lower c = if leb b'A' c && leb c b'Z' then c + 32 else c

-- `filepath.Ext`, on the reversed path: the bytes from the last dot of the last element.
abbrev pub ext_from : Bytes → Bytes → Bytes
ext_from acc [] = []
ext_from acc (c ∷ s) =
    let more = ext_from (c ∷ acc) s in
    if nat_beq c b'/' then [] else if nat_beq c b'.' then c ∷ acc else more

unfoldable pub ext : Bytes → Bytes
ext path = ext_from [] (reverse path)

-- `classifyMime`; the extension is compared with an ASCII text.
unfoldable pub classify_mime : Bytes → Bytes → Kind
unfolding trim_space has_prefix ext
classify_mime mime file_name =
    let mt = map lower (trim_space mime) in
    if mt == bytes "image/webp"
      && (not (is_nil file_name) && map lower (ext file_name) == bytes ".webp")
    then image
    else if has_prefix (bytes "image/") mt
    then image
    else if has_prefix (bytes "audio/") mt
    then audio
    else if has_prefix (bytes "video/") mt
    then video
    else document

abbrev pub drop_slashes : Bytes → Bytes
drop_slashes [] = []
drop_slashes (c ∷ s) = let rest = drop_slashes s in if nat_beq c b'/' then rest else c ∷ s

abbrev pub last_element : Bytes → Bytes → Bytes
last_element acc [] = acc
last_element acc (c ∷ s) =
    let more = last_element (c ∷ acc) s in if nat_beq c b'/' then acc else more

-- `filepath.Base` of a path that is not empty
unfoldable pub base : Bytes → Bytes
base path = let s = drop_slashes (reverse path) in if is_nil s then bytes "/" else last_element [] s

abbrev pub is_name_byte : ℕ → Bool
is_name_byte r =
    (leb b'a' r && leb r b'z')
    || ((leb b'A' r && leb r b'Z')
        || ((leb b'0' r && leb r b'9') || (nat_beq r b'.' || (nat_beq r b'_' || nat_beq r b'-'))))

-- Each rune is written as itself or as `_`; the first argument counts the bytes to skip.
abbrev pub sanitize_runes : ℕ → Bytes → Bytes
sanitize_runes n [] = []
sanitize_runes (suc n) (c ∷ s) = sanitize_runes n s
sanitize_runes zero (c ∷ s) =
    (if is_name_byte c then c else b'_') ∷ sanitize_runes (rune_tail c s) s

-- `sanitizeObjectName`
unfoldable pub sanitize_object_name : Bytes → Bytes
unfolding trim_space base rune_tail
sanitize_object_name name =
    let trimmed = trim_space name in if is_nil trimmed then [] else sanitize_runes 0 (base trimmed)

abbrev pub IsNameByte : ℕ → Type 0
IsNameByte c = is_name_byte c ≡ true

sanitize_runes-IsNameByte : (n : ℕ) (s : Bytes) → All IsNameByte (sanitize_runes n s)
sanitize_runes-IsNameByte n [] = tt
sanitize_runes-IsNameByte (suc n) (c ∷ s) = sanitize_runes-IsNameByte n s
sanitize_runes-IsNameByte zero (c ∷ s) = elim (Bool-cases (is_name_byte c)) [
  | inl y ↦ rw y (y, sanitize_runes-IsNameByte (rune_tail c s) s)
  | inr k ↦ rw k (refl, sanitize_runes-IsNameByte (rune_tail c s) s)
]

-- A name in the store has letters, digits, dots, underscores and dashes only.
pub sanitize_object_name-IsNameByte : (name : Bytes) → All IsNameByte (sanitize_object_name name)
unfolding sanitize_object_name
sanitize_object_name-IsNameByte name = elim (Bool-cases (is_nil (trim_space name))) [
  | inl y ↦ rw (y, sanitize_object_name) tt
  | inr n ↦ rw (n, sanitize_object_name) (sanitize_runes-IsNameByte 0 (base (trim_space name)))
]
