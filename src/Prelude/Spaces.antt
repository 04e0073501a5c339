-- ===== src/Prelude/Spaces.antt =====
-- Go's `strings.TrimSpace` on the bytes of a text: the encodings of the white runes go from both ends.
use Prim.Native.Nat.{ℕ, zero, suc, ◌≤◌}
use mathlib.Core.Path.{◌≡◌}
use mathlib.Core.Logic.{inl, inr}
use mathlib.Core.List.{List, [], ◌∷◌, map, reverse}
use native.Mathlib.Omega.{arith}
use whaticket_community.Prelude.Tests.{Bytes, if◌then◌else◌, ℕ-cases}
use whaticket_community.Prelude.Lists.{length, drop, length-drop}
use whaticket_community.Prelude.Texts.{has_prefix}

-- `unicode.IsSpace`, each rune in UTF-8.
abbrev pub white_runes : List Bytes
white_runes =
    (9 ∷ [])
    ∷ (10 ∷ [])
    ∷ (11 ∷ [])
    ∷ (12 ∷ [])
    ∷ (13 ∷ [])
    ∷ (32 ∷ [])
    ∷ (0xC2 ∷ 0x85 ∷ [])
    ∷ (0xC2 ∷ 0xA0 ∷ [])
    ∷ (0xE1 ∷ 0x9A ∷ 0x80 ∷ [])
    ∷ (0xE2 ∷ 0x80 ∷ 0x80 ∷ [])
    ∷ (0xE2 ∷ 0x80 ∷ 0x81 ∷ [])
    ∷ (0xE2 ∷ 0x80 ∷ 0x82 ∷ [])
    ∷ (0xE2 ∷ 0x80 ∷ 0x83 ∷ [])
    ∷ (0xE2 ∷ 0x80 ∷ 0x84 ∷ [])
    ∷ (0xE2 ∷ 0x80 ∷ 0x85 ∷ [])
    ∷ (0xE2 ∷ 0x80 ∷ 0x86 ∷ [])
    ∷ (0xE2 ∷ 0x80 ∷ 0x87 ∷ [])
    ∷ (0xE2 ∷ 0x80 ∷ 0x88 ∷ [])
    ∷ (0xE2 ∷ 0x80 ∷ 0x89 ∷ [])
    ∷ (0xE2 ∷ 0x80 ∷ 0x8A ∷ [])
    ∷ (0xE2 ∷ 0x80 ∷ 0xA8 ∷ [])
    ∷ (0xE2 ∷ 0x80 ∷ 0xA9 ∷ [])
    ∷ (0xE2 ∷ 0x80 ∷ 0xAF ∷ [])
    ∷ (0xE2 ∷ 0x81 ∷ 0x9F ∷ [])
    ∷ (0xE3 ∷ 0x80 ∷ 0x80 ∷ [])
    ∷ []

-- How many bytes the rune at the front has, 0 when it is none of these.
unfoldable pub front : List Bytes → Bytes → ℕ
front [] s = 0
front (rune ∷ runes) s = if has_prefix rune s then length rune else front runes s

-- A round takes one rune away; as many rounds as there are bytes are enough.
unfoldable pub trim_front : ℕ → List Bytes → Bytes → Bytes
trim_front zero runes s = s
trim_front (suc n) runes s = elim (front runes s) [
  | zero ↦ s
  | suc k ↦ trim_front n runes (drop (suc k) s)
]

unfoldable pub trim_space : Bytes → Bytes
unfolding trim_front front has_prefix drop
trim_space s =
    let t = reverse (trim_front (length s) white_runes s) in
    reverse (trim_front (length t) (map reverse white_runes) t)

-- When the rounds end, no rune of the list is at the front.
pub trim_front-ends :
    (n : ℕ) (runes : List Bytes) (s : Bytes)
    → length s ≤ n
    → front runes [] ≡ 0
    → front runes (trim_front n runes s) ≡ 0
unfolding trim_front
trim_front-ends zero runes [] h e = e
trim_front-ends zero runes (c ∷ s) h e = absurd (omega arith)
trim_front-ends (suc n) runes s h e = elim (ℕ-cases (front runes s)) [
  | inl z ↦ rw (z, trim_front) z
  | inr (k, p) ↦
      rw (p, trim_front)
        (trim_front-ends n runes (drop (suc k) s) (omega (arith, length-drop (suc k) s)) e)
]
