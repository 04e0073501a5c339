-- ===== src/Media/DataUrl/Plain.antt =====
-- A text that begins and ends with a plain character is left by `strings.TrimSpace`.
use whaticket_community.Prelude.{
  ℕ, zero, suc, ◌≡◌, refl, ap, Bool, true, false, ◌&&◌, ◌||◌, List, [], ◌∷◌, ◌++◌, map, reverse,
  Bytes, leb, All, arith, front, trim_front, trim_space, white_runes, length, has_prefix,
}
use mathlib.Core.List.{reverse-append, reverse-reverse}
use whaticket_community.Media.Base64.{IsPlain}

-- Each rune begins with a byte that is not plain.
abbrev begin_apart : List Bytes → Bool
begin_apart [] = true
begin_apart ([] ∷ runes) = false
begin_apart ((p ∷ rune) ∷ runes) = (leb p 32 || leb 128 p) && begin_apart runes

front-plain :
    (runes : List Bytes) (c : ℕ) (s : Bytes)
    → begin_apart runes ≡ true
    → IsPlain c
    → front runes (c ∷ s) ≡ 0
unfolding front has_prefix
front-plain [] c s a h = refl
front-plain ([] ∷ runes) c s a h = cc
front-plain ((p ∷ rune) ∷ runes) c s a h = ground (arith, front-plain runes c s)

trim_front-keeps :
    (n : ℕ) (runes : List Bytes) (s : Bytes) → front runes s ≡ 0 → trim_front n runes s ≡ s
unfolding trim_front
trim_front-keeps zero runes s h = refl
trim_front-keeps (suc n) runes s h = rw (h, trim_front) refl

pub trim_space-keeps :
    (c d : ℕ) (s : Bytes) → IsPlain c → IsPlain d → trim_space (c ∷ s ++ d ∷ []) ≡ c ∷ s ++ d ∷ []
unfolding trim_space
trim_space-keeps c d s hc hd =
    let t = c ∷ s ++ d ∷ [] in
    let first : trim_front (length t) white_runes t ≡ t =
      trim_front-keeps (length t) white_runes t (front-plain white_runes c (s ++ d ∷ []) refl hc) in
    let back : reverse t ≡ d ∷ reverse (c ∷ s) = reverse-append (c ∷ s) (d ∷ []) in
    let second : trim_front (length (reverse t)) (map reverse white_runes) (reverse t) ≡ reverse t =
      trim_front-keeps (length (reverse t)) (map reverse white_runes) (reverse t)
        (rw back (front-plain (map reverse white_runes) d (reverse (c ∷ s)) refl hd)) in
    rw (first, second) (reverse-reverse t)

-- The last character of a text.
pub ends-IsPlain :
    (c : ℕ) (s : Bytes)
    → IsPlain c
    → All IsPlain s
    → (t : Bytes) × (d : ℕ) × (c ∷ s ≡ t ++ d ∷ []) × IsPlain d
ends-IsPlain c [] h a = ([], c, refl, h)
ends-IsPlain c (b ∷ s) h a =
    let (t, d, e, p) = ends-IsPlain b s a.0 a.1 in (c ∷ t, d, ap (λ (u : Bytes). c ∷ u) e, p)
