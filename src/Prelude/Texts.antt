-- ===== src/Prelude/Texts.antt =====
-- What the program asks of Go's package strings, on the bytes of a text.
use Prim.Native.Nat.{ℕ, zero, suc}
use mathlib.Core.Path.{◌≡◌, refl}
use mathlib.Core.Bool.{Bool, true, false, ◌||◌, ◌&&◌}
use mathlib.Core.Option.{Option, none, some}
use mathlib.Core.List.{[], ◌∷◌, ◌++◌}
use native.Mathlib.Omega.{arith}
use whaticket_community.Prelude.Tests.{
  Bytes, bytes_beq_iff, nat_beq, if◌then◌else◌, bytes_keyed, ◌==◌,
}
use whaticket_community.Prelude.Lists.{take, drop, length, is_nil}

-- `strings.IndexByte`, `none` for -1
unfoldable pub index_byte : ℕ → Bytes → Option ℕ
index_byte b [] = none
index_byte b (c ∷ s) =
    let rest = index_byte b s in
    if nat_beq c b then some 0 else elim rest [ none ↦ none | some i ↦ some (suc i) ]

unfoldable pub has_prefix : Bytes → Bytes → Bool
has_prefix [] s = true
has_prefix (p ∷ ps) [] = false
has_prefix (p ∷ ps) (c ∷ s) = nat_beq p c && has_prefix ps s

unfoldable pub has_suffix : Bytes → Bytes → Bool
has_suffix suffix [] = is_nil suffix
has_suffix suffix (c ∷ s) = suffix == c ∷ s || has_suffix suffix s

unfoldable pub trim_prefix : Bytes → Bytes → Bytes
unfolding has_prefix
trim_prefix p s = if has_prefix p s then drop (length p) s else s

pub take-index-drop :
    (b : ℕ) (s : Bytes) (i : ℕ) → index_byte b s ≡ some i → take i s ++ b ∷ drop (suc i) s ≡ s
unfolding index_byte take drop
take-index-drop b [] i h = cc
take-index-drop b (c ∷ s) zero h = ground arith
take-index-drop b (c ∷ s) (suc i) h = ground (arith, take-index-drop b s i)

pub has_prefix-append : (p s : Bytes) → has_prefix p (p ++ s) ≡ true
unfolding has_prefix
has_prefix-append [] s = refl
has_prefix-append (c ∷ p) s = ground (arith, has_prefix-append p s)

pub take-length-append : (p s : Bytes) → take (length p) (p ++ s) ≡ p
unfolding take
take-length-append [] s = refl
take-length-append (c ∷ p) s = rw (take-length-append p s)

pub drop-length-append : (p s : Bytes) → drop (length p) (p ++ s) ≡ s
unfolding drop
drop-length-append [] s = refl
drop-length-append (c ∷ p) s = rw (drop-length-append p s)

pub drop_past : (p s : Bytes) (b : ℕ) → drop (suc (length p)) (p ++ b ∷ s) ≡ s
unfolding drop
drop_past [] s b = refl
drop_past (c ∷ p) s b = rw (drop_past p s b)

pub has_suffix-append : (suffix s : Bytes) → has_suffix suffix (s ++ suffix) ≡ true
unfolding has_suffix
has_suffix-append [] [] = refl
has_suffix-append (b ∷ t) [] = ground (arith, bytes_beq_iff (b ∷ t) (b ∷ t))
has_suffix-append suffix (c ∷ s) = ground (arith, has_suffix-append suffix s)

-- `strings.Contains`
unfoldable pub contains : Bytes → Bytes → Bool
unfolding has_prefix
contains [] part = is_nil part
contains (c ∷ s) part = has_prefix part (c ∷ s) || contains s part
