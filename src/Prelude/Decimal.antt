-- ===== src/Prelude/Decimal.antt =====
-- Decimal numbers as Go's `%d` prints them and `strconv.ParseUint(s, 10, 64)` reads them.
use Prim.Native.Nat.{ℕ, zero, suc, ◌+◌, ◌-◌, ◌*◌, ◌/◌, ◌%◌, ◌^◌, ◌<◌}
use mathlib.Core.Path.{◌≡◌, refl, ◌∙◌}
use mathlib.Core.Logic.{inl, inr, ◌≢◌}
use mathlib.Core.Bool.{Bool, true, ◌&&◌}
use mathlib.Core.List.{[], ◌∷◌, ◌++◌}
use mathlib.Core.Option.{Option, none, some}
use native.Mathlib.Omega.{arith}
use whaticket_community.Prelude.Tests.{Bytes, if◌then◌else◌, ltb, leb, Bool-cases}

abbrev pub is_digit : ℕ → Bool
is_digit c = leb b'0' c && leb c b'9'

unfoldable pub parse_digits : ℕ → Bytes → Option ℕ
parse_digits acc [] = some acc
parse_digits acc (c ∷ s) =
    let rest = parse_digits (acc * 10 + (c - b'0')) s in if is_digit c then rest else none

-- An empty text, a byte that is no digit and a value past 64 bits are all errors.
unfoldable pub parse_uint : Bytes → Option ℕ
parse_uint [] = none
parse_uint (c ∷ s) = elim (parse_digits 0 (c ∷ s)) [
  | none ↦ none
  | some n ↦ if ltb n (2 ^ 64) then some n else none
]

-- The fuel bounds the number of digits: a number has at most as many as itself, and one.
unfoldable pub digits_of : ℕ → ℕ → Bytes
digits_of zero n = []
digits_of (suc f) n =
    let rest = digits_of f (n / 10) in
    if ltb n 10 then (n + b'0') ∷ [] else rest ++ (n % 10 + b'0') ∷ []

unfoldable pub print_uint : ℕ → Bytes
unfolding digits_of
print_uint n = digits_of (suc n) n

parse_digits-append :
    (acc : ℕ) (s t : Bytes) (a : ℕ)
    → parse_digits acc s ≡ some a
    → parse_digits acc (s ++ t) ≡ parse_digits a t
unfolding parse_digits
parse_digits-append acc [] t a h = ground arith
parse_digits-append acc (c ∷ s) t a h =
    ground (arith, parse_digits-append (acc * 10 + (c - b'0')) s t a)

parse_digits-digits_of : (f n : ℕ) → n < f → parse_digits 0 (digits_of f n) ≡ some n
unfolding digits_of
parse_digits-digits_of zero n h = elim h [ ]
parse_digits-digits_of (suc f) n h = elim (Bool-cases (ltb n 10)) [
  | inl small ↦ rw small (unfold parse_digits in ground arith)
  | inr large ↦ rw large (
      parse_digits-append 0 (digits_of f (n / 10)) _ (n / 10)
        (parse_digits-digits_of f (n / 10) (ground arith))
      ∙ unfold parse_digits in ground arith)
]

unfoldable pub all_digits : Bytes → Bool
all_digits [] = true
all_digits (c ∷ s) = is_digit c && all_digits s

all_digits-append : (s t : Bytes) → all_digits (s ++ t) ≡ (all_digits s && all_digits t)
unfolding all_digits
all_digits-append [] t = ground arith
all_digits-append (c ∷ s) t = ground (arith, all_digits-append s t)

all_digits-digits_of : (f n : ℕ) → all_digits (digits_of f n) ≡ true
unfolding digits_of
all_digits-digits_of zero n = unfold all_digits in ground arith
all_digits-digits_of (suc f) n = elim (Bool-cases (ltb n 10)) [
  | inl small ↦ rw small (unfold all_digits in ground arith)
  | inr large ↦
      rw (large, all_digits-append (digits_of f (n / 10)) _, all_digits-digits_of f (n / 10))
        (unfold all_digits in ground arith)
]

pub all_digits-print_uint : (n : ℕ) → all_digits (print_uint n) ≡ true
unfolding print_uint
all_digits-print_uint n = all_digits-digits_of (suc n) n

parse_uint-of-parse_digits :
    (s : Bytes) (n : ℕ) → s ≢ [] → parse_digits 0 s ≡ some n → n < 2 ^ 64 → parse_uint s ≡ some n
unfolding parse_uint
parse_uint-of-parse_digits [] n e p h = absurd (e refl)
parse_uint-of-parse_digits (c ∷ s) n e p h = rw (p, parse_uint) (ground arith)

append-ne-nil : (s : Bytes) (c : ℕ) → s ++ c ∷ [] ≢ []
append-ne-nil [] c e = cc
append-ne-nil (d ∷ s) c e = cc

pub print_uint-ne-nil : (n : ℕ) → print_uint n ≢ []
unfolding print_uint
print_uint-ne-nil n = elim (Bool-cases (ltb n 10)) [
  | inl small ↦ rw small (λ e. cc)
  | inr large ↦ rw large (append-ne-nil (digits_of n (n / 10)) (n % 10 + b'0'))
]

pub parse_uint-print_uint : (n : ℕ) → n < 2 ^ 64 → parse_uint (print_uint n) ≡ some n
parse_uint-print_uint n h =
    parse_uint-of-parse_digits (print_uint n) n (print_uint-ne-nil n)
      (unfold print_uint in parse_digits-digits_of (suc n) n (omega arith)) h
