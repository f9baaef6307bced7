-- ===== src/Base/Numeral.antt =====
-- The number formats of <stdlib.h> and <stdio.h>: strtol, atoi and the conversions of sscanf.
pub mod Decimal
use Prim.Native.Nat.{ℕ, zero, suc, ◌+◌, ◌-◌, ◌*◌, ◌%◌, ◌^◌, min}
use mathlib.Core.Path.{◌≡◌, refl}
use mathlib.Core.Bool.{Bool, true, false}
use mathlib.Core.List.{List, [], ◌∷◌}
use mathlib.Core.Option.{Option, none, some}
use phantom_monitoring_clien.Base.Tests.{◌==◌, ltb, if◌then◌else◌}
use phantom_monitoring_clien.Base.Text.{Bytes, is_digit, is_space, codes}

-- `negsuc n` is -(n + 1).
pub data ℤ : Type 0 where
  pos : ℕ → ℤ
  negsuc : ℕ → ℤ

unfoldable pub skip_space : Bytes → Bytes
skip_space [] = []
skip_space (c ∷ s) = if is_space c then skip_space s else c ∷ s

-- The value of the leading digits, on top of `acc`, and the text behind them.
unfoldable pub digits_from : ℕ → Bytes → ℕ × Bytes
digits_from acc [] = (acc, [])
digits_from acc (c ∷ s) =
    let rest = digits_from (acc * 10 + (c - b'0')) s in if is_digit c then rest else (acc, c ∷ s)

-- A sign and at least one digit: whether the number is negative, its magnitude, the text behind it.
abbrev has_digit : Bytes → Bool
has_digit [] = false
has_digit (c ∷ s) = is_digit c

unfoldable scan_magnitude : Bool → Bytes → Option (Bool × ℕ × Bytes)
unfolding digits_from
scan_magnitude negative s =
    let (n, rest) = digits_from 0 s in if has_digit s then some (negative, n, rest) else none

unfoldable scan_signed : Bytes → Option (Bool × ℕ × Bytes)
unfolding scan_magnitude
scan_signed [] = none
scan_signed (c ∷ s) =
    if c == b'-'
    then scan_magnitude true s
    else if c == b'+'
    then scan_magnitude false s
    else scan_magnitude false (c ∷ s)

unfoldable pub scan_number : Bytes → Option (Bool × ℕ × Bytes)
unfolding skip_space scan_signed
scan_number s = scan_signed (skip_space s)

-- `strtol(s, &ptr, 10)` of a 64-bit long: 0 where there is no number, and saturation at the ends.
to_long : Bool → ℕ → ℤ
to_long false n = ℤ.pos (min n (2 ^ 63 - 1))
to_long true zero = ℤ.pos 0
to_long true (suc n) = ℤ.negsuc (min n (2 ^ 63 - 1))

unfoldable pub strtol : Bytes → ℤ
unfolding scan_number to_long
strtol s = elim (scan_number s) [ none ↦ ℤ.pos 0 | some (negative, n, _) ↦ to_long negative n ]

-- A number of 32 bits as an int.
int_of : ℕ → ℤ
int_of w = if ltb w (2 ^ 31) then ℤ.pos w else ℤ.negsuc (2 ^ 32 - 1 - w)

to_int : ℤ → ℤ
to_int (ℤ.pos n) = int_of (n % 2 ^ 32)
to_int (ℤ.negsuc n) = int_of (2 ^ 32 - 1 - n % 2 ^ 32)

-- `atoi`: a long, cut to an int.
unfoldable pub atoi : Bytes → ℤ
unfolding to_int int_of
atoi s = to_int (strtol s)

atoi_test : atoi (codes "-3") ≡ ℤ.negsuc 2
unfolding atoi strtol
atoi_test = refl

atoi_wrap_test : atoi (codes "4294967297") ≡ ℤ.pos 1
unfolding atoi strtol
atoi_wrap_test = refl

-- `%llu`: the number and the text behind it; a number with a minus sign is negated modulo 2^64.
unfoldable to_u64 : Bool → ℕ → ℕ
to_u64 false n = min n (2 ^ 64 - 1)
to_u64 true n = (2 ^ 64 - min n (2 ^ 64 - 1)) % 2 ^ 64

unfoldable pub scan_u64 : Bytes → Option (ℕ × Bytes)
unfolding scan_number to_u64
scan_u64 s = elim (scan_number s) [
  | none ↦ none
  | some (negative, n, rest) ↦ some (to_u64 negative n, rest)
]

-- The conversions of a format of `n` unsigned numbers that succeed, in order.
unfoldable pub scan_fields : ℕ → Bytes → List ℕ
unfolding scan_u64
scan_fields zero s = []
scan_fields (suc n) s = elim (scan_u64 s) [ none ↦ [] | some (v, rest) ↦ v ∷ scan_fields n rest ]

strtol_test : strtol (codes "  2000000000ns") ≡ ℤ.pos 2000000000
unfolding strtol
strtol_test = refl

strtol_negative_test : strtol (codes "-3s") ≡ ℤ.negsuc 2
unfolding strtol
strtol_negative_test = refl

scan_fields_test : scan_fields 3 (codes "12 7 x") ≡ 12 ∷ 7 ∷ []
unfolding scan_fields
scan_fields_test = refl
