-- ===== src/Base/Text.antt =====
-- C strings as lists of bytes, without the NUL, and the functions of <string.h> and <ctype.h> that
-- the program calls on them.
use Prim.Native.Char.{code}
use Prim.Native.String.{String}
use Prim.Native.Nat.{ℕ}
use mathlib.Core.Path.{◌≡◌, refl}
use mathlib.Core.Logic.{◌↔◌, inl, inr}
use mathlib.Core.Bool.{Bool, true, false, ◌&&◌, ◌||◌}
use mathlib.Core.List.{List, [], ◌∷◌, ◌++◌}
use mathlib.Core.Option.{Option, none, some}
use native.Mathlib.Omega.{arith}
use phantom_monitoring_clien.Base.Tests.{◌==◌, leb, if◌then◌else◌, Option-cases}

abbrev pub Bytes : Type 0
Bytes = List ℕ

-- The bytes of an ASCII literal.
abbrev pub codes : String → Bytes
codes String.[] = []
codes (String.◌∷◌ c s) = code c ∷ codes s

-- `strcmp(a, b) == 0`
unfoldable pub str_eq : Bytes → Bytes → Bool
str_eq [] [] = true
str_eq (x ∷ xs) (y ∷ ys) = x == y && str_eq xs ys
str_eq _ _ = false

pub str_eq_iff : (a b : Bytes) → (str_eq a b ≡ true) ↔ (a ≡ b)
unfolding str_eq
str_eq_iff (x ∷ a) (y ∷ b) = ground (arith, str_eq_iff a b)
str_eq_iff _ _ = ground arith

pub str_eq_refl : (a : Bytes) → str_eq a a ≡ true
str_eq_refl a = (str_eq_iff a a).1 refl

-- `strncmp(s, p, strlen(p)) == 0`
unfoldable pub starts_with : Bytes → Bytes → Bool
starts_with [] s = true
starts_with (x ∷ p) [] = false
starts_with (x ∷ p) (y ∷ s) = x == y && starts_with p s

-- `strstr(s, p)`: the suffix that begins with the first occurrence.
unfoldable pub strstr : Bytes → Bytes → Option Bytes
unfolding starts_with
strstr [] p = if starts_with p [] then some [] else none
strstr (c ∷ s) p = if starts_with p (c ∷ s) then some (c ∷ s) else strstr s p

-- `strrchr(s, c)`: the text before the last `c`, and the suffix that begins with it.
unfoldable pub strrchr : Bytes → ℕ → Option (Bytes × Bytes)
strrchr [] c = none
strrchr (x ∷ s) c = elim (strrchr s c) [
  | some (before, after) ↦ some (x ∷ before, after)
  | none ↦ if x == c then some ([], x ∷ s) else none
]

abbrev pub is_digit : ℕ → Bool
is_digit c = leb b'0' c && leb c b'9'

-- `isspace` of the C locale.
abbrev pub is_space : ℕ → Bool
is_space c = c == b' ' || leb 9 c && leb c 13

pub strrchr-append :
    (s : Bytes) (c : ℕ) {before after : Bytes}
    → strrchr s c ≡ some (before, after)
    → s ≡ before ++ after
unfolding strrchr
strrchr-append [] c e = ground arith
strrchr-append (x ∷ s) c e = elim (Option-cases (strrchr s c)) [
  | inl miss ↦ ground arith
  | inr ((before, after), hit) ↦ ground (arith, strrchr-append s c hit)
]
