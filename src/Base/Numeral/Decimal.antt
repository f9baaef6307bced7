-- ===== src/Base/Numeral/Decimal.antt =====
-- `%d` and `%llu` of a number without a sign, and that sscanf reads back what they print.
use Prim.Native.Nat.{ℕ, zero, suc, ◌+◌, ◌-◌, ◌*◌, ◌/◌, ◌%◌, ◌<◌, ◌≤◌, ◌^◌}
use mathlib.Core.Path.{◌≡◌, refl, ap, ◌∙◌}
use mathlib.Core.Logic.{inl, inr}
use mathlib.Core.Bool.{Bool, true, false}
use mathlib.Core.List.{List, [], ◌∷◌, ◌++◌, append_assoc, map}
use mathlib.Core.Option.{some}
use native.Mathlib.Omega.{arith}
use phantom_monitoring_clien.Base.Tests.{◌==◌, ltb, if◌then◌else◌, Bool-cases}
use phantom_monitoring_clien.Base.Lists.{All, All-append, length, length-append}
use phantom_monitoring_clien.Base.Text.{Bytes, is_digit, is_space}
use phantom_monitoring_clien.Base.Numeral.{
  ℤ, digits_from, scan_magnitude, scan_signed, scan_number, skip_space, to_u64, scan_u64,
  scan_fields,
}

digits_of : ℕ → ℕ → Bytes
digits_of zero n = []
digits_of (suc fuel) n =
    if ltb n 10 then (b'0' + n) ∷ [] else digits_of fuel (n / 10) ++ (b'0' + n % 10) ∷ []

unfoldable pub decimal : ℕ → Bytes
unfolding digits_of
decimal n = digits_of (suc n) n

abbrev Digit : ℕ → Type 0
Digit c = is_digit c ≡ true

-- The number that digits spell, on top of `acc`.
abbrev value : ℕ → Bytes → ℕ
value acc [] = acc
value acc (c ∷ s) = value (acc * 10 + (c - b'0')) s

abbrev pub first_digit : Bytes → Bool
first_digit [] = false
first_digit (c ∷ s) = is_digit c

value-append : (acc : ℕ) (s t : Bytes) → value acc (s ++ t) ≡ value (value acc s) t
value-append acc [] t = refl
value-append acc (c ∷ s) t = value-append (acc * 10 + (c - b'0')) s t

plus-Digit : (n : ℕ) → n < 10 → Digit (b'0' + n)
plus-Digit n lt = ground arith

digits_of-Digit : (fuel n : ℕ) → n < fuel → All Digit (digits_of fuel n)
unfolding digits_of
digits_of-Digit zero n lt = tt
digits_of-Digit (suc fuel) n lt = elim (Bool-cases (ltb n 10)) [
  | inl small ↦ rw small (plus-Digit n (ground arith), tt)
  | inr large ↦
      let big : 10 ≤ n = ground arith in
      rw large (
        All-append Digit (digits_of fuel (n / 10)) _ (digits_of-Digit fuel (n / 10) (omega arith))
          (plus-Digit (n % 10) (omega arith), tt))
]

digits_of-value : (fuel n : ℕ) → n < fuel → value 0 (digits_of fuel n) ≡ n
unfolding digits_of
digits_of-value zero n lt = absurd (omega arith)
digits_of-value (suc fuel) n lt = elim (Bool-cases (ltb n 10)) [
  | inl small ↦ rw small (omega arith)
  | inr large ↦
      let big : 10 ≤ n = ground arith in
      let before = digits_of-value fuel (n / 10) (omega arith) in
      rw large (value-append 0 (digits_of fuel (n / 10)) _ ∙ omega (arith, before))
]

digits_of-nonempty : (fuel n : ℕ) → n < fuel → 0 < length (digits_of fuel n)
unfolding digits_of
digits_of-nonempty zero n lt = absurd (omega arith)
digits_of-nonempty (suc fuel) n lt = elim (Bool-cases (ltb n 10)) [
  | inl small ↦ rw small (omega arith)
  | inr large ↦
      rw large (omega (arith, length-append (digits_of fuel (n / 10)) ((b'0' + n % 10) ∷ [])))
]

digits_from-value :
    (acc : ℕ) (s rest : Bytes)
    → All Digit s
    → first_digit rest ≡ false
    → digits_from acc (s ++ rest) ≡ (value acc s, rest)
unfolding digits_from
digits_from-value acc [] [] all stop = refl
digits_from-value acc [] (c ∷ rest) all stop = rw stop refl
digits_from-value acc (c ∷ s) rest (d, all) stop =
    rw d (digits_from-value (acc * 10 + (c - b'0')) s rest all stop)

Digit-cases :
    (c : ℕ) → Digit c → (is_space c ≡ false) × ((c == b'-') ≡ false) × ((c == b'+') ≡ false)
Digit-cases c d = (ground arith, ground arith, ground arith)

scan_number-digits :
    (s rest : Bytes)
    → All Digit s
    → 0 < length s
    → first_digit rest ≡ false
    → scan_number (s ++ rest) ≡ some (false, value 0 s, rest)
unfolding scan_number skip_space scan_signed scan_magnitude
scan_number-digits [] rest all some_ stop = absurd (omega arith)
scan_number-digits (c ∷ s) rest all some_ stop =
    let (no_space, no_minus, no_plus) = Digit-cases c all.0 in
    rw
      (
        no_space,
        no_minus,
        no_plus,
        all.0,
        digits_from-value (0 * 10 + (c - b'0')) s rest all.1 stop,
      )
      refl

-- What `%d` or `%llu` printed, in front of no further digit, `%llu` reads back.
pub scan_u64-decimal :
    (n : ℕ) (rest : Bytes)
    → n < 2 ^ 64
    → first_digit rest ≡ false
    → scan_u64 (decimal n ++ rest) ≡ some (n, rest)
unfolding scan_u64 decimal to_u64
scan_u64-decimal n rest small stop =
    let lt : n < suc n = omega arith in
    rw
      (
        scan_u64,
        scan_number-digits (digits_of (suc n) n) rest (digits_of-Digit (suc n) n lt)
            (digits_of-nonempty (suc n) n lt) stop,
        digits_of-value (suc n) n lt,
      )
      (ap (λ k. some (k, rest)) (omega arith))

-- A space before a number is skipped.
pub scan_u64-space : (s : Bytes) → scan_u64 (b' ' ∷ s) ≡ scan_u64 s
unfolding scan_u64 scan_number skip_space
scan_u64-space s = refl

-- Numbers, each behind a space.
abbrev pub spaced : List ℕ → Bytes
spaced [] = []
spaced (n ∷ ns) = b' ' ∷ (decimal n ++ spaced ns)

abbrev pub Fits : ℕ → Type 0
Fits n = n < 2 ^ 64

spaced-stops :
    (ns : List ℕ) (rest : Bytes)
    → first_digit rest ≡ false
    → first_digit (spaced ns ++ rest) ≡ false
spaced-stops [] rest stop = stop
spaced-stops (n ∷ ns) rest stop = refl

pub scan_fields-spaced :
    (ns : List ℕ) (rest : Bytes)
    → All Fits ns
    → first_digit rest ≡ false
    → scan_fields (length ns) (spaced ns ++ rest) ≡ ns
unfolding scan_fields
scan_fields-spaced [] rest small stop = refl
scan_fields-spaced (n ∷ ns) rest (fits, small) stop =
    rw
      (
        append_assoc (decimal n) (spaced ns) rest,
        scan_fields,
        scan_u64-space (decimal n ++ (spaced ns ++ rest)),
        scan_u64-decimal n (spaced ns ++ rest) fits (spaced-stops ns rest stop),
      )
      (ap (λ l. n ∷ l) (scan_fields-spaced ns rest small stop))

-- What `%d` prints, and what `%u` or `%lu` reads of it.
abbrev pub signed : ℤ → Bytes
signed (ℤ.pos n) = decimal n
signed (ℤ.negsuc n) = b'-' ∷ decimal (suc n)

abbrev pub word : ℤ → ℕ
word (ℤ.pos n) = n
word (ℤ.negsuc n) = 2 ^ 64 - suc n

abbrev pub FitsWord : ℤ → Type 0
FitsWord (ℤ.pos n) = n < 2 ^ 64
FitsWord (ℤ.negsuc n) = suc n < 2 ^ 64

scan_number-minus :
    (s rest : Bytes)
    → All Digit s
    → 0 < length s
    → first_digit rest ≡ false
    → scan_number (b'-' ∷ (s ++ rest)) ≡ some (true, value 0 s, rest)
unfolding scan_number skip_space scan_signed scan_magnitude
scan_number-minus [] rest all some_ stop = absurd (omega arith)
scan_number-minus (c ∷ s) rest all some_ stop =
    rw (all.0, digits_from-value (0 * 10 + (c - b'0')) s rest all.1 stop) refl

scan_u64-signed :
    (z : ℤ) (rest : Bytes)
    → FitsWord z
    → first_digit rest ≡ false
    → scan_u64 (signed z ++ rest) ≡ some (word z, rest)
unfolding scan_u64 decimal to_u64
scan_u64-signed (ℤ.pos n) rest fits stop = scan_u64-decimal n rest fits stop
scan_u64-signed (ℤ.negsuc n) rest fits stop =
    let lt : suc n < suc (suc n) = omega arith in
    rw
      (
        scan_u64,
        scan_number-minus (digits_of (suc (suc n)) (suc n)) rest
            (digits_of-Digit (suc (suc n)) (suc n) lt) (digits_of-nonempty (suc (suc n)) (suc n) lt)
            stop,
        digits_of-value (suc (suc n)) (suc n) lt,
      )
      (ap (λ k. some (k, rest)) (omega arith))

-- Such numbers, each behind a space.
abbrev pub spaced_signed : List ℤ → Bytes
spaced_signed [] = []
spaced_signed (z ∷ zs) = b' ' ∷ (signed z ++ spaced_signed zs)

spaced_signed-stops :
    (zs : List ℤ) (rest : Bytes)
    → first_digit rest ≡ false
    → first_digit (spaced_signed zs ++ rest) ≡ false
spaced_signed-stops [] rest stop = stop
spaced_signed-stops (z ∷ zs) rest stop = refl

pub scan_fields-signed :
    (zs : List ℤ) (rest : Bytes)
    → All FitsWord zs
    → first_digit rest ≡ false
    → scan_fields (length zs) (spaced_signed zs ++ rest) ≡ map word zs
unfolding scan_fields
scan_fields-signed [] rest small stop = refl
scan_fields-signed (z ∷ zs) rest (fits, small) stop =
    rw
      (
        append_assoc (signed z) (spaced_signed zs) rest,
        scan_fields,
        scan_u64-space (signed z ++ (spaced_signed zs ++ rest)),
        scan_u64-signed z (spaced_signed zs ++ rest) fits (spaced_signed-stops zs rest stop),
      )
      (ap (λ l. word z ∷ l) (scan_fields-signed zs rest small stop))

pub scan_fields-decimal :
    (n : ℕ) (rest : Bytes)
    → n < 2 ^ 64
    → first_digit rest ≡ false
    → scan_fields 1 (decimal n ++ rest) ≡ n ∷ []
unfolding scan_fields
scan_fields-decimal n rest fits stop = rw (scan_fields, scan_u64-decimal n rest fits stop) refl

skip_space-spaces :
    (pad s : Bytes) → All (λ c. is_space c ≡ true) pad → skip_space (pad ++ s) ≡ skip_space s
unfolding skip_space
skip_space-spaces [] s all = refl
skip_space-spaces (c ∷ pad) s (space, all) = rw space (skip_space-spaces pad s all)

scan_u64-spaces :
    (pad s : Bytes) → All (λ c. is_space c ≡ true) pad → scan_u64 (pad ++ s) ≡ scan_u64 s
unfolding scan_u64 scan_number
scan_u64-spaces pad s all = rw (scan_u64, scan_number, skip_space-spaces pad s all) refl

pub scan_fields-spaces :
    (n : ℕ) (pad s : Bytes)
    → All (λ c. is_space c ≡ true) pad
    → scan_fields n (pad ++ s) ≡ scan_fields n s
unfolding scan_fields
scan_fields-spaces zero pad s all = refl
scan_fields-spaces (suc n) pad s all = rw (scan_fields, scan_u64-spaces pad s all) refl
