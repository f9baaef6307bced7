-- ===== src/Base/Word.antt =====
-- Arithmetic of `unsigned long long`, which wraps at 2^64, and the flag words of the plugins.
use Prim.Native.Nat.{ℕ, zero, suc, ◌+◌, ◌-◌, ◌%◌, ◌^◌, ◌≤◌, ◌<◌, bit_and, bit_or}
use mathlib.Core.Path.{◌≡◌, refl, sym}
use mathlib.Core.Logic.{inl, inr}
use mathlib.Core.Bool.{Bool, true, false, not, ◌&&◌, ◌||◌}
use native.Mathlib.Omega.{arith}
use phantom_monitoring_clien.Base.Tests.{◌==◌, Bool-cases}

abbrev pub u64_mod : ℕ
u64_mod = 2 ^ 64

unfoldable pub add64 : ℕ → ℕ → ℕ
add64 a b = (a + b) % u64_mod

unfoldable pub sub64 : ℕ → ℕ → ℕ
sub64 a b = (a + u64_mod - b) % u64_mod

pub sub64-eq : (a b : ℕ) → b ≤ a → a < u64_mod → sub64 a b ≡ a - b
unfolding sub64
sub64-eq a b le lt = omega arith

pub add64-eq : (a b : ℕ) → a + b < u64_mod → add64 a b ≡ a + b
unfolding add64
add64-eq a b lt = omega arith

-- `flag & bit`, as a condition.
unfoldable pub has_flag : ℕ → ℕ → Bool
has_flag flag bit = not (bit_and flag bit == 0)

-- Every number up to `n`, itself excluded, passes the test.
every : (ℕ → Bool) → ℕ → Bool
every test zero = true
every test (suc n) = every test n && test n

every-at : (test : ℕ → Bool) (n : ℕ) {i : ℕ} → every test n ≡ true → i < n → test i ≡ true
unfolding every
every-at test zero checked inside = absurd (omega arith)
every-at test (suc n) {i} checked inside = elim (Bool-cases (i == n)) [
  | inl last ↦ ground arith
  | inr earlier ↦ every-at test n (ground arith) (ground arith)
]

same : Bool → Bool → Bool
same true b = b
same false b = not b

same-eq : (a b : Bool) → same a b ≡ true → a ≡ b
unfolding same
same-eq true b h = sym h
same-eq false b h = ground arith

-- A flag word of five bits keeps its bits, and gains bit `i`, when bit `i` is set.
set_table :
    every
      (λ f.
        every
          (λ i.
            every
              (λ j. same (has_flag (bit_or f (2 ^ i)) (2 ^ j)) (has_flag f (2 ^ j) || (i == j)))
              5)
          5)
      32
    ≡ true
unfolding every same has_flag
set_table = refl

bound_table : every (λ f. every (λ i. bit_or f (2 ^ i) - 31 == 0) 5) 32 ≡ true
unfolding every
bound_table = refl

pub has_flag-set :
    (f i j : ℕ)
    → f < 32
    → i < 5
    → j < 5
    → has_flag (bit_or f (2 ^ i)) (2 ^ j) ≡ (has_flag f (2 ^ j) || (i == j))
has_flag-set f i j hf hi hj =
    same-eq _ _ (every-at _ 5 (every-at _ 5 (every-at _ 32 set_table hf) hi) hj)

pub set_bound : (f i : ℕ) → f < 32 → i < 5 → bit_or f (2 ^ i) < 32
set_bound f i hf hi = let e = every-at _ 5 (every-at _ 32 bound_table hf) hi in ground arith
