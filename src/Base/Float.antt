-- ===== src/Base/Float.antt =====
-- The floating-point arithmetic of the target, as an interface: no law is assumed of it, and the
-- conversions that C inserts are the source's.
use Prim.Native.Nat.{ℕ}
use mathlib.Core.Bool.{Bool}
use phantom_monitoring_clien.Base.Text.{Bytes}

pub record FloatOps : Type 1 where
  pub Double : Type 0
  -- The value of an unsigned integer, and of the literal n / 10^k.
  pub of_nat : ℕ → Double
  pub literal : ℕ → ℕ → Double
  pub add : Double → Double → Double
  pub sub : Double → Double → Double
  pub mul : Double → Double → Double
  pub div : Double → Double → Double
  -- What a store into a `float` keeps.
  pub single : Double → Double
  -- `x >= 0.0`, `x > 0.0`
  pub is_nonneg : Double → Bool
  pub is_pos : Double → Bool
  -- `%.1f` and `%.3f`
  pub print_1 : Double → Bytes
  pub print_3 : Double → Bytes
