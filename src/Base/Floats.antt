-- ===== src/Base/Floats.antt =====
-- Python's `float` as far as the source compares and divides: a parameter, since there are no
-- floating-point numbers here. The laws hold of all floats but NaN, where they are asked for.
use Prim.Native.Nat.{ℕ}
use mathlib.Core.Path.{◌≡◌}
use mathlib.Core.Bool.{Bool, true, false}

pub record Floats : Type 1 where
  pub F : Type 0
  pub lt : F → F → Bool
  pub le : F → F → Bool
  -- The literals 0.0, 1.0 and 0.7.
  pub zero_point : F
  pub one_point : F
  pub seven_tenths : F
  -- `m / n` of two integers.
  pub ratio : ℕ → ℕ → F

-- The order of the floats that are numbers.
pub record IsOrdered (fl : Floats) : Type 0 where
  pub lt_irrefl : (a : fl.F) → fl.lt a a ≡ false
  pub lt_trans : (a b c : fl.F) → fl.lt a b ≡ true → fl.lt b c ≡ true → fl.lt a c ≡ true
  -- What is not above `b` is not above anything above `b`.
  pub lt_cotrans : (a b c : fl.F) → fl.lt a b ≡ false → fl.lt b c ≡ false → fl.lt a c ≡ false
