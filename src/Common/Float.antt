-- ===== src/Common/Float.antt =====
-- `float64` as an interface: the type and the operations that the source uses, with no law.
use Prim.Native.Nat.{ℕ}
use mathlib.Core.Bool.{Bool}
use workstation_probe.Common.Int.{ℤ}

pub record Float64 : Type 1 where
  pub Float : Type 0
  pub zero_float : Float
  -- `a > b`
  pub gt : Float → Float → Bool
  -- `a == b`
  pub eq : Float → Float → Bool
  -- `a <= b`, which is not the negation of `a > b` on NaN
  pub le : Float → Float → Bool
  -- `float64(n)` of an unsigned integer.
  pub of_uint : ℕ → Float
  pub mul : Float → Float → Float
  pub div : Float → Float → Float
  -- `d.Seconds()` of a duration in nanoseconds.
  pub seconds : ℤ → Float
  -- `int(x)`
  pub to_int : Float → ℤ
