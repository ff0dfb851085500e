-- ===== src/Tests/Floats.antt =====
-- `float64` with whole numbers for values, and the seconds rounded down.
use workstation_probe.Common.{ℕ, ltb, leb, ◌==◌, ◌*◌, ◌/◌}
use workstation_probe.Common.Int.{pos, pos_part}
use workstation_probe.Common.Float.{Float64}

abbrev pub whole : Float64
whole = record {
  Float = ℕ;
  zero_float = 0;
  gt = λ a b. ltb b a;
  eq = λ a b. a == b;
  le = λ a b. leb a b;
  of_uint = λ n. n;
  mul = λ a b. a * b;
  div = λ a b. a / b;
  seconds = λ d. pos_part d / 1000000000;
  to_int = λ n. pos n;
}
