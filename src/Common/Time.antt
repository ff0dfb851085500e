-- ===== src/Common/Time.antt =====
-- `time.Time` as nanoseconds since the Unix epoch on one clock, and `time.Duration` as an `int64`
-- of nanoseconds.
use Prim.Native.Nat.{ℕ, ◌-◌, ◌*◌, ◌^◌}
use mathlib.Core.Bool.{Bool}
use workstation_probe.Common.Tests.{if◌then◌else◌}
use workstation_probe.Common.Int.{ℤ, pos, negsuc, ◌+ℤ◌, ◌-ℤ◌, ltb_ℤ, wrap64, scale}

abbrev pub Time : Type 0
Time = ℤ

abbrev pub Duration : Type 0
Duration = ℤ

abbrev pub second : ℕ
second = 10 ^ 9

-- `time.Time{}`, the first instant of the year 1.
abbrev pub zero_time : Time
zero_time = negsuc (62135596800 * second - 1)

abbrev pub max_duration : Duration
max_duration = pos (2 ^ 63 - 1)

abbrev pub min_duration : Duration
min_duration = negsuc (2 ^ 63 - 1)

-- `t.Before(u)`
abbrev pub before : Time → Time → Bool
before t u = ltb_ℤ t u

-- `t.Add(-d)`; the negation of a duration wraps.
unfoldable pub add_neg : Time → Duration → Time
unfolding ◌+ℤ◌ ◌-ℤ◌ wrap64
add_neg t d = t +ℤ wrap64 (pos 0 -ℤ d)

-- `t.Sub(u)`, which saturates. `time.Since(u)` is `now.Sub(u)`.
unfoldable pub sub_time : Time → Time → Duration
unfolding ◌-ℤ◌
sub_time t u =
    if ltb_ℤ max_duration (t -ℤ u)
    then max_duration
    else if ltb_ℤ (t -ℤ u) min_duration
    then min_duration
    else t -ℤ u

-- `k * d` for a constant `k`.
unfoldable pub mul_duration : ℕ → Duration → Duration
unfolding wrap64 scale
mul_duration k d = wrap64 (scale k d)
