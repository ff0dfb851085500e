-- ===== src/Params.antt =====
-- The query parameters of internal/metrics/base.go,
-- `time.ParseDuration` is the parameter `parse_duration`; its `none` is an error.
pub mod Laws
use workstation_probe.Common.{
  ℕ, zero, suc, ◌+◌, ◌-◌, ◌*◌, ◌^◌, ◌≤◌, Bool, true, false, Option, none, some, List, [], ◌∷◌, leb,
  ltb, ◌==◌, ◌&&◌, ◌||◌, if◌then◌else◌, Bytes, bytes_eq,
}
use workstation_probe.Common.Int.{ℤ, pos, negsuc, leb_ℤ, ltb_ℤ, sub_ℕ}
use workstation_probe.Strconv.{atoi}
use workstation_probe.Common.Time.{Duration}

-- Absent, unparseable and negative limits all mean 0, no limit.
abbrev nonneg_or_zero : Option ℤ → ℤ
nonneg_or_zero none = pos 0
nonneg_or_zero (some n) = if ltb_ℤ n (pos 0) then pos 0 else n

pub parse_limit_param : Bytes → ℤ
parse_limit_param s = if bytes_eq s [] then pos 0 else nonneg_or_zero (atoi s)

module _ (parse_duration : Bytes → Option Duration) where
  abbrev positive_or_refused : Option Duration → Duration × Bool
  positive_or_refused none = (pos 0, false)
  positive_or_refused (some d) = if leb_ℤ d (pos 0) then (pos 0, false) else (d, true)

  unfoldable pub parse_duration_param : Bytes → Duration → Duration × Bool
  parse_duration_param s def =
      if bytes_eq s [] then (def, true) else positive_or_refused (parse_duration s)
