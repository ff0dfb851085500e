-- ===== src/Tests/Lock.antt =====
-- A process that takes the lock, and one that comes later.
use workstation_probe.Common.{◌≡◌, ◌≢◌, ap, Bool, refl, true, none, some, arith}
use workstation_probe.Common.Int.{ℤ, pos, pos_part}
use workstation_probe.Lock.{System}
use workstation_probe.Lock.Processes.{idle, holding, Host, IsReachable, read, write}
use workstation_probe.Lock.Interleaved.{IsReachable-both}

abbrev pub disk : System
disk = record {
  trim_unicode = λ s. s;
  write_file = λ content old. (none, some content);
  remove = λ old. (none, none);
}

abbrev everyone : ℤ → Bool
everyone pid = true

abbrev at_start : Host
at_start = record { file = none; phase = λ pid. idle }

abbrev owned : Host
owned = write disk everyone (pos 42) (read disk everyone (pos 42) at_start)

not_same : pos 42 ≢ pos 57
not_same e = let t = ap pos_part e in omega arith

IsReachable-both_example :
    (h : Host) × IsReachable disk everyone none h
    × (h.phase (pos 42) ≡ holding)
    × (h.phase (pos 57) ≡ holding)
IsReachable-both_example =
    IsReachable-both disk everyone none (pos 42) (pos 57) (λ content old. refl)
      (omega arith, omega arith) (omega arith, omega arith) refl refl not_same refl
