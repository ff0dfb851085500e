-- ===== src/Tests/Lives.antt =====
-- A killed process with its file, and the next one that takes the lock.
use workstation_probe.Common.{◌≡◌, ◌≢◌, ◌++◌, [], ap, refl, none, some, arith, Bytes, codes}
use workstation_probe.Common.Int.{pos, pos_part, eq_ℤ}
use workstation_probe.Strconv.{itoa}
use workstation_probe.Strconv.Laws.{atoi-itoa}
use workstation_probe.Trim.Printed.{trim_space-itoa}
use workstation_probe.Lock.{newline, holder, recorded}
use workstation_probe.Lock.Lives.{Machine, acquires, releases, takes, IsReachable, at_first, next}
use workstation_probe.Lock.Lives.Exclusive.{acquires-free, IsReachable-IsExclusive}
use workstation_probe.Tests.Lock.{disk}

abbrev monitor_pid : Bytes
monitor_pid = codes "/tmp/monitor.pid"

-- The process 42 was killed, its file is there, and 57 takes the lock.
abbrev stale : Machine
stale = record {
  file = some (itoa (pos 42) ++ newline);
  running = λ pid. eq_ℤ pid (pos 57);
  held = λ pid. none;
}

abbrev taken : Machine
taken = acquires disk monitor_pid (pos 57) stale

taken_IsReachable : IsReachable disk monitor_pid stale.file stale.running taken
taken_IsReachable =
    next stale taken at_first (takes (pos 57) stale (omega arith, omega arith) refl refl)

path_there : monitor_pid ≢ []
path_there h = cc

stale_free : holder disk stale.running (recorded disk stale.file) ≡ none
stale_free =
    rw (trim_space-itoa disk.trim_unicode (pos 42), atoi-itoa (pos 42) (omega arith) (omega arith))
      refl

taken_held : taken.held (pos 57) ≡ some (record { path = monitor_pid })
taken_held =
    acquires-free disk monitor_pid (λ content old. refl) (λ content. refl) path_there stale (pos 57)
      stale_free

not_same : pos 57 ≢ pos 60
not_same e = let t = ap pos_part e in omega arith

IsReachable-IsExclusive_example :
    let released = acquires disk monitor_pid (pos 60) (releases disk monitor_pid (pos 57) taken) in
    (taken.held (pos 60) ≡ none)
    × ((acquires disk monitor_pid (pos 60) taken).held (pos 60) ≡ none)
    × (released.held (pos 60) ≡ some (record { path = monitor_pid }))
    × (released.held (pos 57) ≡ none)
IsReachable-IsExclusive_example =
    IsReachable-IsExclusive disk monitor_pid (λ content old. refl) (λ content. refl) path_there
      stale.file stale.running taken (pos 57) (pos 60) (record { path = monitor_pid })
      taken_IsReachable taken_held not_same
