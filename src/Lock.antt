-- ===== src/Lock.antt =====
-- internal/lock/lock.go: the file with a process number that admits one instance. The file is one cell,
-- `none` where reading it fails; the operating system's part is in the arguments.
pub mod Exclusion
pub mod Processes
pub mod Interleaved
pub mod Lives
use workstation_probe.Common.{
  ℕ, Bool, true, false, Option, none, some, List, [], ◌∷◌, ◌++◌, if◌then◌else◌, Bytes, bytes_eq,
}
use workstation_probe.Common.Int.{ℤ}
use workstation_probe.Common.Result.{Result, ok, err}
use workstation_probe.Trim.{trim_space}
use workstation_probe.Strconv.{atoi, itoa}

pub record Lock : Type 0 where
  pub path : Bytes

pub data AcquireError : Type 0 where
  already_running : ℤ → AcquireError
  write_failed : Bytes → AcquireError

-- The calls on the lock file: each returns its error and the file afterwards.
pub record System : Type 0 where
  -- What `strings.TrimSpace` does with a text that is not ASCII.
  pub trim_unicode : Bytes → Bytes
  pub write_file : Bytes → Option Bytes → Option Bytes × Option Bytes
  pub remove : Option Bytes → Option Bytes × Option Bytes

abbrev pub newline : Bytes
newline = 10 ∷ []

module _ (sys : System) where
  -- The process number that the file names.
  abbrev pub recorded : Option Bytes → Option ℤ
  recorded none = none
  recorded (some content) = atoi (trim_space sys.trim_unicode content)

  abbrev pub holder : (ℤ → Bool) → Option ℤ → Option ℤ
  holder running none = none
  holder running (some pid) = if running pid then some pid else none

  abbrev pub written : Bytes → Option Bytes × Option Bytes → Result AcquireError Lock × Option Bytes
  written path (none, file) = (ok (record { path = path }), file)
  written path (some message, file) = (err (write_failed message), file)

  abbrev pub take_over :
      Bytes → ℤ → Option ℤ → Option Bytes → Result AcquireError Lock × Option Bytes
  take_over path our_pid (some pid) file = (err (already_running pid), file)
  take_over path our_pid none file = written path (sys.write_file (itoa our_pid ++ newline) file)

  -- `running` is `pidRunning`.
  unfoldable pub acquire :
      (ℤ → Bool) → ℤ → Bytes → Option Bytes → Result AcquireError Lock × Option Bytes
  acquire running our_pid path file = take_over path our_pid (holder running (recorded file)) file

  abbrev removed : Option Bytes × Option Bytes → Option Bytes × Option Lock × Option Bytes
  removed (error, file) = (error, some (record { path = [] }), file)

  -- The error, the receiver afterwards and the file; `none` is a nil receiver.
  unfoldable pub release : Option Lock → Option Bytes → Option Bytes × Option Lock × Option Bytes
  release none file = (none, none, file)
  release (some l) file =
      if bytes_eq l.path [] then (none, some l, file) else removed (sys.remove file)
