-- ===== src/Lock/Lives.antt =====
-- internal/lock/lock.go over the lives of processes: they start, take the lock, release it, and end with or
-- without a release, and a process number can come again. Each `Acquire` is one step here; what
-- happens when two of them overlap is in `Interleaved`.
pub mod Holder
pub mod Exclusive
use workstation_probe.Common.{
  List, [], ◌∷◌, ◌≡◌, ◌≢◌, ◌++◌, ◌∙◌, refl, ap, sym, subst, inl, inr, true, false, Bool, Option,
  none, some, Bytes, Bool-cases, Option-cases, bytes_eq-differ, if◌then◌else◌,
}
use workstation_probe.Common.Int.{ℤ, eq_ℤ, eq_ℤ-refl, eq_ℤ-true}
use workstation_probe.Common.Result.{Result, ok, err}
use workstation_probe.Trim.Printed.{trim_space-itoa}
use workstation_probe.Strconv.{itoa}
use workstation_probe.Strconv.Laws.{atoi-itoa}
use workstation_probe.Lock.{
  Lock, AcquireError, System, newline, already_running, recorded, holder, take_over, written,
  acquire, release,
}
use workstation_probe.Lock.Processes.{IsPid}

-- The file, the processes that run, and the lock of each, if it has one.
pub record Machine : Type 0 where
  pub file : Option Bytes
  pub running : ℤ → Bool
  pub held : ℤ → Option Lock

abbrev pub set_at : {A : Type 0} → ℤ → A → (ℤ → A) → ℤ → A
set_at pid a f = λ other. if eq_ℤ pid other then a else f other

abbrev pub lock_of : Result AcquireError Lock → Option Lock
lock_of (ok l) = some l
lock_of (err e) = none

module _ (sys : System) (path : Bytes) where
  unfoldable pub acquires : ℤ → Machine → Machine
  acquires pid m =
      let (result, file) = acquire sys m.running pid path m.file in
      record m { file = file; held = set_at pid (lock_of result) m.held }

  -- The deferred `Release`; the process ends after it.
  unfoldable pub releases : ℤ → Machine → Machine
  releases pid m =
      let (error, l, file) = release sys (m.held pid) m.file in
      record { file = file; running = set_at pid false m.running; held = set_at pid none m.held }

  pub data Step : Machine → Machine → Type 0 where
    begins :
        (pid : ℤ) (m : Machine)
        → IsPid pid
        → m.running pid ≡ false
        → Step m (record m { running = set_at pid true m.running; held = set_at pid none m.held })
    takes :
        (pid : ℤ) (m : Machine)
        → IsPid pid
        → m.running pid ≡ true
        → m.held pid ≡ none
        → Step m (acquires pid m)
    leaves : (pid : ℤ) (m : Machine) (l : Lock) → m.held pid ≡ some l → Step m (releases pid m)
    -- Without a release, as after a kill.
    dies :
        (pid : ℤ) (m : Machine)
        → Step m (record m { running = set_at pid false m.running; held = set_at pid none m.held })

  pub data IsReachable (file : Option Bytes) (running : ℤ → Bool) : Machine → Type 0 where
    at_first :
        IsReachable file running (record { file = file; running = running; held = λ pid. none })
    next : (m m' : Machine) → IsReachable file running m → Step m m' → IsReachable file running m'
