-- ===== src/Lock/Processes.antt =====
-- internal/lock/lock.go: `Acquire` as the system sees it, a read of the file and later a write, by several processes
-- on one file.
use workstation_probe.Common.{
  ◌≡◌, ◌<◌, ◌≤◌, ◌^◌, refl, true, Bool, Option, none, some, ◌++◌, Bytes, if◌then◌else◌,
}
use workstation_probe.Common.Int.{ℤ, pos_part, neg_part, eq_ℤ, eq_ℤ-refl}
use workstation_probe.Common.Result.{Result, ok, err}
use workstation_probe.Strconv.{itoa}
use workstation_probe.Lock.{
  Lock, AcquireError, already_running, write_failed, System, newline, recorded, holder, take_over,
  written, acquire,
}

-- Where a process is: not yet in `Acquire`, after its read without a live holder, or at one of its ends.
pub data Phase : Type 0 where
  idle : Phase
  cleared : Phase
  refused : ℤ → Phase
  failed : Bytes → Phase
  holding : Phase

pub record Host : Type 0 where
  pub file : Option Bytes
  pub phase : ℤ → Phase

abbrev pub with_phase : (ℤ → Phase) → ℤ → Phase → ℤ → Phase
with_phase phase pid p = λ other. if eq_ℤ pid other then p else phase other

abbrev pub looked : Option ℤ → Phase
looked none = cleared
looked (some pid) = refused pid

abbrev pub stored : Option Bytes → Phase
stored none = holding
stored (some message) = failed message

-- The numbers that the operating system gives to processes.
abbrev pub IsPid : ℤ → Type 0
IsPid pid = (pos_part pid < 2 ^ 63) × (neg_part pid ≤ 2 ^ 63)

module _ (sys : System) (running : ℤ → Bool) where
  unfoldable pub read : ℤ → Host → Host
  read pid h = record h {
    phase = with_phase h.phase pid (looked (holder sys running (recorded sys h.file)));
  }

  unfoldable pub write : ℤ → Host → Host
  write pid h =
      let (error, file) = sys.write_file (itoa pid ++ newline) h.file in
      record { file = file; phase = with_phase h.phase pid (stored error) }

  -- One step of a process that runs.
  pub data Step : Host → Host → Type 0 where
    reads :
        (pid : ℤ) (h : Host)
        → IsPid pid
        → running pid ≡ true
        → h.phase pid ≡ idle
        → Step h (read pid h)
    writes :
        (pid : ℤ) (h : Host)
        → IsPid pid
        → running pid ≡ true
        → h.phase pid ≡ cleared
        → Step h (write pid h)

  -- What the processes can come to, in any order of their steps, from a file that is there and no process in `Acquire`.
  pub data IsReachable (file : Option Bytes) : Host → Type 0 where
    begun : IsReachable file (record { file = file; phase = λ pid. idle })
    next : (h h' : Host) → IsReachable file h → Step h h' → IsReachable file h'

  abbrev pub result : Bytes → Phase → Option (Result AcquireError Lock)
  result path holding = some (ok (record { path = path }))
  result path (refused pid) = some (err (already_running pid))
  result path (failed message) = some (err (write_failed message))
  result path p = none

  -- The write follows the read at once, if there is one.
  abbrev pub finish : ℤ → Phase → Host → Host
  finish pid cleared h = write pid h
  finish pid p h = h

  -- A process whose two steps nobody comes between has the result and leaves the file of `acquire`.
  pub acquire-finish :
      (pid : ℤ) (path : Bytes) (h : Host)
      → let h' = finish pid (looked (holder sys running (recorded sys h.file))) (read pid h) in
        (result path (h'.phase pid) ≡ some (acquire sys running pid path h.file).0)
        × (h'.file ≡ (acquire sys running pid path h.file).1)
  unfolding acquire read write
  acquire-finish pid path h = by_holder (holder sys running (recorded sys h.file))
    where
      by_written :
          (r : Option Bytes × Option Bytes)
          → (result path (if eq_ℤ pid pid then stored r.0 else cleared)
              ≡ some (written sys path r).0)
            × (r.1 ≡ (written sys path r).1)
      by_written (none, file) = (rw (eq_ℤ-refl pid) refl, refl)
      by_written (some message, file) = (rw (eq_ℤ-refl pid) refl, refl)

      by_holder :
          (o : Option ℤ)
          → let h' =
              finish pid (looked o) (record h { phase = with_phase h.phase pid (looked o) }) in
            (result path (h'.phase pid) ≡ some (take_over sys path pid o h.file).0)
            × (h'.file ≡ (take_over sys path pid o h.file).1)
      by_holder (some other) = (rw (eq_ℤ-refl pid) refl, refl)
      by_holder none =
          let (status, kept) = by_written (sys.write_file (itoa pid ++ newline) h.file) in
          (rw (eq_ℤ-refl pid) (rw (eq_ℤ-refl pid) at status), kept)
