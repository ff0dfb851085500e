-- ===== src/Storage/Timed.antt =====
-- A collection of internal/storage with the clock: `Usage` of collector.go waits for a call or for its
-- deadline, and `collectOnce` of module.go asks for one mount point after the other. The clock
-- counts nanoseconds; a timer fires at its time.
pub mod Collected
use workstation_probe.Common.{
  ℕ, zero, suc, ◌+◌, ◌*◌, ◌^◌, ◌≤◌, ◌<◌, ◌≡◌, ◌⊎◌, refl, ap, sym, ◌∙◌, subst, inl, inr, Bool, true,
  false, ◌&&◌, ◌||◌, Option, none, some, List, [], ◌∷◌, arith, length, ltb, ◌==◌, if◌then◌else◌,
  Bytes, codes, Bool-cases, ◌++◌, ◌≢◌, subst, bytes_eq, bytes_eq_iff, Option-cases,
}
use workstation_probe.Common.Result.{Result, ok, err}
use workstation_probe.Common.Float.{Float64}
use workstation_probe.Storage.{Disk, MountPoint, Usage, disk_of}
use workstation_probe.Storage.InFlight.{begun, State, call_for, Step, request, IsReachable, after}
use workstation_probe.Storage.InFlight.Names.{IsFor, call_for-IsFor, IsReachable-IsNamed}

-- `perDiskTimeout`
abbrev pub per_disk_timeout : ℕ
per_disk_timeout = 500 * 10 ^ 6

-- `context.DeadlineExceeded`
abbrev pub deadline_exceeded : Bytes
deadline_exceeded = codes "context deadline exceeded"

module _ (f : Float64) where
  abbrev pub Answer : Type 0
  Answer = Result Bytes (Usage f)

  -- What the kernel does with one call: when it answers, if ever, and with what.
  pub record KernelReply : Type 0 where
    pub due : Option ℕ
    pub answer : Answer

  -- The kernel's replies by the numbers of the calls, what the workers have done up to a time, and which
  -- channel `select` takes for a call if both are ready.
  pub record Kernel : Type 0 where
    pub replies : ℕ → KernelReply
    pub workers : ℕ → State Answer → State Answer
    pub chosen : ℕ → Bool

  abbrev at_deadline : ℕ → Answer × ℕ
  at_deadline deadline = (err deadline_exceeded, deadline)

  abbrev by_due : Bool → ℕ → ℕ → Answer → Option ℕ → Answer × ℕ
  by_due chosen now deadline answer none = at_deadline deadline
  by_due chosen now deadline answer (some due) =
      if ltb due deadline || (due == deadline && chosen)
      then (answer, if ltb due now then now else due)
      else at_deadline deadline

  -- The `select` of `Usage`: the answer, and the time at which it is there.
  unfoldable pub wait : Bool → ℕ → KernelReply → Answer × ℕ
  wait chosen now r = by_due chosen now (now + per_disk_timeout) r.answer r.due

  -- The loop of `collectOnce`: the disks, the state of the collector and the time at the end.
  unfoldable pub collect_from :
      Kernel → State Answer → ℕ → List MountPoint → List (Disk f) × State Answer × ℕ
  collect_from k st now [] = ([], st, now)
  collect_from k st now (mp ∷ mounts) =
      let (id, st1) = call_for Answer mp.path (k.workers now st) in
      let (answer, later) = wait (k.chosen id) now (k.replies id) in
      let (disks, st2, end) = collect_from k st1 later mounts in
      (disk_of f mp answer ∷ disks, st2, end)
