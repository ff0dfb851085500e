-- ===== src/Storage/Punctual.antt =====
-- The sampling loop of internal/storage with the clock: each tick collects the mount points one after the other, and
-- the health summary asks for the age of the last sample. The clock is not set while the process runs.
use workstation_probe.Common.{
  ℕ, suc, ◌+◌, ◌*◌, ◌^◌, ◌≤◌, ◌<◌, ◌≡◌, refl, false, Bool-cases, inl, inr, List, length, arith,
}
use workstation_probe.Common.Int.{pos}
use workstation_probe.Common.Time.{mul_duration}
use workstation_probe.Common.Float.{Float64}
use workstation_probe.Base.{Base, publish, last_sample_age}
use workstation_probe.Base.Rounds.{
  Loop, round, rounds, IsShort, IsPunctual, rounds-IsPunctual, IsPunctual-young,
  last_sample_unix-publish,
}
use workstation_probe.Handlers
use workstation_probe.Handlers.{Kinds, is_stale}
use workstation_probe.Storage.{Sample, Disk, MountPoint, top_level_error}
use workstation_probe.Storage.InFlight.{State, idle, IsReachable, at_start}
use workstation_probe.Storage.Timed.{Answer, Kernel, collect_from, per_disk_timeout}
use workstation_probe.Storage.Timed.Collected.{IsCollected, nothing, asked, collect_from-IsTimed}

module _ (f : Float64) (k : Kernel f) (mounts : List MountPoint) where
  -- One run of `collectOnce`.
  abbrev pub collection : ℕ → State (Answer f) → Sample f × State (Answer f) × ℕ
  collection now st =
      let (disks, st', end) = collect_from f k st now mounts in
      (record { timestamp = pos end; disks = disks; error = top_level_error f disks }, st', end)

  -- The module as `New` leaves it, with its first sample.
  abbrev pub primed : (interval start : ℕ) → Base (Sample f) → ℕ → Loop collection interval start
  primed interval start b made =
      let (s, st, end) = collection made (idle (Answer f)) in
      record { base = publish (pos end) s b; col = st; ended = end }

  IsCollected-ge :
      (now : ℕ) (st : State (Answer f)) (mounts : List MountPoint) (disks : List (Disk f)) (end : ℕ)
      (last : State (Answer f))
      → IsCollected f k now st mounts disks end last
      → now ≤ end
  IsCollected-ge now st mounts disks end last (nothing _ _) = omega arith
  IsCollected-ge now st mounts disks end last
        (asked _ _ mp mounts' d disks' id later _ st1 _ ask low high rest) =
      let ih = IsCollected-ge later st1 mounts' disks' end last rest in omega arith

  module _
      (work : (t : ℕ) (st : State (Answer f))
        → IsReachable (Answer f) st
        → IsReachable (Answer f) (k.workers t st)) where
    collection-IsShort :
        (interval start : ℕ)
        → IsShort collection interval start
            (IsReachable (Answer f))
            (per_disk_timeout * length mounts)
    collection-IsShort interval start now st r =
        let (collected, by, reachable) = collect_from-IsTimed f k work mounts st now r in
        (IsCollected-ge now st mounts _ _ _ collected, by, reachable)

    -- The health summary does not count the storage module as stale, whatever mounts hang, and for however long. The module
    -- is as `New` leaves it, then any number `n` of ticks go by, and it is asked at any time until the next
    -- collection has ended. It is so where 500 ms for each mount point, and the time from the first sample to
    -- the start of the loop, fit in the sampling interval together, for times and two intervals in the int64 range.
    pub rounds-is_stale :
        (kinds : Kinds) (m : Handlers.Module kinds) (interval start slack : ℕ) (b : Base (Sample f))
        (made n t : ℕ)
        → let first = primed interval start b made in
          let l = rounds collection interval start n first in
          per_disk_timeout * length mounts + slack ≤ interval
          → 0 < made
          → first.ended ≤ start
          → start ≤ first.ended + slack
          → l.ended ≤ t
          → t < (round collection interval start (suc n) l).ended
          → t < 2 ^ 63
          → 2 * interval < 2 ^ 63
          → m.checked_age ≡ last_sample_age (pos t) l.base
          → is_stale (mul_duration 2 (pos interval)) m ≡ false
    rounds-is_stale kinds m interval start slack b made n t within later before after reached
          current in_range small age =
        let P = IsReachable (Answer f) in
        let longest : ℕ = per_disk_timeout * length mounts in
        let (low, high, kept) = collection-IsShort interval start made (idle (Answer f)) at_start in
        let first : IsPunctual collection interval start P longest slack 0
            (primed interval start b made) =
          record {
            kept = kept;
            by = omega arith;
            since = omega arith;
            stamped =
                last_sample_unix-publish (collection made (idle (Answer f))).2
                  (collection made (idle (Answer f))).0 b;
            positive = omega arith;
          } in
        let l = rounds collection interval start n (primed interval start b made) in
        let short = collection-IsShort interval start in
        let there =
          rounds-IsPunctual collection interval start P longest slack short within n
            (primed interval start b made) first in
        let young =
          IsPunctual-young collection interval start P longest slack short within n t l there
            reached current in_range small in
        elim (Bool-cases m.enabled) [ inl on ↦ rw (on, age) young | inr off ↦ rw off refl ]
