-- ===== src/Tests/Storage.antt =====
-- Two mount points, one of which hangs, and a start over two partitions.
use workstation_probe.Common.{
  leb, zero, suc, false, refl, bytes_eq, arith, ◌+◌, ◌*◌, ◌^◌, ◌≤◌, ◌≡◌, true, none, some, List, [],
  ◌∷◌, Bytes, codes,
}
use workstation_probe.Common.Int.{pos}
use workstation_probe.Common.Result.{ok}
use workstation_probe.Common.Int.{wrap64}
use workstation_probe.Common.Time.{mul_duration, sub_time}
use workstation_probe.Base.{Base, publish, last_sample_age}
use workstation_probe.Base.Rounds.{Loop, rounds, round}
use workstation_probe.Handlers
use workstation_probe.Handlers.{is_stale}
use workstation_probe.Storage.Punctual.{collection, primed, rounds-is_stale}
use workstation_probe.Tests.Monitor.{numbers}
use workstation_probe.Storage.{zero_sample, Sample, MountPoint, MountConfig, Usage}
use workstation_probe.Storage.InFlight.{call_for, idle, IsReachable, at_start}
use workstation_probe.Storage.Timed.{
  Answer, KernelReply, Kernel, wait, collect_from, per_disk_timeout,
}
use workstation_probe.Storage.Timed.Collected.{IsCollected, collect_from-IsTimed}
use workstation_probe.Storage.Table.{Partition, new, IsStarted, new-IsStarted}
use workstation_probe.Tests.Floats.{whole}

abbrev usage : Usage whole
usage = record {
  total_bytes = 100;
  used_bytes = 40;
  free_bytes = 60;
  used_percent = 40;
  fs_type = codes "ext4";
}

abbrev prompt : KernelReply whole
prompt = record { due = some (3 * 10 ^ 6); answer = ok usage }

abbrev hung : KernelReply whole
hung = record { due = none; answer = ok usage }

-- The call 0 is answered after 3 ms, and the others never.
abbrev half_hung : Kernel whole
half_hung = record {
  replies = λ id. elim id [ zero ↦ prompt | suc n ↦ hung ];
  workers = λ now st. st;
  chosen = λ id. true;
}

abbrev mount_at : Bytes → MountPoint
mount_at path = record { path = path; label = path; device = codes "sda"; fs_type = codes "ext4" }

abbrev two_mounts : List MountPoint
two_mounts = mount_at (codes "/") ∷ mount_at (codes "/data") ∷ []

collect_from-IsTimed_example :
    let (disks, st', end) = collect_from whole half_hung (idle (Answer whole)) 0 two_mounts in
    IsCollected whole half_hung 0 (idle (Answer whole)) two_mounts disks end st'
    × (end ≤ 0 + per_disk_timeout * 2)
    × IsReachable (Answer whole) st'
collect_from-IsTimed_example =
    collect_from-IsTimed whole half_hung (λ now st r. r) two_mounts (idle (Answer whole)) 0 at_start

abbrev empty_base : Base (Sample whole)
empty_base = record {
  interval = pos 1200000000;
  buf = record { cap = 1; storage = zero_sample whole ∷ []; head = 0; full = false };
  latest = none;
  last_sample_unix = pos 0;
}

abbrev partitions : List Partition
partitions =
    record {
      device = codes "sda1";
      mountpoint = codes "/";
      fs_type = codes "ext4";
      opts = codes "rw" ∷ codes "relatime" ∷ [];
    }
    ∷ record { device = codes "sdb1"; mountpoint = codes "/data"; fs_type = codes "xfs"; opts = [] }
    ∷ []

abbrev one_mount : List MountConfig
one_mount = record { path = codes "/data"; label = codes "data" } ∷ []

new-IsStarted_example :
    IsStarted whole one_mount
      (λ n. leb n 100)
      (pos 60)
      (ok partitions)
      (λ path. ok usage)
      (pos 5)
      (new whole one_mount
        (pos 1000)
        (λ n. leb n 100)
        (pos 60)
        (ok partitions)
        (λ path. ok usage)
        (pos 5)
        (pos 6))
new-IsStarted_example =
    new-IsStarted whole one_mount (pos 1000) (λ n. leb n 100) (pos 60) (ok partitions)
      (λ path. ok usage) (pos 5) (pos 6)

abbrev storage_health : Handlers.Module numbers
storage_health = record {
  name = codes "storage";
  enabled = true;
  disabled_reason = [];
  latest = Handlers.nil;
  peak = none;
  reported_age = pos 1100000000;
  checked_age = pos 1100000000;
}

abbrev first_loop : Loop (collection whole half_hung two_mounts) 1200000000 600000000
first_loop = primed whole half_hung two_mounts 1200000000 600000000 empty_base 10

rounds-is_stale_example : is_stale (mul_duration 2 (pos 1200000000)) storage_health ≡ false
unfolding rounds round collect_from wait call_for last_sample_age publish sub_time wrap64 bytes_eq
rounds-is_stale_example =
    rounds-is_stale whole half_hung two_mounts (λ now st r. r) numbers storage_health 1200000000
      600000000 100000000 empty_base 10 1 3400000000 (omega arith) (omega arith) (omega arith)
      (omega arith) (omega arith) (omega arith) (omega arith) (omega arith) refl
