-- ===== src/Storage.antt =====
-- internal/storage: the mount points checked at startup and the sampled usage of each. The collector
-- that bounds hung calls is in `InFlight`, and `Timed` collects with the clock. gopsutil's partitions and usage figures are arguments.
pub mod Mounts
pub mod Collect
pub mod InFlight
pub mod Timed
pub mod Table
pub mod Punctual
use workstation_probe.Common.{
  ℕ, Bool, true, false, not, Option, none, some, List, [], ◌∷◌, ◌++◌, if◌then◌else◌, length, map,
  Bytes, codes, bytes_eq, all, ltb,
}
use workstation_probe.Common.Int.{ℤ}
use workstation_probe.Common.Time.{Time, Duration, zero_time}
use workstation_probe.Common.Float.{Float64}
use workstation_probe.Common.Result.{Result, ok, err, ◌>>=◌, ◌>>◌, or_error}
use workstation_probe.Base.{Base, new_base, publish}

pub record Disk (f : Float64) : Type 0 where
  pub path : Bytes
  pub label : Bytes
  pub total_bytes : ℕ
  pub used_bytes : ℕ
  pub free_bytes : ℕ
  pub used_percent : f.Float
  pub fs_type : Bytes
  pub error : Bytes

pub record Sample (f : Float64) : Type 0 where
  pub timestamp : Time
  pub disks : List (Disk f)
  pub error : Bytes

-- `label` is the field `Alias`.
pub record MountPoint : Type 0 where
  pub path : Bytes
  pub label : Bytes
  pub device : Bytes
  pub fs_type : Bytes

pub record MountConfig : Type 0 where
  pub path : Bytes
  pub label : Bytes

pub record MountEntry : Type 0 where
  pub device : Bytes
  pub path : Bytes
  pub fs_type : Bytes
  pub options : Bytes

pub record Usage (f : Float64) : Type 0 where
  pub total_bytes : ℕ
  pub used_bytes : ℕ
  pub free_bytes : ℕ
  pub used_percent : f.Float
  pub fs_type : Bytes

pub data SetupError : Type 0 where
  no_mount_points : SetupError
  table_unreadable : Bytes → SetupError
  not_mounted : Bytes → SetupError
  bad_capacity : SetupError

-- An entry of the table against the later ones.
pub prefer : Bytes → MountEntry → Option MountEntry → Option MountEntry
prefer path m (some later) = some later
prefer path m none = if bytes_eq m.path path then some m else none

-- The map `byPath`: a later entry of the table replaces an earlier one with its path.
pub entry_of : Bytes → List MountEntry → Option MountEntry
entry_of path [] = none
entry_of path (m ∷ table) = prefer path m (entry_of path table)

abbrev pub mount_point : MountConfig → MountEntry → MountPoint
mount_point mp entry = record {
  path = mp.path;
  label = mp.label;
  device = entry.device;
  fs_type = entry.fs_type;
}

pub validate_mount_points : List MountConfig → List MountEntry → Result SetupError (List MountPoint)
validate_mount_points [] table = ok []
validate_mount_points (mp ∷ cfg) table = do
  entry ← or_error (entry_of mp.path table) (not_mounted mp.path)
  rest ← validate_mount_points cfg table
  ok (mount_point mp entry ∷ rest)

module _ (f : Float64) where
  abbrev pub zero_sample : Sample f
  zero_sample = record { timestamp = zero_time; disks = []; error = [] }

  -- The disk entry of one mount point, by the answer of the collector.
  pub disk_of : MountPoint → Result Bytes (Usage f) → Disk f
  disk_of mp (err message) = record {
    path = mp.path;
    label = mp.label;
    total_bytes = 0;
    used_bytes = 0;
    free_bytes = 0;
    used_percent = f.zero_float;
    fs_type = [];
    error = message;
  }
  disk_of mp (ok usage) = record {
    path = mp.path;
    label = mp.label;
    total_bytes = usage.total_bytes;
    used_bytes = usage.used_bytes;
    free_bytes = usage.free_bytes;
    used_percent = usage.used_percent;
    fs_type = if bytes_eq usage.fs_type [] then mp.fs_type else usage.fs_type;
    error = [];
  }

  -- `usage` answers each call of the collector with its path.
  pub disks_of : (Bytes → Result Bytes (Usage f)) → List MountPoint → List (Disk f)
  disks_of usage [] = []
  disks_of usage (mp ∷ mounts) = disk_of mp (usage mp.path) ∷ disks_of usage mounts

  abbrev pub all_failed : Bytes
  all_failed = codes "all mount points failed"

  abbrev pub failed : Disk f → Bool
  failed d = not (bytes_eq d.error [])

  -- The top-level error.
  pub top_level_error : List (Disk f) → Bytes
  top_level_error disks =
      if ltb 0 (length disks) then (if all failed disks then all_failed else []) else []

  pub record Module : Type 0 where
    pub mounts : List MountPoint
    pub base : Base (Sample f)

  unfoldable pub collect_once : (Bytes → Result Bytes (Usage f)) → Time → Time → Module → Module
  collect_once usage now published m =
      let disks = disks_of usage m.mounts in
      record m {
        base =
            publish published
              (record { timestamp = now; disks = disks; error = top_level_error disks }) m.base;
      }

  -- `bad_capacity` is a panic of the ring buffer, and `fits` which lengths the runtime allocates.
  unfoldable pub new_with_deps :
      List MountConfig
      → Duration
      → (ℕ → Bool)
      → ℤ
      → Result Bytes (List MountEntry)
      → (Bytes → Result Bytes (Usage f))
      → Time
      → Time
      → Result SetupError Module
  new_with_deps [] interval fits capacity table usage now published = err no_mount_points
  new_with_deps (mp ∷ mounts) interval fits capacity (err message) usage now published =
      err (table_unreadable message)
  new_with_deps (mp ∷ mounts) interval fits capacity (ok table) usage now published = do
    resolved ← validate_mount_points (mp ∷ mounts) table
    base ← or_error (new_base zero_sample interval fits capacity) bad_capacity
    ok (collect_once usage now published (record { mounts = resolved; base = base }))
