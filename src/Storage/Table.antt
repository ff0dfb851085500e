-- ===== src/Storage/Table.antt =====
-- The mount table of internal/storage/mounts.go, as gopsutil lists the partitions, and `New` of module.go over it.
use workstation_probe.Common.{
  ℕ, Bool-cases, ◌≡◌, ◌≢◌, ◌⊎◌, true, false, refl, inl, inr, Bool, replicate, none, some, List, [],
  ◌∷◌, ◌++◌, map, Bytes, codes,
}
use workstation_probe.Common.Int.{ℤ, pos, pos_part, leb_ℤ}
use workstation_probe.Common.Time.{Time, Duration}
use workstation_probe.Common.Float.{Float64}
use workstation_probe.Common.Result.{Result, ok, err, ◌>>=◌, or_error}
use workstation_probe.Ring.{new_ring_buffer}
use workstation_probe.Base.{Base, new_base}
use workstation_probe.Base.History.{latest-publish}
use workstation_probe.Storage.{
  MountPoint, MountConfig, MountEntry, Usage, SetupError, no_mount_points, table_unreadable,
  not_mounted, bad_capacity, Module, zero_sample, validate_mount_points, collect_once,
  new_with_deps, disks_of, top_level_error, Sample,
}
use workstation_probe.Storage.Mounts.{
  IsResolved, IsMissing, IsOutcome, validate_mount_points-IsOutcome,
}

-- `disk.PartitionStat`
pub record Partition : Type 0 where
  pub device : Bytes
  pub mountpoint : Bytes
  pub fs_type : Bytes
  pub opts : List Bytes

-- `strings.Join`
pub join_texts : Bytes → List Bytes → Bytes
join_texts separator [] = []
join_texts separator (s ∷ []) = s
join_texts separator (s ∷ t ∷ rest) = s ++ (separator ++ join_texts separator (t ∷ rest))

abbrev pub entry : Partition → MountEntry
entry p = record {
  device = p.device;
  path = p.mountpoint;
  fs_type = p.fs_type;
  options = join_texts (codes ",") p.opts;
}

-- `partitions` is what `disk.Partitions` returns.
pub read_mount_table : Result Bytes (List Partition) → Result Bytes (List MountEntry)
read_mount_table (ok partitions) = ok (map entry partitions)
read_mount_table (err message) = err (codes "list partitions: " ++ message)

module _ (f : Float64) where
  pub new :
      List MountConfig
      → Duration
      → (ℕ → Bool)
      → ℤ
      → Result Bytes (List Partition)
      → (Bytes → Result Bytes (Usage f))
      → Time
      → Time
      → Result SetupError (Module f)
  new mounts interval fits capacity partitions usage now published =
      new_with_deps f mounts interval fits capacity (read_mount_table partitions) usage now
        published

  abbrev first_sample : (Bytes → Result Bytes (Usage f)) → Time → List MountPoint → Sample f
  first_sample usage now mounts =
      let disks = disks_of f usage mounts in
      record { timestamp = now; disks = disks; error = top_level_error f disks }

  module _ (cfg : List MountConfig) (fits : ℕ → Bool) (capacity : ℤ)
      (partitions : Result Bytes (List Partition)) (usage : Bytes → Result Bytes (Usage f))
      (now : Time) where
    -- Each outcome of the start, with what led to it.
    pub IsStarted : Result SetupError (Module f) → Type 0
    IsStarted (ok m) =
        (ps : List Partition) × (partitions ≡ ok ps)
        × (cfg ≢ [])
        × IsResolved (map entry ps) cfg m.mounts
        × (leb_ℤ capacity (pos 0) ≡ false)
        × (fits (pos_part capacity) ≡ true)
        × (m.base.latest ≡ some (first_sample usage now m.mounts))
    IsStarted (err no_mount_points) = cfg ≡ []
    IsStarted (err (table_unreadable text)) =
        (message : Bytes) × (partitions ≡ err message)
        × (text ≡ codes "list partitions: " ++ message)
    IsStarted (err (not_mounted path)) =
        (ps : List Partition) × (partitions ≡ ok ps) × IsMissing (map entry ps) cfg path
    IsStarted (err bad_capacity) =
        (leb_ℤ capacity (pos 0) ≡ true) ⊎ (fits (pos_part capacity) ≡ false)

  new_base-cases :
      (interval : Duration) (fits : ℕ → Bool) (capacity : ℤ)
      → ((new_base (zero_sample f) interval fits capacity ≡ none)
          × ((leb_ℤ capacity (pos 0) ≡ true) ⊎ (fits (pos_part capacity) ≡ false)))
        ⊎ ((b : Base (Sample f)) × (new_base (zero_sample f) interval fits capacity ≡ some b)
            × (leb_ℤ capacity (pos 0) ≡ false)
            × (fits (pos_part capacity) ≡ true))
  unfolding new_base new_ring_buffer
  new_base-cases interval fits capacity = elim (Bool-cases (leb_ℤ capacity (pos 0))) [
    | inl low ↦ inl (rw (low, new_base, new_ring_buffer) refl, inl low)
    | inr high ↦ elim (Bool-cases (fits (pos_part capacity))) [
      | inl here ↦ inr (opened, rw (high, here, new_base, new_ring_buffer) refl, high, here)
      | inr large ↦ inl (rw (high, large, new_base, new_ring_buffer) refl, inr large)
    ]
  ]
    where
      opened : Base (Sample f)
      opened = record {
        interval = interval;
        buf = record {
          cap = pos_part capacity;
          storage = replicate (pos_part capacity) (zero_sample f);
          head = 0;
          full = false;
        };
        latest = none;
        last_sample_unix = pos 0;
      }

  missing :
      (cfg : List MountConfig) (fits : ℕ → Bool) (capacity : ℤ) (ps : List Partition)
      (usage : Bytes → Result Bytes (Usage f)) (now : Time) (e : SetupError)
      → IsOutcome (map entry ps) cfg (err e)
      → IsStarted cfg fits capacity (ok ps) usage now (err e)
  unfolding IsOutcome IsStarted
  missing cfg fits capacity ps usage now e (path, same, h) = rw same (ps, refl, h)

  -- `New` either gives a module or an error, and each outcome has its cause. A module comes only of a list of partitions,
  -- a list of mount points that is not empty and a positive capacity that the runtime allocates; it has for each configured mount
  -- point, in order, the last partition mounted at that path, and its latest sample is there, with
  -- a disk for each. An error says that no mount point is configured; or that the partitions could not be
  -- listed, with the cause in the text; or it names the first configured path where nothing is mounted; or the
  -- ring buffer panicked, at a capacity that is not positive or that the runtime does not allocate.
  pub new-IsStarted :
      (cfg : List MountConfig) (interval : Duration) (fits : ℕ → Bool) (capacity : ℤ)
      (partitions : Result Bytes (List Partition)) (usage : Bytes → Result Bytes (Usage f))
      (now published : Time)
      → IsStarted cfg fits capacity partitions usage now
          (new cfg interval fits capacity partitions usage now published)
  unfolding new read_mount_table new_with_deps IsStarted collect_once IsOutcome
  new-IsStarted [] interval fits capacity partitions usage now published = refl
  new-IsStarted (mp ∷ cfg) interval fits capacity (err message) usage now published =
      (message, refl, refl)
  new-IsStarted (mp ∷ cfg) interval fits capacity (ok ps) usage now published =
      by_outcome (validate_mount_points (mp ∷ cfg) (map entry ps))
        (validate_mount_points-IsOutcome (mp ∷ cfg) (map entry ps))
    where
      by_outcome :
          (resolved : Result SetupError (List MountPoint))
          → IsOutcome (map entry ps) (mp ∷ cfg) resolved
          → IsStarted (mp ∷ cfg) fits capacity (ok ps) usage now (do
            mounts ← resolved
            base ← or_error (new_base (zero_sample f) interval fits capacity) bad_capacity
            ok (collect_once f usage now published (record { mounts = mounts; base = base })))
      by_outcome (err e) h = missing (mp ∷ cfg) fits capacity ps usage now e h
      by_outcome (ok mounts) h = elim (new_base-cases interval fits capacity) [
        | inl (e, low) ↦ rw e low
        | inr (b, e, high, here) ↦ rw e (
          ps,
          refl,
          (λ q. cc),
          h,
          high,
          here,
          latest-publish published (first_sample usage now mounts) b,
        )
      ]
