-- ===== src/Gpu.antt =====
-- internal/gpu: device samples, the peak over a window merged by device index, and the module with
-- its collector. The NVML collector is in `Nvml`, the stub in `Stub`.
pub mod Devices
pub mod Peak
pub mod Nvml
pub mod Stub
pub mod Lifecycle
use workstation_probe.Common.{
  ℕ, zero, suc, Bool, true, false, not, Option, none, some, List, [], ◌∷◌, ◌++◌, ltb, ◌==◌,
  if◌then◌else◌, length, get_elem?, set, Bytes,
}
use workstation_probe.Common.Int.{ℤ}
use workstation_probe.Common.Time.{Time, Duration, before, zero_time, add_neg}
use workstation_probe.Common.Float.{Float64}
use workstation_probe.Ring
use workstation_probe.Ring.{RingBuffer}
use workstation_probe.Base.{Base, new_base, publish}

-- `index` is set from NVML's device numbers only, so it is not negative.
pub record Device (f : Float64) : Type 0 where
  pub index : ℕ
  pub uuid : Bytes
  pub name : Bytes
  pub utilization_gpu_percent : f.Float
  pub utilization_mem_percent : f.Float
  pub memory_total_bytes : ℕ
  pub memory_used_bytes : ℕ
  pub temperature_c : f.Float
  pub power_draw_watts : f.Float
  pub power_limit_watts : f.Float
  pub error : Bytes

pub record Sample (f : Float64) : Type 0 where
  pub timestamp : Time
  pub devices : List (Device f)
  pub error : Bytes

pub record ProfileDevice : Type 0 where
  pub index : ℕ
  pub uuid : Bytes
  pub name : Bytes
  pub memory_total_bytes : ℕ

pub record ProfileInfo : Type 0 where
  pub disabled_reason : Bytes
  pub device_count : ℕ
  pub devices : List ProfileDevice

-- The map `byIdx`: device index to position in the merged list.
abbrev pub Positions : Type 0
Positions = List (ℕ × ℕ)

unfoldable pub position_of : ℕ → Positions → Option ℕ
position_of i [] = none
position_of i ((j, pos) ∷ m) = if j == i then some pos else position_of i m

module _ (f : Float64) where
  abbrev pub zero_sample : Sample f
  zero_sample = record { timestamp = zero_time; devices = []; error = [] }

  abbrev pub higher : f.Float → f.Float → f.Float
  higher a b = if f.gt a b then a else b

  -- The newer device `src`, with the larger of both for each stress field.
  abbrev pub merge_device : Device f → Device f → Device f
  merge_device src dst = record src {
    utilization_gpu_percent = higher src.utilization_gpu_percent dst.utilization_gpu_percent;
    utilization_mem_percent = higher src.utilization_mem_percent dst.utilization_mem_percent;
    memory_used_bytes =
        if ltb dst.memory_used_bytes src.memory_used_bytes
        then src.memory_used_bytes
        else dst.memory_used_bytes;
    temperature_c = higher src.temperature_c dst.temperature_c;
    power_draw_watts = higher src.power_draw_watts dst.power_draw_watts;
  }

  -- The variables of the loop: `latest.Devices` and `byIdx`.
  abbrev pub Merging : Type 0
  Merging = List (Device f) × Positions

  -- `latest.Devices[pos]` read and written back; a position out of range does not occur.
  abbrev pub merge_at : Device f → ℕ → Option (Device f) → List (Device f) → List (Device f)
  merge_at src pos none devices = devices
  merge_at src pos (some dst) devices = set devices pos (merge_device src dst)

  abbrev pub merge_found : Device f → Option ℕ → Merging → Merging
  merge_found src none (devices, by_idx) =
      (devices ++ src ∷ [], (src.index, length devices) ∷ by_idx)
  merge_found src (some pos) (devices, by_idx) =
      (merge_at src pos (get_elem? devices pos) devices, by_idx)

  -- One round of the inner loop.
  unfoldable pub merge_one : Device f → Merging → Merging
  merge_one src (devices, by_idx) = merge_found src (position_of src.index by_idx) (devices, by_idx)

  unfoldable pub merge_all : List (Device f) → Merging → Merging
  merge_all [] m = m
  merge_all (src ∷ devices) m = merge_all devices (merge_one src m)

  -- The outer loop: `stamp` is `none` until a sample of the window was seen.
  unfoldable pub peak_loop : Time → Option Time → Merging → List (Sample f) → Option Time × Merging
  peak_loop cutoff stamp m [] = (stamp, m)
  peak_loop cutoff stamp m (s ∷ oldest_first) =
      let skipped = peak_loop cutoff stamp m oldest_first in
      let taken = peak_loop cutoff (some s.timestamp) (merge_all s.devices m) oldest_first in
      if before s.timestamp cutoff then skipped else taken

  abbrev pub seen : Option Time × Merging → Option (Sample f)
  seen (none, m) = none
  seen (some stamp, (devices, by_idx)) =
      some (record { timestamp = stamp; devices = devices; error = [] })

  -- `none` is the nil that `Peak` returns, on an empty buffer as on an empty window.
  unfoldable pub peak : Time → RingBuffer (Sample f) → Duration → Option (Sample f)
  peak now buf d = seen (peak_loop (add_neg now d) none ([], []) (Ring.snapshot zero_sample buf))
