-- ===== src/Memory.antt =====
-- internal/memory: the sampled figures, the reclaimable-cache arithmetic and the peak over a window.
-- gopsutil's readings of /proc/meminfo are arguments.
pub mod Used
pub mod Peak
use workstation_probe.Common.{
  ℕ, ◌-◌, ◌*◌, Bool, true, false, ◌&&◌, Option, none, some, List, [], ◌∷◌, ltb, leb, if◌then◌else◌,
  Bytes, reverse,
}
use workstation_probe.Common.Int.{ℤ, pos}
use workstation_probe.Common.Time.{Time, Duration, before, zero_time, add_neg}
use workstation_probe.Common.Float.{Float64}
use workstation_probe.Common.Result.{Result, ok, err, ◌>>=◌}
use workstation_probe.Ring
use workstation_probe.Ring.{RingBuffer}
use workstation_probe.Base.{Base, new_base, publish}

pub record VirtualMemory (f : Float64) : Type 0 where
  pub total_bytes : ℕ
  pub available_bytes : ℕ
  pub free_bytes : ℕ
  pub used_bytes : ℕ
  pub used_percent : f.Float
  pub buffers_bytes : ℕ
  pub cached_bytes : ℕ
  pub shared_bytes : ℕ

pub record SwapMemory : Type 0 where
  pub total_bytes : ℕ
  pub used_bytes : ℕ

-- `error` is the text of the failure, empty on success.
pub record Sample (f : Float64) : Type 0 where
  pub timestamp : Time
  pub total_bytes : ℕ
  pub used_bytes : ℕ
  pub used_no_cache_bytes : ℕ
  pub available_bytes : ℕ
  pub used_percent : f.Float
  pub swap_total_bytes : ℕ
  pub swap_used_bytes : ℕ
  pub buffers_bytes : ℕ
  pub cached_bytes : ℕ
  pub shared_bytes : ℕ
  pub error : Bytes

pub record ProfileInfo : Type 0 where
  pub total_bytes : ℕ
  pub startup_error : Bytes

pub record Module (f : Float64) : Type 0 where
  pub base : Base (Sample f)
  pub profile : ProfileInfo

-- The test of the nested `if` whose failure falls through to the next estimate.
abbrev from_available : (f : Float64) → VirtualMemory f → ℕ
from_available f vm =
    if ltb 0 vm.total_bytes && ltb 0 vm.available_bytes && leb vm.available_bytes vm.total_bytes
    then vm.total_bytes - vm.available_bytes
    else vm.used_bytes

pub used_without_reclaimable : (f : Float64) → VirtualMemory f → ℕ
used_without_reclaimable f vm =
    if ltb 0 vm.total_bytes && ltb 0 vm.free_bytes && leb vm.free_bytes vm.total_bytes
    then (let used = vm.total_bytes - vm.free_bytes in
        if leb vm.buffers_bytes used
        then (let rest = used - vm.buffers_bytes in
            if leb vm.cached_bytes rest then rest - vm.cached_bytes else from_available f vm)
        else from_available f vm)
    else from_available f vm

module _ (f : Float64) where
  abbrev pub Reading : Type 0
  Reading = Result Bytes (VirtualMemory f × SwapMemory)

  -- `gopsutilCollector.Collect`: the swap figures are read only if the memory figures were.
  pub collect : Result Bytes (VirtualMemory f) → Result Bytes SwapMemory → Reading
  collect virtual swap = do vm ← virtual; sw ← swap; ok (vm, sw)

  -- `Sample{}`, the zero value.
  abbrev pub zero_sample : Sample f
  zero_sample = record {
    timestamp = zero_time;
    total_bytes = 0;
    used_bytes = 0;
    used_no_cache_bytes = 0;
    available_bytes = 0;
    used_percent = f.zero_float;
    swap_total_bytes = 0;
    swap_used_bytes = 0;
    buffers_bytes = 0;
    cached_bytes = 0;
    shared_bytes = 0;
    error = [];
  }

  pub sample_of : Time → Reading → Sample f
  sample_of now (err message) = record zero_sample { timestamp = now; error = message }
  sample_of now (ok (vm, sw)) = record {
    timestamp = now;
    total_bytes = vm.total_bytes;
    used_bytes = vm.used_bytes;
    used_no_cache_bytes = used_without_reclaimable f vm;
    available_bytes = vm.available_bytes;
    used_percent = vm.used_percent;
    swap_total_bytes = sw.total_bytes;
    swap_used_bytes = sw.used_bytes;
    buffers_bytes = vm.buffers_bytes;
    cached_bytes = vm.cached_bytes;
    shared_bytes = vm.shared_bytes;
    error = [];
  }

  -- `now` stamps the sample, `published` is the later reading of the clock in `Publish`.
  unfoldable pub collect_once : Time → Time → Reading → Module f → Module f
  collect_once now published reading m = record m {
    base = publish published (sample_of now reading) m.base;
  }

  pub capture_profile : Reading → ProfileInfo
  capture_profile (err message) = record { total_bytes = 0; startup_error = message }
  capture_profile (ok (vm, sw)) = record { total_bytes = vm.total_bytes; startup_error = [] }

  -- The profile takes the first reading, the primed sample the second; `none` is the panic of the
  -- ring buffer, and `fits` which lengths the runtime allocates.
  unfoldable pub new_with_collector :
      Duration → (ℕ → Bool) → ℤ → Time → Time → (first second : Reading) → Option (Module f)
  new_with_collector interval fits history_capacity now published first second =
      elim (new_base zero_sample interval fits history_capacity) [
        | none ↦ none
        | some base ↦ some (
            collect_once now published second
              (record { base = base; profile = capture_profile first }))
      ]

  -- One round of the loop of `Peak`.
  abbrev raise : Sample f → Sample f → Sample f
  raise peak s =
      if ltb peak.used_no_cache_bytes s.used_no_cache_bytes
      then record peak { used_no_cache_bytes = s.used_no_cache_bytes }
      else peak

  abbrev fold_in : Option (Sample f) → Sample f → Sample f
  fold_in none s = s
  fold_in (some peak) s = raise peak s

  peak_loop : Time → Option (Sample f) → List (Sample f) → Option (Sample f)
  peak_loop cutoff peak [] = peak
  peak_loop cutoff peak (s ∷ newest_first) =
      peak_loop cutoff (if before s.timestamp cutoff then peak else some (fold_in peak s))
        newest_first

  -- The percentage of the peaked figure.
  abbrev pub with_percent : Sample f → Sample f
  with_percent p =
      if ltb 0 p.total_bytes
      then record p {
        used_percent =
            f.mul (f.div (f.of_uint p.used_no_cache_bytes) (f.of_uint p.total_bytes))
              (f.of_uint 100);
      }
      else p

  abbrev finish : Option (Sample f) → Option (Sample f)
  finish none = none
  finish (some p) = some (with_percent p)

  -- `none` is a nil `*Sample`.
  pub peak : Time → RingBuffer (Sample f) → Duration → Option (Sample f)
  unfolding peak_loop
  peak now buf d = finish (peak_loop (add_neg now d) none (reverse (Ring.snapshot zero_sample buf)))
