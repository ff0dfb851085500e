-- ===== src/Cpu.antt =====
-- internal/cpu: samples with their per-core slices, and the peak over a window. A slice is a
-- reference to an array of the `Store`, since `Peak` writes through slices that others hold.
-- gopsutil's readings are arguments.
pub mod Arrays
pub mod Aliasing
pub mod Peak
pub mod Empty
pub mod Failed
use workstation_probe.Common.{
  ℕ, zero, suc, ◌+◌, ◌-◌, Bool, true, false, ◌&&◌, Option, none, some, List, [], ◌∷◌, ltb,
  if◌then◌else◌, length, get_elem?, Bytes, reverse,
}
use workstation_probe.Common.Int.{ℤ, pos}
use workstation_probe.Common.Time.{Time, Duration, before, zero_time, add_neg}
use workstation_probe.Common.Float.{Float64}
use workstation_probe.Common.Result.{Result, ok, err}
use workstation_probe.Ring
use workstation_probe.Ring.{RingBuffer}
use workstation_probe.Base.{Base, new_base, publish}
use workstation_probe.Cpu.Arrays.{Store, Slice, nil_slice, read, write, alloc}

pub record Sample (f : Float64) : Type 0 where
  pub timestamp : Time
  pub overall_percent : f.Float
  pub per_core_percent : Slice
  pub core_count : ℕ
  pub error : Bytes

pub record ProfileInfo : Type 0 where
  pub model_name : Bytes
  pub vendor : Bytes
  pub architecture : Bytes
  pub core_count : ℕ
  pub startup_error : Bytes

-- The two fields of gopsutil's `InfoStat` that are read.
pub record InfoStat : Type 0 where
  pub model_name : Bytes
  pub vendor_id : Bytes

pub record Module (f : Float64) : Type 0 where
  pub base : Base (Sample f)
  pub profile : ProfileInfo

abbrev no_profile : ProfileInfo
no_profile = record {
  model_name = [];
  vendor = [];
  architecture = [];
  core_count = 0;
  startup_error = [];
}

-- `Info`, over the result of `cpu.Info()`.
pub info : Result Bytes (List InfoStat) → ProfileInfo
info (err message) = record no_profile { startup_error = message }
info (ok []) = no_profile
info (ok (first ∷ others)) = record no_profile {
  core_count = length (first ∷ others);
  model_name = first.model_name;
  vendor = first.vendor_id;
}

-- `Warmup` joins the errors of its two reads, the overall one first.
pub warmup : (overall_err per_core_err : Option Bytes) → Option Bytes
warmup (some e) per_core_err = some e
warmup none per_core_err = per_core_err

module _ (f : Float64) where
  abbrev Floats : Type 0
  Floats = List f.Float

  abbrev pub zero_sample : Sample f
  zero_sample = record {
    timestamp = zero_time;
    overall_percent = f.zero_float;
    per_core_percent = nil_slice;
    core_count = 0;
    error = [];
  }

  abbrev first_or_zero : Floats → f.Float
  first_or_zero [] = f.zero_float
  first_or_zero (x ∷ _) = x

  -- `collectSample`: the second read is made only after the first, and its slice is a fresh array.
  unfoldable pub collect_sample :
      Time → (overall per : Result Bytes Floats) → Store f → Sample f × Store f
  collect_sample now (err message) per st = (record zero_sample { error = message }, st)
  collect_sample now (ok overall) (err message) st = (record zero_sample { error = message }, st)
  collect_sample now (ok overall) (ok per) st =
      let (slice, st') = alloc f per st in
      (
        record {
          timestamp = now;
          overall_percent = first_or_zero overall;
          per_core_percent = slice;
          core_count = length per;
          error = [];
        },
        st',
      )

  unfoldable pub collect_once :
      Time → Time → (overall per : Result Bytes Floats) → Module f → Store f → Module f × Store f
  collect_once now published overall per m st =
      let (s, st') = collect_sample now overall per st in
      (record m { base = publish published s m.base }, st')

  -- An error of the warm-up is only logged. `none` is a panic of the ring buffer, and `fits` which
  -- lengths the runtime allocates.
  unfoldable pub new_with_collector :
      Duration
      → (ℕ → Bool)
      → ℤ
      → Result Bytes (List InfoStat)
      → Time
      → Time
      → (overall per : Result Bytes Floats) → Store f
      → Option (Module f × Store f)
  new_with_collector interval fits history_capacity infos now published overall per st =
      elim (new_base zero_sample interval fits history_capacity) [
        | none ↦ none
        | some base ↦ some (
            collect_once now published overall per (record { base = base; profile = info infos })
              st)
      ]

  -- One round of the per-core loop of `Peak`: the value of `src` at `i` against that of `dst`.
  raise_at : Slice → Slice → ℕ → Store f → Store f
  raise_at src dst i st = elim (get_elem? (read f st src) i) [
    | none ↦ st
    | some v ↦ elim (get_elem? (read f st dst) i) [
      | none ↦ st
      | some q ↦ if f.gt v q then write f st dst i v else st
    ]
  ]

  raise_cores : ℕ → Slice → Slice → ℕ → Store f → Store f
  raise_cores zero src dst i st = st
  raise_cores (suc n) src dst i st = raise_cores n src dst (i + 1) (raise_at src dst i st)

  -- `append([]float64(nil), s...)` if `s` is longer, else the slice as it is.
  longer_of : Slice → Slice → Store f → Slice × Store f
  longer_of src dst st =
      if ltb (length (read f st dst)) (length (read f st src))
      then alloc f (read f st src) st
      else (dst, st)

  -- An older sample of the window raises the peak.
  pub raise : Sample f → Sample f → Store f → Sample f × Store f
  unfolding raise_at raise_cores longer_of
  raise peak s st =
      let overall =
        if f.gt s.overall_percent peak.overall_percent
        then s.overall_percent
        else peak.overall_percent in
      let (dst, st') = longer_of s.per_core_percent peak.per_core_percent st in
      (
        record peak { overall_percent = overall; per_core_percent = dst },
        raise_cores (length (read f st' s.per_core_percent)) s.per_core_percent dst 0 st',
      )

  -- The first sample of the window is copied: a struct copy, which shares the slice's array.
  fold_in : Option (Sample f) → Sample f → Store f → Option (Sample f) × Store f
  fold_in none s st = (some s, st)
  fold_in (some peak) s st = let (p, st') = raise peak s st in (some p, st')

  peak_loop : Time → Option (Sample f) → List (Sample f) → Store f → Option (Sample f) × Store f
  peak_loop cutoff peak [] st = (peak, st)
  peak_loop cutoff peak (s ∷ newest_first) st =
      let skipped = peak_loop cutoff peak newest_first st in
      let taken = (let (p, st') = fold_in peak s st in peak_loop cutoff p newest_first st') in
      if before s.timestamp cutoff then skipped else taken

  -- `none` is a nil `*Sample`.
  pub peak : Time → RingBuffer (Sample f) → Duration → Store f → Option (Sample f) × Store f
  unfolding peak_loop fold_in raise
  peak now buf d st = peak_loop (add_neg now d) none (reverse (Ring.snapshot zero_sample buf)) st
