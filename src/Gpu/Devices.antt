-- ===== src/Gpu/Devices.antt =====
-- What `Peak` reports for one device.
use workstation_probe.Common.{
  ℕ, ◌≡◌, refl, ap, sym, ◌∙◌, Option, none, some, List, [], ◌∷◌, ◌++◌, arith, subst, map, keep, ltb,
  ◌==◌, if◌then◌else◌, Bool-cases, inl, inr,
}
use workstation_probe.Common.Time.{Time, Duration, add_neg}
use workstation_probe.Common.Float.{Float64}
use workstation_probe.Ring
use workstation_probe.Ring.{RingBuffer}
use workstation_probe.Gpu.{Device, Sample, merge_device, peak, zero_sample}
use workstation_probe.Gpu.Peak.{
  upsert, upsert_all, window, merge_samples, last_stamp, peak_of, peak-merge_samples, find_device,
  combine, find_device-upsert_all,
}

module _ (f : Float64) where
  -- All device readings of the samples, in order.
  abbrev pub readings : List (Sample f) → List (Device f)
  readings [] = []
  readings (s ∷ rest) = s.devices ++ readings rest

  upsert_all-append :
      (xs ys devices : List (Device f))
      → upsert_all f (xs ++ ys) devices ≡ upsert_all f ys (upsert_all f xs devices)
  upsert_all-append [] ys devices = refl
  upsert_all-append (x ∷ xs) ys devices = upsert_all-append xs ys (upsert f x devices)

  merge_samples-readings :
      (samples : List (Sample f)) (devices : List (Device f))
      → merge_samples f samples devices ≡ upsert_all f (readings samples) devices
  merge_samples-readings [] devices = refl
  merge_samples-readings (s ∷ rest) devices =
      merge_samples-readings rest (upsert_all f s.devices devices)
      ∙ sym (upsert_all-append s.devices (readings rest) devices)

  peak_of-devices :
      (stamp : Option Time) (devices : List (Device f)) (p : Sample f)
      → peak_of f stamp devices ≡ some p
      → p.devices ≡ devices
  peak_of-devices none devices p h = cc
  peak_of-devices (some t) devices p h = ground arith

  -- The largest of the readings, the newest last: a reading takes over where it is greater.
  abbrev pub highest : f.Float → List f.Float → f.Float
  highest top [] = top
  highest top (x ∷ xs) = highest (if f.gt x top then x else top) xs

  abbrev pub largest : ℕ → List ℕ → ℕ
  largest top [] = top
  largest top (x ∷ xs) = largest (if ltb top x then x else top) xs

  abbrev pub newest : Device f → List (Device f) → Device f
  newest d [] = d
  newest d (x ∷ xs) = newest x xs

  abbrev pub own : ℕ → List (Device f) → List (Device f)
  own i devices = keep (λ d. d.index == i) devices

  -- What a peak shows of one device that was read as `first` and then as the others, the oldest first.
  pub record IsPeak (first : Device f) (others : List (Device f)) (d : Device f) : Type 0 where
    pub index : d.index ≡ (newest first others).index
    pub uuid : d.uuid ≡ (newest first others).uuid
    pub name : d.name ≡ (newest first others).name
    pub memory_total : d.memory_total_bytes ≡ (newest first others).memory_total_bytes
    pub power_limit : d.power_limit_watts ≡ (newest first others).power_limit_watts
    pub error : d.error ≡ (newest first others).error
    pub utilization_gpu :
        d.utilization_gpu_percent
        ≡ highest first.utilization_gpu_percent (map (λ x. x.utilization_gpu_percent) others)
    pub utilization_mem :
        d.utilization_mem_percent
        ≡ highest first.utilization_mem_percent (map (λ x. x.utilization_mem_percent) others)
    pub memory_used :
        d.memory_used_bytes
        ≡ largest first.memory_used_bytes (map (λ x. x.memory_used_bytes) others)
    pub temperature :
        d.temperature_c ≡ highest first.temperature_c (map (λ x. x.temperature_c) others)
    pub power_draw :
        d.power_draw_watts ≡ highest first.power_draw_watts (map (λ x. x.power_draw_watts) others)

  abbrev pub IsPeakOf : List (Device f) → Option (Device f) → Type 0
  IsPeakOf [] o = o ≡ none
  IsPeakOf (first ∷ others) o = (d : Device f) × (o ≡ some d) × IsPeak first others d

  -- The readings that are still to come, merged into a device.
  merge-IsPeak :
      (src dst : Device f) (more : List (Device f)) (d : Device f)
      → IsPeak (merge_device f src dst) more d
      → IsPeak dst (src ∷ more) d
  merge-IsPeak src dst [] d h = record {
    index = h.index;
    uuid = h.uuid;
    name = h.name;
    memory_total = h.memory_total;
    power_limit = h.power_limit;
    error = h.error;
    utilization_gpu = h.utilization_gpu;
    utilization_mem = h.utilization_mem;
    memory_used = h.memory_used;
    temperature = h.temperature;
    power_draw = h.power_draw;
  }
  merge-IsPeak src dst (x ∷ more) d h = record {
    index = h.index;
    uuid = h.uuid;
    name = h.name;
    memory_total = h.memory_total;
    power_limit = h.power_limit;
    error = h.error;
    utilization_gpu = h.utilization_gpu;
    utilization_mem = h.utilization_mem;
    memory_used = h.memory_used;
    temperature = h.temperature;
    power_draw = h.power_draw;
  }

  combine-IsPeak :
      (i : ℕ) (dst : Device f) (devices : List (Device f))
      → (d : Device f) × (combine f i (some dst) devices ≡ some d) × IsPeak dst (own i devices) d
  combine-IsPeak i dst [] = (
    dst,
    refl,
    record {
      index = refl;
      uuid = refl;
      name = refl;
      memory_total = refl;
      power_limit = refl;
      error = refl;
      utilization_gpu = refl;
      utilization_mem = refl;
      memory_used = refl;
      temperature = refl;
      power_draw = refl;
    },
  )
  combine-IsPeak i dst (src ∷ more) = elim (Bool-cases (src.index == i)) [
    | inl same ↦
        let (d, e, h) = combine-IsPeak i (merge_device f src dst) more in
        rw same (d, e, merge-IsPeak src dst (own i more) d h)
    | inr other ↦ rw other (combine-IsPeak i dst more)
  ]

  combine-IsPeakOf :
      (i : ℕ) (devices : List (Device f)) → IsPeakOf (own i devices) (combine f i none devices)
  combine-IsPeakOf i [] = refl
  combine-IsPeakOf i (src ∷ more) = elim (Bool-cases (src.index == i)) [
    | inl same ↦ rw same (combine-IsPeak i src more)
    | inr other ↦ rw other (combine-IsPeakOf i more)
  ]

  -- In a peak, the device of an index is absent exactly if the window has no reading of it. Otherwise, with
  -- that index's own readings in the window, oldest first: its number, UUID, name, total memory, power limit and
  -- error are those of the newest reading, and each of the two utilizations, the used memory, the temperature and the power
  -- draw is the largest of the readings, where a reading takes over from the largest before it if
  -- it compares greater.
  pub peak-device :
      (now : Time) (buf : RingBuffer (Sample f)) (d : Duration) (i : ℕ) (p : Sample f)
      → peak f now buf d ≡ some p
      → IsPeakOf
          (own i (readings (window f (add_neg now d) (Ring.snapshot (zero_sample f) buf))))
          (find_device f i p.devices)
  peak-device now buf d i p h =
      let w = window f (add_neg now d) (Ring.snapshot (zero_sample f) buf) in
      let e : p.devices ≡ merge_samples f w [] =
        peak_of-devices (last_stamp f none w) (merge_samples f w []) p
          (sym (peak-merge_samples f now buf d) ∙ h) in
      let found =
        ap (find_device f i) (e ∙ merge_samples-readings w [])
        ∙ find_device-upsert_all f i (readings w) [] in
      subst (IsPeakOf (own i (readings w))) (sym found) (combine-IsPeakOf i (readings w))
