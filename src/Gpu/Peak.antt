-- ===== src/Gpu/Peak.antt =====
-- `Peak` against a merge that has no position table: what each device comes out as.
use workstation_probe.Common.{
  ℕ, suc, ◌≡◌, refl, ap, sym, ◌∙◌, false, Option, none, some, List, [], ◌∷◌, ◌++◌, arith, keep,
  if◌then◌else◌, Bool-cases, Option-cases, inl, inr, length, get_elem?, ◌==◌,
}
use mathlib.Core.Option
use workstation_probe.Common.Time.{Time, Duration, before, add_neg}
use workstation_probe.Common.Float.{Float64}
use workstation_probe.Ring
use workstation_probe.Ring.{RingBuffer}
use workstation_probe.Base.{not_before}
use workstation_probe.Gpu.{
  Device, Sample, position_of, merge_device, Merging, merge_at, merge_one, merge_all, peak_loop,
  seen, peak, zero_sample,
}

module _ (f : Float64) where
  -- The device with the index of `src` is merged with it; a new index goes to the end.
  abbrev pub upsert : Device f → List (Device f) → List (Device f)
  upsert src [] = src ∷ []
  upsert src (d ∷ devices) =
      let rest = upsert src devices in
      if d.index == src.index then merge_device f src d ∷ devices else d ∷ rest

  abbrev pub upsert_all : List (Device f) → List (Device f) → List (Device f)
  upsert_all [] devices = devices
  upsert_all (src ∷ more) devices = upsert_all more (upsert src devices)

  -- Where a device stands.
  abbrev locate : ℕ → List (Device f) → Option ℕ
  locate i [] = none
  locate i (d ∷ devices) =
      let rest = Option.map suc (locate i devices) in if d.index == i then some 0 else rest

  -- The table holds the position of every device, and of no other index.
  abbrev IsTable : Merging f → Type 0
  IsTable m = (i : ℕ) → position_of i m.1 ≡ locate i m.0

  locate-cons-none :
      (i : ℕ) (d : Device f) (devices : List (Device f))
      → locate i (d ∷ devices) ≡ none
      → ((d.index == i) ≡ false) × (locate i devices ≡ none)
  locate-cons-none i d devices h = elim (Option-cases (locate i devices)) [
    | inl e ↦ ground arith
    | inr (pos, e) ↦ ground arith
  ]

  -- With the position at hand, one round is an `upsert`.
  merge_at-upsert :
      (src : Device f) (devices : List (Device f)) (pos : ℕ)
      → locate src.index devices ≡ some pos
      → merge_at f src pos (get_elem? devices pos) devices ≡ upsert src devices
  merge_at-upsert src [] pos h = cc
  merge_at-upsert src (d ∷ devices) pos h = elim (Bool-cases (d.index == src.index)) [
    | inl same ↦ ground arith
    | inr other ↦ elim (Option-cases (locate src.index devices)) [
      | inl e ↦ ground arith
      | inr (rest, e) ↦
          let behind : pos ≡ suc rest = ground arith in
          rw (behind, other) (step rest (merge_at-upsert src devices rest e))
    ]
  ]
    where
      step :
          (rest : ℕ)
          → merge_at f src rest (get_elem? devices rest) devices ≡ upsert src devices
          → merge_at f src (suc rest) (get_elem? devices rest) (d ∷ devices)
            ≡ d ∷ upsert src devices
      step rest ih = elim (Option-cases (get_elem? devices rest)) [
        | inl e ↦ ground arith
        | inr (x, e) ↦ ground arith
      ]

  append-upsert :
      (src : Device f) (devices : List (Device f))
      → locate src.index devices ≡ none
      → devices ++ src ∷ [] ≡ upsert src devices
  append-upsert src [] h = refl
  append-upsert src (d ∷ devices) h =
      let (other, missing) = locate-cons-none src.index d devices h in
      rw other (ap (λ t. d ∷ t) (append-upsert src devices missing))

  locate-upsert :
      (i : ℕ) (src : Device f) (devices : List (Device f)) (pos : ℕ)
      → locate src.index devices ≡ some pos
      → locate i (upsert src devices) ≡ locate i devices
  locate-upsert i src [] pos h = cc
  locate-upsert i src (d ∷ devices) pos h = elim (Bool-cases (d.index == src.index)) [
    | inl same ↦ ground arith
    | inr other ↦ elim (Option-cases (locate src.index devices)) [
      | inl e ↦ ground arith
      | inr (rest, e) ↦ ground (arith, locate-upsert i src devices rest e)
    ]
  ]

  locate-append :
      (i : ℕ) (src : Device f) (devices : List (Device f))
      → locate src.index devices ≡ none
      → locate i (devices ++ src ∷ [])
        ≡ (if src.index == i then some (length devices) else locate i devices)
  locate-append i src [] h = refl
  locate-append i src (d ∷ devices) h =
      let (other, missing) = locate-cons-none src.index d devices h in
      ground (arith, locate-append i src devices missing)

  -- One round keeps the table right, and is an `upsert` on the devices.
  merge_one-upsert :
      (src : Device f) (m : Merging f)
      → IsTable m
      → IsTable (merge_one f src m) × ((merge_one f src m).0 ≡ upsert src m.0)
  unfolding merge_one position_of
  merge_one-upsert src (devices, by_idx) t = elim (Option-cases (locate src.index devices)) [
    | inl e ↦
        let missing : position_of src.index by_idx ≡ none = t src.index ∙ e in
        rw missing (
          λ i.
              rw (locate-append i src devices e)
                (ap (λ o. if src.index == i then some (length devices) else o) (t i)),
          append-upsert src devices e,
        )
    | inr (pos, e) ↦
        let found : position_of src.index by_idx ≡ some pos = t src.index ∙ e in
        rw found (
          λ i.
              rw (merge_at-upsert src devices pos e)
                (t i ∙ sym (locate-upsert i src devices pos e)),
          merge_at-upsert src devices pos e,
        )
  ]

  merge_all-upsert :
      (l : List (Device f)) (m : Merging f)
      → IsTable m
      → IsTable (merge_all f l m) × ((merge_all f l m).0 ≡ upsert_all l m.0)
  unfolding merge_all
  merge_all-upsert [] m t = (t, refl)
  merge_all-upsert (src ∷ l) m t =
      let (t', e) = merge_one-upsert src m t in
      let (t'', e') = merge_all-upsert l (merge_one f src m) t' in (t'', e' ∙ ap (upsert_all l) e)

  -- The samples of the window, oldest first.
  abbrev pub window : Time → List (Sample f) → List (Sample f)
  window cutoff = keep (λ s. not_before (λ (t : Sample f). t.timestamp) s cutoff)

  abbrev pub merge_samples : List (Sample f) → List (Device f) → List (Device f)
  merge_samples [] devices = devices
  merge_samples (s ∷ rest) devices = merge_samples rest (upsert_all s.devices devices)

  abbrev pub last_stamp : Option Time → List (Sample f) → Option Time
  last_stamp stamp [] = stamp
  last_stamp stamp (s ∷ rest) = last_stamp (some s.timestamp) rest

  abbrev pub peak_of : Option Time → List (Device f) → Option (Sample f)
  peak_of none devices = none
  peak_of (some stamp) devices = some (record { timestamp = stamp; devices = devices; error = [] })

  peak_loop-window :
      (cutoff : Time) (stamp : Option Time) (l : List (Sample f)) (m : Merging f)
      → IsTable m
      → seen f (peak_loop f cutoff stamp m l)
        ≡ peak_of (last_stamp stamp (window cutoff l)) (merge_samples (window cutoff l) m.0)
  unfolding peak_loop
  peak_loop-window cutoff none [] m t = refl
  peak_loop-window cutoff (some stamp) [] m t = refl
  peak_loop-window cutoff stamp (s ∷ l) m t = elim (Bool-cases (before s.timestamp cutoff)) [
    | inl old ↦ rw old (peak_loop-window cutoff stamp l m t)
    | inr now ↦
        let (t', e) = merge_all-upsert s.devices m t in
        rw now (
          peak_loop-window cutoff (some s.timestamp) l (merge_all f s.devices m) t'
          ∙ ap
              (λ ds.
                peak_of (last_stamp (some s.timestamp) (window cutoff l))
                  (merge_samples (window cutoff l) ds))
              e)
  ]

  -- `Peak` is nil exactly on an empty window. Otherwise it has the time stamp of the newest sample
  -- of the window and the merge by index, oldest first, of all its devices.
  pub peak-merge_samples :
      (now : Time) (buf : RingBuffer (Sample f)) (d : Duration)
      → let w = window (add_neg now d) (Ring.snapshot (zero_sample f) buf) in
        peak f now buf d ≡ peak_of (last_stamp none w) (merge_samples w [])
  unfolding peak position_of
  peak-merge_samples now buf d =
      peak_loop-window (add_neg now d) none (Ring.snapshot (zero_sample f) buf) ([], []) (λ i. refl)

  abbrev pub find_device : ℕ → List (Device f) → Option (Device f)
  find_device i [] = none
  find_device i (d ∷ devices) =
      let rest = find_device i devices in if d.index == i then some d else rest

  abbrev pub merge_into : Device f → Option (Device f) → Device f
  merge_into src none = src
  merge_into src (some d) = merge_device f src d

  -- The readings of one device, oldest first, merged one after the other.
  abbrev pub combine : ℕ → Option (Device f) → List (Device f) → Option (Device f)
  combine i acc [] = acc
  combine i acc (src ∷ more) =
      combine i (if src.index == i then some (merge_into src acc) else acc) more

  find_device-upsert :
      (i : ℕ) (src : Device f) (devices : List (Device f))
      → find_device i (upsert src devices) ≡ (
          if src.index == i
          then some (merge_into src (find_device i devices))
          else find_device i devices)
  find_device-upsert i src [] = refl
  find_device-upsert i src (d ∷ devices) = ground (arith, find_device-upsert i src devices)

  -- Merging by index treats each device by itself: what stands at an index is the merge of that
  -- index's own readings, whatever the other devices report.
  pub find_device-upsert_all :
      (i : ℕ) (readings devices : List (Device f))
      → find_device i (upsert_all readings devices) ≡ combine i (find_device i devices) readings
  find_device-upsert_all i [] devices = refl
  find_device-upsert_all i (src ∷ more) devices =
      find_device-upsert_all i more (upsert src devices)
      ∙ ap (λ o. combine i o more) (find_device-upsert i src devices)
