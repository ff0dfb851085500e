-- ===== src/Handlers/Merged.antt =====
-- Which sample of which module the merged view holds.
use workstation_probe.Common.{
  ◌*◌, ◌≡◌, ◌≢◌, ◌⊎◌, not, if◌then◌else◌, ap, sym, subst, refl, inl, inr, Bool, true, false, Option,
  none, some, List, [], ◌∷◌, map, Bytes, codes, bytes_eq, Bool-cases,
}
use workstation_probe.Common.Int.{pos}
use workstation_probe.Common.Time.{Duration, second}
use workstation_probe.Common.Float.{Float64}
use workstation_probe.Params.{parse_duration_param}
use workstation_probe.Handlers.{
  Kinds, Value, nil, cpu, memory, gpu, storage, Module, CombinedSample, assign_sample, or_latest,
  peak_or_latest, chosen, gather, in_window, combined,
}

-- The last value that is there, or the first argument.
abbrev pub last_of : {A : Type 0} → Option A → List (Option A) → Option A
last_of first [] = first
last_of first (none ∷ values) = last_of first values
last_of first (some a ∷ values) = last_of (some a) values

module _ {k : Kinds} where
  abbrev pub cpu_of : Value k → Option k.CpuSample
  cpu_of (cpu s) = s
  cpu_of v = none

  abbrev pub memory_of : Value k → Option k.MemorySample
  memory_of (memory s) = s
  memory_of v = none

  abbrev pub gpu_of : Value k → Option k.GpuSample
  gpu_of (gpu s) = s
  gpu_of v = none

  abbrev pub storage_of : Value k → Option k.StorageSample
  storage_of (storage s) = s
  storage_of v = none

  -- Each field is that of the last of the values that has its kind and is not a nil pointer.
  abbrev pub IsView : CombinedSample k → List (Value k) → CombinedSample k → Type 0
  IsView out values view =
      (view.cpu ≡ last_of out.cpu (map cpu_of values))
      × (view.memory ≡ last_of out.memory (map memory_of values))
      × (view.gpu ≡ last_of out.gpu (map gpu_of values))
      × (view.storage ≡ last_of out.storage (map storage_of values))
      × (view.mode ≡ out.mode)
      × (view.window_seconds ≡ out.window_seconds)

  assign_sample-IsView :
      (out view : CombinedSample k) (v : Value k) (values : List (Value k))
      → IsView (assign_sample out v) values view
      → IsView out (v ∷ values) view
  unfolding assign_sample
  assign_sample-IsView out view nil values h = h
  assign_sample-IsView out view (cpu none) values h = h
  assign_sample-IsView out view (cpu (some s)) values h = h
  assign_sample-IsView out view (memory none) values h = h
  assign_sample-IsView out view (memory (some s)) values h = h
  assign_sample-IsView out view (gpu none) values h = h
  assign_sample-IsView out view (gpu (some s)) values h = h
  assign_sample-IsView out view (storage none) values h = h
  assign_sample-IsView out view (storage (some s)) values h = h

  -- The value that a module gives: its latest, or in a window its peak, where a module without a peak and one whose peak is
  -- the nil `any` give their latest.
  abbrev pub IsPeakOr : Duration → Module k → Option (Duration → Value k) → Value k → Type 0
  IsPeakOr window m none v = v ≡ m.latest
  IsPeakOr window m (some peak) v =
      ((peak window ≡ nil) × (v ≡ m.latest)) ⊎ ((peak window ≢ nil) × (v ≡ peak window))

  abbrev pub IsGiven : Option Duration → Module k → Value k → Type 0
  IsGiven none m v = v ≡ m.latest
  IsGiven (some window) m v = IsPeakOr window m m.peak v

  -- The values of the enabled modules, in order.
  abbrev pub AreGiven : Option Duration → List (Module k) → List (Value k) → Type 0
  AreGiven mode [] [] = Unit
  AreGiven mode [] (v ∷ values) = ⊥
  AreGiven mode (m ∷ modules) [] = (m.enabled ≡ false) × AreGiven mode modules []
  AreGiven mode (m ∷ modules) (v ∷ values) =
      ((m.enabled ≡ true) × IsGiven mode m v × AreGiven mode modules values)
      ⊎ ((m.enabled ≡ false) × AreGiven mode modules (v ∷ values))

  abbrev pub IsGathered :
      Option Duration → CombinedSample k → List (Module k) → CombinedSample k → Type 0
  IsGathered mode out modules view =
      (values : List (Value k)) × AreGiven mode modules values × IsView out values view

  or_latest-IsPeakOr :
      (window : Duration) (m : Module k) (peak : Duration → Value k) (v : Value k)
      → peak window ≡ v
      → ((peak window ≡ nil) × (or_latest m v ≡ m.latest))
        ⊎ ((peak window ≢ nil) × (or_latest m v ≡ peak window))
  or_latest-IsPeakOr window m peak nil e = inl (e, refl)
  or_latest-IsPeakOr window m peak (cpu s) e = inr (λ h. cc, sym e)
  or_latest-IsPeakOr window m peak (memory s) e = inr (λ h. cc, sym e)
  or_latest-IsPeakOr window m peak (gpu s) e = inr (λ h. cc, sym e)
  or_latest-IsPeakOr window m peak (storage s) e = inr (λ h. cc, sym e)

  peak_or_latest-IsPeakOr :
      (window : Duration) (m : Module k) (o : Option (Duration → Value k))
      → IsPeakOr window m o (peak_or_latest m window o)
  peak_or_latest-IsPeakOr window m none = refl
  peak_or_latest-IsPeakOr window m (some peak) = or_latest-IsPeakOr window m peak (peak window) refl

  chosen-IsGiven : (mode : Option Duration) (m : Module k) → IsGiven mode m (chosen mode m)
  chosen-IsGiven none m = refl
  chosen-IsGiven (some window) m = peak_or_latest-IsPeakOr window m m.peak

  given_off :
      (mode : Option Duration) (m : Module k) (modules : List (Module k)) (values : List (Value k))
      → m.enabled ≡ false
      → AreGiven mode modules values
      → AreGiven mode (m ∷ modules) values
  given_off mode m modules [] off h = (off, h)
  given_off mode m modules (v ∷ values) off h = inr (off, h)

  gather-IsGathered :
      (mode : Option Duration) (out : CombinedSample k) (modules : List (Module k))
      → IsGathered mode out modules (gather mode out modules)
  unfolding gather
  gather-IsGathered mode out [] = ([], tt, (refl, refl, refl, refl, refl, refl))
  gather-IsGathered mode out (m ∷ modules) = elim (Bool-cases m.enabled) [
    | inl on ↦
        let v = chosen mode m in
        let (values, given, view) = gather-IsGathered mode (assign_sample out v) modules in
        let e : gather mode out (m ∷ modules) ≡ gather mode (assign_sample out v) modules =
          ap (λ b. gather mode (if not b then out else assign_sample out v) modules) on in
        (
          v ∷ values,
          inl (on, chosen-IsGiven mode m, given),
          subst (IsView out (v ∷ values)) (sym e)
              (assign_sample-IsView out (gather mode (assign_sample out v) modules) v values view),
        )
    | inr off ↦
        let v = chosen mode m in
        let (values, given, view) = gather-IsGathered mode out modules in
        let e : gather mode out (m ∷ modules) ≡ gather mode out modules =
          ap (λ b. gather mode (if not b then out else assign_sample out v) modules) off in
        (values, given_off mode m modules values off given, subst (IsView out values) (sym e) view)
  ]

  -- The reply of the two modes; the pair is the parsed window.
  pub IsMerged :
      Float64
      → (is_peak : Bool) → Duration × Bool
      → CombinedSample k
      → List (Module k)
      → Option (CombinedSample k)
      → Type 0
  IsMerged f true (window, false) out modules result = result ≡ none
  IsMerged f true (window, true) out modules result =
      (view : CombinedSample k) × (result ≡ some view)
      × IsGathered (some window)
          (record out { mode = codes "peak"; window_seconds = f.to_int (f.seconds window) }) modules
          view
  IsMerged f false window out modules result =
      (view : CombinedSample k) × (result ≡ some view) × IsGathered none out modules view

  -- In peak mode an invalid window is refused. Otherwise the view holds, for each kind, the sample of the last
  -- enabled module of this kind that has one: its latest sample, and in peak mode its peak of the window.
  -- There the latest sample is taken only for a module without a peak and for a peak that is the nil
  -- `any`; a peak that is a nil pointer of its kind leaves the field as it is.
  pub combined-IsMerged :
      (f : Float64) (parse_duration : Bytes → Option Duration) (mode window : Bytes)
      (out : CombinedSample k) (modules : List (Module k))
      → IsMerged f
          (bytes_eq mode (codes "peak"))
          (parse_duration_param parse_duration window (pos (60 * second)))
          out
          modules
          (combined f parse_duration mode window out modules)
  unfolding combined IsMerged
  combined-IsMerged f parse_duration mode window out modules =
      elim (Bool-cases (bytes_eq mode (codes "peak"))) [
        | inl e ↦ rw e (peak (parse_duration_param parse_duration window (pos (60 * second))))
        | inr e ↦ rw e (gather none out modules, refl, gather-IsGathered none out modules)
      ]
    where
      peak : (w : Duration × Bool) → IsMerged f true w out modules (in_window f out modules w)
      peak (w, false) = refl
      peak (w, true) =
          let begun = record out { mode = codes "peak"; window_seconds = f.to_int (f.seconds w) } in
          (gather (some w) begun modules, refl, gather-IsGathered (some w) begun modules)
