-- ===== src/Modules/Quiet.antt =====
-- The merged view in peak mode, for the program's own modules and a window in which none of them took a sample.
use workstation_probe.Common.{
  ◌*◌, codes, bytes_eq, ◌≡◌, refl, ap, sym, ◌∙◌, subst, inl, inr, true, not, Option, none, some,
  List, [], ◌∷◌, if◌then◌else◌, reverse, keep, map, All, Bytes, Bool-cases,
}
use mathlib.Core.Option
use workstation_probe.Common.Time.{Time, Duration, second, before, add_neg}
use workstation_probe.Common.Int.{pos}
use workstation_probe.Common.Float.{Float64}
use workstation_probe.Ring
use workstation_probe.Cpu
use workstation_probe.Cpu.Arrays.{Store}
use workstation_probe.Cpu.Empty.{peak-IsOutside}
use workstation_probe.Memory
use workstation_probe.Memory.Peak.{peak-max_used}
use workstation_probe.Gpu
use workstation_probe.Gpu.Stub.{Collector}
use workstation_probe.Gpu.Peak.{peak-merge_samples}
use workstation_probe.Storage
use workstation_probe.Handlers
use workstation_probe.Params.{parse_duration_param}
use workstation_probe.Handlers.{
  Kinds, combined, Value, nil, cpu, memory, gpu, storage, CombinedSample, assign_sample, gather,
  chosen,
}
use workstation_probe.Modules.{
  ProbeModule, cpu_module, memory_module, gpu_module, storage_module, enabled, latest, peak,
  handled,
}
use workstation_probe.Samples.{kinds}

gather-enabled :
    {k : Kinds} (mode : Option Duration) (out : CombinedSample k) (m : Handlers.Module k)
    (modules : List (Handlers.Module k))
    → m.enabled ≡ true
    → gather mode out (m ∷ modules) ≡ gather mode (assign_sample out (chosen mode m)) modules
unfolding gather
gather-enabled mode out m modules on =
    ap (λ b. gather mode (if not b then out else assign_sample out (chosen mode m)) modules) on

keep-IsOutside :
    {S : Type 0} (stamp : S → Time) (cutoff : Time) (l : List S)
    → All (λ (s : S). before (stamp s) cutoff ≡ true) l
    → keep (λ s. not (before (stamp s) cutoff)) l ≡ []
keep-IsOutside stamp cutoff [] outside = refl
keep-IsOutside stamp cutoff (s ∷ l) outside = rw outside.0 (keep-IsOutside stamp cutoff l outside.1)

module _ (f : Float64) (k : Collector f) where
  -- Every sample that the module holds is older than the window.
  unfoldable pub IsQuiet : Time → Duration → ProbeModule f k → Type 0
  IsQuiet now d (cpu_module m) =
      All (λ (s : Cpu.Sample f). before s.timestamp (add_neg now d) ≡ true)
        (reverse (Ring.snapshot (Cpu.zero_sample f) m.base.buf))
  IsQuiet now d (memory_module m) =
      All (λ (s : Memory.Sample f). before s.timestamp (add_neg now d) ≡ true)
        (reverse (Ring.snapshot (Memory.zero_sample f) m.base.buf))
  IsQuiet now d (gpu_module m) =
      All (λ (s : Gpu.Sample f). before s.timestamp (add_neg now d) ≡ true)
        (Ring.snapshot (Gpu.zero_sample f) m.base.buf)
  IsQuiet now d (storage_module m) = Unit

  -- The peak mode of a module that is quiet: the modules for the cpu and the memory give the nil pointer of their kind,
  -- which is no nil `any`, and the others their latest sample.
  abbrev pub shown : Store f → ProbeModule f k → Value (kinds f)
  shown st (cpu_module m) = cpu none
  shown st (memory_module m) = memory none
  shown st (gpu_module m) = latest f k st (gpu_module m)
  shown st (storage_module m) = latest f k st (storage_module m)

  chosen-IsQuiet :
      (now reported checked : Time) (st : Store f) (d : Duration) (m : ProbeModule f k)
      → IsQuiet now d m
      → chosen (some d) (handled f k now reported checked st m) ≡ shown st m
  unfolding IsQuiet peak latest
  chosen-IsQuiet now reported checked st d (cpu_module m) quiet =
      rw (peak-IsOutside f now m.base.buf d st quiet) refl
  chosen-IsQuiet now reported checked st d (memory_module m) quiet =
      rw
        (
          peak-max_used f now m.base.buf d,
          keep-IsOutside (λ (s : Memory.Sample f). s.timestamp) (add_neg now d) _ quiet,
        )
        refl
  chosen-IsQuiet now reported checked st d (gpu_module m) quiet =
      rw
        (
          peak-merge_samples f now m.base.buf d,
          keep-IsOutside (λ (s : Gpu.Sample f). s.timestamp) (add_neg now d) _ quiet,
        )
        refl
  chosen-IsQuiet now reported checked st d (storage_module m) quiet = refl

  -- Two merged views that agree on the gpu and the storage.
  abbrev IsAlike : CombinedSample (kinds f) → CombinedSample (kinds f) → Type 0
  IsAlike a b = (a.gpu ≡ b.gpu) × (a.storage ≡ b.storage)

  -- What the peak mode leaves out, against the view of the latest mode.
  abbrev pub IsLacking : (out peaked latest : CombinedSample (kinds f)) → Type 0
  IsLacking out peaked latest =
      (peaked.cpu ≡ out.cpu)
      × (peaked.memory ≡ out.memory)
      × (peaked.gpu ≡ latest.gpu)
      × (peaked.storage ≡ latest.storage)

  module _ (now reported checked : Time) (st : Store f) (d : Duration) where
    abbrev all_handled : List (ProbeModule f k) → List (Handlers.Module (kinds f))
    all_handled = map (handled f k now reported checked st)

    assign_sample-shown :
        (m : ProbeModule f k) (a b : CombinedSample (kinds f))
        → IsAlike a b
        → let a' = assign_sample a (shown st m) in
          (a'.cpu ≡ a.cpu) × (a'.memory ≡ a.memory) × IsAlike a' (assign_sample b (latest f k st m))
    unfolding assign_sample latest
    assign_sample-shown (cpu_module m) a b alike = by_sample m.base.latest
      where
        by_sample :
            (o : Option (Cpu.Sample f))
            → let b' = assign_sample b (cpu (Option.map (λ (s : Cpu.Sample f). (s, st)) o)) in
              (a.cpu ≡ a.cpu) × (a.memory ≡ a.memory) × IsAlike a b'
        by_sample none = (refl, refl, alike)
        by_sample (some s) = (refl, refl, alike)
    assign_sample-shown (memory_module m) a b alike = by_sample m.base.latest
      where
        by_sample :
            (o : Option (Memory.Sample f))
            → (a.cpu ≡ a.cpu) × (a.memory ≡ a.memory) × IsAlike a (assign_sample b (memory o))
        by_sample none = (refl, refl, alike)
        by_sample (some s) = (refl, refl, alike)
    assign_sample-shown (gpu_module m) a b alike = by_sample m.base.latest
      where
        by_sample :
            (o : Option (Gpu.Sample f))
            → let a' = assign_sample a (gpu o) in
              (a'.cpu ≡ a.cpu) × (a'.memory ≡ a.memory) × IsAlike a' (assign_sample b (gpu o))
        by_sample none = (refl, refl, alike)
        by_sample (some s) = (refl, refl, (refl, alike.1))
    assign_sample-shown (storage_module m) a b alike = by_sample m.base.latest
      where
        by_sample :
            (o : Option (Storage.Sample f))
            → let a' = assign_sample a (storage o) in
              (a'.cpu ≡ a.cpu) × (a'.memory ≡ a.memory) × IsAlike a' (assign_sample b (storage o))
        by_sample none = (refl, refl, alike)
        by_sample (some s) = (refl, refl, (alike.0, refl))

    gather-IsLacking :
        (mods : List (ProbeModule f k)) (a b : CombinedSample (kinds f))
        → All (IsQuiet now d) mods
        → IsAlike a b
        → IsLacking a (gather (some d) a (all_handled mods)) (gather none b (all_handled mods))
    unfolding gather
    gather-IsLacking [] a b quiet alike = (refl, refl, alike.0, alike.1)
    gather-IsLacking (m ∷ mods) a b quiet alike = elim (Bool-cases (enabled f k m)) [
      | inl on ↦
          let same = chosen-IsQuiet now reported checked st d m quiet.0 in
          let (c, e, alike') = assign_sample-shown m a b alike in
          let rest =
            gather-IsLacking mods (assign_sample a (shown st m)) (assign_sample b (latest f k st m))
              quiet.1 alike' in
          subst (λ r. IsLacking a r (gather none b (all_handled (m ∷ mods))))
            (sym (
              gather-enabled (some d) a (handled f k now reported checked st m) (all_handled mods)
                on
              ∙ ap (λ v. gather (some d) (assign_sample a v) (all_handled mods)) same))
            (subst
              (λ r.
                IsLacking a (gather (some d) (assign_sample a (shown st m)) (all_handled mods)) r)
              (sym (
                gather-enabled none b (handled f k now reported checked st m) (all_handled mods)
                  on))
              (rest.0 ∙ c, rest.1 ∙ e, rest.2, rest.3))
      | inr off ↦ rw off (gather-IsLacking mods a b quiet.1 alike)
    ]

    -- In peak mode, for modules that took no sample in the window that is asked for: the view has no cpu and no memory
    -- sample, also where there are latest samples of them, and its gpu and storage samples are those
    -- that the latest mode shows.
    pub combined-IsLacking :
        (mods : List (ProbeModule f k)) (parse_duration : Bytes → Option Duration) (window : Bytes)
        (out : CombinedSample (kinds f))
        → All (IsQuiet now d) mods
        → parse_duration_param parse_duration window (pos (60 * second)) ≡ (d, true)
        → (peaked shown : CombinedSample (kinds f)) × (combined f parse_duration
              (codes "peak")
              window
              out
              (all_handled mods)
            ≡ some peaked)
          × (combined f parse_duration [] window out (all_handled mods) ≡ some shown)
          × IsLacking out peaked shown
    unfolding combined bytes_eq
    combined-IsLacking mods parse_duration window out quiet parsed =
        let begun = record out { mode = codes "peak"; window_seconds = f.to_int (f.seconds d) } in
        (
          gather (some d) begun (all_handled mods),
          gather none out (all_handled mods),
          rw parsed refl,
          refl,
          gather-IsLacking mods begun out quiet (refl, refl),
        )
