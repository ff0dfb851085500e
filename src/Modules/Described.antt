-- ===== src/Modules/Described.antt =====
-- The profile request, for the program's own modules.
use workstation_probe.Common.{ℕ, ◌≡◌, refl, false, List, [], ◌∷◌, map, All, Bytes, codes}
use workstation_probe.Common.Int.{ℤ}
use workstation_probe.Common.Float.{Float64}
use workstation_probe.Common.Result.{Result, ok}
use workstation_probe.Gpu.Stub.{Collector}
use workstation_probe.Handlers.Profile.{
  ProfileSamplerConfig, ProfileResponse, new_profile, serve_profile,
}
use workstation_probe.Handlers.Profile.Blocks.{IsTyped, flags, last_flag, serve_profile-IsTyped}
use workstation_probe.Modules.{
  ProbeModule, cpu_module, memory_module, gpu_module, storage_module, name, profile, profiled,
}

module _ (f : Float64) (k : Collector f) where
  All-IsTyped : (mods : List (ProbeModule f k)) → All IsTyped (map (profiled f k) mods)
  unfolding name profile
  All-IsTyped [] = tt
  All-IsTyped (cpu_module m ∷ mods) = (refl, All-IsTyped mods)
  All-IsTyped (memory_module m ∷ mods) = (refl, All-IsTyped mods)
  All-IsTyped (gpu_module m ∷ mods) = (refl, All-IsTyped mods)
  All-IsTyped (storage_module m ∷ mods) = (refl, All-IsTyped mods)

  -- For any list of the program's modules the profile request does not panic, and each of its four blocks is shown
  -- as enabled exactly if the last module of its name in the list is there and enabled.
  pub serve_profile-flags :
      (go_version hostname : Bytes) (sampler : ProfileSamplerConfig) (mods : List (ProbeModule f k))
      → (zone : Bytes) (offset : ℤ) (boot : Result Bytes ℕ) (format : ℕ → Bytes)
        (started_at : Bytes)
      → let h =
          new_profile hostname sampler
            (map (profiled f k) mods)
            zone
            offset
            boot
            format
            started_at in
        (r : ProfileResponse) × (serve_profile go_version h ≡ ok r)
        × (flags r.modules ≡ (
          last_flag (codes "cpu") false (map (profiled f k) mods),
          last_flag (codes "memory") false (map (profiled f k) mods),
          last_flag (codes "gpu") false (map (profiled f k) mods),
          last_flag (codes "storage") false (map (profiled f k) mods),
        ))
  serve_profile-flags go_version hostname sampler mods zone offset boot format started_at =
      serve_profile-IsTyped go_version hostname sampler (map (profiled f k) mods) zone offset boot
        format started_at (All-IsTyped mods)
