-- ===== src/Modules/Named.antt =====
-- The routes of the modules that the setup builds.
use workstation_probe.Common.{
  ◌≡◌, ◌≢◌, refl, sym, subst, ◌∙◌, some, List, [], ◌∷◌, map, All, Lacks, Bytes, codes, bytes_eq,
  differ, contains_byte, contains_byte-Lacks,
}
use workstation_probe.Common.Int.{ℤ}
use workstation_probe.Common.Time.{Time, Duration}
use workstation_probe.Common.Float.{Float64}
use workstation_probe.Common.Result.{Result, ok}
use workstation_probe.Config.{Config}
use workstation_probe.Cpu.Arrays.{Store}
use workstation_probe.Gpu.Stub.{Collector}
use workstation_probe.Storage.{MountConfig}
use workstation_probe.Http.{Handler}
use workstation_probe.Http.Mux.{Route}
use workstation_probe.Monitor.{Packages, build_modules}
use workstation_probe.Monitor.Setup.{
  Wanted, IsBuilt, nothing, left_out, built, wanted_of, build_modules_iff,
}
use workstation_probe.Monitor.Routes.{Mount, register}
use workstation_probe.Monitor.Routes.Mounted.{AreNamed}
use workstation_probe.Monitor.Routes.Registered.{IsComplete, register-IsComplete}
use workstation_probe.Modules.{ProbeModule, name, mount}
use workstation_probe.Samples.{Codec}

module _ (f : Float64) (k : Collector f) where
  -- Each constructor builds the module of its own package.
  pub record IsPacked {E : Type 0} (p : Packages E (ProbeModule f k)) : Type 0 where
    pub of_cpu :
        (d : Duration) (n : ℤ) (m : ProbeModule f k)
        → p.new_cpu d n ≡ ok m
        → name f k m ≡ codes "cpu"
    pub of_memory : (d : Duration) (n : ℤ) → name f k (p.new_memory d n) ≡ codes "memory"
    pub of_gpu : (d : Duration) (n : ℤ) → name f k (p.new_gpu d n) ≡ codes "gpu"
    pub of_storage :
        (l : List MountConfig) (d : Duration) (n : ℤ) (m : ProbeModule f k)
        → p.new_storage l d n ≡ ok m
        → name f k m ≡ codes "storage"

  module _ {E : Type 0} where
    -- Wanted modules under different names without a slash, which the constructors keep.
    abbrev AreAsked : List (Wanted E (ProbeModule f k)) → Type 0
    AreAsked [] = Unit
    AreAsked (w ∷ wanted) =
        Lacks b'/' w.1
        × All (λ (v : Wanted E (ProbeModule f k)). v.1 ≢ w.1) wanted
        × ((m : ProbeModule f k) → w.2 ≡ ok m → name f k m ≡ w.1)
        × AreAsked wanted

    names-apart :
        {W : Type 0} (c : Codec f) (view : Bytes → W → Time × Store f × ProbeModule f k)
        (nm : Bytes) (wanted : List (Wanted E (ProbeModule f k))) (mods : List (ProbeModule f k))
        → IsBuilt wanted mods
        → AreAsked wanted
        → All (λ (v : Wanted E (ProbeModule f k)). v.1 ≢ nm) wanted
        → All (λ (n : Mount W). n.name ≢ nm) (map (mount f k c view) mods)
    unfolding name mount
    names-apart c view nm _ _ nothing asked apart = tt
    names-apart c view nm _ _ (left_out n r wanted mods b) asked apart =
        names-apart c view nm wanted mods b asked.3 apart.1
    names-apart c view nm _ _ (built n m wanted mods b) asked apart = (
      (λ e. apart.0 (sym (asked.2 m refl) ∙ e)),
      names-apart c view nm wanted mods b asked.3 apart.1,
    )

    IsBuilt-AreNamed :
        {W : Type 0} (c : Codec f) (view : Bytes → W → Time × Store f × ProbeModule f k)
        (wanted : List (Wanted E (ProbeModule f k))) (mods : List (ProbeModule f k))
        → IsBuilt wanted mods
        → AreAsked wanted
        → AreNamed (map (mount f k c view) mods)
    unfolding AreNamed mount name
    IsBuilt-AreNamed c view _ _ nothing asked = tt
    IsBuilt-AreNamed c view _ _ (left_out n r wanted mods b) asked =
        IsBuilt-AreNamed c view wanted mods b asked.3
    IsBuilt-AreNamed {W} c view _ _ (built n m wanted mods b) asked =
        let same : name f k m ≡ n = asked.2 m refl in
        (
          subst (Lacks b'/') (sym same) asked.0,
          subst (λ nm. All (λ (v : Mount W). v.name ≢ nm) (map (mount f k c view) mods)) (sym same)
              (names-apart c view n wanted mods b asked.3 asked.1),
          IsBuilt-AreNamed c view wanted mods b asked.3,
        )

    same_ok :
        {a b : ProbeModule f k}
        → (◌≡◌ {A = Result E (ProbeModule f k)} (ok a) (ok b))
        → name f k b ≡ name f k a
    same_ok e = cc

    AreAsked-wanted_of :
        (p : Packages E (ProbeModule f k)) (cfg : Config f)
        → IsPacked p
        → AreAsked (wanted_of p cfg)
    unfolding bytes_eq contains_byte
    AreAsked-wanted_of p cfg packed = (
      (contains_byte-Lacks (codes "cpu") b'/').0 refl,
      (differ _ _ refl, (differ _ _ refl, (differ _ _ refl, tt))),
      packed.of_cpu _ _,
      (
        (contains_byte-Lacks (codes "memory") b'/').0 refl,
        (differ _ _ refl, (differ _ _ refl, tt)),
        (λ m e. same_ok e ∙ packed.of_memory _ _),
        (
          (contains_byte-Lacks (codes "gpu") b'/').0 refl,
          (differ _ _ refl, tt),
          (λ m e. same_ok e ∙ packed.of_gpu _ _),
          ((contains_byte-Lacks (codes "storage") b'/').0 refl, tt, packed.of_storage _ _ _, tt),
        ),
      ),
    )

    -- Whatever modules the configuration enables, and where each constructor that succeeds builds the
    -- module of its own package: if the setup succeeds, the registration of the routes of its modules
    -- and of the three merged views does not panic. Each handler is then found under its path, the two
    -- of each module and the three views, and there are no further routes.
    pub build_modules-IsComplete :
        {W : Type 0} (p : Packages E (ProbeModule f k)) (cfg : Config f)
        (mods : List (ProbeModule f k)) (c : Codec f)
        (view : Bytes → W → Time × Store f × ProbeModule f k) (metrics health profile : Handler W)
        → IsPacked p
        → build_modules p cfg ≡ ok mods
        → (routes : List (Route W)) × (register (map (mount f k c view) mods) metrics health profile
            ≡ some routes)
          × IsComplete (map (mount f k c view) mods) metrics health profile routes
    build_modules-IsComplete p cfg mods c view metrics health profile packed h =
        register-IsComplete (map (mount f k c view) mods) metrics health profile (
          IsBuilt-AreNamed c view (wanted_of p cfg) mods ((build_modules_iff p cfg mods).0 h).0
            (AreAsked-wanted_of p cfg packed))
