-- ===== src/Gpu/Nvml/Laws.antt =====
-- The samples and the profile of the NVML collector name the same devices.
use workstation_probe.Common.{
  ℕ, zero, suc, ◌+◌, ◌<◌, ◌≤◌, ◌≡◌, refl, ap, ap₂, subst, sym, ◌∙◌, true, Option, none, some, List,
  [], ◌∷◌, arith, length, map, Bytes,
}
use workstation_probe.Common.Time.{Time}
use workstation_probe.Common.Float.{Float64}
use workstation_probe.Common.Result.{Result, ok, err}
use workstation_probe.Gpu.{Device, ProfileDevice}
use workstation_probe.Gpu.Nvml.{
  Nvml, Collector, enumerate, enlist, init, init_with, init_counted, profile, read_device,
  read_devices, collect, shutdown, device_identity, profile_identity, with_utilization, with_memory,
  with_temperature, with_power, with_limit,
}

module _ (lib : Nvml) (f : Float64) where
  open lib use {Handle}

  abbrev named : Device f → ℕ × Bytes × Bytes
  named = device_identity lib f

  named-utilization :
      (r : Result Bytes (ℕ × ℕ)) (d : Device f) → named (with_utilization lib f r d) ≡ named d
  named-utilization (ok u) d = refl
  named-utilization (err message) d = refl

  named-memory : (m : Option (ℕ × ℕ)) (d : Device f) → named (with_memory lib f m d) ≡ named d
  named-memory none d = refl
  named-memory (some u) d = refl

  named-temperature : (t : Option ℕ) (d : Device f) → named (with_temperature lib f t d) ≡ named d
  named-temperature none d = refl
  named-temperature (some t) d = refl

  named-power : (w : Option ℕ) (d : Device f) → named (with_power lib f w d) ≡ named d
  named-power none d = refl
  named-power (some w) d = refl

  named-limit : (l : Option ℕ) (d : Device f) → named (with_limit lib f l d) ≡ named d
  named-limit none d = refl
  named-limit (some l) d = refl

  -- No reading changes what names the device.
  read_device-identity :
      (dev : Handle) (p : ProfileDevice)
      → named (read_device lib f dev p) ≡ profile_identity lib f p
  unfolding read_device
  read_device-identity dev p =
      named-limit (lib.power_management_limit dev) _
      ∙ named-power (lib.power_usage dev) _
      ∙ named-temperature (lib.temperature dev) _
      ∙ named-memory (lib.memory_info dev) _
      ∙ named-utilization (lib.utilization_rates dev) _

  read_devices-identity :
      (devices : List Handle) (profiles : List ProfileDevice)
      → length devices ≡ length profiles
      → map named (read_devices lib f devices profiles) ≡ map (profile_identity lib f) profiles
  unfolding read_devices
  read_devices-identity [] [] h = refl
  read_devices-identity [] (p ∷ profiles) h = absurd (omega arith)
  read_devices-identity (d ∷ devices) [] h = absurd (omega arith)
  read_devices-identity (d ∷ devices) (p ∷ profiles) h =
      ap₂ ◌∷◌ (read_device-identity d p) (read_devices-identity devices profiles (omega arith))

  -- The numbers of the profiles lie in `[i, i + n)` and ascend.
  abbrev pub IsAscending : ℕ → ℕ → List ProfileDevice → Type 0
  IsAscending lo hi [] = Unit
  IsAscending lo hi (p ∷ profiles) =
      (lo ≤ p.index) × (p.index < hi) × IsAscending (p.index + 1) hi profiles

  IsAscending-weaken :
      (lo lo' hi hi' : ℕ) (l : List ProfileDevice)
      → lo' ≤ lo
      → hi ≤ hi'
      → IsAscending lo hi l
      → IsAscending lo' hi' l
  IsAscending-weaken lo lo' hi hi' [] h k a = tt
  IsAscending-weaken lo lo' hi hi' (p ∷ l) h k (b, c, a) = (
    omega arith,
    omega arith,
    IsAscending-weaken (p.index + 1) (p.index + 1) hi hi' l (omega arith) k a,
  )

  abbrev IsFound : ℕ → ℕ → List Handle × List ProfileDevice → Type 0
  IsFound lo hi found = (length found.0 ≡ length found.1) × IsAscending lo hi found.1

  enlist-IsFound :
      (i hi : ℕ) (o : Option Handle) (found : List Handle × List ProfileDevice)
      → i < hi
      → IsFound (i + 1) hi found
      → IsFound i hi (enlist lib f i o found)
  enlist-IsFound i hi none (devices, profiles) h (same, rest) =
      (same, IsAscending-weaken (i + 1) i hi hi profiles (omega arith) (omega arith) rest)
  enlist-IsFound i hi (some dev) (devices, profiles) h (same, rest) =
      (ap suc same, (omega arith, h, rest))

  enumerate-IsFound : (n i hi : ℕ) → i + n ≤ hi → IsFound i hi (enumerate lib f n i)
  unfolding enumerate
  enumerate-IsFound zero i hi h = (refl, tt)
  enumerate-IsFound (suc n) i hi h =
      enlist-IsFound i hi (lib.device_get_handle_by_index i) (enumerate lib f n (i + 1))
        (omega arith) (enumerate-IsFound n (i + 1) hi (omega arith))

  -- The samples list the devices of the profile.
  pub record IsConsistent (now : Time) (c : Collector lib f) : Type 0 where
    pub same_devices :
        map named (collect lib f now c).devices
        ≡ map (profile_identity lib f) (profile lib f c).devices
    pub counted : (profile lib f c).device_count ≡ length (profile lib f c).devices
    pub numbered : (n : ℕ) → lib.device_get_count ≡ ok n → IsAscending 0 n (profile lib f c).devices

  counted-IsConsistent :
      (now : Time) (c c' : Collector lib f) (g : Result Bytes ℕ)
      → lib.device_get_count ≡ g
      → init_counted lib f c g ≡ ((true, []), c')
      → IsConsistent now c'
  unfolding profile collect
  counted-IsConsistent now c c' (err message) e h = ground arith
  counted-IsConsistent now c c' (ok n) e h =
      let (same, ascending) = enumerate-IsFound n 0 n (omega arith) in
      let d : (enumerate lib f n 0).0 ≡ c'.devices = cc h in
      let p : (enumerate lib f n 0).1 ≡ c'.profiles = cc h in
      record {
        same_devices =
            read_devices-identity c'.devices c'.profiles (ap length (sym d) ∙ same ∙ ap length p);
        counted = refl;
        numbered = λ m k.
            let k' : n ≡ m = cc (sym e ∙ k) in
            subst (λ t. IsAscending 0 t c'.profiles) k' (subst (IsAscending 0 n) p ascending);
      }

  -- After a successful `Init` every sample lists the devices of the profile: the same numbers, UUIDs
  -- and names in the same order, whatever the readings return, and the numbers ascend below the
  -- count that NVML reports; the profile's device count is the number of its devices.
  pub init-IsConsistent :
      (now : Time) (c c' : Collector lib f) → init lib f c ≡ ((true, []), c') → IsConsistent now c'
  unfolding init profile collect
  init-IsConsistent now c c' h = started lib.init h
    where
      started :
          (r : Result Bytes (Unit {0}))
          → init_with lib f c r ≡ ((true, []), c')
          → IsConsistent now c'
      started (err message) k = ground arith
      started (ok u) k =
          counted-IsConsistent now (record c { inited = true }) c' lib.device_get_count refl k

  -- `Shutdown` may be called again: NVML is shut down once.
  pub shutdown-again : (c : Collector lib f) → shutdown lib f (shutdown lib f c) ≡ shutdown lib f c
  unfolding shutdown
  shutdown-again c = ground arith
