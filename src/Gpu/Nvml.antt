-- ===== src/Gpu/Nvml.antt =====
-- nvml_collector.go: the collector over the NVML library, which is the parameter `lib`. Its calls
-- are taken as what they return now; `none` and `err` are return codes other than SUCCESS.
pub mod Laws
use workstation_probe.Common.{
  ℕ, zero, suc, ◌+◌, ◌<◌, ◌≤◌, ◌≡◌, refl, ap, ap₂, Bool, true, false, Option, none, some, List, [],
  ◌∷◌, ◌++◌, arith, length, map, if◌then◌else◌, All, Bytes, codes, Option-cases, inl, inr,
}
use workstation_probe.Common.Time.{Time}
use workstation_probe.Common.Float.{Float64}
use workstation_probe.Common.Result.{Result, ok, err}
use workstation_probe.Gpu.{Device, Sample, ProfileDevice, ProfileInfo}

pub record Nvml : Type 1 where
  pub Handle : Type 0
  pub init : Result Bytes (Unit {0})
  pub device_get_count : Result Bytes ℕ
  pub device_get_handle_by_index : ℕ → Option Handle
  -- The values behind an ignored return code.
  pub uuid : Handle → Bytes
  pub name : Handle → Bytes
  pub memory_total : Handle → ℕ
  pub utilization_rates : Handle → Result Bytes (ℕ × ℕ)
  -- Total and used bytes.
  pub memory_info : Handle → Option (ℕ × ℕ)
  pub temperature : Handle → Option ℕ
  pub power_usage : Handle → Option ℕ
  pub power_management_limit : Handle → Option ℕ

module _ (lib : Nvml) (f : Float64) where
  open lib use {Handle}

  -- `nvmlCollector`; `shutdowns` counts the calls of `nvml.Shutdown`.
  pub record Collector : Type 0 where
    pub inited : Bool
    pub devices : List Handle
    pub profiles : List ProfileDevice
    pub shutdowns : ℕ

  abbrev pub new_nvml_collector : Collector
  new_nvml_collector = record { inited = false; devices = []; profiles = []; shutdowns = 0 }

  abbrev pub profile_of : ℕ → Handle → ProfileDevice
  profile_of i dev = record {
    index = i;
    uuid = lib.uuid dev;
    name = lib.name dev;
    memory_total_bytes = lib.memory_total dev;
  }

  -- A device without a handle is passed over.
  abbrev pub enlist :
      ℕ → Option Handle → List Handle × List ProfileDevice → List Handle × List ProfileDevice
  enlist i none found = found
  enlist i (some dev) (devices, profiles) = (dev ∷ devices, profile_of i dev ∷ profiles)

  -- The loop over `n` device numbers from `i` on.
  unfoldable pub enumerate : ℕ → ℕ → List Handle × List ProfileDevice
  enumerate zero i = ([], [])
  enumerate (suc n) i = enlist i (lib.device_get_handle_by_index i) (enumerate n (i + 1))

  abbrev init_counted : Collector → Result Bytes ℕ → (Bool × Bytes) × Collector
  init_counted c (err message) = (
    (false, codes "nvml device count failed: " ++ message),
    record c { inited = false; shutdowns = c.shutdowns + 1 },
  )
  init_counted c (ok count) =
      let (devices, profiles) = enumerate count 0 in
      ((true, []), record c { devices = devices; profiles = profiles })

  abbrev init_with : Collector → Result Bytes (Unit {0}) → (Bool × Bytes) × Collector
  init_with c (err message) = ((false, codes "nvml init failed: " ++ message), c)
  init_with c (ok u) = init_counted (record c { inited = true }) lib.device_get_count

  unfoldable pub init : Collector → (Bool × Bytes) × Collector
  unfolding enumerate
  init c = init_with c lib.init

  pub shutdown : Collector → Collector
  shutdown c = if c.inited then record c { inited = false; shutdowns = c.shutdowns + 1 } else c

  pub profile : Collector → ProfileInfo
  profile c = record {
    disabled_reason = [];
    device_count = length c.profiles;
    devices = c.profiles;
  }

  abbrev with_utilization : Result Bytes (ℕ × ℕ) → Device f → Device f
  with_utilization (ok (gpu, memory)) d = record d {
    utilization_gpu_percent = f.of_uint gpu;
    utilization_mem_percent = f.of_uint memory;
  }
  with_utilization (err message) d = record d { error = codes "util: " ++ message }

  abbrev with_memory : Option (ℕ × ℕ) → Device f → Device f
  with_memory none d = d
  with_memory (some (total, used)) d = record d {
    memory_total_bytes = total;
    memory_used_bytes = used;
  }

  abbrev with_temperature : Option ℕ → Device f → Device f
  with_temperature none d = d
  with_temperature (some temp) d = record d { temperature_c = f.of_uint temp }

  -- From milliwatts.
  abbrev watts : ℕ → f.Float
  watts n = f.div (f.of_uint n) (f.of_uint 1000)

  abbrev with_power : Option ℕ → Device f → Device f
  with_power none d = d
  with_power (some power) d = record d { power_draw_watts = watts power }

  abbrev with_limit : Option ℕ → Device f → Device f
  with_limit none d = d
  with_limit (some cap) d = record d { power_limit_watts = watts cap }

  -- One round of the loop of `Collect`.
  pub read_device : Handle → ProfileDevice → Device f
  read_device dev p = with_limit (lib.power_management_limit dev) (
      with_power (lib.power_usage dev) (
        with_temperature (lib.temperature dev) (
          with_memory (lib.memory_info dev) (
            with_utilization (lib.utilization_rates dev) (record {
              index = p.index;
              uuid = p.uuid;
              name = p.name;
              utilization_gpu_percent = f.zero_float;
              utilization_mem_percent = f.zero_float;
              memory_total_bytes = 0;
              memory_used_bytes = 0;
              temperature_c = f.zero_float;
              power_draw_watts = f.zero_float;
              power_limit_watts = f.zero_float;
              error = [];
            })))))

  -- Both lists are walked by one index; `Init` makes them equally long.
  read_devices : List Handle → List ProfileDevice → List (Device f)
  read_devices [] profiles = []
  read_devices (dev ∷ devices) [] = []
  read_devices (dev ∷ devices) (p ∷ profiles) = read_device dev p ∷ read_devices devices profiles

  pub collect : Time → Collector → Sample f
  unfolding read_devices
  collect now c = record {
    timestamp = now;
    devices = read_devices c.devices c.profiles;
    error = [];
  }

  -- How a device is told apart.
  abbrev pub Identity : Type 0
  Identity = ℕ × Bytes × Bytes

  abbrev pub device_identity : Device f → Identity
  device_identity d = (d.index, d.uuid, d.name)

  abbrev pub profile_identity : ProfileDevice → Identity
  profile_identity p = (p.index, p.uuid, p.name)
