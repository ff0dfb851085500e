-- ===== src/Handlers/Profile.antt =====
-- internal/server/handlers/profile.go: the static snapshot of the enabled modules. The texts of the clock and of the
-- runtime, and what gopsutil says of the boot time, are arguments.
pub mod Blocks
use workstation_probe.Common.{
  ℕ, Bool, true, false, Option, none, some, List, [], ◌∷◌, foldl, if◌then◌else◌, Bytes, codes,
  bytes_eq,
}
use workstation_probe.Common.Int.{ℤ}
use workstation_probe.Common.Result.{Result, ok, err, ◌>>=◌}
use workstation_probe.Cpu
use workstation_probe.Memory
use workstation_probe.Gpu
use workstation_probe.Gpu.{ProfileDevice}
use workstation_probe.Storage.{MountPoint}

-- What `Profile` of a module returns, as an `any`; `storage` holds the one field of its `ProfileInfo`.
pub data Profile : Type 0 where
  cpu : Cpu.ProfileInfo → Profile
  memory : Memory.ProfileInfo → Profile
  gpu : Gpu.ProfileInfo → Profile
  storage : List MountPoint → Profile

pub record Profiled : Type 0 where
  pub name : Bytes
  pub enabled : Bool
  pub profile : Profile

pub record ProfileSamplerConfig : Type 0 where
  pub interval_ms : ℤ
  pub history_capacity : ℤ

pub record ProfileCpuInfo : Type 0 where
  pub enabled : Bool
  pub info : Cpu.ProfileInfo

pub record ProfileMemoryInfo : Type 0 where
  pub enabled : Bool
  pub info : Memory.ProfileInfo

pub record ProfileGpuInfo : Type 0 where
  pub enabled : Bool
  pub info : Gpu.ProfileInfo

pub record ProfileStorageInfo : Type 0 where
  pub enabled : Bool
  pub mount_points : List MountPoint

-- The fields of the host, which the handler keeps from its construction.
pub record HostInfo : Type 0 where
  pub hostname : Bytes
  pub server_timezone : Bytes
  pub server_timezone_offset_seconds : ℤ
  pub host_boot_time_unix_seconds : ℕ
  pub host_boot_time_local : Bytes
  pub started_at : Bytes

pub record ProfileBlocks : Type 0 where
  pub cpu : ProfileCpuInfo
  pub memory : ProfileMemoryInfo
  pub gpu : ProfileGpuInfo
  pub storage : ProfileStorageInfo

pub record ProfileHandler : Type 0 where
  pub host : HostInfo
  pub sampler : ProfileSamplerConfig
  pub mods : Bytes → Option Profiled

pub record ProfileResponse : Type 0 where
  pub go_version : Bytes
  pub host : HostInfo
  pub sampler : ProfileSamplerConfig
  pub modules : ProfileBlocks

abbrev pub no_blocks : ProfileBlocks
no_blocks = record {
  cpu = record {
    enabled = false;
    info = record {
      model_name = [];
      vendor = [];
      architecture = [];
      core_count = 0;
      startup_error = [];
    };
  };
  memory = record { enabled = false; info = record { total_bytes = 0; startup_error = [] } };
  gpu = record {
    enabled = false;
    info = record { disabled_reason = []; device_count = 0; devices = [] };
  };
  storage = record { enabled = false; mount_points = [] };
}

-- `idx[m.Name()] = m`
abbrev pub with_module : (Bytes → Option Profiled) → Profiled → Bytes → Option Profiled
with_module mods m = λ name. if bytes_eq m.name name then some m else mods name

pub index : List Profiled → Bytes → Option Profiled
index mods = foldl with_module (λ name. none) mods

abbrev boot_seconds : Result Bytes ℕ → ℕ
boot_seconds (ok boot) = boot
boot_seconds (err e) = 0

abbrev boot_text : (ℕ → Bytes) → Result Bytes ℕ → Bytes
boot_text format (ok boot) = format boot
boot_text format (err e) = []

pub new_profile :
    (hostname : Bytes)
    → ProfileSamplerConfig
    → List Profiled
    → (zone : Bytes) (offset : ℤ) → (boot : Result Bytes ℕ) → (format : ℕ → Bytes)
    → (started_at : Bytes) → ProfileHandler
unfolding index bytes_eq
new_profile hostname sampler mods zone offset boot format started_at = record {
  host = record {
    hostname = if bytes_eq hostname [] then codes "unknown" else hostname;
    server_timezone = zone;
    server_timezone_offset_seconds = offset;
    host_boot_time_unix_seconds = boot_seconds boot;
    host_boot_time_local = boot_text format boot;
    started_at = started_at;
  };
  sampler = sampler;
  mods = index mods;
}

-- The type assertions, which panic on a profile of another type.
abbrev pub mismatch : Bytes
mismatch = codes "interface conversion"

abbrev pub put_cpu : Bool → Profile → ProfileBlocks → Result Bytes ProfileBlocks
put_cpu enabled (cpu info) b = ok (record b { cpu = record { enabled = enabled; info = info } })
put_cpu enabled p b = err mismatch

abbrev pub put_memory : Bool → Profile → ProfileBlocks → Result Bytes ProfileBlocks
put_memory enabled (memory info) b =
    ok (record b { memory = record { enabled = enabled; info = info } })
put_memory enabled p b = err mismatch

abbrev pub put_gpu : Bool → Profile → ProfileBlocks → Result Bytes ProfileBlocks
put_gpu enabled (gpu info) b = ok (record b { gpu = record { enabled = enabled; info = info } })
put_gpu enabled p b = err mismatch

abbrev pub put_storage : Bool → Profile → ProfileBlocks → Result Bytes ProfileBlocks
put_storage enabled (storage points) b =
    ok (record b { storage = record { enabled = enabled; mount_points = points } })
put_storage enabled p b = err mismatch

-- `if m, ok := h.mods[name]; ok { ... }`
abbrev pub if_there :
    (Bool → Profile → ProfileBlocks → Result Bytes ProfileBlocks)
    → Option Profiled
    → ProfileBlocks
    → Result Bytes ProfileBlocks
if_there put none b = ok b
if_there put (some m) b = put m.enabled m.profile b

pub blocks : (Bytes → Option Profiled) → Result Bytes ProfileBlocks
blocks mods = do
  b ← if_there put_cpu (mods (codes "cpu")) no_blocks
  b ← if_there put_memory (mods (codes "memory")) b
  b ← if_there put_gpu (mods (codes "gpu")) b
  if_there put_storage (mods (codes "storage")) b

abbrev response_of :
    Bytes → ProfileHandler → Result Bytes ProfileBlocks → Result Bytes ProfileResponse
response_of go_version h (err cause) = err cause
response_of go_version h (ok b) =
    ok (record { go_version = go_version; host = h.host; sampler = h.sampler; modules = b })

-- `ServeHTTP`, to the value that is encoded; an error is a panic.
pub serve_profile : Bytes → ProfileHandler → Result Bytes ProfileResponse
unfolding blocks
serve_profile go_version h = response_of go_version h (blocks h.mods)
