-- ===== src/Monitor.antt =====
-- cmd/monitor/main.go: which modules are built and started, and how the process ends. The constructors of the modules, the
-- signals and the listener are arguments; the parsing of the flags is left out. The routes are in `Routes`, the log lines in `Log`.
pub mod Setup
pub mod Ending
pub mod Log
pub mod Routes
use workstation_probe.Common.{
  ℕ, Bool, true, false, Option, none, some, List, [], ◌∷◌, ◌++◌, map, if◌then◌else◌, Bytes, codes,
  bytes_eq,
}
use workstation_probe.Common.Int.{ℤ}
use workstation_probe.Common.Time.{Duration}
use workstation_probe.Common.Float.{Float64}
use workstation_probe.Common.Result.{Result, ok, err, ◌>>=◌, ◌>>◌}
use workstation_probe.Config.{Config, ConfigError, MountPointConfig}
use workstation_probe.Storage.{MountConfig}
use workstation_probe.Logging.{Unicode}
use workstation_probe.Lock.{Lock, AcquireError, System, acquire, release}

-- The packages of the modules: `New` of each, and the methods that the start calls.
pub record Packages (E M : Type 0) : Type 0 where
  pub new_cpu : Duration → ℤ → Result E M
  pub new_memory : Duration → ℤ → M
  pub new_gpu : Duration → ℤ → M
  pub new_storage : List MountConfig → Duration → ℤ → Result E M
  pub start : M → Option E
  pub name : M → Bytes

pub data SetupError (E : Type 0) : Type 0 where
  init_failed start_failed : Bytes → E → SetupError E

abbrev pub mount_config : MountPointConfig → MountConfig
mount_config mp = record { path = mp.path; label = mp.label }

module _ {E M : Type 0} (p : Packages E M) where
  pub append_enabled : List M → Bytes → Result E M → Result (SetupError E) (List M)
  append_enabled mods name (err e) = err (init_failed name e)
  append_enabled mods name (ok m) = ok (mods ++ m ∷ [])

  abbrev pub if_enabled : Bool → Bytes → Result E M → List M → Result (SetupError E) (List M)
  if_enabled true name built mods = append_enabled mods name built
  if_enabled false name built mods = ok mods

  abbrev pub started : M → Option E → Result (SetupError E) (Unit {0})
  started m none = ok tt
  started m (some e) = err (start_failed (p.name m) e)

  pub start_all : List M → Result (SetupError E) (Unit {0})
  start_all [] = ok tt
  start_all (m ∷ mods) = started m (p.start m) >> start_all mods

  unfoldable pub build_modules : {f : Float64} → Config f → Result (SetupError E) (List M)
  unfolding append_enabled start_all
  build_modules c = do
    mods ←
        if_enabled c.modules.cpu_enabled (codes "cpu")
          (p.new_cpu c.sampler.interval c.sampler.history_capacity) []
    mods ←
        if_enabled c.modules.memory_enabled (codes "memory")
          (ok (p.new_memory c.sampler.interval c.sampler.history_capacity)) mods
    mods ←
        if_enabled c.modules.gpu_enabled (codes "gpu")
          (ok (p.new_gpu c.sampler.interval c.sampler.history_capacity)) mods
    mods ←
        if_enabled c.modules.storage.enabled (codes "storage")
          (p.new_storage (map mount_config c.modules.storage.mount_points) c.sampler.interval
            c.sampler.history_capacity)
          mods
    start_all mods
    ok mods

-- What one run of the process meets: its flags, the system, what `config.Load` returned, and the end of serving, where
-- `none` is a signal and `some` an error of the listener; and what the Go library does with texts that are not ASCII.
pub record Launch (f : Float64) (E M : Type 0) : Type 1 where
  pub config_path : Bytes
  pub pid_file : Bytes
  pub sys : System
  pub running : ℤ → Bool
  pub our_pid : ℤ
  pub loaded : Result ConfigError (Config f)
  pub packages : Packages E M
  pub listener_error : Option Bytes
  pub unicode : Unicode

-- The exit code, the modules that `Shutdown` was called on, and the lock file.
pub record End (M : Type 0) : Type 0 where
  pub code : ℕ
  pub shut_down : List M
  pub file : Option Bytes

module _ {f : Float64} {E M : Type 0} (l : Launch f E M) where
  abbrev pub served : Result (SetupError E) (List M) → Option Bytes → ℕ × List M
  served (err e) stop = (1, [])
  served (ok mods) (some e) = (1, [])
  served (ok mods) none = (0, mods)

  abbrev pub configured : Result ConfigError (Config f) → ℕ × List M
  configured (err e) = (1, [])
  configured (ok c) = served (build_modules l.packages c) l.listener_error

  -- After the lock is held; the lock is released at each `return`.
  abbrev pub work : ℕ × List M
  work = if bytes_eq l.config_path [] then (2, []) else configured l.loaded

  abbrev pub ended : Result AcquireError Lock × Option Bytes → End M
  ended (err e, file) = record { code = 1; shut_down = []; file = file }
  ended (ok lock, file) =
      let (error, lock', file') = release l.sys (some lock) file in
      record { code = work.0; shut_down = work.1; file = file' }

  pub run : Option Bytes → End M
  unfolding acquire build_modules
  run file = ended (acquire l.sys l.running l.our_pid l.pid_file file)
