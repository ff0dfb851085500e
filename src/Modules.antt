-- ===== src/Modules.antt =====
-- internal/metrics/module.go and peakable.go, with the methods of the four module.go files: what a module says to
-- the handlers, which routes it registers, and its sampling loop.
pub mod Keeping
pub mod Named
pub mod Watched
pub mod Described
pub mod Fresh
pub mod Quiet
use workstation_probe.Common.{
  ℕ, Bool, true, false, Option, none, some, List, [], ◌∷◌, if◌then◌else◌, Bytes, codes,
}
use mathlib.Core.Option
use workstation_probe.Common.Int.{ℤ}
use workstation_probe.Common.Time.{Time, Duration, mul_duration, max_duration}
use workstation_probe.Common.Float.{Float64}
use workstation_probe.Common.Result.{Result}
use workstation_probe.Base.{
  Base, last_sample_age, history_any, not_before, HistoryResponse, Signal, run_loop,
}
use workstation_probe.Cpu
use workstation_probe.Cpu.Arrays.{Store}
use workstation_probe.Memory
use workstation_probe.Gpu
use workstation_probe.Gpu.Stub.{Collector}
use workstation_probe.Gpu.Lifecycle
use workstation_probe.Storage
use workstation_probe.Handlers
use workstation_probe.Handlers.{Kinds, Value, nil, HealthResponse, serve_health}
use workstation_probe.Handlers.Profile
use workstation_probe.Handlers.Profile.{Profiled}
use workstation_probe.Http.{Call, Handler}
use workstation_probe.Http.Mux.{replied}
use workstation_probe.Routes.{latest_handler, history_handler}
use workstation_probe.Routes.Sent.{send}
use workstation_probe.Monitor.Routes.{Mount}
use workstation_probe.Samples.{
  kinds, Boxed, age_of, latest_of, history_of, cpu_latest, memory_latest, gpu_latest,
  storage_latest, cpu_history, memory_history, gpu_history, storage_history, cpu_peak, memory_peak,
  gpu_value, gpu_peak, Tick, Codec, cpu_sample, memory_sample, gpu_sample, storage_sample,
}

module _ (f : Float64) (k : Collector f) where
  -- An implementation of `metrics.Module`.
  pub data ProbeModule : Type 0 where
    cpu_module : Cpu.Module f → ProbeModule
    memory_module : Memory.Module f → ProbeModule
    gpu_module : Lifecycle.Module f k → ProbeModule
    storage_module : Storage.Module f → ProbeModule

  unfoldable pub name : ProbeModule → Bytes
  name (cpu_module m) = codes "cpu"
  name (memory_module m) = codes "memory"
  name (gpu_module m) = codes "gpu"
  name (storage_module m) = codes "storage"

  unfoldable pub enabled : ProbeModule → Bool
  enabled (cpu_module m) = true
  enabled (memory_module m) = true
  enabled (gpu_module m) = m.enabled
  enabled (storage_module m) = true

  unfoldable pub disabled_reason : ProbeModule → Bytes
  disabled_reason (cpu_module m) = []
  disabled_reason (memory_module m) = []
  disabled_reason (gpu_module m) = Lifecycle.disabled_reason f k m
  disabled_reason (storage_module m) = []

  unfoldable pub profile : ProbeModule → Profile.Profile
  profile (cpu_module m) = Profile.cpu m.profile
  profile (memory_module m) = Profile.memory m.profile
  profile (gpu_module m) = Profile.gpu m.profile
  profile (storage_module m) = Profile.storage m.mounts

  unfoldable pub latest : Store f → ProbeModule → Value (kinds f)
  latest st (cpu_module m) = cpu_latest f st (some m.base)
  latest st (memory_module m) = memory_latest f (some m.base)
  latest st (gpu_module m) = gpu_latest f (some m.base)
  latest st (storage_module m) = storage_latest f (some m.base)

  -- `none` for the module that is no `metrics.Peakable`.
  unfoldable pub peak : Time → Store f → ProbeModule → Option (Duration → Value (kinds f))
  peak now st (cpu_module m) = some (cpu_peak f now st (some m.base))
  peak now st (memory_module m) = some (memory_peak f now (some m.base))
  peak now st (gpu_module m) = some (gpu_peak f now (some m.base))
  peak now st (storage_module m) = none

  unfoldable pub history : Time → Store f → ProbeModule → Duration → List (Boxed f)
  history now st (cpu_module m) = cpu_history f now st (some m.base)
  history now st (memory_module m) = memory_history f now (some m.base)
  history now st (gpu_module m) = gpu_history f now (some m.base)
  history now st (storage_module m) = storage_history f now (some m.base)

  unfoldable pub sample_age : Time → ProbeModule → Duration
  sample_age now (cpu_module m) = last_sample_age now m.base
  sample_age now (memory_module m) = age_of now (some m.base)
  sample_age now (gpu_module m) = age_of now (some m.base)
  sample_age now (storage_module m) = age_of now (some m.base)

  -- The two handlers of `RegisterRoutes` on one module, with its `DisabledFunc`.
  module _ (c : Codec f) {S : Type 0} (box : S → Boxed f) (disabled : Option (ℕ × Bytes))
      (b : Base S) where
    abbrev pub latest_calls : List Call
    latest_calls = send c.taken (λ s. c.sample (box s)) (latest_handler disabled (some b) b.latest)

    abbrev pub history_calls : (Duration → List (Boxed f)) → (Bytes → Bytes) → List Call
    history_calls within query =
        send c.taken c.history
          (history_handler f c.parse_duration within (λ key. query (codes key)) disabled (some b))

  unfoldable pub latest_route : Codec f → Store f → ProbeModule → List Call
  latest_route c st (cpu_module m) =
      latest_calls c (λ (s : Cpu.Sample f). cpu_sample (s, st)) none m.base
  latest_route c st (memory_module m) = latest_calls c memory_sample none m.base
  latest_route c st (gpu_module m) =
      latest_calls c gpu_sample (some (Lifecycle.disabled f k m)) m.base
  latest_route c st (storage_module m) = latest_calls c storage_sample none m.base

  unfoldable pub history_route :
      Codec f → Time → Store f → ProbeModule → (Bytes → Bytes) → List Call
  history_route c now st (cpu_module m) =
      history_calls c (λ (s : Cpu.Sample f). cpu_sample (s, st)) none m.base
        (history now st (cpu_module m))
  history_route c now st (memory_module m) =
      history_calls c memory_sample none m.base (history now st (memory_module m))
  history_route c now st (gpu_module m) =
      history_calls c gpu_sample (some (Lifecycle.disabled f k m)) m.base
        (history now st (gpu_module m))
  history_route c now st (storage_module m) =
      history_calls c storage_sample none m.base (history now st (storage_module m))

  -- `RegisterRoutes` of a module: its handlers see the module of its name as it is at the request.
  pub mount :
      {W : Type 0} → Codec f → (Bytes → W → Time × Store f × ProbeModule) → ProbeModule → Mount W
  unfolding name
  mount c view m = record {
    name = name m;
    latest = λ req w. replied (latest_route c (view (name m) w).1 (view (name m) w).2) w;
    history = λ req w.
        replied
          (history_route c (view (name m) w).0 (view (name m) w).1 (view (name m) w).2 req.query) w;
  }

  -- A module as the health summary and the merged view read it, at the two readings of the clock for its age.
  abbrev pub handled :
      (now reported checked : Time) → Store f → ProbeModule → Handlers.Module (kinds f)
  handled now reported checked st m = record {
    name = name m;
    enabled = enabled m;
    disabled_reason = disabled_reason m;
    latest = latest st m;
    peak = peak now st m;
    reported_age = sample_age reported m;
    checked_age = sample_age checked m;
  }

  -- A module as the profile reads it.
  abbrev pub profiled : ProbeModule → Profiled
  profiled m = record { name = name m; enabled = enabled m; profile = profile m }

  unfoldable pub collect_once : Tick f → ProbeModule × Store f → ProbeModule × Store f
  collect_once t (cpu_module m, st) =
      let (m', st') = Cpu.collect_once f t.now t.published t.overall t.per_core m st in
      (cpu_module m', st')
  collect_once t (memory_module m, st) =
      (memory_module (Memory.collect_once f t.now t.published t.memory m), st)
  collect_once t (gpu_module m, st) =
      (gpu_module (Lifecycle.collect_once f k t.now t.published m), st)
  collect_once t (storage_module m, st) =
      (storage_module (Storage.collect_once f t.usage t.now t.published m), st)

  -- `Start`: the loop is launched, but for a gpu that is not enabled.
  abbrev pub launched : List (Signal (Tick f)) → ProbeModule → Store f → ProbeModule × Store f
  launched signals (gpu_module m) st =
      if Lifecycle.start f k m
      then run_loop collect_once signals (gpu_module m, st)
      else (gpu_module m, st)
  launched signals m st = run_loop collect_once signals (m, st)

  unfoldable pub start : List (Signal (Tick f)) → ProbeModule × Store f → ProbeModule × Store f
  unfolding collect_once
  start signals (m, st) = launched signals m st

-- The health handler on the mux, over what it reads of the modules and of the clock at the request.
pub health_route :
    {k : Kinds} {W : Type 0} (f : Float64)
    → (HealthResponse → Option Bytes)
    → (Bytes → ℕ)
    → (interval : Duration) (start : Time) → (W → Time × List (Handlers.Module k))
    → Handler W
health_route f encode taken interval start read req w =
    replied (serve_health f encode taken (mul_duration 2 interval) start (read w).0 (read w).1) w
