-- ===== src/Samples.antt =====
-- internal/{cpu,memory,gpu,storage}/module.go: what the modules' methods give of a base that may be nil, and what
-- their collections and routes take from outside.
use workstation_probe.Common.{ℕ, Option, none, some, List, [], Bytes}
use mathlib.Core.Option
use workstation_probe.Common.Time.{Time, Duration, max_duration}
use workstation_probe.Common.Float.{Float64}
use workstation_probe.Common.Result.{Result}
use workstation_probe.Base.{Base, last_sample_age, history_any, not_before, HistoryResponse}
use workstation_probe.Cpu
use workstation_probe.Cpu.Arrays.{Store}
use workstation_probe.Memory
use workstation_probe.Gpu
use workstation_probe.Storage
use workstation_probe.Handlers.{Kinds, Value, nil}

-- A cpu sample goes with the arrays that its slice is read in.
abbrev pub kinds : Float64 → Kinds
kinds f = record {
  CpuSample = Cpu.Sample f × Store f;
  MemorySample = Memory.Sample f;
  GpuSample = Gpu.Sample f;
  StorageSample = Storage.Sample f;
}

-- A sample by value, as `History` puts it into an `any`.
pub data Boxed (f : Float64) : Type 0 where
  cpu_sample : Cpu.Sample f × Store f → Boxed f
  memory_sample : Memory.Sample f → Boxed f
  gpu_sample : Gpu.Sample f → Boxed f
  storage_sample : Storage.Sample f → Boxed f

-- The methods that test their base first, over a base that may be nil.
abbrev pub age_of : {S : Type 0} → Time → Option (Base S) → Duration
age_of now none = max_duration
age_of now (some b) = last_sample_age now b

module _ {S A : Type 0} where
  abbrev pub latest_of : A → (Option S → A) → Option (Base S) → A
  latest_of nil_value box none = nil_value
  latest_of nil_value box (some b) = box b.latest

  abbrev pub history_of : (S → A) → S → (S → Time) → Time → Option (Base S) → Duration → List A
  history_of box zero_value stamp now none d = []
  history_of box zero_value stamp now (some b) d =
      history_any box zero_value now b.buf d (not_before stamp)

module _ (f : Float64) where
  abbrev pub cpu_latest : Store f → Option (Base (Cpu.Sample f)) → Value (kinds f)
  cpu_latest st = latest_of nil (λ o. Value.cpu (Option.map (λ (s : Cpu.Sample f). (s, st)) o))

  abbrev pub memory_latest : Option (Base (Memory.Sample f)) → Value (kinds f)
  memory_latest = latest_of nil Value.memory

  abbrev pub gpu_latest : Option (Base (Gpu.Sample f)) → Value (kinds f)
  gpu_latest = latest_of nil Value.gpu

  abbrev pub storage_latest : Option (Base (Storage.Sample f)) → Value (kinds f)
  storage_latest = latest_of nil Value.storage

  abbrev pub cpu_history : Time → Store f → Option (Base (Cpu.Sample f)) → Duration → List (Boxed f)
  cpu_history now st =
      history_of (λ (s : Cpu.Sample f). cpu_sample (s, st)) (Cpu.zero_sample f)
        (λ (s : Cpu.Sample f). s.timestamp) now

  abbrev pub memory_history : Time → Option (Base (Memory.Sample f)) → Duration → List (Boxed f)
  memory_history now =
      history_of memory_sample (Memory.zero_sample f) (λ (s : Memory.Sample f). s.timestamp) now

  abbrev pub gpu_history : Time → Option (Base (Gpu.Sample f)) → Duration → List (Boxed f)
  gpu_history now =
      history_of gpu_sample (Gpu.zero_sample f) (λ (s : Gpu.Sample f). s.timestamp) now

  abbrev pub storage_history : Time → Option (Base (Storage.Sample f)) → Duration → List (Boxed f)
  storage_history now =
      history_of storage_sample (Storage.zero_sample f) (λ (s : Storage.Sample f). s.timestamp) now

  abbrev pub cpu_peak : Time → Store f → Option (Base (Cpu.Sample f)) → Duration → Value (kinds f)
  cpu_peak now st none d = nil
  cpu_peak now st (some b) d =
      let (peak, st') = Cpu.peak f now b.buf d st in
      Value.cpu (Option.map (λ (s : Cpu.Sample f). (s, st')) peak)

  abbrev pub memory_peak : Time → Option (Base (Memory.Sample f)) → Duration → Value (kinds f)
  memory_peak now none d = nil
  memory_peak now (some b) d = Value.memory (Memory.peak f now b.buf d)

  -- Its empty window is the nil `any`, no nil pointer.
  abbrev pub gpu_value : Option (Gpu.Sample f) → Value (kinds f)
  gpu_value none = nil
  gpu_value (some s) = Value.gpu (some s)

  abbrev pub gpu_peak : Time → Option (Base (Gpu.Sample f)) → Duration → Value (kinds f)
  gpu_peak now none d = nil
  gpu_peak now (some b) d = gpu_value (Gpu.peak f now b.buf d)

-- What the modules collect from at one tick, each its own part, and the two readings of the clock.
pub record Tick (f : Float64) : Type 0 where
  pub now : Time
  pub published : Time
  pub overall : Result Bytes (List f.Float)
  pub per_core : Result Bytes (List f.Float)
  pub memory : Memory.Reading f
  pub usage : Bytes → Result Bytes (Storage.Usage f)

-- The encoder of JSON, the bytes that a write takes, and `time.ParseDuration`.
pub record Codec (f : Float64) : Type 0 where
  pub sample : Boxed f → Option Bytes
  pub history : HistoryResponse (Boxed f) → Option Bytes
  pub taken : Bytes → ℕ
  pub parse_duration : Bytes → Option Duration
