-- ===== src/Handlers.antt =====
-- internal/server/handlers: the JSON reply, the health summary and the merged metrics view. The sample types of
-- the modules, the JSON encoder and the formats of the clock are arguments.
pub mod Health
pub mod Merged
pub mod Profile
use workstation_probe.Common.{
  ℕ, ◌*◌, Bool, true, false, not, Option, none, some, List, [], ◌∷◌, ◌++◌, ◌==◌, if◌then◌else◌,
  foldl, Bytes, codes, bytes_eq,
}
use workstation_probe.Common.Int.{ℤ, pos, ltb_ℤ}
use workstation_probe.Common.Time.{Time, Duration, second, sub_time}
use workstation_probe.Common.Float.{Float64}
use workstation_probe.Params.{parse_duration_param}
use workstation_probe.Routes.{invalid_duration}
use workstation_probe.Http.{Call, set_header, write_header, write, http_error}
use workstation_probe.Chain.{milliseconds}

-- `writeJSON`; the encoder writes once, or not at all if it fails.
abbrev encoded_calls : (Bytes → ℕ) → Option Bytes → List Call
encoded_calls taken none = []
encoded_calls taken (some b) = write b (taken b) ∷ []

pub write_json : (Bytes → ℕ) → ℕ → Option Bytes → Bool → List Call
write_json taken status encoded no_store =
    (set_header (codes "Content-Type") (codes "application/json") ∷ [])
    ++ (if no_store then set_header (codes "Cache-Control") (codes "no-store") ∷ [] else [])
    ++ (if status == 0 then [] else write_header status ∷ [])
    ++ encoded_calls taken encoded

-- The samples of the four kinds, as one value of type `any`: each is a pointer, and the pointer may be nil in it.
pub record Kinds : Type 1 where
  pub CpuSample : Type 0
  pub MemorySample : Type 0
  pub GpuSample : Type 0
  pub StorageSample : Type 0

pub data Value (k : Kinds) : Type 0 where
  nil : Value k
  cpu : Option k.CpuSample → Value k
  memory : Option k.MemorySample → Value k
  gpu : Option k.GpuSample → Value k
  storage : Option k.StorageSample → Value k

-- `metrics.Module` as one request reads it; the age is read twice. `peak` is `none` for a module that is not
-- a `metrics.Peakable`.
pub record Module (k : Kinds) : Type 0 where
  pub name : Bytes
  pub enabled : Bool
  pub disabled_reason : Bytes
  pub latest : Value k
  pub peak : Option (Duration → Value k)
  pub reported_age : Duration
  pub checked_age : Duration

pub record ModuleHealth : Type 0 where
  pub enabled : Bool
  pub last_sample_age_ms : Option ℤ
  pub disabled_reason : Bytes

-- `modules` is a map.
pub record HealthResponse : Type 0 where
  pub status : Bytes
  pub uptime_seconds : ℤ
  pub modules : Bytes → Option ModuleHealth

abbrev pub degraded : Bytes
degraded = codes "degraded"

pub health_status : Bytes → ℕ
unfolding bytes_eq
health_status s = if bytes_eq s degraded then 503 else 200

module _ {k : Kinds} where
  abbrev pub health_entry : Module k → ModuleHealth
  health_entry m =
      if not m.enabled
      then record {
        enabled = m.enabled;
        last_sample_age_ms = none;
        disabled_reason = m.disabled_reason;
      }
      else record {
        enabled = m.enabled;
        last_sample_age_ms = some (milliseconds m.reported_age);
        disabled_reason = [];
      }

  abbrev pub is_stale : Duration → Module k → Bool
  is_stale max_staleness m = if not m.enabled then false else ltb_ℤ max_staleness m.checked_age

  -- The body of the loop.
  pub report : Duration → HealthResponse → Module k → HealthResponse
  report max_staleness resp m = record resp {
    status = if is_stale max_staleness m then degraded else resp.status;
    modules = λ name. if bytes_eq m.name name then some (health_entry m) else resp.modules name;
  }

  pub health : Float64 → Duration → Time → Time → List (Module k) → HealthResponse
  unfolding report
  health f max_staleness start now modules =
      foldl (report max_staleness)
        (record {
          status = codes "ok";
          uptime_seconds = f.to_int (f.seconds (sub_time now start));
          modules = λ name. none;
        })
        modules

  pub serve_health :
      Float64
      → (HealthResponse → Option Bytes)
      → (Bytes → ℕ)
      → Duration
      → Time
      → Time
      → List (Module k)
      → List Call
  unfolding health health_status write_json
  serve_health f encode taken max_staleness start now modules =
      let resp = health f max_staleness start now modules in
      write_json taken (health_status resp.status) (encode resp) false

-- The fields that hold the time are an argument.
pub record CombinedSample (k : Kinds) : Type 0 where
  pub server_time_local : Bytes
  pub server_time_unix_seconds : ℤ
  pub mode : Bytes
  pub window_seconds : ℤ
  pub cpu : Option k.CpuSample
  pub memory : Option k.MemorySample
  pub gpu : Option k.GpuSample
  pub storage : Option k.StorageSample

module _ {k : Kinds} where
  unfoldable pub assign_sample : CombinedSample k → Value k → CombinedSample k
  assign_sample out (cpu (some s)) = record out { cpu = some s }
  assign_sample out (memory (some s)) = record out { memory = some s }
  assign_sample out (gpu (some s)) = record out { gpu = some s }
  assign_sample out (storage (some s)) = record out { storage = some s }
  assign_sample out v = out

  abbrev pub or_latest : Module k → Value k → Value k
  or_latest m nil = m.latest
  or_latest m v = v

  -- The value of one module: `none` is the latest mode, and otherwise the window of the peak mode.
  abbrev pub peak_or_latest : Module k → Duration → Option (Duration → Value k) → Value k
  peak_or_latest m window none = m.latest
  peak_or_latest m window (some peak) = or_latest m (peak window)

  abbrev pub chosen : Option Duration → Module k → Value k
  chosen none m = m.latest
  chosen (some window) m = peak_or_latest m window m.peak

  unfoldable pub gather : Option Duration → CombinedSample k → List (Module k) → CombinedSample k
  unfolding assign_sample
  gather mode out [] = out
  gather mode out (m ∷ modules) =
      gather mode (if not m.enabled then out else assign_sample out (chosen mode m)) modules

  abbrev pub in_window :
      Float64 → CombinedSample k → List (Module k) → Duration × Bool → Option (CombinedSample k)
  in_window f out modules (window, false) = none
  in_window f out modules (window, true) = some (
      gather (some window)
        (record out { mode = codes "peak"; window_seconds = f.to_int (f.seconds window) }) modules)

  -- The merged view; `none` is the reply for an invalid window.
  unfoldable pub combined :
      Float64
      → (Bytes → Option Duration)
      → (mode window : Bytes) → CombinedSample k
      → List (Module k)
      → Option (CombinedSample k)
  unfolding gather
  combined f parse_duration mode window out modules =
      if bytes_eq mode (codes "peak")
      then in_window f out modules (parse_duration_param parse_duration window (pos (60 * second)))
      else some (gather none out modules)

  abbrev combined_calls :
      (Bytes → ℕ) → (CombinedSample k → Option Bytes) → Option (CombinedSample k) → List Call
  combined_calls taken encode none =
      http_error invalid_duration 400 (taken (invalid_duration ++ 10 ∷ []))
  combined_calls taken encode (some out) = write_json taken 0 (encode out) true

  abbrev fresh : Bytes → ℤ → CombinedSample k
  fresh local unix = record {
    server_time_local = local;
    server_time_unix_seconds = unix;
    mode = [];
    window_seconds = pos 0;
    cpu = none;
    memory = none;
    gpu = none;
    storage = none;
  }

  pub serve_combined :
      Float64
      → (Bytes → Option Duration)
      → (CombinedSample k → Option Bytes)
      → (Bytes → ℕ)
      → (query : Bytes → Bytes) → (local : Bytes) (unix : ℤ) → List (Module k)
      → List Call
  unfolding combined write_json
  serve_combined f parse_duration encode taken query local unix modules =
      combined_calls taken encode (
        combined f parse_duration (query (codes "mode")) (query (codes "window")) (fresh local unix)
          modules)
