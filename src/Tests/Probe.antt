-- ===== src/Tests/Probe.antt =====
-- The modules of a process behind its routes, at concrete inputs.
use workstation_probe.Common.{
  leb, ◌*◌, ◌≡◌, ◌↔◌, refl, true, false, none, some, List, [], ◌∷◌, map, Bytes, codes, bytes_eq,
  any, if◌then◌else◌, All,
}
use workstation_probe.Common.Int.{pos}
use workstation_probe.Common.Time.{Time, second, mul_duration, add_neg}
use workstation_probe.Common.Result.{Result, ok, err}
use workstation_probe.Params.{parse_duration_param}
use workstation_probe.Ring.{new_ring_buffer, snapshot}
use workstation_probe.Base.{Base, new_base, ticked, cancelled}
use workstation_probe.Cpu
use workstation_probe.Cpu.Arrays.{Store}
use workstation_probe.Memory
use workstation_probe.Gpu.Stub.{nop_collector}
use workstation_probe.Http.{Request, returned, blank, respond_all, status_of}
use workstation_probe.Http.Mux.{Route, serve}
use workstation_probe.Chain.{World}
use workstation_probe.RateLimit.{Table}
use workstation_probe.Handlers
use workstation_probe.Handlers.{CombinedSample, combined, HealthResponse}
use workstation_probe.Handlers.Health.{IsBehind}
use workstation_probe.Handlers.Profile.{ProfileResponse, new_profile, serve_profile}
use workstation_probe.Handlers.Profile.Blocks.{flags, last_flag}
use workstation_probe.Server.{build}
use workstation_probe.Monitor.{Packages, build_modules}
use workstation_probe.Monitor.Routes.{register}
use workstation_probe.Monitor.Routes.Registered.{IsComplete}
use workstation_probe.Modules.{
  ProbeModule, cpu_module, memory_module, gpu_module, storage_module, name, enabled, mount,
  profiled, handled, start, latest_route, health_route,
}
use workstation_probe.Samples.{Codec, Tick, kinds}
use workstation_probe.Modules.Keeping.{IsSame, ready_status}
use workstation_probe.Modules.Fresh.{IsNew, new_cpu, IsNew-status}
use workstation_probe.Modules.Named.{IsPacked, build_modules-IsComplete}
use workstation_probe.Modules.Described.{serve_profile-flags}
use workstation_probe.Modules.Quiet.{IsQuiet, IsLacking, combined-IsLacking}
use workstation_probe.Modules.Watched.{build-health}
use workstation_probe.Tests.Floats.{whole}
use workstation_probe.Tests.Limits.{bucket, now, get, greet}
use workstation_probe.Tests.Limits
use workstation_probe.Tests.Server.{outside}
use workstation_probe.Tests.Config.{host_config}

abbrev absent : Bytes
absent = codes "no device"

abbrev base_of : {S : Type 0} → S → Base S
base_of s = record {
  interval = pos 1000000000;
  buf = record { cap = 1; storage = s ∷ []; head = 0; full = true };
  latest = some s;
  last_sample_unix = pos 5;
}

abbrev arrays : Store whole
arrays = record { cells = λ a. 3 ∷ []; next = 1 }

abbrev cpu_sample : Cpu.Sample whole
cpu_sample = record {
  timestamp = pos 5;
  overall_percent = 3;
  per_core_percent = some 0;
  core_count = 1;
  error = [];
}

abbrev cpu_probe : ProbeModule whole (nop_collector whole)
cpu_probe = cpu_module (record { base = base_of cpu_sample; profile = Cpu.info (ok []) })

abbrev memory_probe : ProbeModule whole (nop_collector whole)
memory_probe = memory_module (record {
  base = base_of (record (Memory.zero_sample whole) { timestamp = pos 5; total_bytes = 8 });
  profile = record { total_bytes = 8; startup_error = [] };
})

abbrev gpu_probe : ProbeModule whole (nop_collector whole)
gpu_probe = gpu_module (record {
  collector = absent;
  base = base_of (record { timestamp = pos 5; devices = []; error = absent });
  enabled = false;
  profile = record { disabled_reason = absent; device_count = 0; devices = [] };
  released = false;
})

abbrev storage_probe : ProbeModule whole (nop_collector whole)
storage_probe =
    storage_module (record {
      mounts = [];
      base = base_of (record { timestamp = pos 5; disks = []; error = [] });
    })

abbrev probes : List (ProbeModule whole (nop_collector whole))
probes = cpu_probe ∷ gpu_probe ∷ storage_probe ∷ []

abbrev codec : Codec whole
codec = record {
  sample = λ s. some (codes "{}");
  history = λ h. none;
  taken = λ text. 2;
  parse_duration = λ text. none;
}

abbrev packages : Packages Bytes (ProbeModule whole (nop_collector whole))
packages = record {
  new_cpu = λ interval capacity. ok cpu_probe;
  new_memory = λ interval capacity. memory_probe;
  new_gpu = λ interval capacity. gpu_probe;
  new_storage = λ mounts interval capacity. ok storage_probe;
  start = λ m. none;
  name = name whole (nop_collector whole);
}

-- The module of a constructor that succeeded.
built_as :
    (a : ProbeModule whole (nop_collector whole)) {n : Bytes}
    → name whole (nop_collector whole) a ≡ n
    → (m : ProbeModule whole (nop_collector whole))
    → ◌≡◌ {A = Result Bytes (ProbeModule whole (nop_collector whole))} (ok a) (ok m)
    → name whole (nop_collector whole) m ≡ n
built_as a h m e = let same : a ≡ m = cc in rw same at h

packed : IsPacked whole (nop_collector whole) packages
unfolding name
packed = record {
  of_cpu = λ d n m e. built_as cpu_probe refl m e;
  of_memory = λ d n. refl;
  of_gpu = λ d n. refl;
  of_storage = λ l d n m e. built_as storage_probe refl m e;
}

probes_there : build_modules packages host_config ≡ ok probes
unfolding build_modules
probes_there = refl

abbrev view :
    Bytes → World (Table bucket) → Time × Store whole × ProbeModule whole (nop_collector whole)
view n w = (pos 9, arrays, if bytes_eq n (codes "cpu") then cpu_probe else storage_probe)

build_modules-IsComplete_example :
    (routes : List (Route (World (Table bucket)))) × (register
        (map (mount whole (nop_collector whole) codec view) probes)
        greet
        greet
        greet
      ≡ some routes)
    × IsComplete
        (map (mount whole (nop_collector whole) codec view) probes)
        greet
        greet
        greet
        routes
build_modules-IsComplete_example =
    build_modules-IsComplete whole (nop_collector whole) packages host_config probes codec view
      greet greet greet packed probes_there

abbrev read : World (Table bucket) → Time × List (Handlers.Module (kinds whole))
read w = (pos 9, map (handled whole (nop_collector whole) (pos 9) (pos 9) (pos 9) arrays) probes)

abbrev ask_health : Request
ask_health = record get { path = codes "/health" }

health_exempt : any (bytes_eq (codes "/health")) host_config.security.rate_limit.exempt_paths ≡ true
unfolding bytes_eq
health_exempt = refl

build-health_example :
    let health =
      health_route whole (λ resp. none) outside.taken host_config.sampler.interval (pos 0) read in
    (routes : List (Route (World (Table bucket)))) × (register
        (map (mount whole (nop_collector whole) codec view) probes)
        greet
        health
        greet
      ≡ some routes)
    × (let run =
          build bucket
            (λ s. s)
            outside
            now
            host_config.security
            (serve (λ req. none) outside.taken routes)
            ask_health
            Limits.start in
        let status = status_of (respond_all blank run.calls) in
        let behind = IsBehind (mul_duration 2 host_config.sampler.interval) (read Limits.start).1 in
        (run.exit ≡ returned)
        × ((status ≡ 503) ↔ behind)
        × ((status ≡ 200) ↔ (¬ behind))
        × (run.world.limiters ≡ Limits.start.limiters))
build-health_example =
    build-health bucket (λ s. s) outside now codec (λ req. none) packages host_config probes view
      greet greet (λ resp. none) (pos 0) read ask_health Limits.start packed probes_there
      health_exempt refl refl refl

serve_profile-flags_example :
    let all_profiled = map (profiled whole (nop_collector whole)) probes in
    let h =
      new_profile []
        (record { interval_ms = pos 1000; history_capacity = pos 60 })
        all_profiled
        (codes "UTC")
        (pos 0)
        (err [])
        (λ s. [])
        [] in
    (r : ProfileResponse) × (serve_profile (codes "go1") h ≡ ok r)
    × (flags r.modules ≡ (
      last_flag (codes "cpu") false all_profiled,
      last_flag (codes "memory") false all_profiled,
      last_flag (codes "gpu") false all_profiled,
      last_flag (codes "storage") false all_profiled,
    ))
serve_profile-flags_example =
    serve_profile-flags whole (nop_collector whole) (codes "go1") []
      (record { interval_ms = pos 1000; history_capacity = pos 60 }) probes (codes "UTC") (pos 0)
      (err []) (λ s. []) []

abbrev empty_view : CombinedSample (kinds whole)
empty_view = record {
  server_time_local = [];
  server_time_unix_seconds = pos 0;
  mode = [];
  window_seconds = pos 0;
  cpu = none;
  memory = none;
  gpu = none;
  storage = none;
}

-- The window of a minute ends long after the samples.
abbrev later : Time
later = pos 90000000000

All-IsQuiet : All (IsQuiet whole (nop_collector whole) later (pos (60 * second))) probes
unfolding IsQuiet snapshot add_neg
All-IsQuiet = ((refl, tt), ((refl, tt), (tt, tt)))

combined-IsLacking_example :
    let all_handled = map (handled whole (nop_collector whole) later later later arrays) probes in
    (peaked shown : CombinedSample (kinds whole)) × (combined whole
        (λ s. none)
        (codes "peak")
        []
        empty_view
        all_handled
      ≡ some peaked)
    × (combined whole (λ s. none) [] [] empty_view all_handled ≡ some shown)
    × IsLacking whole (nop_collector whole) empty_view peaked shown
unfolding bytes_eq parse_duration_param
combined-IsLacking_example =
    combined-IsLacking whole (nop_collector whole) later later later arrays (pos (60 * second))
      probes (λ s. none) [] empty_view All-IsQuiet refl

abbrev made : Cpu.Module whole × Store whole
made =
    Cpu.collect_once whole (pos 4) (pos 5) (ok (7 ∷ [])) (ok (3 ∷ []))
      (record {
        base = record {
          interval = pos 2;
          buf = record { cap = 1; storage = Cpu.zero_sample whole ∷ []; head = 0; full = false };
          latest = none;
          last_sample_unix = pos 0;
        };
        profile = Cpu.info (ok []);
      })
      arrays

made-IsNew : IsNew whole (nop_collector whole) (cpu_module made.0) made.1
unfolding Cpu.new_with_collector new_base new_ring_buffer
made-IsNew =
    new_cpu (pos 2) (λ n. leb n 100) (pos 1) (ok []) (pos 4) (pos 5) (ok (7 ∷ [])) (ok (3 ∷ []))
      arrays made.1 made.0 refl

abbrev failing : Tick whole
failing = record {
  now = pos 6;
  published = pos 7;
  overall = err [];
  per_core = err [];
  memory = err [];
  usage = λ path. err [];
}

IsNew-status_example :
    let r =
      start whole
        (nop_collector whole)
        (ticked failing ∷ cancelled ∷ [])
        (cpu_module made.0, made.1) in
    IsSame whole (nop_collector whole) (cpu_module made.0) r.0
    × (status_of (respond_all blank (latest_route whole (nop_collector whole) codec r.1 r.0))
        ≡ ready_status (enabled whole (nop_collector whole) (cpu_module made.0)))
IsNew-status_example =
    IsNew-status whole (nop_collector whole) codec (ticked failing ∷ cancelled ∷ [])
      (cpu_module made.0) made.1 made-IsNew
