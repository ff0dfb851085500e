-- ===== src/Tests/Monitor.antt =====
-- Health and metrics of two modules, and a run of the process.
use workstation_probe.Common.{
  ℕ, ◌≡◌, ◌≢◌, refl, true, false, Option, some, none, List, [], ◌∷◌, ◌*◌, Bytes, codes, bytes_eq,
  ◌==◌, if◌then◌else◌,
}
use workstation_probe.Common.Int.{pos}
use workstation_probe.Common.Time.{second}
use workstation_probe.Common.Result.{ok}
use workstation_probe.Params.{parse_duration_param}
use workstation_probe.Lock.{System, acquire}
use workstation_probe.Handlers.{Kinds, Module, cpu, storage, combined, CombinedSample}
use workstation_probe.Handlers.Merged.{IsMerged, combined-IsMerged}
use workstation_probe.Monitor.{Packages, Launch, run}
use workstation_probe.Monitor.Ending.{IsLeft, run-IsLeft}
use workstation_probe.Monitor.Log.{Closing}
use workstation_probe.Tests.Floats.{whole}
use workstation_probe.Tests.Config.{host_config}

abbrev pub numbers : Kinds
numbers = record { CpuSample = ℕ; MemorySample = ℕ; GpuSample = ℕ; StorageSample = ℕ }

-- The cpu module answers a peak with a nil pointer.
abbrev modules : List (Module numbers)
modules =
    record {
      name = codes "cpu";
      enabled = true;
      disabled_reason = [];
      latest = cpu (some 40);
      peak = some (λ window. cpu none);
      reported_age = pos 10;
      checked_age = pos 11;
    }
    ∷ record {
      name = codes "storage";
      enabled = true;
      disabled_reason = [];
      latest = storage (some 7);
      peak = none;
      reported_age = pos 10;
      checked_age = pos 3000000000;
    }
    ∷ []

abbrev nothing_yet : CombinedSample numbers
nothing_yet = record {
  server_time_local = [];
  server_time_unix_seconds = pos 0;
  mode = [];
  window_seconds = pos 0;
  cpu = none;
  memory = none;
  gpu = none;
  storage = none;
}

combined-IsMerged_example :
    IsMerged whole
      (bytes_eq (codes "peak") (codes "peak"))
      (parse_duration_param (λ s. none) [] (pos (60 * second)))
      nothing_yet
      modules
      (combined whole (λ s. none) (codes "peak") [] nothing_yet modules)
combined-IsMerged_example =
    combined-IsMerged whole (λ s. none) (codes "peak") [] nothing_yet modules

-- A module is the number of its package.
abbrev packages : Packages Bytes ℕ
packages = record {
  new_cpu = λ interval capacity. ok 1;
  new_memory = λ interval capacity. 2;
  new_gpu = λ interval capacity. 3;
  new_storage = λ mounts interval capacity. ok 4;
  start = λ m. none;
  name = λ m. [];
}

abbrev disk : System
disk = record {
  trim_unicode = λ s. s;
  write_file = λ content old. (none, some content);
  remove = λ old. (none, none);
}

abbrev launch : Launch whole Bytes ℕ
launch = record {
  config_path = codes "config.yaml";
  pid_file = codes "monitor.pid";
  sys = disk;
  running = λ pid. false;
  our_pid = pos 42;
  loaded = ok host_config;
  packages = packages;
  listener_error = none;
  unicode = record { trim = λ s. s; lower = λ s. s };
}

path_there : launch.pid_file ≢ []
path_there h = cc

written_file :
    (text : Bytes) (old file : Option Bytes)
    → disk.write_file text old ≡ (none, file)
    → file ≡ some text
written_file text old file h = cc

run-IsLeft_example :
    IsLeft launch (acquire disk launch.running (pos 42) launch.pid_file none) (run launch none)
run-IsLeft_example = run-IsLeft launch path_there (λ content. refl, written_file) none

-- The module 3 does not shut down.
abbrev closing : Closing Bytes ℕ
closing = record { server = none; module_of = λ m. if m == 3 then some (codes "busy") else none }
