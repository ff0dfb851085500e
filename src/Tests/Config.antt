-- ===== src/Tests/Config.antt =====
-- A configuration with all its sections, and a file that holds it.
use workstation_probe.Common.{
  leb, ℕ, ◌≡◌, ◌↔◌, refl, true, false, [], ◌∷◌, Bytes, codes, bytes_eq, index_byte, contains_byte,
}
use workstation_probe.Common.Int.{pos}
use workstation_probe.Common.Result.{Result, ok}
use workstation_probe.Cors.{parse, split_scheme, strip_slashes}
use workstation_probe.Config.{
  Config, DecodeError, apply_defaults, validate, load, default_server, default_sampler,
  default_cors, default_rate_limit, default_logging, check_rate_limit, check_mount_points,
  check_origins,
}
use workstation_probe.Config.Accepted.{IsAccepted, validate-IsAccepted}
use workstation_probe.Config.Defaults.{load-IsAccepted}
use workstation_probe.Server.Ready.{IsReady, load-IsReady}
use workstation_probe.Tests.Floats.{whole}
use workstation_probe.Tests.Limits.{bucket}

abbrev pub host_config : Config whole
host_config = record {
  server = record { host = codes "127.0.0.1"; port = pos 8080 };
  sampler = record { interval = pos 1000000000; history_capacity = pos 60 };
  modules = record {
    cpu_enabled = true;
    memory_enabled = false;
    gpu_enabled = true;
    storage = record {
      enabled = true;
      mount_points = record { path = codes "/"; label = codes "root" } ∷ [];
    };
  };
  security = record {
    cors = record {
      enabled = true;
      allowed_origins = codes "https://a.example" ∷ [];
      allow_methods = codes "GET" ∷ [];
      allow_headers = codes "Content-Type" ∷ [];
      max_age_seconds = pos 600;
    };
    rate_limit = record {
      enabled = true;
      requests_per_second = 10;
      burst = pos 2;
      trust_proxy_headers = false;
      exempt_paths = codes "/health" ∷ [];
    };
  };
  logging = record { level = codes "info"; format = codes "json" };
}

validate-IsAccepted_example : (validate whole host_config ≡ ok tt) ↔ IsAccepted host_config
validate-IsAccepted_example = validate-IsAccepted whole host_config

abbrev decode : Bytes → Result DecodeError (Config whole)
decode raw = ok host_config

abbrev file : Result Bytes Bytes
file = ok (codes "server")

load-IsAccepted_example : (load whole decode file ≡ ok host_config) ↔ (
    (raw : Bytes) × (c : Config whole) × (file ≡ ok raw)
    × (decode raw ≡ ok c)
    × (apply_defaults whole c ≡ host_config)
    × IsAccepted host_config)
load-IsAccepted_example = load-IsAccepted whole decode file host_config

file_loads : load whole decode file ≡ ok host_config
unfolding load validate apply_defaults default_server default_sampler default_cors
    default_rate_limit default_logging check_rate_limit check_mount_points check_origins parse
    split_scheme strip_slashes bytes_eq index_byte contains_byte
file_loads = refl

load-IsReady_example : IsReady bucket {S = ℕ} 0 (λ n. leb n 100000) host_config
load-IsReady_example = load-IsReady bucket 0 (λ n. leb n 100000) decode file host_config file_loads
