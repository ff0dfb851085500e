-- ===== src/Config.antt =====
-- internal/config/config.go: the typed view of the configuration file, its defaults and its constraints.
-- Reading the file and the YAML decoder are arguments.
pub mod Defaults
pub mod Accepted
use workstation_probe.Common.{
  ℕ, suc, ◌+◌, Bool, true, false, not, ◌||◌, Option, none, some, List, [], ◌∷◌, if◌then◌else◌, any,
  length, ltb, ◌==◌, Bytes, codes, bytes_eq,
}
use workstation_probe.Common.Int.{ℤ, pos, ltb_ℤ, leb_ℤ, eq_ℤ}
use workstation_probe.Common.Time.{Duration, second}
use workstation_probe.Common.Float.{Float64}
use workstation_probe.Common.Result.{Result, ok, err, ◌>>=◌, ◌>>◌, refuse_if}
use workstation_probe.Cors.{Pattern, ParseError, parse}

pub record ServerConfig : Type 0 where
  pub host : Bytes
  pub port : ℤ

pub record SamplerConfig : Type 0 where
  pub interval : Duration
  pub history_capacity : ℤ

-- `label` is the field `Alias`.
pub record MountPointConfig : Type 0 where
  pub path : Bytes
  pub label : Bytes

pub record StorageConfig : Type 0 where
  pub enabled : Bool
  pub mount_points : List MountPointConfig

-- `CPUConfig`, `MemoryConfig` and `GPUConfig` hold the one flag each.
pub record ModulesConfig : Type 0 where
  pub cpu_enabled : Bool
  pub memory_enabled : Bool
  pub gpu_enabled : Bool
  pub storage : StorageConfig

pub record CorsConfig : Type 0 where
  pub enabled : Bool
  pub allowed_origins : List Bytes
  pub allow_methods : List Bytes
  pub allow_headers : List Bytes
  pub max_age_seconds : ℤ

pub record RateLimitConfig (f : Float64) : Type 0 where
  pub enabled : Bool
  pub requests_per_second : f.Float
  pub burst : ℤ
  pub trust_proxy_headers : Bool
  pub exempt_paths : List Bytes

pub record SecurityConfig (f : Float64) : Type 0 where
  pub cors : CorsConfig
  pub rate_limit : RateLimitConfig f

pub record LoggingConfig : Type 0 where
  pub level : Bytes
  pub format : Bytes

pub record Config (f : Float64) : Type 0 where
  pub server : ServerConfig
  pub sampler : SamplerConfig
  pub modules : ModulesConfig
  pub security : SecurityConfig f
  pub logging : LoggingConfig

-- What `Load` returns as errors; the numbers are the index of an entry.
pub data ConfigError : Type 0 where
  unreadable unparseable : Bytes → ConfigError
  host_empty : ConfigError
  port_range : ℤ → ConfigError
  interval_short : Duration → ConfigError
  capacity_low : ℤ → ConfigError
  path_empty label_empty : ℕ → ConfigError
  path_duplicate : Bytes → ConfigError
  bad_origin : ℕ → Bytes → ParseError → ConfigError
  rate_not_positive burst_not_positive : ConfigError

-- The outcome of the decoder; at the end of an empty file the zero value stays.
pub data DecodeError : Type 0 where
  at_end : DecodeError
  malformed : Bytes → DecodeError

abbrev pub or_default : Bytes → Bytes → Bytes
or_default value default = if bytes_eq value [] then default else value

abbrev pub or_defaults : List Bytes → List Bytes → List Bytes
or_defaults values defaults = if length values == 0 then defaults else values

abbrev pub int_or : ℤ → ℤ → ℤ
int_or value default = if eq_ℤ value (pos 0) then default else value

-- The loop over the mount points from index `i`; `seen` holds the paths before it.
unfoldable pub check_mount_points :
    ℕ → List Bytes → List MountPointConfig → Result ConfigError (Unit {0})
check_mount_points i seen [] = ok tt
check_mount_points i seen (mp ∷ mount_points) = do
  refuse_if (bytes_eq mp.path []) (path_empty i)
  refuse_if (bytes_eq mp.label []) (label_empty i)
  refuse_if (any (bytes_eq mp.path) seen) (path_duplicate mp.path)
  check_mount_points (i + 1) (mp.path ∷ seen) mount_points

abbrev pub check_origin : ℕ → Bytes → Result ParseError Pattern → Result ConfigError (Unit {0})
check_origin i o (ok p) = ok tt
check_origin i o (err e) = err (bad_origin i o e)

unfoldable pub check_origins : ℕ → List Bytes → Result ConfigError (Unit {0})
check_origins i [] = ok tt
check_origins i (o ∷ origins) = do check_origin i o (parse o); check_origins (i + 1) origins

-- `if enabled { ... }` round a block of checks.
abbrev pub when : Bool → Result ConfigError (Unit {0}) → Result ConfigError (Unit {0})
when true checks = checks
when false checks = ok tt

module _ (f : Float64) where
  abbrev pub zero_config : Config f
  zero_config = record {
    server = record { host = []; port = pos 0 };
    sampler = record { interval = pos 0; history_capacity = pos 0 };
    modules = record {
      cpu_enabled = false;
      memory_enabled = false;
      gpu_enabled = false;
      storage = record { enabled = false; mount_points = [] };
    };
    security = record {
      cors = record {
        enabled = false;
        allowed_origins = [];
        allow_methods = [];
        allow_headers = [];
        max_age_seconds = pos 0;
      };
      rate_limit = record {
        enabled = false;
        requests_per_second = f.zero_float;
        burst = pos 0;
        trust_proxy_headers = false;
        exempt_paths = [];
      };
    };
    logging = record { level = []; format = [] };
  }

  unfoldable pub default_server : ServerConfig → ServerConfig
  default_server s = record s { host = or_default s.host (codes "127.0.0.1") }

  unfoldable pub default_sampler : SamplerConfig → SamplerConfig
  default_sampler s = record s {
    interval = int_or s.interval (pos second);
    history_capacity = if leb_ℤ s.history_capacity (pos 0) then pos 60 else s.history_capacity;
  }

  unfoldable pub default_cors : CorsConfig → CorsConfig
  default_cors c = record c {
    max_age_seconds = int_or c.max_age_seconds (pos 600);
    allow_methods = or_defaults c.allow_methods (codes "GET" ∷ codes "OPTIONS" ∷ []);
    allow_headers = or_defaults c.allow_headers (codes "Content-Type" ∷ []);
  }

  unfoldable pub default_rate_limit : RateLimitConfig f → RateLimitConfig f
  default_rate_limit r = record r {
    burst = int_or r.burst (pos 20);
    requests_per_second =
        if f.eq r.requests_per_second f.zero_float then f.of_uint 10 else r.requests_per_second;
    exempt_paths = or_defaults r.exempt_paths (codes "/health" ∷ []);
  }

  unfoldable pub default_logging : LoggingConfig → LoggingConfig
  default_logging l = record {
    level = or_default l.level (codes "info");
    format = or_default l.format (codes "json");
  }

  unfoldable pub apply_defaults : Config f → Config f
  unfolding default_server default_sampler default_cors default_rate_limit default_logging
  apply_defaults c = record c {
    server = default_server c.server;
    sampler = default_sampler c.sampler;
    security = record {
      cors = default_cors c.security.cors;
      rate_limit = default_rate_limit c.security.rate_limit;
    };
    logging = default_logging c.logging;
  }

  unfoldable pub check_rate_limit : RateLimitConfig f → Result ConfigError (Unit {0})
  check_rate_limit r = do
    refuse_if (f.le r.requests_per_second f.zero_float) rate_not_positive
    refuse_if (leb_ℤ r.burst (pos 0)) burst_not_positive

  unfoldable pub validate : Config f → Result ConfigError (Unit {0})
  unfolding check_rate_limit
  validate c = do
    refuse_if (bytes_eq c.server.host []) host_empty
    refuse_if (ltb_ℤ c.server.port (pos 1) || ltb_ℤ (pos 65535) c.server.port)
        (port_range c.server.port)
    refuse_if (ltb_ℤ c.sampler.interval (pos 100000000)) (interval_short c.sampler.interval)
    refuse_if (ltb_ℤ c.sampler.history_capacity (pos 1)) (capacity_low c.sampler.history_capacity)
    when c.modules.storage.enabled (check_mount_points 0 [] c.modules.storage.mount_points)
    when c.security.cors.enabled (check_origins 0 c.security.cors.allowed_origins)
    when c.security.rate_limit.enabled (check_rate_limit c.security.rate_limit)

  abbrev decoded : Result DecodeError (Config f) → Result ConfigError (Config f)
  decoded (ok c) = ok c
  decoded (err at_end) = ok zero_config
  decoded (err (malformed message)) = err (unparseable message)

  abbrev readable : Result Bytes Bytes → Result ConfigError Bytes
  readable (ok raw) = ok raw
  readable (err message) = err (unreadable message)

  -- `decode` is the strict YAML decoder, `file` what reading the path gave.
  unfoldable pub load :
      (Bytes → Result DecodeError (Config f)) → Result Bytes Bytes → Result ConfigError (Config f)
  load decode file = do
    raw ← readable file
    c ← decoded (decode raw)
    validate (apply_defaults c)
    ok (apply_defaults c)
