-- ===== src/Server.antt =====
-- internal/server/server.go: the listen address, and the middlewares round the mux. Here are also the CORS
-- middleware as a handler, from its decision in Cors.Middleware, and its configuration.
pub mod Tagged
pub mod Recorded
pub mod Lines
pub mod Preflight
pub mod Address
pub mod Ready
pub mod Through
use workstation_probe.Common.{ℕ, Bool, Option, List, [], ◌∷◌, ◌++◌, map, Bytes, codes}
use workstation_probe.Common.Int.{ℤ, pos}
use workstation_probe.Common.Float.{Float64}
use workstation_probe.Strconv.{itoa}
use workstation_probe.HostPort.{join_host_port}
use workstation_probe.Config
use workstation_probe.Cors
use workstation_probe.Cors.Middleware.{
  HeaderCall, Outcome, passed_on, no_content, forbidden, middleware,
}
use workstation_probe.Http.{
  Request, Call, set_header, add_header, write_header, Exit, returned, Run, Handler, after_calls,
  http_error,
}
use workstation_probe.Chain.{World, Surroundings, recovery, request_id, access_log}
use workstation_probe.RateLimit.{Rate, RateLimitConfig, Moments, Table, rate_limit}

pub addr : Bytes → ℤ → Bytes
unfolding itoa
addr host port = join_host_port host (itoa port)

abbrev pub header_call : HeaderCall → Call
header_call (HeaderCall.set_header k v) = set_header k v
header_call (HeaderCall.add_header k v) = add_header k v

module _ {W : Type 0} where
  abbrev pub decided : (Bytes → ℕ) → Handler W → Request → W → List HeaderCall × Outcome → Run W
  decided taken next req w (calls, passed_on) = after_calls (map header_call calls) (next req w)
  decided taken next req w (calls, no_content) = record {
    calls = map header_call calls ++ write_header 204 ∷ [];
    exit = returned;
    world = w;
  }
  decided taken next req w (calls, forbidden text) = record {
    calls = map header_call calls ++ http_error text 403 (taken (text ++ 10 ∷ []));
    exit = returned;
    world = w;
  }

  -- `cors.Middleware`
  pub cors : Cors.Middleware.Config → (Bytes → ℕ) → Handler W → Handler W
  cors cfg taken next req w =
      decided taken next req w (middleware cfg req.method (req.header (codes "Origin")))

abbrev pub cors_config : Config.CorsConfig → Cors.Middleware.Config
cors_config c = record {
  enabled = c.enabled;
  allowed_origins = c.allowed_origins;
  allow_methods = c.allow_methods;
  allow_headers = c.allow_headers;
  max_age_seconds = c.max_age_seconds;
}

-- The two durations are not set, so they have their defaults.
abbrev pub limit_config : {f : Float64} → Config.RateLimitConfig f → RateLimitConfig f
limit_config c = record {
  enabled = c.enabled;
  requests_per_second = c.requests_per_second;
  burst = c.burst;
  trust_proxy_headers = c.trust_proxy_headers;
  exempt_paths = c.exempt_paths;
  idle_evict_after = pos 0;
  cleanup_interval = pos 0;
}

module _ {f : Float64} (r : Rate f) (trim_unicode : Bytes → Bytes) (s : Surroundings)
    (m : Moments) where
  pub build : Config.SecurityConfig f → Handler (World (Table r)) → Handler (World (Table r))
  build c mux = recovery s (
      request_id s (
        access_log s (
          cors (cors_config c.cors) s.taken
            (rate_limit r trim_unicode (limit_config c.rate_limit) m mux))))
