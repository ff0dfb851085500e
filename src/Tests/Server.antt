-- ===== src/Tests/Server.antt =====
-- The whole chain round a small mux, with the configuration of Tests.Config.
use workstation_probe.Common.{
  List, none, ◌≡◌, ◌≢◌, refl, true, some, [], ◌∷◌, codes, bytes_eq, arith, contains_byte, length,
  index_byte, if◌then◌else◌,
}
use workstation_probe.Common.Int.{pos}
use workstation_probe.Strconv.{itoa}
use workstation_probe.Logging.{level_info, level_warn, enabled}
use workstation_probe.HostPort.{split_host_port}
use workstation_probe.Cors.{parse, split_scheme, strip_slashes}
use workstation_probe.Cors.Middleware.{parsed, is_options}
use workstation_probe.Http.{Request, Handler, returned, panicked, blank, respond_all}
use workstation_probe.Http.Responses.{IsKept}
use workstation_probe.Chain.{World, Surroundings, request_id_of, valid_request_id}
use workstation_probe.RateLimit.{Moments, Table}
use workstation_probe.Server.{addr, build}
use workstation_probe.Server.Tagged.{build-IsKept}
use workstation_probe.Server.Recorded.{IsRecorded, build-IsRecorded}
use workstation_probe.Server.Lines.{IsInBounds, HasGrown, lines, serve_all, serve_all-IsInBounds}
use workstation_probe.Server.Preflight.{build-preflight}
use workstation_probe.Server.Address.{split_host_port-addr}
use workstation_probe.Tests.Limits.{bucket, now, get, greet, start}
use workstation_probe.Tests.Config.{host_config}

abbrev pub outside : Surroundings
outside = record {
  begun = pos 0;
  ended = pos 9;
  random = some (1 ∷ 2 ∷ 3 ∷ 4 ∷ 5 ∷ 6 ∷ 7 ∷ 8 ∷ []);
  unix_nano = 9;
  taken = λ text. length text;
  level = level_info;
}

build-IsKept_example :
    let run = build bucket (λ s. s) outside now host_config.security greet get start in
    let id = request_id_of outside [] in
    (run.exit ≡ returned)
    × IsKept (codes "X-Request-Id") id (respond_all blank run.calls)
    × (valid_request_id id ≡ true)
build-IsKept_example =
    build-IsKept bucket (λ s. s) outside now host_config.security greet (λ req w. (tt, tt)) refl get
      start

build-IsRecorded_example :
    IsRecorded outside get start
      (build bucket (λ s. s) outside now host_config.security greet get start)
build-IsRecorded_example =
    build-IsRecorded bucket (λ s. s) outside now host_config.security greet (λ req w. (refl, refl))
      get start

abbrev crash : Handler (World (Table bucket))
crash req w = record { calls = []; exit = panicked (codes "mux"); world = w }

abbrev preflight : Request
preflight = record get {
  method = codes "OPTIONS";
  header = λ k. if bytes_eq k (codes "Origin") then codes "https://a.example" else [];
}

origin_there : preflight.header (codes "Origin") ≢ []
unfolding bytes_eq
origin_there h = cc

some_parsed : parsed host_config.security.cors.allowed_origins ≢ []
unfolding parsed parse split_scheme strip_slashes bytes_eq index_byte contains_byte
some_parsed h = cc

options_there : is_options preflight.method ≡ true
unfolding bytes_eq
options_there = refl

build-preflight_example :
    let run = build bucket (λ s. s) outside now host_config.security greet preflight start in
    (run ≡ build bucket (λ s. s) outside now host_config.security crash preflight start)
    × (run.world.limiters ≡ start.limiters)
build-preflight_example =
    build-preflight bucket (λ s. s) outside now host_config.security greet crash preflight start
      refl options_there origin_there some_parsed

split_host_port-addr_example :
    split_host_port (addr (codes "::1") (pos 8080)) ≡ some (codes "::1", itoa (pos 8080))
split_host_port-addr_example =
    split_host_port-addr (codes "::1") (pos 8080)
      (λ h. omega arith, (λ h. omega arith, (λ h. omega arith, tt)))
      (λ h. omega arith, (λ h. omega arith, (λ h. omega arith, tt)))

-- A request, a preflight and a request whose own id is refused.
abbrev three_requests : List (Surroundings × Moments × Request)
three_requests =
    (outside, now, get)
    ∷ (record outside { random = none; level = level_warn }, now, preflight)
    ∷ (outside, now, record get { header = λ k. codes "not an id" })
    ∷ []

serve_all-IsInBounds_example :
    let w = serve_all bucket (λ s. s) host_config.security greet three_requests start in
    IsInBounds w × HasGrown true 0 3 (lines w)
unfolding enabled
serve_all-IsInBounds_example =
    serve_all-IsInBounds bucket (λ s. s) host_config.security greet (λ req w. (refl, refl))
      three_requests start (refl, (tt, (refl, tt))) (tt, tt)
