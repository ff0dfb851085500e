-- ===== src/Modules/Watched.antt =====
-- The health summary as a client gets it, from the configuration to the response.
use workstation_probe.Common.{
  ℕ, ◌≡◌, ◌↔◌, ◌||◌, refl, ap, sym, ◌∙◌, subst, Bool, true, false, Option, none, some, List, map,
  any, Bytes, codes, bytes_eq,
}
use workstation_probe.Common.Time.{Time, mul_duration}
use workstation_probe.Common.Float.{Float64}
use workstation_probe.Common.Result.{ok}
use workstation_probe.Config.{Config}
use workstation_probe.Cpu.Arrays.{Store}
use workstation_probe.Gpu.Stub.{Collector}
use workstation_probe.Http.{Request, Call, returned, Handler, blank, respond_all, status_of}
use workstation_probe.Http.Mux.{Route, serve}
use workstation_probe.Http.Mux.Laws.{serve-found}
use workstation_probe.Chain.{World, Surroundings}
use workstation_probe.RateLimit.{Rate, Moments, Table, is_off}
use workstation_probe.Handlers
use workstation_probe.Handlers.{HealthResponse}
use workstation_probe.Handlers.Health.{IsBehind, serve_health-IsBehind}
use workstation_probe.Server.{limit_config, build}
use workstation_probe.Server.Preflight.{tagged_request}
use workstation_probe.Server.Through.{build-IsThrough}
use workstation_probe.Monitor.{Packages, build_modules}
use workstation_probe.Monitor.Routes.{register}
use workstation_probe.Modules.{ProbeModule, mount, health_route}
use workstation_probe.Samples.{Codec, kinds}
use workstation_probe.Modules.Named.{IsPacked, build_modules-IsComplete}

or_true : (a : Bool) {b : Bool} → b ≡ true → (a || b) ≡ true
or_true true e = refl
or_true false e = e

module _ {f : Float64} {k : Collector f} {E : Type 0} (r : Rate f) (trim_unicode : Bytes → Bytes)
    (s : Surroundings) (m : Moments) (c : Codec f) (early : Request → Option (List Call)) where
  -- A process that was set up by any configuration in which `/health` is exempt from the rate limit,
  -- where each constructor that succeeds builds the module of its own package: its registration
  -- succeeds, and a GET request for `/health` that the mux does not redirect, from any client with any
  -- `Origin` and whatever the limiters hold, gets an answer, 503 exactly if the last sample of some
  -- enabled module is older than two sampling intervals and 200 exactly if there is none. It takes no
  -- token.
  pub build-health :
      (p : Packages E (ProbeModule f k)) (cfg : Config f) (mods : List (ProbeModule f k))
      (view : Bytes → World (Table r) → Time × Store f × ProbeModule f k)
      (metrics profile : Handler (World (Table r))) (encode : HealthResponse → Option Bytes)
      (start : Time) (read : World (Table r) → Time × List (Handlers.Module (kinds f)))
      (req : Request) (w : World (Table r))
      → IsPacked f k p
      → build_modules p cfg ≡ ok mods
      → any (bytes_eq (codes "/health")) cfg.security.rate_limit.exempt_paths ≡ true
      → req.method ≡ codes "GET"
      → req.path ≡ codes "/health"
      → early (tagged_request s req) ≡ none
      → let health = health_route f encode s.taken cfg.sampler.interval start read in
        (routes : List (Route (World (Table r)))) × (register
            (map (mount f k c view) mods)
            metrics
            health
            profile
          ≡ some routes)
        × (let run = build r trim_unicode s m cfg.security (serve early s.taken routes) req w in
            let status = status_of (respond_all blank run.calls) in
            let behind = IsBehind (mul_duration 2 cfg.sampler.interval) (read w).1 in
            (run.exit ≡ returned)
            × ((status ≡ 503) ↔ behind)
            × ((status ≡ 200) ↔ (¬ behind))
            × (run.world.limiters ≡ w.limiters))
  unfolding health_route tagged_request bytes_eq
  build-health p cfg mods view metrics profile encode start read req w packed built exempt get path
        on_time =
      let health = health_route f encode s.taken cfg.sampler.interval start read in
      let (routes, registered, complete) =
        build_modules-IsComplete f k p cfg mods c view metrics health profile packed built in
      let mux = serve early s.taken routes in
      let req' = tagged_request s req in
      let served : mux req' w ≡ health req' w =
        serve-found early s.taken routes health req' w on_time get (rw path complete.2) in
      let through =
        build-IsThrough r trim_unicode s m cfg.security mux req w (rw get refl)
          (or_true (is_off r (limit_config cfg.security.rate_limit)) (rw path exempt))
          (ap (λ x. x.exit) served) in
      let status = through.status ∙ ap (λ x. status_of (respond_all blank x.calls)) served in
      let truth =
        serve_health-IsBehind f encode s.taken (mul_duration 2 cfg.sampler.interval) start
          (read w).0 (read w).1 in
      let behind = IsBehind (mul_duration 2 cfg.sampler.interval) (read w).1 in
      (
        routes,
        registered,
        (
          through.ended ∙ ap (λ x. x.exit) served,
          subst (λ (n : ℕ). (n ≡ 503) ↔ behind) (sym status) truth.0,
          subst (λ (n : ℕ). (n ≡ 200) ↔ (¬ behind)) (sym status) truth.1,
          through.limiters ∙ ap (λ x. x.world.limiters) served,
        ),
      )
