-- ===== src/Server/Preflight.antt =====
-- Requests that CORS answers, against the limiter and the mux behind it.
use workstation_probe.Common.{ℕ, ◌≡◌, ◌≢◌, refl, ap, ◌∙◌, true, some, List, [], Bytes, codes}
use workstation_probe.Common.Float.{Float64}
use workstation_probe.Config
use workstation_probe.Cors.Middleware.{
  HeaderCall, Outcome, passed_on, no_content, forbidden, parsed, is_options, middleware,
}
use workstation_probe.Cors.Middleware.Preflight.{middleware-passed_on}
use workstation_probe.Http.{Request, Exit, returned, panicked, Run, Handler}
use workstation_probe.Chain.{
  World, Surroundings, recovery, request_id, request_id_of, access_log, rescued, logged,
  fresh_writer, observe_all,
}
use workstation_probe.RateLimit.{Rate, Moments, Table, rate_limit}
use workstation_probe.Server.{cors, decided, cors_config, limit_config, build}

-- The handler behind CORS does not matter, and the server's state is as it was.
decided-answered :
    {W : Type 0} (taken : Bytes → ℕ) (next next' : Handler W) (req : Request) (w : W)
    (d : List HeaderCall × Outcome)
    → d.1 ≢ passed_on
    → (decided taken next req w d ≡ decided taken next' req w d)
      × ((decided taken next req w d).world ≡ w)
decided-answered taken next next' req w (calls, passed_on) h = absurd (h refl)
decided-answered taken next next' req w (calls, no_content) h = (refl, refl)
decided-answered taken next next' req w (calls, forbidden text) h = (refl, refl)

unfoldable pub tagged_request : Surroundings → Request → Request
tagged_request s req = record req {
  request_id = some (request_id_of s (req.header (codes "X-Request-Id")));
}

module _ {L : Type 0} (s : Surroundings) where
  chain-same :
      (next next' : Handler (World L)) (req : Request) (w : World L)
      → next (tagged_request s req) w ≡ next' (tagged_request s req) w
      → recovery s (request_id s (access_log s next)) req w
        ≡ recovery s (request_id s (access_log s next')) req w
  unfolding recovery request_id access_log tagged_request
  chain-same next next' req w e = rw e refl

  pub chain-limiters :
      (next : Handler (World L)) (req : Request) (w : World L)
      → (recovery s (request_id s (access_log s next)) req w).world.limiters
        ≡ (next (tagged_request s req) w).world.limiters
  unfolding recovery request_id access_log tagged_request
  chain-limiters next req w =
      by_exit (request_id s (access_log s next) req w) (next (tagged_request s req) w).exit
      ∙ by_logged (next (tagged_request s req) w).exit
    where
      by_exit :
          (run : Run (World L)) (exit : Exit)
          → (rescued s req run exit).world.limiters ≡ run.world.limiters
      by_exit run returned = refl
      by_exit run (panicked cause) = refl

      by_logged :
          (exit : Exit)
          → (logged s
              (tagged_request s req)
              (observe_all fresh_writer (next (tagged_request s req) w).calls).0
              (next (tagged_request s req) w).world
              exit).limiters
            ≡ (next (tagged_request s req) w).world.limiters
      by_logged returned = refl
      by_logged (panicked cause) = refl

module _ {f : Float64} (r : Rate f) (trim_unicode : Bytes → Bytes) (s : Surroundings)
    (m : Moments) where
  -- An OPTIONS request with an `Origin`, where CORS is enabled and some configured origin parses, takes no
  -- token: the limiters are as they were. It does not reach the mux either: with any other mux the
  -- calls, the end and the log lines are the same.
  pub build-preflight :
      (c : Config.SecurityConfig f) (mux mux' : Handler (World (Table r))) (req : Request)
      (w : World (Table r))
      → c.cors.enabled ≡ true
      → is_options req.method ≡ true
      → req.header (codes "Origin") ≢ []
      → parsed c.cors.allowed_origins ≢ []
      → let run = build r trim_unicode s m c mux req w in
        (run ≡ build r trim_unicode s m c mux' req w) × (run.world.limiters ≡ w.limiters)
  unfolding build cors tagged_request
  build-preflight c mux mux' req w enabled options origin patterns =
      let limited = rate_limit r trim_unicode (limit_config c.rate_limit) m mux in
      let limited' = rate_limit r trim_unicode (limit_config c.rate_limit) m mux' in
      let answered =
        (middleware-passed_on (cors_config c.cors) req.method (req.header (codes "Origin"))).1
          (enabled, options, origin, patterns) in
      let (same, kept) =
        decided-answered s.taken limited limited' (tagged_request s req) w
          (middleware (cors_config c.cors) req.method (req.header (codes "Origin"))) answered in
      (
        chain-same s (cors (cors_config c.cors) s.taken limited)
            (cors (cors_config c.cors) s.taken limited') req w same,
        chain-limiters s (cors (cors_config c.cors) s.taken limited) req w
            ∙ ap (λ x. x.limiters) kept,
      )
