-- ===== src/Server/Recorded.antt =====
-- The lines that one request leaves in the log.
use workstation_probe.Common.{
  ℕ, ◌≡◌, ◌⊎◌, refl, ap, sym, ◌∙◌, subst, inl, inr, Bool, true, false, some, List, [], ◌∷◌, ◌++◌,
  Bytes, codes,
}
use workstation_probe.Common.Float.{Float64}
use workstation_probe.Config
use workstation_probe.Cors
use workstation_probe.Cors.Middleware.{
  HeaderCall, Outcome, passed_on, no_content, forbidden, middleware,
}
use workstation_probe.Http.{
  Request, set_header, Exit, returned, panicked, Run, Handler, after_calls, blank, respond,
  respond_all, status_of,
}
use workstation_probe.Http.Responses.{status_of-code_of}
use workstation_probe.Logging.{level_info, enabled}
use workstation_probe.Chain.{
  World, Surroundings, AccessLine, PanicLine, panic_line, recovery, request_id, request_id_of,
  access_log, log_path,
}
use workstation_probe.Chain.Writer.{IsLogged, access_log-IsLogged}
use workstation_probe.Chain.Recover.{IsRescued, recovery-IsRescued}
use workstation_probe.RateLimit.{
  Rate, RateLimitConfig, Moments, Table, admit, client_ip, rate_limit,
}
use workstation_probe.RateLimit.Admission.{
  reservation, is_granted, is_exempt, IsServed, rate_limit-IsServed,
}
use workstation_probe.Server.{cors, decided, cors_config, limit_config, build}

module _ {L : Type 0} where
  -- A handler that writes no line of the two kinds itself.
  abbrev pub IsSilent : Handler (World L) → Type 0
  IsSilent next =
      (req : Request) (w : World L)
      → ((next req w).world.access ≡ w.access) × ((next req w).world.panics ≡ w.panics)

  cors-IsSilent :
      (cfg : Cors.Middleware.Config) (taken : Bytes → ℕ) (next : Handler (World L))
      → IsSilent next
      → IsSilent (cors cfg taken next)
  unfolding cors
  cors-IsSilent cfg taken next silent req w =
      by_decision (middleware cfg req.method (req.header (codes "Origin")))
    where
      by_decision :
          (d : List HeaderCall × Outcome)
          → ((decided taken next req w d).world.access ≡ w.access)
            × ((decided taken next req w d).world.panics ≡ w.panics)
      by_decision (calls, passed_on) = silent req w
      by_decision (calls, no_content) = (refl, refl)
      by_decision (calls, forbidden text) = (refl, refl)

module _ {f : Float64} (r : Rate f) where
  rate_limit-IsSilent :
      (trim_unicode : Bytes → Bytes) (cfg : RateLimitConfig f) (m : Moments)
      (next : Handler (World (Table r)))
      → IsSilent next
      → IsSilent (rate_limit r trim_unicode cfg m next)
  unfolding IsServed
  rate_limit-IsSilent trim_unicode cfg m next silent req w =
      let ip = client_ip trim_unicode cfg.trust_proxy_headers req in
      by_case (is_exempt r cfg req) (is_granted r m (reservation r cfg m ip w.limiters))
        (rate_limit r trim_unicode cfg m next req w)
        (rate_limit-IsServed r trim_unicode cfg m next req w)
    where
      by_case :
          (exempt granted : Bool) (run : Run (World (Table r)))
          → IsServed r exempt granted m
              (reservation r cfg m (client_ip trim_unicode cfg.trust_proxy_headers req) w.limiters)
              next
              req
              w
              (admit r cfg m (client_ip trim_unicode cfg.trust_proxy_headers req) w.limiters).1
              run
          → (run.world.access ≡ w.access) × (run.world.panics ≡ w.panics)
      by_case true granted run served = (
        ap (λ x. x.world.access) served ∙ (silent req w).0,
        ap (λ x. x.world.panics) served ∙ (silent req w).1,
      )
      by_case false true run served =
          let w' = record w {
            limiters =
                (admit r cfg m (client_ip trim_unicode cfg.trust_proxy_headers req) w.limiters).1;
          } in
          (
            ap (λ x. x.world.access) served ∙ (silent req w').0,
            ap (λ x. x.world.panics) served ∙ (silent req w').1,
          )
      by_case false false run (exit, world, denial) =
          (ap (λ x. x.access) world, ap (λ x. x.panics) world)

module _ {L : Type 0} (s : Surroundings) where
  -- One request's record: one access line, with the path, the id that the request was given and the status
  -- that was sent, if lines of the level info are written; or no line if they are not; or one panic line with the path.
  abbrev pub IsRecorded : Request → World L → Run (World L) → Type 0
  IsRecorded req w run =
      ((enabled s.level level_info ≡ true)
        × (line : AccessLine) × (run.world.access ≡ w.access ++ line ∷ [])
        × (line.path ≡ log_path req.path)
        × (line.status ≡ status_of (respond_all blank run.calls))
        × (line.request_id ≡ request_id_of s (req.header (codes "X-Request-Id")))
        × (run.world.panics ≡ w.panics))
      ⊎ ((enabled s.level level_info ≡ false)
          × (run.world.access ≡ w.access)
          × (run.world.panics ≡ w.panics))
      ⊎ ((run.world.access ≡ w.access)
          × ((line : PanicLine) × (run.world.panics ≡ w.panics ++ line ∷ [])
              × (line.path ≡ log_path req.path)))

  -- What the access log and the recovery did, put together.
  rescued-IsRecorded :
      (req : Request) (w : World L) (id : Bytes) (inner outer run : Run (World L)) (exit : Exit)
      (on : Bool)
      → let tagged = after_calls (set_header (codes "X-Request-Id") id ∷ []) outer in
        enabled s.level level_info ≡ on
        → id ≡ request_id_of s (req.header (codes "X-Request-Id"))
        → inner.world.access ≡ w.access
        → outer.world.panics ≡ w.panics
        → IsLogged exit on inner.world.access outer.world.access req.path
            (status_of (respond_all blank outer.calls))
            id
        → IsRescued s req exit tagged run
        → IsRecorded req w run
  unfolding IsLogged IsRescued respond respond_all
  rescued-IsRecorded req w id inner outer run returned true level own access panics
        (line, logged, path, status, ids) rescued =
      inl (
        level,
        line,
        ap (λ x. x.world.access) rescued ∙ logged ∙ ap (λ a. a ++ line ∷ []) access,
        path,
        status
            ∙ status_of-code_of outer.calls blank
                (respond blank (set_header (codes "X-Request-Id") id)) refl
            ∙ ap (λ x. status_of (respond_all blank x.calls)) (sym rescued),
        ids ∙ own,
        ap (λ x. x.world.panics) rescued ∙ panics,
      )
  rescued-IsRecorded req w id inner outer run returned false level own access panics logged
        rescued =
      inr (
        inl (
          level,
          ap (λ x. x.world.access) rescued ∙ logged ∙ access,
          ap (λ x. x.world.panics) rescued ∙ panics,
        ))
  rescued-IsRecorded req w id inner outer run (panicked cause) on level own access panics logged
        (world, answer) =
      inr (
        inr (
          ap (λ x. x.access) world ∙ logged ∙ access,
          (
            panic_line s req cause,
            ap (λ x. x.panics) world ∙ ap (λ p. p ++ panic_line s req cause ∷ []) panics,
            refl,
          ),
        ))

  chain-IsRecorded :
      (next : Handler (World L))
      → IsSilent next
      → (req : Request) (w : World L)
      → IsRecorded req w (recovery s (request_id s (access_log s next)) req w)
  unfolding request_id IsLogged IsRescued
  chain-IsRecorded next silent req w =
      let id = request_id_of s (req.header (codes "X-Request-Id")) in
      let req' = record req { request_id = some id } in
      let inner = next req' w in
      let outer = access_log s next req' w in
      let tagged = after_calls (set_header (codes "X-Request-Id") id ∷ []) outer in
      let (exit, same, lines, panics) = access_log-IsLogged s next req' w in
      let rescued = (recovery-IsRescued s (request_id s (access_log s next)) req w).1 in
      rescued-IsRecorded req w id inner outer (recovery s (request_id s (access_log s next)) req w)
        inner.exit (enabled s.level level_info) refl refl (silent req' w).0
        (panics ∙ (silent req' w).1) lines
        (subst (λ x. IsRescued s req x tagged (recovery s (request_id s (access_log s next)) req w))
          exit rescued)

module _ {f : Float64} (r : Rate f) (trim_unicode : Bytes → Bytes) (s : Surroundings)
    (m : Moments) where
  -- If the mux writes no line of the two kinds itself, each request leaves exactly one line where the logger writes lines
  -- of the level info, and otherwise none but that of a panic: either an access line, whose
  -- path is the request's, cut to what the log takes, whose id is the request's and whose status is the one that the
  -- response has, or a panic line with that path. This holds for
  -- every configuration, also where CORS or the rate limiter answers the request.
  pub build-IsRecorded :
      (c : Config.SecurityConfig f) (mux : Handler (World (Table r)))
      → IsSilent mux
      → (req : Request) (w : World (Table r))
      → IsRecorded s req w (build r trim_unicode s m c mux req w)
  unfolding build
  build-IsRecorded c mux silent req w =
      chain-IsRecorded s
        (cors (cors_config c.cors) s.taken
          (rate_limit r trim_unicode (limit_config c.rate_limit) m mux))
        (cors-IsSilent (cors_config c.cors) s.taken
          (rate_limit r trim_unicode (limit_config c.rate_limit) m mux)
          (rate_limit-IsSilent r trim_unicode (limit_config c.rate_limit) m mux silent))
        req w
