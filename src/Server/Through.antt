-- ===== src/Server/Through.antt =====
-- Requests that go through the whole chain to the mux, and the health summary as a client gets it.
use workstation_probe.Common.{
  ◌≡◌, ◌≢◌, refl, ap, ◌∙◌, subst, true, false, some, List, [], ◌∷◌, ◌++◌, map, Bytes, codes,
}
use workstation_probe.Common.Float.{Float64}
use workstation_probe.Config
use workstation_probe.Cors.Middleware.{
  HeaderCall, Outcome, passed_on, no_content, forbidden, is_options, middleware,
}
use workstation_probe.Cors.Middleware.Preflight.{middleware-passed_on}
use workstation_probe.Http.{
  Request, Call, set_header, add_header, returned, Run, Handler, after_calls, blank, respond,
  respond_all, status_of,
}
use workstation_probe.Http.Responses.{status_of-code_of}
use workstation_probe.Chain.{
  World, Surroundings, recovery, request_id, request_id_of, access_log, rescued,
}
use workstation_probe.Chain.Writer.{access_log-IsLogged}
use workstation_probe.RateLimit.{Rate, Moments, Table, client_ip, admit, rate_limit}
use workstation_probe.RateLimit.Admission.{
  reservation, is_granted, is_exempt, IsServed, rate_limit-IsServed,
}
use workstation_probe.Server.{cors, decided, header_call, cors_config, limit_config, build}
use workstation_probe.Server.Preflight.{tagged_request, chain-limiters}

by_outcome : (o : Outcome) → ¬ (o ≢ passed_on) → o ≡ passed_on
by_outcome passed_on h = refl
by_outcome no_content h = absurd (h (λ e. cc))
by_outcome (forbidden text) h = absurd (h (λ e. cc))

-- What reaches the client and the limiters of a handler's run, in that of a handler round it.
pub record IsThrough {L : Type 0} (inner outer : Run (World L)) : Type 0 where
  pub ended : outer.exit ≡ inner.exit
  pub status : status_of (respond_all blank outer.calls) ≡ status_of (respond_all blank inner.calls)
  pub limiters : outer.world.limiters ≡ inner.world.limiters

IsThrough-refl : {L : Type 0} (run : Run (World L)) → IsThrough run run
IsThrough-refl run = record { ended = refl; status = refl; limiters = refl }

IsThrough-trans :
    {L : Type 0} (a b c : Run (World L)) → IsThrough a b → IsThrough b c → IsThrough a c
IsThrough-trans a b c p q = record {
  ended = q.ended ∙ p.ended;
  status = q.status ∙ p.status;
  limiters = q.limiters ∙ p.limiters;
}

-- Calls on the header do not change the status of the calls after them.
header_calls-status :
    (calls : List HeaderCall) (rest : List Call)
    → status_of (respond_all blank (map header_call calls ++ rest))
      ≡ status_of (respond_all blank rest)
unfolding respond respond_all
header_calls-status [] rest = refl
header_calls-status (HeaderCall.set_header k v ∷ calls) rest =
    status_of-code_of (map header_call calls ++ rest) (respond blank (set_header k v)) blank refl
    ∙ header_calls-status calls rest
header_calls-status (HeaderCall.add_header k v ∷ calls) rest =
    status_of-code_of (map header_call calls ++ rest) (respond blank (add_header k v)) blank refl
    ∙ header_calls-status calls rest

module _ {L : Type 0} (s : Surroundings) where
  decided-IsThrough :
      (next : Handler (World L)) (req : Request) (w : World L) (d : List HeaderCall × Outcome)
      → d.1 ≡ passed_on
      → IsThrough (next req w) (decided s.taken next req w d)
  decided-IsThrough next req w (calls, passed_on) e = record {
    ended = refl;
    status = header_calls-status calls (next req w).calls;
    limiters = refl;
  }
  decided-IsThrough next req w (calls, no_content) e = cc
  decided-IsThrough next req w (calls, forbidden text) e = cc

  -- The chain round a handler that returns.
  chain-IsThrough :
      (next : Handler (World L)) (req : Request) (w : World L)
      → (next (tagged_request s req) w).exit ≡ returned
      → IsThrough
          (next (tagged_request s req) w)
          (recovery s (request_id s (access_log s next)) req w)
  unfolding recovery request_id tagged_request respond respond_all
  chain-IsThrough next req w ends =
      let id = request_id_of s (req.header (codes "X-Request-Id")) in
      let req' = record req { request_id = some id } in
      let (exit, same, lines, panics) = access_log-IsLogged s next req' w in
      let outer = access_log s next req' w in
      let tagged = after_calls (set_header (codes "X-Request-Id") id ∷ []) outer in
      let kept : rescued s req tagged outer.exit ≡ tagged =
        ap (rescued s req tagged) (exit ∙ ends) in
      record {
        ended = ap (λ r. r.exit) kept ∙ exit;
        status =
            ap (λ r. status_of (respond_all blank r.calls)) kept
            ∙ status_of-code_of outer.calls (respond blank (set_header (codes "X-Request-Id") id))
                blank refl
            ∙ ap status_of same;
        limiters = chain-limiters s next req w;
      }

module _ {f : Float64} (r : Rate f) (trim_unicode : Bytes → Bytes) (s : Surroundings)
    (m : Moments) where
  -- A request that is no OPTIONS request and that the limiter leaves alone, and for which the mux returns: the client
  -- gets the status that the mux sent, and the limiters are as the mux left them, whatever its `Origin`
  -- and its request id.
  pub build-IsThrough :
      (c : Config.SecurityConfig f) (mux : Handler (World (Table r))) (req : Request)
      (w : World (Table r))
      → is_options req.method ≡ false
      → is_exempt r (limit_config c.rate_limit) req ≡ true
      → (mux (tagged_request s req) w).exit ≡ returned
      → IsThrough (mux (tagged_request s req) w) (build r trim_unicode s m c mux req w)
  unfolding build cors tagged_request IsServed
  build-IsThrough c mux req w other exempt ends =
      let limit = limit_config c.rate_limit in
      let req' = tagged_request s req in
      let limited = rate_limit r trim_unicode limit m mux in
      let origin = req.header (codes "Origin") in
      let passed : (middleware (cors_config c.cors) req.method origin).1 ≡ passed_on =
        by_outcome (middleware (cors_config c.cors) req.method origin).1 (λ h.
          let q = (middleware-passed_on (cors_config c.cors) req.method origin).0 h in
          let t = q.1 in cc) in
      let rsv =
        reservation r limit m (client_ip trim_unicode limit.trust_proxy_headers req') w.limiters in
      let alone : limited req' w ≡ mux req' w =
        subst
          (λ b.
            IsServed r b (is_granted r m rsv) m rsv mux req' w
              (admit r limit m (client_ip trim_unicode limit.trust_proxy_headers req') w.limiters).1
              (limited req' w))
          exempt (rate_limit-IsServed r trim_unicode limit m mux req' w) in
      let behind : IsThrough (mux req' w) (cors (cors_config c.cors) s.taken limited req' w) =
        subst (λ x. IsThrough x (cors (cors_config c.cors) s.taken limited req' w)) alone
          (decided-IsThrough s limited req' w (middleware (cors_config c.cors) req.method origin)
            passed) in
      IsThrough-trans (mux req' w) (cors (cors_config c.cors) s.taken limited req' w)
        (build r trim_unicode s m c mux req w) behind
        (chain-IsThrough s (cors (cors_config c.cors) s.taken limited) req w (behind.ended ∙ ends))
