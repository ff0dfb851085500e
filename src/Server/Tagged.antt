-- ===== src/Server/Tagged.antt =====
-- The request id on every response.
use workstation_probe.Common.{
  ℕ, ◌≡◌, refl, inl, inr, true, some, List, [], ◌∷◌, ◌++◌, map, Bytes, codes, bytes_eq, differ, All,
}
use workstation_probe.Common.Float.{Float64}
use workstation_probe.Config
use workstation_probe.Cors
use workstation_probe.Cors.Middleware.{
  HeaderCall, Outcome, passed_on, no_content, forbidden, middleware, allowing,
}
use workstation_probe.Cors.Middleware.Calls.{middleware-calls}
use workstation_probe.Http.{Request, set_header, returned, Handler, blank, respond, respond_all}
use workstation_probe.Http.Responses.{IsApart, IsKept, respond_all-IsKept, respond_all-append}
use workstation_probe.Chain.{
  World, Surroundings, recovery, request_id, request_id_of, access_log, fresh_writer, rescue_calls,
  valid_request_id,
}
use workstation_probe.Chain.Writer.{observe_all-All}
use workstation_probe.Chain.Recover.{recovery-calls, recovery-IsRescued}
use workstation_probe.Chain.Ids.{IsFull, request_id_of-valid}
use workstation_probe.RateLimit.{Rate, Moments, Table, rate_limit}
use workstation_probe.RateLimit.Admission.{rate_limit-All}
use workstation_probe.Server.{cors, decided, header_call, cors_config, limit_config, build}

abbrev tag : Bytes
tag = codes "X-Request-Id"

All-append : {A : Type 0} (P : A → Type 0) (xs ys : List A) → All P xs → All P ys → All P (xs ++ ys)
All-append P [] ys h k = k
All-append P (x ∷ xs) ys h k = (h.0, All-append P xs ys h.1 k)

middleware-IsApart :
    (cfg : Cors.Middleware.Config) (method origin : Bytes)
    → All (IsApart tag) (map header_call (middleware cfg method origin).0)
unfolding bytes_eq
middleware-IsApart cfg method origin = elim (middleware-calls cfg method origin) [
  | inl e ↦ rw e tt
  | inr e ↦ rw e (
    differ _ _ refl,
    (
      differ _ _ refl,
      (differ _ _ refl, (differ _ _ refl, (differ _ _ refl, (differ _ _ refl, tt)))),
    ),
  )
]

module _ {W : Type 0} where
  -- A handler that leaves the header of the request id alone.
  abbrev pub LeavesTag : Handler W → Type 0
  LeavesTag next = (req : Request) (w : W) → All (IsApart tag) (next req w).calls

  cors-LeavesTag :
      (cfg : Cors.Middleware.Config) (taken : Bytes → ℕ) (next : Handler W)
      → LeavesTag next
      → LeavesTag (cors cfg taken next)
  unfolding cors bytes_eq
  cors-LeavesTag cfg taken next inner req w =
      by_decision (middleware cfg req.method (req.header (codes "Origin")))
        (middleware-IsApart cfg req.method (req.header (codes "Origin")))
    where
      by_decision :
          (d : List HeaderCall × Outcome)
          → All (IsApart tag) (map header_call d.0)
          → All (IsApart tag) (decided taken next req w d).calls
      by_decision (calls, passed_on) h =
          All-append (IsApart tag) (map header_call calls) (next req w).calls h (inner req w)
      by_decision (calls, no_content) h =
          All-append (IsApart tag) (map header_call calls) _ h (tt, tt)
      by_decision (calls, forbidden text) h =
          All-append (IsApart tag) (map header_call calls) _ h
            (differ _ _ refl, (differ _ _ refl, (tt, (tt, tt))))

module _ {L : Type 0} (s : Surroundings) where
  chain-IsKept :
      (next : Handler (World L))
      → LeavesTag next
      → (req : Request) (w : World L)
      → IsKept tag
          (request_id_of s (req.header tag))
          (respond_all blank (recovery s (request_id s (access_log s next)) req w).calls)
  unfolding request_id access_log respond respond_all bytes_eq
  chain-IsKept next inner req w =
      let id = request_id_of s (req.header tag) in
      let run = request_id s (access_log s next) req w in
      let apart =
        observe_all-All (IsApart tag) fresh_writer
          (next (record req { request_id = some id }) w).calls
          (inner (record req { request_id = some id }) w) in
      let first = respond blank (set_header tag id) in
      let kept =
        respond_all-IsKept tag id first
          (access_log s next (record req { request_id = some id }) w).calls apart (refl, tt) in
      elim (recovery-calls s (request_id s (access_log s next)) req w) [
        | inl e ↦ rw e kept
        | inr e ↦ rw e (
            rw (respond_all-append blank run.calls (rescue_calls s)) (
              respond_all-IsKept tag id (respond_all blank run.calls) (rescue_calls s)
                (differ _ _ refl, (tt, (tt, tt))) kept))
      ]

module _ {f : Float64} (r : Rate f) (trim_unicode : Bytes → Bytes) (s : Surroundings)
    (m : Moments) where
  -- The server never panics out of its chain, and every response carries one `X-Request-Id` that is valid: the client's
  -- own if that is valid, and otherwise a new one; also if the mux panics, or CORS or the rate limiter
  -- answers. It holds for a mux that leaves this header alone, if the random bytes are eight unless reading them fails.
  pub build-IsKept :
      (c : Config.SecurityConfig f) (mux : Handler (World (Table r)))
      → LeavesTag mux
      → IsFull s.random
      → (req : Request) (w : World (Table r))
      → let run = build r trim_unicode s m c mux req w in
        let id = request_id_of s (req.header tag) in
        (run.exit ≡ returned)
        × IsKept tag id (respond_all blank run.calls)
        × (valid_request_id id ≡ true)
  unfolding build bytes_eq
  build-IsKept c mux inner full req w =
      let limited = rate_limit r trim_unicode (limit_config c.rate_limit) m mux in
      let next = cors (cors_config c.cors) s.taken limited in
      let limited-LeavesTag : LeavesTag limited =
        rate_limit-All r (IsApart tag) trim_unicode (limit_config c.rate_limit) m mux inner
          (λ retry. differ _ _ refl) (differ _ _ refl, (tt, (tt, tt))) in
      (
        (recovery-IsRescued s (request_id s (access_log s next)) req w).0,
        chain-IsKept s next (cors-LeavesTag (cors_config c.cors) s.taken limited limited-LeavesTag)
            req w,
        request_id_of-valid s (req.header tag) full,
      )
