-- ===== src/RateLimit/Admission.antt =====
-- What the limiter does to one request.
use workstation_probe.Common.{
  ℕ, ◌≡◌, inl, inr, refl, sym, Bool, true, false, not, ◌&&◌, ◌||◌, some, List, [], ◌∷◌,
  if◌then◌else◌, any, take, All, Bytes, codes, bytes_eq, Bool-cases,
}
use workstation_probe.Common.Int.{pos, ltb_ℤ}
use workstation_probe.Common.Float.{Float64}
use workstation_probe.Http.{
  Request, Call, set_header, returned, Run, Handler, Response, blank, respond, respond_all,
}
use workstation_probe.Chain.{World}
use workstation_probe.RateLimit.{
  Rate, RateLimitConfig, Moments, rate_limited, deny, client_ip, Table, limiter_or, limiter_for,
  retry_after, admit, limited, is_off, rate_limit,
}

module _ {f : Float64} (r : Rate f) where
  -- The reservation that a request of the client `ip` makes.
  abbrev pub reservation : RateLimitConfig f → Moments → Bytes → Table r → r.Reservation
  reservation cfg m ip t =
      (r.reserve (limiter_or r (r.new_limiter cfg.requests_per_second cfg.burst) (t ip))
        m.reserved).1

  abbrev pub is_granted : Moments → r.Reservation → Bool
  is_granted m rsv = r.is_ok rsv && not (ltb_ℤ (pos 0) (r.delay rsv m.asked))

  abbrev pub is_exempt : RateLimitConfig f → Request → Bool
  is_exempt cfg req = is_off r cfg || any (bytes_eq req.path) cfg.exempt_paths

  abbrev retry_header : Moments → r.Reservation → List Bytes
  retry_header m rsv = if r.is_ok rsv then retry_after r (r.delay rsv m.asked) ∷ [] else []

  -- The answer to a request that is turned away: the status, the two headers and the body.
  abbrev pub IsDenial : List Bytes → ℕ → Response → Type 0
  IsDenial retry taken response =
      (response.sent ≡ some (429, response.header))
      × (response.header (codes "Content-Type") ≡ codes "application/json" ∷ [])
      × (response.header (codes "Retry-After") ≡ retry)
      × (response.body ≡ take taken rate_limited)

  deny-IsDenial :
      (taken : ℕ) (header : List Bytes)
      → header ≡ []
      → IsDenial header taken (respond_all blank (deny taken))
  unfolding respond respond_all bytes_eq
  deny-IsDenial taken header e = (refl, refl, sym e, refl)

  deny_later-IsDenial :
      (taken : ℕ) (retry : Bytes) (header : List Bytes)
      → header ≡ retry ∷ []
      → IsDenial header taken
          (respond_all blank (set_header (codes "Retry-After") retry ∷ deny taken))
  unfolding respond respond_all bytes_eq
  deny_later-IsDenial taken retry header e = (refl, refl, sym e, refl)

  -- What the calls of a handler all are, those of the limiter round it are, if its own calls are.
  pub rate_limit-All :
      (P : Call → Type 0) (trim_unicode : Bytes → Bytes) (cfg : RateLimitConfig f) (m : Moments)
      (next : Handler (World (Table r)))
      → ((req : Request) (w : World (Table r)) → All P (next req w).calls)
      → ((retry : Bytes) → P (set_header (codes "Retry-After") retry))
      → All P (deny m.taken)
      → (req : Request) (w : World (Table r))
      → All P (rate_limit r trim_unicode cfg m next req w).calls
  unfolding rate_limit admit limiter_for
  rate_limit-All P trim_unicode cfg m next inner retry own req w =
      elim (Bool-cases (is_off r cfg)) [
        | inl off ↦ rw off (inner req w)
        | inr on ↦ elim (Bool-cases (any (bytes_eq req.path) cfg.exempt_paths)) [
          | inl e ↦ rw (on, e) (inner req w)
          | inr e ↦ rw (on, e) (admitted_or (client_ip trim_unicode cfg.trust_proxy_headers req))
        ]
      ]
    where
      admitted_or : (ip : Bytes) → All P (limited r next req w (admit r cfg m ip w.limiters)).calls
      admitted_or ip =
          let rsv = reservation cfg m ip w.limiters in
          elim (Bool-cases (r.is_ok rsv)) [
            | inr e ↦ rw e own
            | inl e ↦ elim (Bool-cases (ltb_ℤ (pos 0) (r.delay rsv m.asked))) [
              | inl late ↦ rw (e, late) (retry (retry_after r (r.delay rsv m.asked)), own)
              | inr now ↦ rw (e, now) (inner req _)
            ]
          ]

  -- How a request is served, by whether the limiter leaves it alone and whether its reservation is granted;
  -- `t` is the table after it.
  unfoldable pub IsServed :
      (exempt granted : Bool)
      → Moments
      → r.Reservation
      → Handler (World (Table r))
      → Request
      → World (Table r)
      → Table r
      → Run (World (Table r))
      → Type 0
  IsServed true granted m rsv next req w t run = run ≡ next req w
  IsServed false true m rsv next req w t run = run ≡ next req (record w { limiters = t })
  IsServed false false m rsv next req w t run =
      (run.exit ≡ returned)
      × (run.world ≡ record w { limiters = t })
      × IsDenial (retry_header m rsv) m.taken (respond_all blank run.calls)

  admit-IsServed :
      (cfg : RateLimitConfig f) (m : Moments) (ip : Bytes) (next : Handler (World (Table r)))
      (req : Request) (w : World (Table r))
      → let rsv = reservation cfg m ip w.limiters in
        let verdict = admit r cfg m ip w.limiters in
        IsServed false (is_granted m rsv) m rsv next req w verdict.1 (limited r next req w verdict)
  unfolding admit limiter_for IsServed
  admit-IsServed cfg m ip next req w =
      let rsv = reservation cfg m ip w.limiters in
      elim (Bool-cases (r.is_ok rsv)) [
        | inr e ↦ rw e (refl, refl, deny-IsDenial m.taken (retry_header m rsv) (rw e refl))
        | inl e ↦ elim (Bool-cases (ltb_ℤ (pos 0) (r.delay rsv m.asked))) [
          | inl late ↦
              rw (e, late)
                (
                  refl,
                  refl,
                  deny_later-IsDenial m.taken (retry_after r (r.delay rsv m.asked))
                      (retry_header m rsv) (rw e refl),
                )
          | inr now ↦ rw (e, now) refl
        ]
      ]

  -- Unless the limiter is off (disabled, or with a rate or a burst that is not positive) or the path is
  -- exempt, in which case the next handler gets the request and the server as they are, the client's
  -- reservation decides. If it is OK and has no delay, the next handler gets the request, with the table after the
  -- reservation; otherwise the next handler does not run, and the response is status 429 with the JSON body and
  -- content type, and `Retry-After` with the delay's whole seconds plus one if the reservation is OK.
  pub rate_limit-IsServed :
      (trim_unicode : Bytes → Bytes) (cfg : RateLimitConfig f) (m : Moments)
      (next : Handler (World (Table r))) (req : Request) (w : World (Table r))
      → let ip = client_ip trim_unicode cfg.trust_proxy_headers req in
        let rsv = reservation cfg m ip w.limiters in
        IsServed
          (is_exempt cfg req)
          (is_granted m rsv)
          m
          rsv
          next
          req
          w
          (admit r cfg m ip w.limiters).1
          (rate_limit r trim_unicode cfg m next req w)
  unfolding rate_limit IsServed
  rate_limit-IsServed trim_unicode cfg m next req w =
      let served =
        admit-IsServed cfg m (client_ip trim_unicode cfg.trust_proxy_headers req) next req w in
      elim (Bool-cases (is_off r cfg)) [
        | inl off ↦ rw off refl
        | inr on ↦ elim (Bool-cases (any (bytes_eq req.path) cfg.exempt_paths)) [
          | inl e ↦ rw (on, e) refl
          | inr e ↦ rw (on, e) served
        ]
      ]
