-- ===== src/RateLimit/Charged.antt =====
-- The table of the limiters after a request that the limiter looked at.
use workstation_probe.Common.{
  ◌≡◌, refl, inl, inr, subst, ◌&&◌, some, if◌then◌else◌, Bytes, bytes_eq, Bool-cases,
}
use mathlib.Core.Path.{fun_ext}
use workstation_probe.Common.Int.{pos, ltb_ℤ}
use workstation_probe.Common.Float.{Float64}
use workstation_probe.Http.{Request, Handler}
use workstation_probe.Chain.{World}
use workstation_probe.RateLimit.{
  Rate, RateLimitConfig, Moments, client_ip, Table, limiter_or, limiter_for, admit, rate_limit,
}
use workstation_probe.RateLimit.Admission.{
  reservation, is_granted, is_exempt, IsServed, rate_limit-IsServed,
}

module _ {f : Float64} (r : Rate f) (cfg : RateLimitConfig f) (m : Moments) where
  -- The client's limiter after its one reservation, which is cancelled if it is OK and has a delay.
  abbrev pub settled : Bytes → Table r → r.Limiter
  settled ip t =
      let before = limiter_or r (r.new_limiter cfg.requests_per_second cfg.burst) (t ip) in
      let after = (r.reserve before m.reserved).0 in
      let rsv = (r.reserve before m.reserved).1 in
      if r.is_ok rsv && ltb_ℤ (pos 0) (r.delay rsv m.asked)
      then r.cancel after rsv m.cancelled
      else after

  -- Only the client's entry changes; it has that limiter, last seen now.
  abbrev pub reserved_table : Bytes → Table r → Table r
  reserved_table ip t =
      λ k. if bytes_eq ip k then some (record { lim = settled ip t; last_seen = m.seen }) else t k

  admit-reserved_table :
      (ip : Bytes) (t : Table r) (k : Bytes) → (admit r cfg m ip t).1 k ≡ reserved_table ip t k
  unfolding admit limiter_for
  admit-reserved_table ip t k =
      let rsv = reservation r cfg m ip t in
      elim (Bool-cases (r.is_ok rsv)) [
        | inr bad ↦ elim (Bool-cases (bytes_eq ip k)) [
          | inl h ↦ rw (bad, h) refl
          | inr h ↦ rw (bad, h) refl
        ]
        | inl good ↦ elim (Bool-cases (ltb_ℤ (pos 0) (r.delay rsv m.asked))) [
          | inl late ↦ elim (Bool-cases (bytes_eq ip k)) [
            | inl h ↦ rw (good, late, h) refl
            | inr h ↦ rw (good, late, h) refl
          ]
          | inr soon ↦ elim (Bool-cases (bytes_eq ip k)) [
            | inl h ↦ rw (good, soon, h) refl
            | inr h ↦ rw (good, soon, h) refl
          ]
        ]
      ]

  -- Unless the limiter is off (disabled, or with a rate or a burst that is not positive) or the path is
  -- exempt, in which case the next handler gets the request and the server as they are, the client's
  -- reservation decides, on its own limiter or a new one. If it is OK and has no delay, the next handler gets the
  -- request, and the client's entry has the limiter after the reservation. Otherwise the next handler does not run,
  -- the entry has the limiter after the reservation, which is cancelled if it was OK, and the response is status 429 with
  -- the JSON body and content type, and `Retry-After` with the delay's whole seconds plus one if the
  -- reservation is OK. No other client's entry changes, and the client's is seen now.
  pub rate_limit-IsCharged :
      (trim_unicode : Bytes → Bytes) (next : Handler (World (Table r))) (req : Request)
      (w : World (Table r))
      → let ip = client_ip trim_unicode cfg.trust_proxy_headers req in
        let rsv = reservation r cfg m ip w.limiters in
        IsServed r
          (is_exempt r cfg req)
          (is_granted r m rsv)
          m
          rsv
          next
          req
          w
          (reserved_table ip w.limiters)
          (rate_limit r trim_unicode cfg m next req w)
  rate_limit-IsCharged trim_unicode next req w =
      let ip = client_ip trim_unicode cfg.trust_proxy_headers req in
      let rsv = reservation r cfg m ip w.limiters in
      subst
        (λ (t : Table r).
          IsServed r (is_exempt r cfg req) (is_granted r m rsv) m rsv next req w t
            (rate_limit r trim_unicode cfg m next req w))
        (fun_ext (admit-reserved_table ip w.limiters))
        (rate_limit-IsServed r trim_unicode cfg m next req w)
