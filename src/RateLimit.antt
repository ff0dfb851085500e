-- ===== src/RateLimit.antt =====
-- internal/middleware/ratelimit.go: the limiter per client, as a middleware. The token bucket of
-- golang.org/x/time/rate and the trimming of a text that is not ASCII are arguments; a request and a sweep of the
-- cleanup are each one step on the table here, and the steps of requests at the same time are in `Shared`.
pub mod Admission
pub mod Charged
pub mod Sweeps
pub mod Retention
pub mod Shared
pub mod Apart
pub mod Turns
pub mod Alone
use workstation_probe.Common.{
  ℕ, ◌*◌, Bool, true, false, not, ◌||◌, Option, none, some, List, [], ◌∷◌, ◌++◌, if◌then◌else◌, any,
  take, Bytes, codes, bytes_eq, index_byte,
}
use workstation_probe.Common.Int.{ℤ, pos, ◌+ℤ◌, leb_ℤ, ltb_ℤ, wrap64}
use workstation_probe.Common.Time.{Time, Duration, second, before, add_neg}
use workstation_probe.Common.Float.{Float64}
use workstation_probe.Strconv.{itoa}
use workstation_probe.Trim.{trim_space}
use workstation_probe.Http.{
  Request, Call, set_header, add_header, write_header, write, Exit, returned, panicked, Run,
  Handler, after_calls,
}
use workstation_probe.Chain.{World, client_ip as remote_ip}

-- `rate.Limiter` and `rate.Reservation`; each operation reads the clock.
pub record Rate (f : Float64) : Type 1 where
  pub Limiter : Type 0
  pub Reservation : Type 0
  pub new_limiter : f.Float → ℤ → Limiter
  pub reserve : Limiter → Time → Limiter × Reservation
  pub is_ok : Reservation → Bool
  pub delay : Reservation → Time → Duration
  pub cancel : Limiter → Reservation → Time → Limiter

pub record RateLimitConfig (f : Float64) : Type 0 where
  pub enabled : Bool
  pub requests_per_second : f.Float
  pub burst : ℤ
  pub trust_proxy_headers : Bool
  pub exempt_paths : List Bytes
  pub idle_evict_after : Duration
  pub cleanup_interval : Duration

-- What a request meets outside the program: the clock at each reading, and the count that the write returned.
pub record Moments : Type 0 where
  pub seen : Time
  pub reserved : Time
  pub asked : Time
  pub cancelled : Time
  pub taken : ℕ

abbrev pub rate_limited : Bytes
rate_limited = codes "{\"error\":\"rate_limited\"}\n"

-- `deny`
abbrev pub deny : ℕ → List Call
deny taken =
    set_header (codes "Content-Type") (codes "application/json")
    ∷ write_header 429
    ∷ write rate_limited taken
    ∷ []

abbrev pub or_duration : Duration → ℕ → Duration
or_duration d seconds = if leb_ℤ d (pos 0) then pos (seconds * second) else d

abbrev up_to : Bytes → Option ℕ → Bytes
up_to s none = s
up_to s (some i) = take i s

module _ (trim_unicode : Bytes → Bytes) where
  -- The first entry of `X-Forwarded-For`, empty if there is none.
  pub forwarded : Bytes → Bytes
  unfolding trim_space index_byte
  forwarded xff =
      if bytes_eq xff [] then [] else trim_space trim_unicode (up_to xff (index_byte xff b','))

  pub client_ip : Bool → Request → Bytes
  client_ip trust r =
      let first = forwarded (r.header (codes "X-Forwarded-For")) in
      if trust then (if bytes_eq first [] then remote_ip r else first) else remote_ip r

module _ {f : Float64} (r : Rate f) where
  pub record IpEntry : Type 0 where
    pub lim : r.Limiter
    pub last_seen : Time

  -- `byIP`
  abbrev pub Table : Type 0
  Table = Bytes → Option IpEntry

  abbrev pub put : Bytes → IpEntry → Table → Table
  put ip e t = λ k. if bytes_eq ip k then some e else t k

  abbrev pub limiter_or : r.Limiter → Option IpEntry → r.Limiter
  limiter_or new none = new
  limiter_or new (some e) = e.lim

  pub limiter_for : RateLimitConfig f → Bytes → Time → Table → r.Limiter × Table
  limiter_for cfg ip now t =
      let lim = limiter_or (r.new_limiter cfg.requests_per_second cfg.burst) (t ip) in
      (lim, put ip (record { lim = lim; last_seen = now }) t)

  -- A limiter is shared by its pointer: its entry has what the operations made of it.
  abbrev pub charged : Bytes → r.Limiter → Time → Table → Table
  charged ip lim seen t = put ip (record { lim = lim; last_seen = seen }) t

  abbrev pub retry_after : Duration → Bytes
  retry_after d = itoa (wrap64 (f.to_int (f.seconds d) +ℤ pos 1))

  pub data Verdict : Type 0 where
    admitted : Verdict
    denied : List Call → Verdict

  -- One request of the client `ip`: the verdict and the table after it.
  pub admit : RateLimitConfig f → Moments → Bytes → Table → Verdict × Table
  unfolding limiter_for
  admit cfg m ip t =
      let (lim, t') = limiter_for cfg ip m.seen t in
      let (lim', rsv) = r.reserve lim m.reserved in
      if not (r.is_ok rsv)
      then (denied (deny m.taken), charged ip lim' m.seen t')
      else if ltb_ℤ (pos 0) (r.delay rsv m.asked)
      then (
        denied
            (set_header (codes "Retry-After") (retry_after (r.delay rsv m.asked)) ∷ deny m.taken),
        charged ip (r.cancel lim' rsv m.cancelled) m.seen t',
      )
      else (admitted, charged ip lim' m.seen t')

  abbrev pub limited :
      Handler (World Table) → Request → World Table → Verdict × Table → Run (World Table)
  limited next req w (admitted, t) = next req (record w { limiters = t })
  limited next req w (denied calls, t) = record {
    calls = calls;
    exit = returned;
    world = record w { limiters = t };
  }

  abbrev pub is_off : RateLimitConfig f → Bool
  is_off cfg =
      not cfg.enabled || f.le cfg.requests_per_second f.zero_float || leb_ℤ cfg.burst (pos 0)

  pub rate_limit :
      (Bytes → Bytes) → RateLimitConfig f → Moments → Handler (World Table) → Handler (World Table)
  unfolding admit
  rate_limit trim_unicode cfg m next req w =
      if is_off cfg
      then next req w
      else if any (bytes_eq req.path) cfg.exempt_paths
      then next req w
      else limited next req w
          (admit cfg m (client_ip trim_unicode cfg.trust_proxy_headers req) w.limiters)

  abbrev pub evict : Time → Option IpEntry → Option IpEntry
  evict cutoff none = none
  evict cutoff (some e) = if before e.last_seen cutoff then none else some e

  -- One tick of `cleanupLoop`.
  pub sweep : RateLimitConfig f → Time → Table → Table
  unfolding add_neg
  sweep cfg now t = λ ip. evict (add_neg now (or_duration cfg.idle_evict_after 600)) (t ip)
