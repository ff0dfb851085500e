-- ===== src/Tests/Limits.antt =====
-- A token bucket that is never filled again: a limiter is the number of its tokens, and a reservation tells
-- whether there was one.
use workstation_probe.Common.{
  ℕ, ◌-◌, ◌^◌, ◌≡◌, refl, Bool, true, false, none, List, [], ◌∷◌, ◌==◌, if◌then◌else◌, keep, Bytes,
  codes,
}
use workstation_probe.Common.Int.{pos, pos_part}
use workstation_probe.Http.{Request, Handler, write, returned}
use workstation_probe.Chain.{World}
use workstation_probe.RateLimit
use workstation_probe.RateLimit.{
  Rate, RateLimitConfig, Moments, IpEntry, Table, admit, put, sweep, rate_limit,
}
use workstation_probe.RateLimit.Admission.{IsServed, is_exempt, is_granted, reservation}
use workstation_probe.RateLimit.Charged.{reserved_table, rate_limit-IsCharged}
use workstation_probe.RateLimit.Sweeps.{Event, asked, ticked, verdicts, concerns, verdicts-keep}
use workstation_probe.Tests.Floats.{whole}

abbrev pub bucket : Rate whole
bucket = record {
  Limiter = ℕ;
  Reservation = Bool;
  new_limiter = λ rps burst. pos_part burst;
  reserve = λ tokens now. if tokens == 0 then (0, false) else (tokens - 1, true);
  is_ok = λ granted. true;
  delay = λ granted now. if granted then pos 0 else pos (10 ^ 9);
  cancel = λ tokens granted now. tokens;
}

abbrev pub limits : RateLimitConfig whole
limits = record {
  enabled = true;
  requests_per_second = 10;
  burst = pos 1;
  trust_proxy_headers = false;
  exempt_paths = codes "/health" ∷ [];
  idle_evict_after = pos 0;
  cleanup_interval = pos 0;
}

abbrev pub now : Moments
now = record { seen = pos 5; reserved = pos 5; asked = pos 5; cancelled = pos 5; taken = 25 }

abbrev pub get : Request
get = record {
  method = codes "GET";
  path = codes "/metrics";
  remote_addr = codes "10.0.0.1:4000";
  header = λ k. [];
  query = λ k. [];
  request_id = none;
}

abbrev pub start : World (Table bucket)
start = record { limiters = λ ip. none; access = []; panics = [] }

-- A mux that answers each path with the same text.
abbrev pub greet : Handler (World (Table bucket))
greet req w = record { calls = write (codes "hi") 2 ∷ []; exit = returned; world = w }

rate_limit-IsCharged_example :
    let ip = RateLimit.client_ip (λ s. s) false get in
    let rsv = reservation bucket limits now ip start.limiters in
    IsServed bucket
      (is_exempt bucket limits get)
      (is_granted bucket now rsv)
      now
      rsv
      greet
      get
      start
      (reserved_table bucket limits now ip start.limiters)
      (rate_limit bucket (λ s. s) limits now greet get start)
rate_limit-IsCharged_example = rate_limit-IsCharged bucket limits now (λ s. s) greet get start

abbrev pub alice : Bytes
alice = codes "10.0.0.1"

abbrev pub bob : Bytes
bob = codes "10.0.0.2"

abbrev events : List Event
events = asked alice now ∷ asked bob now ∷ asked alice now ∷ ticked (pos 6) ∷ []

verdicts-keep_example :
    verdicts bucket limits bob events (λ ip. none)
    ≡ verdicts bucket limits bob (keep (concerns bucket limits bob) events) (λ ip. none)
verdicts-keep_example = verdicts-keep bucket limits bob events (λ ip. none) (λ ip. none) refl
