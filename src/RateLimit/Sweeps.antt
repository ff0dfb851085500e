-- ===== src/RateLimit/Sweeps.antt =====
-- Runs of requests and of ticks of the cleanup, as each client sees them.
use workstation_probe.Common.{
  ◌≡◌, inl, inr, refl, ap, sym, ap₂, ◌∙◌, Bool, true, false, not, Option, some, List, [], ◌∷◌,
  if◌then◌else◌, keep, codes, Bytes, bytes_eq, bytes_eq_iff, Bool-cases,
}
use workstation_probe.Common.Int.{pos, ltb_ℤ}
use workstation_probe.Common.Time.{Time}
use workstation_probe.Common.Float.{Float64}
use workstation_probe.Http.{set_header}
use workstation_probe.RateLimit.{
  Rate, RateLimitConfig, Moments, deny, retry_after, IpEntry, Table, put, limiter_or, limiter_for,
  Verdict, admitted, denied, admit, sweep,
}

pub data Event : Type 0 where
  asked : Bytes → Moments → Event
  ticked : Time → Event

module _ {f : Float64} (r : Rate f) (cfg : RateLimitConfig f) where
  unfoldable pub step : Event → Table r → Table r
  unfolding admit sweep
  step (asked ip m) t = (admit r cfg m ip t).1
  step (ticked now) t = sweep r cfg now t

  unfoldable pub steps : List Event → Table r → Table r
  unfolding step
  steps [] t = t
  steps (e ∷ events) t = steps events (step e t)

  abbrev told : Bytes → Event → Table r → List (Verdict r) → List (Verdict r)
  told ip (asked who m) t rest = if bytes_eq who ip then (admit r cfg m who t).0 ∷ rest else rest
  told ip (ticked now) t rest = rest

  -- The verdicts that one client gets, in order.
  pub verdicts : Bytes → List Event → Table r → List (Verdict r)
  unfolding admit step
  verdicts ip [] t = []
  verdicts ip (e ∷ events) t = told ip e t (verdicts ip events (step e t))

  -- Every tick, and the requests of one client.
  abbrev pub concerns : Bytes → Event → Bool
  concerns ip (asked who m) = bytes_eq who ip
  concerns ip (ticked now) = true

  -- What a request makes of the client's own entry.
  abbrev answer : Moments → Option (IpEntry r) → Verdict r × IpEntry r
  answer m entry =
      let (lim, rsv) =
        r.reserve (limiter_or r (r.new_limiter cfg.requests_per_second cfg.burst) entry)
          m.reserved in
      if not (r.is_ok rsv)
      then (denied (deny m.taken), record { lim = lim; last_seen = m.seen })
      else if ltb_ℤ (pos 0) (r.delay rsv m.asked)
      then (
        denied
            (set_header (codes "Retry-After") (retry_after r (r.delay rsv m.asked)) ∷ deny m.taken),
        record { lim = r.cancel lim rsv m.cancelled; last_seen = m.seen },
      )
      else (admitted, record { lim = lim; last_seen = m.seen })

  put-put :
      (ip : Bytes) (d e : IpEntry r) (t : Table r) (k : Bytes)
      → put r ip d (put r ip e t) k ≡ put r ip d t k
  put-put ip d e t k = elim (Bool-cases (bytes_eq ip k)) [ inl h ↦ rw h refl | inr h ↦ rw h refl ]

  admit-answer :
      (m : Moments) (ip : Bytes) (t : Table r)
      → ((admit r cfg m ip t).0 ≡ (answer m (t ip)).0)
        × ((k : Bytes) → (admit r cfg m ip t).1 k ≡ put r ip (answer m (t ip)).1 t k)
  unfolding admit limiter_for
  admit-answer m ip t =
      let (lim, rsv) =
        r.reserve (limiter_or r (r.new_limiter cfg.requests_per_second cfg.burst) (t ip))
          m.reserved in
      elim (Bool-cases (r.is_ok rsv)) [
        | inr e ↦ rw e (refl, λ k. put-put ip _ _ t k)
        | inl e ↦ elim (Bool-cases (ltb_ℤ (pos 0) (r.delay rsv m.asked))) [
          | inl late ↦ rw (e, late) (refl, λ k. put-put ip _ _ t k)
          | inr now ↦ rw (e, now) (refl, λ k. put-put ip _ _ t k)
        ]
      ]

  admit-own :
      (m : Moments) (ip : Bytes) (t : Table r)
      → (admit r cfg m ip t).1 ip ≡ some (answer m (t ip)).1
  admit-own m ip t = (admit-answer m ip t).1 ip ∙ rw ((bytes_eq_iff ip ip).1 refl) refl

  -- A step looks at one client's entry only to change it.
  pub step-apart :
      (e : Event) (ip : Bytes) (t : Table r) → concerns ip e ≡ false → step e t ip ≡ t ip
  unfolding step
  step-apart (asked who m) ip t h = (admit-answer m who t).1 ip ∙ rw h refl
  step-apart (ticked now) ip t h = cc

  step-agrees :
      (e : Event) (ip : Bytes) (t u : Table r)
      → t ip ≡ u ip
      → concerns ip e ≡ true
      → step e t ip ≡ step e u ip
  unfolding step sweep
  step-agrees (asked who m) ip t u same h =
      let own = (bytes_eq_iff who ip).0 h in
      rw own (admit-own m ip t ∙ ap (λ o. some (answer m o).1) same ∙ sym (admit-own m ip u))
  step-agrees (ticked now) ip t u same h = rw same refl

  verdicts-own :
      (ip who : Bytes) (m : Moments) (events : List Event) (t : Table r)
      → bytes_eq who ip ≡ true
      → verdicts ip (asked who m ∷ events) t
        ≡ (admit r cfg m who t).0 ∷ verdicts ip events (step (asked who m) t)
  unfolding verdicts
  verdicts-own ip who m events t h = rw h refl

  -- The verdicts on one client depend on its own requests and on the ticks only: leaving out the requests
  -- of all other clients, or starting from a table that differs in the entries of others, changes none of them.
  pub verdicts-keep :
      (ip : Bytes) (events : List Event) (t u : Table r)
      → t ip ≡ u ip
      → verdicts ip events t ≡ verdicts ip (keep (concerns ip) events) u
  unfolding verdicts
  verdicts-keep ip [] t u same = refl
  verdicts-keep ip (asked who m ∷ events) t u same = elim (Bool-cases (bytes_eq who ip)) [
    | inl h ↦
        let own = (bytes_eq_iff who ip).0 h in
        let first : (admit r cfg m who t).0 ≡ (admit r cfg m who u).0 =
          (admit-answer m who t).0 ∙ rw (own, same) refl ∙ sym (admit-answer m who u).0 in
        let kept : asked who m ∷ keep (concerns ip) events
            ≡ keep (concerns ip) (asked who m ∷ events) =
          rw h refl in
        let rest =
          verdicts-keep ip events (step (asked who m) t) (step (asked who m) u)
            (step-agrees (asked who m) ip t u same h) in
        verdicts-own ip who m events t h
        ∙ ap₂ (λ v vs. v ∷ vs) first rest
        ∙ sym (verdicts-own ip who m (keep (concerns ip) events) u h)
        ∙ ap (λ es. verdicts ip es u) kept
    | inr h ↦
        rw h (
          verdicts-keep ip events (step (asked who m) t) u (step-apart (asked who m) ip t h ∙ same))
  ]
  verdicts-keep ip (ticked now ∷ events) t u same =
      verdicts-keep ip events (step (ticked now) t) (step (ticked now) u)
        (step-agrees (ticked now) ip t u same refl)
