-- ===== src/Config/Defaults.antt =====
-- What `applyDefaults` fills in, and which files load.
use workstation_probe.Common.{
  ◌≡◌, ◌↔◌, inl, inr, refl, sym, ap, ◌∙◌, subst, false, List, [], ◌∷◌, arith, if◌then◌else◌, length,
  ◌==◌, Bytes, codes, bytes_eq, Bool-cases,
}
use workstation_probe.Common.Int.{ℤ, pos, eq_ℤ, leb_ℤ, ◌≤ℤ◌}
use workstation_probe.Common.Time.{second}
use workstation_probe.Common.Float.{Float64}
use workstation_probe.Common.Result.{Result, ok, err, Result-cases, ◌>>◌}
use workstation_probe.Config.{
  Config, DecodeError, at_end, malformed, or_default, or_defaults, int_or, zero_config,
  default_server, default_sampler, default_cors, default_rate_limit, default_logging,
  apply_defaults, validate, load, ServerConfig, SamplerConfig, CorsConfig, RateLimitConfig,
  LoggingConfig,
}
use workstation_probe.Config.Accepted.{IsAccepted, validate-IsAccepted}

or_default_twice :
    (value default : Bytes)
    → or_default (or_default value default) default ≡ or_default value default
or_default_twice value default = elim (Bool-cases (bytes_eq value [])) [
  | inl e ↦ elim (Bool-cases (bytes_eq default [])) [ inl k ↦ rw (e, k) | inr k ↦ rw (e, k) ]
  | inr e ↦ rw (e, e)
]

or_defaults_twice :
    (values defaults : List Bytes)
    → or_defaults (or_defaults values defaults) defaults ≡ or_defaults values defaults
or_defaults_twice values defaults = elim (Bool-cases (length values == 0)) [
  | inl e ↦ elim (Bool-cases (length defaults == 0)) [ inl k ↦ rw (e, k) | inr k ↦ rw (e, k) ]
  | inr e ↦ rw (e, e)
]

int_or_twice : (value default : ℤ) → int_or (int_or value default) default ≡ int_or value default
int_or_twice value default = elim (Bool-cases (eq_ℤ value (pos 0))) [
  | inl e ↦ elim (Bool-cases (eq_ℤ default (pos 0))) [ inl k ↦ rw (e, k) | inr k ↦ rw (e, k) ]
  | inr e ↦ rw (e, e)
]

capacity_twice :
    (n : ℤ) → let set = λ (n : ℤ). if leb_ℤ n (pos 0) then pos 60 else n in set (set n) ≡ set n
capacity_twice n = ground arith

module _ (f : Float64) where
  default_server_twice :
      (s : ServerConfig) → default_server f (default_server f s) ≡ default_server f s
  unfolding default_server
  default_server_twice s = λ i. record s { host = or_default_twice s.host (codes "127.0.0.1") i }

  default_sampler_twice :
      (s : SamplerConfig) → default_sampler f (default_sampler f s) ≡ default_sampler f s
  unfolding default_sampler
  default_sampler_twice s = λ i. record {
    interval = int_or_twice s.interval (pos second) i;
    history_capacity = capacity_twice s.history_capacity i;
  }

  default_cors_twice : (c : CorsConfig) → default_cors f (default_cors f c) ≡ default_cors f c
  unfolding default_cors
  default_cors_twice c = λ i. record c {
    max_age_seconds = int_or_twice c.max_age_seconds (pos 600) i;
    allow_methods = or_defaults_twice c.allow_methods (codes "GET" ∷ codes "OPTIONS" ∷ []) i;
    allow_headers = or_defaults_twice c.allow_headers (codes "Content-Type" ∷ []) i;
  }

  rate_twice :
      (r : f.Float)
      → f.eq (f.of_uint 10) f.zero_float ≡ false
      → let set = λ (r : f.Float). if f.eq r f.zero_float then f.of_uint 10 else r in
        set (set r) ≡ set r
  rate_twice r ten = elim (Bool-cases (f.eq r f.zero_float)) [
    | inl e ↦ rw (e, ten)
    | inr e ↦ rw (e, e)
  ]

  default_rate_limit_twice :
      (r : RateLimitConfig f)
      → f.eq (f.of_uint 10) f.zero_float ≡ false
      → default_rate_limit f (default_rate_limit f r) ≡ default_rate_limit f r
  unfolding default_rate_limit
  default_rate_limit_twice r ten = λ i. record r {
    burst = int_or_twice r.burst (pos 20) i;
    requests_per_second = rate_twice r.requests_per_second ten i;
    exempt_paths = or_defaults_twice r.exempt_paths (codes "/health" ∷ []) i;
  }

  default_logging_twice :
      (l : LoggingConfig) → default_logging f (default_logging f l) ≡ default_logging f l
  unfolding default_logging
  default_logging_twice l = λ i. record {
    level = or_default_twice l.level (codes "info") i;
    format = or_default_twice l.format (codes "json") i;
  }

  -- Filling in the defaults twice is filling them in once, if the number 10 is not equal to 0.
  pub apply_defaults-apply_defaults :
      (c : Config f)
      → f.eq (f.of_uint 10) f.zero_float ≡ false
      → apply_defaults f (apply_defaults f c) ≡ apply_defaults f c
  unfolding apply_defaults
  apply_defaults-apply_defaults c ten = λ i. record c {
    server = default_server_twice c.server i;
    sampler = default_sampler_twice c.sampler i;
    security = record {
      cors = default_cors_twice c.security.cors i;
      rate_limit = default_rate_limit_twice c.security.rate_limit ten i;
    };
    logging = default_logging_twice c.logging i;
  }

  loaded_iff :
      (c₀ c : Config f)
      → ((validate f (apply_defaults f c₀) >> ok (apply_defaults f c₀)) ≡ ok c)
        ↔ (apply_defaults f c₀ ≡ c) × IsAccepted c
  loaded_iff c₀ c = elim (Result-cases (validate f (apply_defaults f c₀))) [
    | inl (u, e) ↦
        let accepted = (validate-IsAccepted f (apply_defaults f c₀)).0 e in
        rw e (
          λ h.
              let same : apply_defaults f c₀ ≡ c = cc h in
              (same, subst (λ (x : Config f). IsAccepted x) same accepted),
          λ h. ap ok h.0,
        )
    | inr (x, e) ↦ rw e (
      λ h. cc,
      λ h.
          let accepted = subst (λ (x : Config f). IsAccepted x) (sym h.0) h.1 in
          let passes = (validate-IsAccepted f (apply_defaults f c₀)).1 accepted in cc,
    )
  ]

  no_port : (c : Config f) → ¬ ((apply_defaults f (zero_config f) ≡ c) × IsAccepted c)
  unfolding apply_defaults
  no_port c (same, a) =
      let port = ap (λ (x : Config f). x.server.port) same in
      let bound = subst (λ p. pos 1 ≤ℤ p) (sym port) a.port.0 in absurd (omega (arith, bound))

  -- `Load` gives a configuration exactly if the file is readable, its text decodes to a document,
  -- and the document with the defaults filled in is accepted, and then it gives that one. A file
  -- without a document does not load, for the port has no default.
  pub load-IsAccepted :
      (decode : Bytes → Result DecodeError (Config f)) (file : Result Bytes Bytes) (c : Config f)
      → (load f decode file ≡ ok c) ↔ (
          (raw : Bytes) × (c₀ : Config f) × (file ≡ ok raw)
          × (decode raw ≡ ok c₀)
          × (apply_defaults f c₀ ≡ c)
          × IsAccepted c)
  unfolding load
  load-IsAccepted decode (err message) c = (λ h. cc, λ (raw, c₀, e, d, same, a). cc)
  load-IsAccepted decode (ok raw) c = elim (Result-cases (decode raw)) [
    | inl (c₀, e) ↦
        let loaded = loaded_iff c₀ c in
        rw e (
          λ h. let (same, a) = loaded.0 h in (raw, c₀, refl, e, same, a),
          λ (raw', c₁, r, d, same, a).
              let here : c₁ ≡ c₀ = cc in loaded.1 (ap (apply_defaults f) (sym here) ∙ same, a),
        )
    | inr (at_end, e) ↦ rw e (
      λ h. absurd (no_port c ((loaded_iff (zero_config f) c).0 h)),
      λ (raw', c₁, r, d, same, a). cc,
    )
    | inr (malformed message, e) ↦ rw e (λ h. cc, λ (raw', c₁, r, d, same, a). cc)
  ]
