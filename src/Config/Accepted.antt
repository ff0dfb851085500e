-- ===== src/Config/Accepted.antt =====
-- Which configurations `Validate` accepts.
use workstation_probe.Common.{
  ℕ, ◌+◌, ◌≡◌, ◌≢◌, ◌↔◌, ◌⊎◌, inl, inr, refl, Bool, true, false, ◌||◌, List, [], ◌∷◌, arith, any,
  All, Bytes, bytes_eq, bytes_eq_iff, Bool-cases,
}
use workstation_probe.Common.Int.{pos, ◌≤ℤ◌, ltb_ℤ, leb_ℤ}
use workstation_probe.Common.Float.{Float64}
use workstation_probe.Common.Result.{Result, ok, err, Result-cases, ◌>>◌, refuse_if}
use workstation_probe.Cors.{Pattern, parse}
use workstation_probe.Config.{
  Config, ConfigError, MountPointConfig, RateLimitConfig, check_mount_points, check_origins, when,
  check_rate_limit, validate, path_empty, label_empty, path_duplicate, rate_not_positive,
  burst_not_positive, host_empty, port_range, interval_short, capacity_low,
}

-- A check passes exactly if its test fails and the rest passes.
refuse_if_iff :
    {E : Type 0} (t : Bool) (e : E) (k : Result E (Unit {0}))
    → ((refuse_if t e >> k) ≡ ok tt) ↔ (t ≡ false) × (k ≡ ok tt)
refuse_if_iff true e k = (λ h. cc, λ h. cc)
refuse_if_iff false e k = (λ h. (refl, h), λ h. h.1)

-- A guard in front of checks whose meaning is known.
guarded_iff :
    {E P Q : Type 0} {t : Bool} {k : Result E (Unit {0})}
    → (t ≡ false) ↔ P
    → (e : E) → (k ≡ ok tt) ↔ Q
    → ((refuse_if t e >> k) ≡ ok tt) ↔ P × Q
guarded_iff {t} {k} p e q =
    let r = refuse_if_iff t e k in
    (λ h. (p.0 (r.0 h).0, q.0 (r.0 h).1), λ h. r.1 (p.1 h.0, q.1 h.1))

last_iff : {E P : Type 0} {t : Bool} → (t ≡ false) ↔ P → (e : E) → (refuse_if t e ≡ ok tt) ↔ P
last_iff {t = true} p e = (λ h. cc, λ h. let r = p.1 h in cc)
last_iff {t = false} p e = (λ h. p.0 refl, λ h. refl)

both_iff :
    {E P Q : Type 0} (m k : Result E (Unit {0}))
    → (m ≡ ok tt) ↔ P
    → (k ≡ ok tt) ↔ Q
    → ((m >> k) ≡ ok tt) ↔ P × Q
both_iff (ok u) k p q = (λ h. (p.0 refl, q.0 h), λ h. q.1 h.1)
both_iff (err e) k p q = (λ h. cc, λ h. let r = p.1 h.0 in cc)

pub All-pair {ℓ κ} :
    {A : Type ℓ} (P Q : A → Type κ) (l : List A) → All (λ x. P x × Q x) l ↔ All P l × All Q l
All-pair P Q [] = (λ h. (tt, tt), λ h. tt)
All-pair P Q (x ∷ l) =
    let rest = All-pair P Q l in
    (
      λ h. ((h.0.0, (rest.0 h.1).0), (h.0.1, (rest.0 h.1).1)),
      λ h. ((h.0.0, h.1.0), rest.1 (h.0.1, h.1.1)),
    )

absent_iff :
    (p : Bytes) (seen : List Bytes) → (any (bytes_eq p) seen ≡ false) ↔ All (λ s. p ≢ s) seen
absent_iff p [] = (λ h. tt, λ h. refl)
absent_iff p (s ∷ seen) = elim (Bool-cases (bytes_eq p s)) [
  | inl e ↦ let same = (bytes_eq_iff p s).0 e in rw e (λ h. cc, λ h. absurd (h.0 same))
  | inr e ↦
      let rest = absent_iff p seen in
      rw e (λ h. (λ q. let t = (bytes_eq_iff p s).1 q in cc, rest.0 h), λ h. rest.1 h.1)
]

nonempty_iff : (s : Bytes) → (bytes_eq s [] ≡ false) ↔ (s ≢ [])
nonempty_iff s = elim (Bool-cases (bytes_eq s [])) [
  | inl e ↦ let same = (bytes_eq_iff s []).0 e in (λ h. cc, λ h. absurd (h same))
  | inr e ↦ (λ h q. let t = (bytes_eq_iff s []).1 q in cc, λ h. e)
]

abbrev pub IsNamed : MountPointConfig → Type 0
IsNamed mp = (mp.path ≢ []) × (mp.label ≢ [])

-- No two mount points have the same path.
abbrev pub AreDistinct : List MountPointConfig → Type 0
AreDistinct [] = Unit
AreDistinct (mp ∷ mount_points) =
    All (λ (m : MountPointConfig). m.path ≢ mp.path) mount_points × AreDistinct mount_points

abbrev AreFresh : List Bytes → List MountPointConfig → Type 0
AreFresh seen = All (λ (m : MountPointConfig). All (λ s. m.path ≢ s) seen)

All-trivial : {A : Type 0} (l : List A) → All (λ x. Unit {0}) l
All-trivial [] = tt
All-trivial (x ∷ l) = (tt, All-trivial l)

check_mount_points_iff :
    (i : ℕ) (seen : List Bytes) (l : List MountPointConfig)
    → (check_mount_points i seen l ≡ ok tt) ↔ All IsNamed l × AreFresh seen l × AreDistinct l
unfolding check_mount_points
check_mount_points_iff i seen [] = (λ h. (tt, tt, tt), λ h. refl)
check_mount_points_iff i seen (mp ∷ l) =
    let rest = check_mount_points_iff (i + 1) (mp.path ∷ seen) l in
    let split =
      All-pair (λ (m : MountPointConfig). m.path ≢ mp.path)
        (λ (m : MountPointConfig). All (λ s. m.path ≢ s) seen) l in
    let checks = guarded_iff (nonempty_iff mp.path) (path_empty i) (
      guarded_iff (nonempty_iff mp.label) (label_empty i)
        (guarded_iff (absent_iff mp.path seen) (path_duplicate mp.path) rest)) in
    (
      λ h.
          let (a, (b, (c, (named, fresh, distinct)))) = checks.0 h in
          let (others, fresh') = split.0 fresh in
          (((a, b), named), (c, fresh'), (others, distinct)),
      λ h.
          let (((a, b), named), (c, fresh), (others, distinct)) = h in
          checks.1 (a, (b, (c, (named, split.1 (others, fresh), distinct)))),
    )

check_origins_iff :
    (i : ℕ) (origins : List Bytes)
    → (check_origins i origins ≡ ok tt) ↔ All (λ o. (p : Pattern) × (parse o ≡ ok p)) origins
unfolding check_origins
check_origins_iff i [] = (λ h. tt, λ h. refl)
check_origins_iff i (o ∷ origins) = elim (Result-cases (parse o)) [
  | inl (p, e) ↦
      let rest = check_origins_iff (i + 1) origins in
      rw e (λ h. ((p, refl), rest.0 h), λ h. rest.1 h.1)
  | inr (x, e) ↦ rw e (λ h. cc, λ h. let (p, k) = h.0 in cc)
]

-- A block of checks that a flag turns on.
when_iff :
    (t : Bool) (k : Result ConfigError (Unit {0})) {P : Type 0}
    → ((k ≡ ok tt) ↔ P)
    → (when t k ≡ ok tt) ↔ ((t ≡ false) ⊎ P)
when_iff true k e = (λ h. inr (e.0 h), λ h. elim h [ inl q ↦ cc | inr p ↦ e.1 p ])
when_iff false k e = (λ h. inl refl, λ h. refl)

abbrev IsRate : {f : Float64} → RateLimitConfig f → Type 0
IsRate {f} r = (f.le r.requests_per_second f.zero_float ≡ false) × (pos 1 ≤ℤ r.burst)

-- What a checked configuration satisfies.
pub record IsAccepted {f : Float64} (c : Config f) : Type 0 where
  pub host : c.server.host ≢ []
  pub port : (pos 1 ≤ℤ c.server.port) × (c.server.port ≤ℤ pos 65535)
  pub interval : pos 100000000 ≤ℤ c.sampler.interval
  pub capacity : pos 1 ≤ℤ c.sampler.history_capacity
  pub storage :
      (c.modules.storage.enabled ≡ false)
      ⊎ (All IsNamed c.modules.storage.mount_points × AreDistinct c.modules.storage.mount_points)
  pub origins :
      (c.security.cors.enabled ≡ false)
      ⊎ All (λ o. (p : Pattern) × (parse o ≡ ok p)) c.security.cors.allowed_origins
  pub rate : (c.security.rate_limit.enabled ≡ false) ⊎ IsRate c.security.rate_limit

module _ (f : Float64) where
  check_rate_limit_iff : (r : RateLimitConfig f) → (check_rate_limit f r ≡ ok tt) ↔ IsRate r
  unfolding check_rate_limit
  check_rate_limit_iff r =
      let burst : (leb_ℤ r.burst (pos 0) ≡ false) ↔ (pos 1 ≤ℤ r.burst) =
        (λ h. ground arith, λ h. ground arith) in
      let checks =
        guarded_iff (λ h. h, λ h. h) rate_not_positive (last_iff burst burst_not_positive) in
      (λ h. checks.0 h, λ h. checks.1 h)

  mount_points_iff :
      (l : List MountPointConfig)
      → (check_mount_points 0 [] l ≡ ok tt) ↔ All IsNamed l × AreDistinct l
  mount_points_iff l =
      let checks = check_mount_points_iff 0 [] l in
      (
        λ h. let (named, fresh, distinct) = checks.0 h in (named, distinct),
        λ h. checks.1 (h.0, All-trivial l, h.1),
      )

  -- `Validate` returns no error exactly if the host is not empty, the port is in [1, 65535], the interval
  -- is at least 100 ms, the capacity at least 1, and, where the feature is enabled: every mount point
  -- has a path and an alias and no two have the same path; every allowed origin is in the grammar;
  -- the rate is not 0 or below and the burst at least 1.
  pub validate-IsAccepted : (c : Config f) → (validate f c ≡ ok tt) ↔ IsAccepted c
  unfolding validate
  validate-IsAccepted c =
      let port : ((ltb_ℤ c.server.port (pos 1) || ltb_ℤ (pos 65535) c.server.port) ≡ false)
          ↔ (pos 1 ≤ℤ c.server.port) × (c.server.port ≤ℤ pos 65535) =
        (λ h. (ground arith, ground arith), λ h. ground arith) in
      let interval : (ltb_ℤ c.sampler.interval (pos 100000000) ≡ false)
          ↔ (pos 100000000 ≤ℤ c.sampler.interval) =
        (λ h. ground arith, λ h. ground arith) in
      let capacity : (ltb_ℤ c.sampler.history_capacity (pos 1) ≡ false)
          ↔ (pos 1 ≤ℤ c.sampler.history_capacity) =
        (λ h. ground arith, λ h. ground arith) in
      let storage = c.modules.storage in
      let cors = c.security.cors in
      let rate = c.security.rate_limit in
      let checks = guarded_iff (nonempty_iff c.server.host) host_empty (
        guarded_iff port (port_range c.server.port) (
          guarded_iff interval (interval_short c.sampler.interval) (
            guarded_iff capacity (capacity_low c.sampler.history_capacity) (
              both_iff _ _ (when_iff storage.enabled _ (mount_points_iff storage.mount_points)) (
                both_iff _ _ (when_iff cors.enabled _ (check_origins_iff 0 cors.allowed_origins))
                  (when_iff rate.enabled _ (check_rate_limit_iff rate))))))) in
      (
        λ h.
            let (a, (b, (i, (k, (s, (o, r)))))) = checks.0 h in
            record {
              host = a;
              port = b;
              interval = i;
              capacity = k;
              storage = s;
              origins = o;
              rate = r;
            },
        λ h.
            checks.1
              (h.host, (h.port, (h.interval, (h.capacity, (h.storage, (h.origins, h.rate)))))),
      )
