-- ===== src/Handlers/Health.antt =====
-- The health summary.
use workstation_probe.Common.{
  ℕ, ◌≡◌, ◌↔◌, inl, inr, refl, ◌∙◌, Bool, true, false, ◌||◌, Option, none, some, List, [], ◌∷◌,
  ◌==◌, if◌then◌else◌, foldl, any, Bytes, bytes_eq, Bool-cases, arith,
}
use workstation_probe.Common.Int.{ltb_ℤ}
use workstation_probe.Common.Time.{Time, Duration}
use workstation_probe.Common.Float.{Float64}
use workstation_probe.Http.{blank, respond, respond_all, status_of}
use workstation_probe.Handlers.{
  Kinds, Module, HealthResponse, write_json, health_status, degraded, is_stale, report, health,
  serve_health,
}

write_json-status :
    (taken : Bytes → ℕ) (status : ℕ) (encoded : Option Bytes)
    → (status == 0) ≡ false
    → status_of (respond_all blank (write_json taken status encoded false)) ≡ status
unfolding write_json respond respond_all
write_json-status taken status none h = rw h refl
write_json-status taken status (some b) h = rw h refl

by_status :
    {P : Type 0} (behind : Bool) (status : ℕ)
    → status ≡ (if behind then 503 else 200)
    → (behind ≡ true) ↔ P
    → ((status ≡ 503) ↔ P) × ((status ≡ 200) ↔ (¬ P))
by_status true status e p =
    ((λ q. p.0 refl, λ b. e), (λ q. absurd (omega arith), λ no. absurd (no (p.0 refl))))
by_status false status e p =
    ((λ q. absurd (omega arith), λ b. let t = p.1 b in cc), (λ q b. let t = p.1 b in cc, λ no. e))

module _ {k : Kinds} where
  -- Some module is enabled and its last sample is older than the limit.
  pub data IsBehind (limit : Duration) : List (Module k) → Type 0 where
    by_first :
        (m : Module k) (modules : List (Module k))
        → m.enabled ≡ true
        → ltb_ℤ limit m.checked_age ≡ true
        → IsBehind limit (m ∷ modules)
    by_later :
        (m : Module k) (modules : List (Module k))
        → IsBehind limit modules
        → IsBehind limit (m ∷ modules)

  any-IsBehind :
      (limit : Duration) (modules : List (Module k))
      → (any (is_stale limit) modules ≡ true) ↔ IsBehind limit modules
  any-IsBehind limit modules = (there modules, back modules)
    where
      there :
          (modules : List (Module k)) → any (is_stale limit) modules ≡ true → IsBehind limit modules
      there [] h = cc
      there (m ∷ modules) h = elim (Bool-cases m.enabled) [
        | inr e ↦ by_later m modules (there modules (rw e at h))
        | inl e ↦ elim (Bool-cases (ltb_ℤ limit m.checked_age)) [
          | inl old ↦ by_first m modules e old
          | inr young ↦ by_later m modules (there modules (rw (e, young) at h))
        ]
      ]

      back :
          (modules : List (Module k)) → IsBehind limit modules → any (is_stale limit) modules ≡ true
      back _ (by_first m modules e old) = rw (e, old) refl
      back _ (by_later m modules b) = elim (Bool-cases (is_stale limit m)) [
        | inl old ↦ rw old refl
        | inr young ↦ rw young (back modules b)
      ]

  report-status :
      (limit : Duration) (resp : HealthResponse) (modules : List (Module k))
      → bytes_eq (foldl (report limit) resp modules).status degraded
        ≡ (bytes_eq resp.status degraded || any (is_stale limit) modules)
  unfolding report bytes_eq
  report-status limit resp [] = elim (Bool-cases (bytes_eq resp.status degraded)) [
    | inl e ↦ rw e refl
    | inr e ↦ rw e refl
  ]
  report-status limit resp (m ∷ modules) =
      report-status limit (report limit resp m) modules ∙ by_age (is_stale limit m)
    where
      by_age :
          (old : Bool)
          → (bytes_eq (if old then degraded else resp.status) degraded
              || any (is_stale limit) modules)
            ≡ (bytes_eq resp.status degraded || (old || any (is_stale limit) modules))
      by_age true = elim (Bool-cases (bytes_eq resp.status degraded)) [
        | inl e ↦ rw e refl
        | inr e ↦ rw e refl
      ]
      by_age false = refl

  module _ (f : Float64) (encode : HealthResponse → Option Bytes) (taken : Bytes → ℕ) where
    serve_health-status :
        (limit : Duration) (start now : Time) (modules : List (Module k))
        → status_of (respond_all blank (serve_health f encode taken limit start now modules))
          ≡ (if any (is_stale limit) modules then 503 else 200)
    unfolding serve_health health health_status bytes_eq
    serve_health-status limit start now modules =
        let resp = health f limit start now modules in
        let behind : bytes_eq resp.status degraded ≡ any (is_stale limit) modules =
          report-status limit _ modules in
        elim (Bool-cases (any (is_stale limit) modules)) [
          | inl e ↦ rw (behind, e) (write_json-status taken 503 (encode resp) refl)
          | inr e ↦ rw (behind, e) (write_json-status taken 200 (encode resp) refl)
        ]

    -- The status of the reply is 503 exactly if some enabled module's last sample is older than the limit, and
    -- 200 exactly if there is none, also if the JSON encoder fails.
    pub serve_health-IsBehind :
        (limit : Duration) (start now : Time) (modules : List (Module k))
        → let status =
            status_of (respond_all blank (serve_health f encode taken limit start now modules)) in
          ((status ≡ 503) ↔ IsBehind limit modules) × ((status ≡ 200) ↔ (¬ IsBehind limit modules))
    serve_health-IsBehind limit start now modules =
        by_status (any (is_stale limit) modules)
          (status_of (respond_all blank (serve_health f encode taken limit start now modules)))
          (serve_health-status limit start now modules) (any-IsBehind limit modules)
