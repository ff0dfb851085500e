-- ===== src/Cors/Middleware/Preflight.antt =====
-- Which requests the CORS handler answers itself.
use workstation_probe.Common.{
  ◌≡◌, ◌≢◌, ◌↔◌, inl, inr, refl, Bool, true, false, List, [], ◌∷◌, if◌then◌else◌, Bytes, bytes_eq,
  bytes_eq_iff, Bool-cases,
}
use workstation_probe.Cors.{Pattern}
use workstation_probe.Cors.Middleware.{
  Config, Outcome, passed_on, no_content, forbidden, parsed, matched, is_options, not_allowed,
  handle, handle_some, middleware, is_empty,
}

stopped :
    (test : Bool) (o : Outcome)
    → o ≢ passed_on
    → ((if test then o else passed_on) ≢ passed_on) ↔ (test ≡ true)
stopped true o h = (λ k. refl, λ k. h)
stopped false o h = (λ k. absurd (k refl), λ k. cc)

handle-passed_on :
    (cfg : Config) (patterns : List Pattern) (method origin : Bytes)
    → ((handle cfg patterns method origin).1 ≢ passed_on)
      ↔ (is_options method ≡ true) × (origin ≢ [])
unfolding handle
handle-passed_on cfg patterns method origin = elim (Bool-cases (bytes_eq origin [])) [
  | inl e ↦ rw e (λ h. absurd (h refl), λ h. absurd (h.1 ((bytes_eq_iff origin []).0 e)))
  | inr e ↦
      let present : origin ≢ [] = λ q. let t = (bytes_eq_iff origin []).1 q in cc in
      elim (Bool-cases (matched patterns origin)) [
        | inl m ↦
            let s = stopped (is_options method) no_content (λ k. cc) in
            rw (e, m) (λ h. (s.0 h, present), λ h. s.1 h.0)
        | inr m ↦
            let s = stopped (is_options method) (forbidden not_allowed) (λ k. cc) in
            rw (e, m) (λ h. (s.0 h, present), λ h. s.1 h.0)
      ]
]

handle_some-passed_on :
    (cfg : Config) (patterns : List Pattern) (method origin : Bytes)
    → ((handle_some cfg patterns method origin).1 ≢ passed_on)
      ↔ (is_options method ≡ true) × (origin ≢ []) × (patterns ≢ [])
handle_some-passed_on cfg [] method origin = (λ h. absurd (h refl), λ h. absurd (h.2 refl))
handle_some-passed_on cfg (p ∷ patterns) method origin =
    let s = handle-passed_on cfg (p ∷ patterns) method origin in
    (λ h. ((s.0 h).0, (s.0 h).1, λ q. cc), λ h. s.1 (h.0, h.1))

serve-passed_on :
    (cfg : Config) (method origin : Bytes) (origins : List Bytes)
    → ((if is_empty origins
          then ([], passed_on)
          else handle_some cfg (parsed origins) method origin).1
        ≢ passed_on)
      ↔ (is_options method ≡ true) × (origin ≢ []) × (parsed origins ≢ [])
unfolding parsed
serve-passed_on cfg method origin [] = (λ h. absurd (h refl), λ h. absurd (h.2 refl))
serve-passed_on cfg method origin (o ∷ origins) =
    handle_some-passed_on cfg (parsed (o ∷ origins)) method origin

-- The handler answers a request itself, instead of passing it on, exactly if the middleware is
-- enabled, the request is an OPTIONS request with an `Origin`, and some configured origin parses.
pub middleware-passed_on :
    (cfg : Config) (method origin : Bytes)
    → ((middleware cfg method origin).1 ≢ passed_on)
      ↔ (cfg.enabled ≡ true)
        × (is_options method ≡ true)
        × (origin ≢ [])
        × (parsed cfg.allowed_origins ≢ [])
unfolding middleware
middleware-passed_on cfg method origin = elim (Bool-cases cfg.enabled) [
  | inr off ↦ rw off (λ h. absurd (h refl), λ h. cc)
  | inl on ↦
      let s = serve-passed_on (record cfg { enabled = true }) method origin cfg.allowed_origins in
      rw on (λ h. (refl, (s.0 h).0, (s.0 h).1, (s.0 h).2), λ h. s.1 (h.1, h.2, h.3))
]
