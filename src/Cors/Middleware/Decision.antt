-- ===== src/Cors/Middleware/Decision.antt =====
-- Which requests get the CORS headers.
use workstation_probe.Common.{
  ◌≡◌, ◌≢◌, ◌↔◌, inl, inr, refl, true, false, List, [], ◌∷◌, if◌then◌else◌, Bytes, codes, sym, ◌∙◌,
  bytes_eq, bytes_eq_iff, Bool-cases,
}
use workstation_probe.Common.Result.{ok, Result-cases}
use workstation_probe.Cors.{Pattern, parse, match_origin}
use workstation_probe.Strconv.{itoa}
use workstation_probe.Cors.Middleware.Calls.{middleware-calls}
use workstation_probe.Cors.Middleware.{
  HeaderCall, set_header, add_header, join, Config, passed_on, parsed, matched, handle, handle_some,
  middleware, is_empty,
}

-- Some entry of the list is a pattern that matches the origin.
pub data IsAllowed (origin : Bytes) : List Bytes → Type 0 where
  by_first :
      (o : Bytes) (origins : List Bytes) (p : Pattern)
      → parse o ≡ ok p
      → match_origin p origin ≡ true
      → IsAllowed origin (o ∷ origins)
  by_later :
      (o : Bytes) (origins : List Bytes) → IsAllowed origin origins → IsAllowed origin (o ∷ origins)

matched-IsAllowed :
    (origin : Bytes) (origins : List Bytes)
    → matched (parsed origins) origin ≡ true
    → IsAllowed origin origins
unfolding matched parsed
matched-IsAllowed origin [] h = cc
matched-IsAllowed origin (o ∷ origins) h = elim (Result-cases (parse o)) [
  | inl (p, e) ↦ elim (Bool-cases (match_origin p origin)) [
    | inl m ↦ by_first o origins p e m
    | inr m ↦ by_later o origins (matched-IsAllowed origin origins (rw (e, m) at h))
  ]
  | inr (x, e) ↦ by_later o origins (matched-IsAllowed origin origins (rw e at h))
]

IsAllowed-matched :
    (origin : Bytes) (origins : List Bytes)
    → IsAllowed origin origins
    → matched (parsed origins) origin ≡ true
unfolding matched parsed
IsAllowed-matched origin _ (by_first o origins p e m) = rw (e, m) refl
IsAllowed-matched origin _ (by_later o origins a) = elim (Result-cases (parse o)) [
  | inl (p, e) ↦ elim (Bool-cases (match_origin p origin)) [
    | inl m ↦ rw (e, m) refl
    | inr m ↦ rw (e, m) (IsAllowed-matched origin origins a)
  ]
  | inr (x, e) ↦ rw e (IsAllowed-matched origin origins a)
]

matched-empty : (patterns : List Pattern) → matched patterns [] ≡ false
unfolding matched match_origin bytes_eq
matched-empty [] = refl
matched-empty (p ∷ patterns) = matched-empty patterns

handle-headers :
    (cfg : Config) (patterns : List Pattern) (method origin : Bytes)
    → ((handle cfg patterns method origin).0 ≢ []) ↔ (matched patterns origin ≡ true)
unfolding handle
handle-headers cfg patterns method origin = elim (Bool-cases (bytes_eq origin [])) [
  | inl e ↦
      let none_matches : matched patterns origin ≡ false =
        rw ((bytes_eq_iff origin []).0 e) (matched-empty patterns) in
      rw e (λ h. absurd (h refl), λ h. cc)
  | inr e ↦ elim (Bool-cases (matched patterns origin)) [
    | inl m ↦ rw (e, m) (λ h. refl, λ h k. cc)
    | inr m ↦ rw (e, m) (λ h. absurd (h refl), λ h. cc)
  ]
]

handle_some-headers :
    (cfg : Config) (patterns : List Pattern) (method origin : Bytes)
    → ((handle_some cfg patterns method origin).0 ≢ []) ↔ (matched patterns origin ≡ true)
unfolding matched
handle_some-headers cfg [] method origin = (λ h. absurd (h refl), λ h. cc)
handle_some-headers cfg (p ∷ patterns) method origin =
    handle-headers cfg (p ∷ patterns) method origin

serve-headers :
    (cfg : Config) (method origin : Bytes) (origins : List Bytes)
    → ((if is_empty origins
          then ([], passed_on)
          else handle_some cfg (parsed origins) method origin).0
        ≢ [])
      ↔ (matched (parsed origins) origin ≡ true)
unfolding matched parsed
serve-headers cfg method origin [] = (λ h. absurd (h refl), λ h. cc)
serve-headers cfg method origin (o ∷ origins) =
    handle_some-headers cfg (parsed (o ∷ origins)) method origin

middleware-some :
    (cfg : Config) (method origin : Bytes)
    → ((middleware cfg method origin).0 ≢ [])
      ↔ (cfg.enabled ≡ true) × (origin ≢ []) × IsAllowed origin cfg.allowed_origins
unfolding middleware
middleware-some cfg method origin = elim (Bool-cases cfg.enabled) [
  | inr off ↦ rw off (λ h. absurd (h refl), λ h. cc)
  | inl on ↦
      let served =
        serve-headers (record cfg { enabled = true }) method origin cfg.allowed_origins in
      rw on (
        λ h.
            let m = served.0 h in
            (
              refl,
              λ e.
                  let none_matches = matched-empty (parsed cfg.allowed_origins) in
                  let m' : matched (parsed cfg.allowed_origins) [] ≡ true = rw (← e) m in cc,
              matched-IsAllowed origin cfg.allowed_origins m,
            ),
        λ h. served.1 (IsAllowed-matched origin cfg.allowed_origins h.2),
      )
]

-- The headers of an answer to an allowed origin, in the order in which they are set.
abbrev pub cors_headers : Config → Bytes → List HeaderCall
cors_headers cfg origin =
    set_header (codes "Access-Control-Allow-Origin") origin
    ∷ add_header (codes "Vary") (codes "Origin")
    ∷ set_header (codes "Access-Control-Allow-Methods") (join cfg.allow_methods)
    ∷ set_header (codes "Access-Control-Allow-Headers") (join cfg.allow_headers)
    ∷ add_header (codes "Vary") (codes "Access-Control-Request-Headers")
    ∷ set_header (codes "Access-Control-Max-Age") (itoa cfg.max_age_seconds)
    ∷ []

-- The response gets the CORS headers, which are `Access-Control-Allow-Origin` with the request's origin, `Vary` on the
-- origin and on the requested headers, the configured methods and headers and the age in seconds, exactly if the
-- middleware is enabled and some configured origin parses to a pattern that matches the request's
-- `Origin`, whatever the method; otherwise, and so without an `Origin`, it gets no header of the middleware.
pub middleware-IsAllowed :
    (cfg : Config) (method origin : Bytes)
    → let allowed = (cfg.enabled ≡ true) × (origin ≢ []) × IsAllowed origin cfg.allowed_origins in
      (((middleware cfg method origin).0 ≡ cors_headers cfg origin) ↔ allowed)
      × (((middleware cfg method origin).0 ≡ []) ↔ (¬ allowed))
middleware-IsAllowed cfg method origin =
    let (to, from) = middleware-some cfg method origin in
    elim (middleware-calls cfg method origin) [
      | inl e ↦
          ((λ h. absurd (not_empty (sym h ∙ e)), λ h. absurd (from h e)), (λ h a. from a h, λ h. e))
      | inr e ↦ (
        (λ h. to (λ empty. not_empty (sym e ∙ empty)), λ h. e),
        (
          λ h. absurd (not_empty (sym e ∙ h)),
          λ no. absurd (no (to (λ empty. not_empty (sym e ∙ empty)))),
        ),
      )
    ]
  where
    not_empty : cors_headers cfg origin ≢ []
    not_empty h = cc
