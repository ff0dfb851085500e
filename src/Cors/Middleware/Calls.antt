-- ===== src/Cors/Middleware/Calls.antt =====
-- The header calls of the CORS handler, and the cases of its decision.
use workstation_probe.Common.{
  ◌≡◌, ◌⊎◌, inl, inr, refl, not, ◌||◌, List, [], ◌∷◌, Bytes, bytes_eq, Bool-cases, suc, ap, length,
  All,
}
use workstation_probe.Common.Result.{ok}
use workstation_probe.Cors.{Pattern, parse}
use workstation_probe.Cors.Middleware.{
  Config, parsed, matched, allowing, handle, handle_some, middleware, is_empty,
}

handle-calls :
    (cfg : Config) (patterns : List Pattern) (method origin : Bytes)
    → ((handle cfg patterns method origin).0 ≡ [])
      ⊎ ((handle cfg patterns method origin).0 ≡ allowing cfg origin)
unfolding handle
handle-calls cfg patterns method origin = elim (Bool-cases (bytes_eq origin [])) [
  | inl e ↦ rw e (inl refl)
  | inr e ↦ elim (Bool-cases (matched patterns origin)) [
    | inl m ↦ rw (e, m) (inr refl)
    | inr m ↦ rw (e, m) (inl refl)
  ]
]

handle_some-calls :
    (cfg : Config) (patterns : List Pattern) (method origin : Bytes)
    → ((handle_some cfg patterns method origin).0 ≡ [])
      ⊎ ((handle_some cfg patterns method origin).0 ≡ allowing cfg origin)
handle_some-calls cfg [] method origin = inl refl
handle_some-calls cfg (p ∷ patterns) method origin = handle-calls cfg (p ∷ patterns) method origin

pub middleware-calls :
    (cfg : Config) (method origin : Bytes)
    → ((middleware cfg method origin).0 ≡ [])
      ⊎ ((middleware cfg method origin).0 ≡ allowing cfg origin)
unfolding middleware
middleware-calls cfg method origin =
    elim (Bool-cases (not cfg.enabled || is_empty cfg.allowed_origins)) [
      | inl off ↦ rw off (inl refl)
      | inr on ↦ rw on (handle_some-calls cfg (parsed cfg.allowed_origins) method origin)
    ]

-- No entry is skipped where each one parses.
pub length-parsed :
    (origins : List Bytes)
    → All (λ o. (p : Pattern) × (parse o ≡ ok p)) origins
    → length (parsed origins) ≡ length origins
unfolding parsed
length-parsed [] h = refl
length-parsed (o ∷ origins) ((p, e), h) = rw e (ap suc (length-parsed origins h))
