-- ===== src/Tests/Middleware.antt =====
-- A request from a listed origin, where the first entry of the list does not parse.
use workstation_probe.Common.{
  ◌≡◌, ◌≢◌, ◌↔◌, refl, true, false, [], ◌∷◌, codes, contains_byte, bytes_eq, index_byte,
}
use workstation_probe.Common.Int.{pos}
use workstation_probe.Cors.{Pattern, parse, match_origin, split_scheme, strip_slashes}
use workstation_probe.Cors.Middleware.{Config, middleware}
use workstation_probe.Cors.Middleware.Decision.{
  IsAllowed, by_first, by_later, cors_headers, middleware-IsAllowed,
}

abbrev site : Config
site = record {
  enabled = true;
  allowed_origins = codes "*" ∷ codes "https://a.example" ∷ [];
  allow_methods = codes "GET" ∷ codes "OPTIONS" ∷ [];
  allow_headers = [];
  max_age_seconds = pos 600;
}

middleware-IsAllowed_example :
    let origin = codes "https://a.example" in
    let calls = (middleware site (codes "GET") origin).0 in
    let allowed = (true ≡ true) × (origin ≢ []) × IsAllowed origin site.allowed_origins in
    ((calls ≡ cors_headers site origin) ↔ allowed) × ((calls ≡ []) ↔ (¬ allowed))
middleware-IsAllowed_example = middleware-IsAllowed site (codes "GET") (codes "https://a.example")

abbrev entry : Pattern
entry = record {
  raw = codes "https://a.example";
  scheme = codes "https";
  host = codes "a.example";
  wildcard = false;
}

site-allows : IsAllowed (codes "https://a.example") site.allowed_origins
unfolding parse match_origin split_scheme strip_slashes bytes_eq index_byte contains_byte
site-allows =
    by_later (codes "*") (codes "https://a.example" ∷ [])
      (by_first (codes "https://a.example") [] entry refl refl)
