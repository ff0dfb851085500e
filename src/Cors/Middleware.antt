-- ===== src/Cors/Middleware.antt =====
-- internal/cors/middleware.go: what the CORS handler does to one request before the next handler.
pub mod Decision
pub mod Preflight
pub mod Calls
use workstation_probe.Common.{
  ℕ, Bool, true, false, not, ◌||◌, Option, List, [], ◌∷◌, ◌++◌, if◌then◌else◌, Bytes, codes,
  bytes_eq,
}
use workstation_probe.Common.Int.{ℤ}
use workstation_probe.Common.Result.{Result, ok, err}
use workstation_probe.Strconv.{itoa}
use workstation_probe.Cors.{Pattern, ParseError, parse, match_origin}

pub record Config : Type 0 where
  pub enabled : Bool
  pub allowed_origins : List Bytes
  pub allow_methods : List Bytes
  pub allow_headers : List Bytes
  pub max_age_seconds : ℤ

-- The calls on the response's header, in their order.
pub data HeaderCall : Type 0 where
  set_header : Bytes → Bytes → HeaderCall
  add_header : Bytes → Bytes → HeaderCall

pub data Outcome : Type 0 where
  passed_on : Outcome
  no_content : Outcome
  forbidden : Bytes → Outcome

-- `strings.Join(parts, ", ")`
pub join : List Bytes → Bytes
join [] = []
join (part ∷ []) = part
join (part ∷ next ∷ parts) = part ++ codes ", " ++ join (next ∷ parts)

-- The entries that do not parse are skipped.
abbrev pub consider : Result ParseError Pattern → List Pattern → List Pattern
consider (ok p) patterns = p ∷ patterns
consider (err e) patterns = patterns

unfoldable pub parsed : List Bytes → List Pattern
parsed [] = []
parsed (o ∷ origins) = consider (parse o) (parsed origins)

pub matched : List Pattern → Bytes → Bool
matched [] origin = false
matched (p ∷ patterns) origin = match_origin p origin || matched patterns origin

abbrev pub is_options : Bytes → Bool
is_options method = bytes_eq method (codes "OPTIONS")

abbrev pub not_allowed : Bytes
not_allowed = codes "{\"error\":\"cors_origin_not_allowed\"}"

abbrev pub allowing : Config → Bytes → List HeaderCall
allowing cfg origin =
    set_header (codes "Access-Control-Allow-Origin") origin
    ∷ add_header (codes "Vary") (codes "Origin")
    ∷ set_header (codes "Access-Control-Allow-Methods") (join cfg.allow_methods)
    ∷ set_header (codes "Access-Control-Allow-Headers") (join cfg.allow_headers)
    ∷ add_header (codes "Vary") (codes "Access-Control-Request-Headers")
    ∷ set_header (codes "Access-Control-Max-Age") (itoa cfg.max_age_seconds)
    ∷ []

-- The handler over a list of patterns that is not empty.
pub handle : Config → List Pattern → Bytes → Bytes → List HeaderCall × Outcome
unfolding matched
handle cfg patterns method origin =
    if bytes_eq origin []
    then ([], passed_on)
    else if matched patterns origin
    then (allowing cfg origin, if is_options method then no_content else passed_on)
    else ([], if is_options method then forbidden not_allowed else passed_on)

abbrev pub handle_some : Config → List Pattern → Bytes → Bytes → List HeaderCall × Outcome
handle_some cfg [] method origin = ([], passed_on)
handle_some cfg (p ∷ patterns) method origin = handle cfg (p ∷ patterns) method origin

abbrev pub is_empty : List Bytes → Bool
is_empty [] = true
is_empty (o ∷ origins) = false

pub middleware : Config → (method origin : Bytes) → List HeaderCall × Outcome
unfolding parsed
middleware cfg method origin =
    if not cfg.enabled || is_empty cfg.allowed_origins
    then ([], passed_on)
    else handle_some cfg (parsed cfg.allowed_origins) method origin
