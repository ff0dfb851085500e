-- ===== src/Cors.antt =====
-- internal/cors/origin.go: the grammar of allowed origins and the matching of a request's Origin.
pub mod Scan
pub mod Grammar
pub mod Matching
pub mod Middleware
use workstation_probe.Common.{
  ℕ, zero, suc, ◌+◌, Bool, true, false, not, ◌&&◌, ◌||◌, Option, none, some, List, [], ◌∷◌, ◌++◌,
  ltb, ◌==◌, if◌then◌else◌, length, get_elem?, take, drop, Bytes, codes, bytes_eq, index_byte,
  contains_byte,
}
use workstation_probe.Common.Result.{Result, ok, err, ◌>>=◌, ◌>>◌, refuse_if, or_error}

pub record Pattern : Type 0 where
  pub raw : Bytes
  pub scheme : Bytes
  pub host : Bytes
  pub wildcard : Bool

-- One constructor for each message of `Parse`.
pub data ParseError : Type 0 where
  empty_origin bare_star missing_scheme no_slashes missing_host userinfo : ParseError
  wildcard_host_empty wildcard_without_dot second_star star_not_leading empty_host : ParseError
  bad_scheme : Bytes → ParseError

abbrev pub http : Bytes
http = codes "http"

abbrev pub https : Bytes
https = codes "https"

-- `s[i] == c`, false out of range.
abbrev pub has_byte_at : Bytes → ℕ → ℕ → Bool
has_byte_at s i c = elim (get_elem? s i) [ none ↦ false | some x ↦ x == c ]

-- `none` is the -1 of `IndexByte`; the index 0 is refused like it.
abbrev pub cut_at : Bytes → Option ℕ → Option (Bytes × Bytes)
cut_at s none = none
cut_at s (some zero) = none
cut_at s (some (suc i)) = some (take (suc i) s, drop (suc i + 1) s)

-- The text before and after the first ':'; `none` if there is none or it stands first.
unfoldable pub split_scheme : Bytes → Option (Bytes × Bytes)
split_scheme s = cut_at s (index_byte s b':')

-- What follows a leading "//", in a text of `least` bytes or more.
unfoldable pub strip_slashes : ℕ → Bytes → Option Bytes
strip_slashes least rest =
    if ltb (length rest) least || not (has_byte_at rest 0 b'/') || not (has_byte_at rest 1 b'/')
    then none
    else some (drop 2 rest)

-- The host part of a pattern, behind "scheme://": the host and whether it is a wildcard.
pub parse_host : Bytes → Result ParseError (Bytes × Bool)
parse_host rest =
    if not (ltb (length rest) 2) && has_byte_at rest 0 b'*' && has_byte_at rest 1 b'.'
    then (do
      let host = drop 2 rest
      refuse_if (bytes_eq host []) wildcard_host_empty
      refuse_if (not (contains_byte host b'.')) wildcard_without_dot
      refuse_if (contains_byte host b'*') second_star
      ok (host, true))
    else (do refuse_if (contains_byte rest b'*') star_not_leading; ok (rest, false))

unfoldable pub parse : Bytes → Result ParseError Pattern
unfolding split_scheme strip_slashes parse_host bytes_eq contains_byte index_byte
parse s = do
  refuse_if (bytes_eq s []) empty_origin
  refuse_if (bytes_eq s (codes "*")) bare_star
  (scheme, tail) ← or_error (split_scheme s) missing_scheme
  refuse_if (not (bytes_eq scheme http) && not (bytes_eq scheme https)) (bad_scheme scheme)
  rest ← or_error (strip_slashes 3 tail) no_slashes
  refuse_if (bytes_eq rest []) missing_host
  refuse_if (contains_byte rest b'@') userinfo
  (host, wildcard) ← parse_host rest
  refuse_if (bytes_eq host []) empty_host
  ok (record { raw = s; scheme = scheme; host = host; wildcard = wildcard })

-- The wildcard case of `Match`: one label that is not empty and has no '*', then the host.
pub match_subdomain : Pattern → Bytes → Option ℕ → Bool
match_subdomain p host none = false
match_subdomain p host (some idx) =
    let sub = take idx host in
    let rest = drop (idx + 1) host in
    not (bytes_eq sub [] || contains_byte sub b'*' || not (bytes_eq rest p.host))

match_host : Pattern → Bytes → Bool
match_host p host =
    if contains_byte host b'@'
    then false
    else if p.wildcard
    then match_subdomain p host (index_byte host b'.')
    else bytes_eq host p.host

match_tail : Pattern → Option Bytes → Bool
match_tail p none = false
match_tail p (some host) = match_host p host

match_parts : Pattern → Option (Bytes × Bytes) → Bool
match_parts p none = false
match_parts p (some (scheme, tail)) =
    if not (bytes_eq scheme p.scheme) then false else match_tail p (strip_slashes 2 tail)

unfoldable pub match_origin : Pattern → Bytes → Bool
unfolding match_parts match_tail match_host match_subdomain
match_origin p origin = if bytes_eq origin [] then false else match_parts p (split_scheme origin)
