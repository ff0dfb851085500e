-- ===== src/Tests/Cors.antt =====
-- The origin grammar at concrete texts.
use workstation_probe.Common.{
  ◌≡◌, ◌↔◌, refl, true, false, ◌∷◌, ◌++◌, Bytes, codes, contains_byte, bytes_eq, index_byte,
}
use workstation_probe.Common.Result.{ok, err}
use workstation_probe.Cors.{
  Pattern, parse, match_origin, split_scheme, strip_slashes, wildcard_without_dot,
}
use workstation_probe.Cors.Grammar.{IsPattern, parse_iff}
use workstation_probe.Cors.Matching.{IsLabel, origin_text, match-literal_iff, match-wildcard_iff}

abbrev literal : Pattern
literal = record {
  raw = codes "https://a.example";
  scheme = codes "https";
  host = codes "a.example";
  wildcard = false;
}

abbrev wild : Pattern
wild = record {
  raw = codes "http://*.b.example";
  scheme = codes "http";
  host = codes "b.example";
  wildcard = true;
}

parse_runs :
    (parse (codes "https://a.example") ≡ ok literal)
    × (parse (codes "http://*.b.example") ≡ ok wild)
    × (parse (codes "https://*.com") ≡ err wildcard_without_dot)
unfolding parse
parse_runs = (refl, refl, refl)

match_runs :
    (match_origin wild (codes "http://x.b.example") ≡ true)
    × (match_origin wild (codes "http://*.b.example") ≡ false)
    × (match_origin wild (codes "http://x.y.b.example") ≡ false)
unfolding match_origin split_scheme strip_slashes bytes_eq index_byte contains_byte
match_runs = (refl, refl, refl)

parse_iff_example :
    (parse (codes "https://a.example") ≡ ok literal)
    ↔ (IsPattern literal × (literal.raw ≡ codes "https://a.example"))
parse_iff_example = parse_iff (codes "https://a.example") literal

literal-IsPattern : IsPattern literal
literal-IsPattern = ((parse_iff literal.raw literal).0 (parse_runs.0)).0

wild-IsPattern : IsPattern wild
wild-IsPattern = ((parse_iff wild.raw wild).0 (parse_runs.1)).0

match-literal_iff_example :
    (match_origin literal (codes "https://a.example") ≡ true)
    ↔ (codes "https://a.example" ≡ origin_text (codes "https") (codes "a.example"))
match-literal_iff_example =
    match-literal_iff literal literal-IsPattern (codes "https://a.example") refl

match-wildcard_iff_example : (match_origin wild (codes "http://x.b.example") ≡ true) ↔ (
    (sub : Bytes) × IsLabel sub
    × (codes "http://x.b.example" ≡ origin_text (codes "http") (sub ++ b'.' ∷ codes "b.example")))
match-wildcard_iff_example =
    match-wildcard_iff wild wild-IsPattern (codes "http://x.b.example") refl
