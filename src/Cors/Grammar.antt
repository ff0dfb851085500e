-- ===== src/Cors/Grammar.antt =====
-- The grammar of allowed origins: what `Parse` accepts, and how a pattern is written.
use workstation_probe.Common.{
  ◌+◌, ◌≤◌, ◌≡◌, refl, sym, ap, ◌∙◌, subst, ◌≢◌, ◌↔◌, ◌⊎◌, inl, inr, Bool, true, false, not, ◌&&◌,
  some, [], ◌∷◌, ◌++◌, arith, length, Bytes, codes, bytes_eq, bytes_eq_iff, contains_byte, Lacks,
  Option-cases,
}
use workstation_probe.Common.Result.{ok, Result-cases}
use workstation_probe.Cors.{Pattern, http, https, split_scheme, strip_slashes, parse_host, parse}
use workstation_probe.Cors.Scan.{split_scheme_iff, strip_slashes_iff}

-- The host part of an allowed origin, by its kind.
abbrev pub IsHost : Bool → Bytes → Type 0
IsHost true host =
    (host ≢ []) × (contains_byte host b'.' ≡ true) × (contains_byte host b'*' ≡ false)
IsHost false host = contains_byte host b'*' ≡ false

abbrev pub host_text : Bool → Bytes → Bytes
host_text true host = b'*' ∷ b'.' ∷ host
host_text false host = host

parse_host_iff :
    (rest host : Bytes) (w : Bool)
    → (parse_host rest ≡ ok (host, w)) ↔ ((rest ≡ host_text w host) × IsHost w host)
unfolding parse_host contains_byte
parse_host_iff [] host true = ground (arith, bytes_eq_iff host [])
parse_host_iff [] host false = ground (arith, bytes_eq_iff host [])
parse_host_iff (x ∷ []) host true = ground (arith, bytes_eq_iff host [])
parse_host_iff (x ∷ []) host false = ground (arith, bytes_eq_iff host [])
parse_host_iff (x ∷ y ∷ rest) host true = ground (arith, bytes_eq_iff host [], bytes_eq_iff rest [])
parse_host_iff (x ∷ y ∷ rest) host false =
    ground (arith, bytes_eq_iff host [], bytes_eq_iff rest [])

-- The text "//host" behind the scheme's ':'.
abbrev pub after_scheme : Bool → Bytes → Bytes
after_scheme w host = b'/' ∷ b'/' ∷ host_text w host

-- A pattern of the grammar, with the text that it was written as.
pub record IsPattern (p : Pattern) : Type 0 where
  pub scheme : (p.scheme ≡ http) ⊎ (p.scheme ≡ https)
  pub host : IsHost p.wildcard p.host
  pub named : p.host ≢ []
  pub no_userinfo : contains_byte (host_text p.wildcard p.host) b'@' ≡ false
  pub written : p.raw ≡ p.scheme ++ b':' ∷ after_scheme p.wildcard p.host

is_scheme_iff :
    (a : Bytes)
    → ((not (bytes_eq a http) && not (bytes_eq a https)) ≡ false) ↔ ((a ≡ http) ⊎ (a ≡ https))
is_scheme_iff a = ground (arith, bytes_eq_iff a http, bytes_eq_iff a https)

-- What `Parse` has checked when it has cut the text to the end.
parse_checks :
    (s : Bytes) (p : Pattern) (scheme tail rest host : Bytes) (w : Bool)
    → split_scheme s ≡ some (scheme, tail)
    → strip_slashes 3 tail ≡ some rest
    → parse_host rest ≡ ok (host, w)
    → parse s ≡ ok p
    → ((not (bytes_eq scheme http) && not (bytes_eq scheme https)) ≡ false)
      × (contains_byte rest b'@' ≡ false)
      × (host ≢ [])
      × (p ≡ record { raw = s; scheme = scheme; host = host; wildcard = w })
unfolding parse
parse_checks s p scheme tail rest host w e f g h = ground (arith, bytes_eq_iff host [])

parse_sound : (s : Bytes) (p : Pattern) → parse s ≡ ok p → IsPattern p × (p.raw ≡ s)
unfolding parse
parse_sound s p h = elim (Option-cases (split_scheme s)) [
  | inl e ↦ ground arith
  | inr ((scheme, tail), e) ↦ elim (Option-cases (strip_slashes 3 tail)) [
    | inl f ↦ ground arith
    | inr (rest, f) ↦ elim (Result-cases (parse_host rest)) [
      | inl ((host, w), g) ↦
          let (schemes, no_user, named, same) = parse_checks s p scheme tail rest host w e f g h in
          let (cut, _, _) = (split_scheme_iff s scheme tail).0 e in
          let (slashes, _) = (strip_slashes_iff 3 tail rest).0 f in
          let (text, valid) = (parse_host_iff rest host w).0 g in
          (
            subst IsPattern (sym same) (record {
              scheme = (is_scheme_iff scheme).0 schemes;
              host = valid;
              named = named;
              no_userinfo = rw text at no_user;
              written = rw (cut, slashes, text);
            }),
            ap (λ (q : Pattern). q.raw) same,
          )
      | inr (x, g) ↦ ground arith
    ]
  ]
]

abbrev pub IsScheme : Bytes → Type 0
IsScheme a = (a ≡ http) ⊎ (a ≡ https)

pub scheme_facts :
    (a : Bytes) → IsScheme a → Lacks b':' a × (a ≢ []) × ((t : Bytes) × (a ≡ b'h' ∷ t))
scheme_facts a (inl e) = rw e (ground arith, ground arith, (codes "ttp", refl))
scheme_facts a (inr e) = rw e (ground arith, ground arith, (codes "ttps", refl))

pub not_special :
    (t s : Bytes) → s ≡ b'h' ∷ t → (bytes_eq s [] ≡ false) × (bytes_eq s (codes "*") ≡ false)
unfolding bytes_eq
not_special t s e = rw e (refl, refl)

one_le_length : (h : Bytes) (w : Bool) → h ≢ [] → 3 ≤ length (host_text w h) + 2
one_le_length h true ne = omega arith
one_le_length [] false ne = absurd (ne refl)
one_le_length (x ∷ h) false ne = omega arith

parse_complete : (p : Pattern) → IsPattern p → parse p.raw ≡ ok p
unfolding parse
parse_complete p g =
    let (lacks, some_scheme, (t, begins)) = scheme_facts p.scheme g.scheme in
    let (plain, not_star) =
      not_special (t ++ b':' ∷ after_scheme p.wildcard p.host) p.raw
        (g.written ∙ ap (λ a. a ++ b':' ∷ after_scheme p.wildcard p.host) begins) in
    let cut =
      (split_scheme_iff p.raw p.scheme (after_scheme p.wildcard p.host)).1
        (g.written, lacks, some_scheme) in
    let slashes =
      (strip_slashes_iff 3 (after_scheme p.wildcard p.host) (host_text p.wildcard p.host)).1
        (refl, one_le_length p.host p.wildcard g.named) in
    let hosted =
      (parse_host_iff (host_text p.wildcard p.host) p.host p.wildcard).1 (refl, g.host) in
    let schemes = (is_scheme_iff p.scheme).1 g.scheme in
    ground (
      arith,
      g.no_userinfo,
      g.named,
      bytes_eq_iff p.host [],
      bytes_eq_iff (host_text p.wildcard p.host) [],
    )

-- `Parse` accepts exactly the texts of the grammar, "http" or "https", "://", and a host that is
-- named, has no userinfo and no '*' but in a leading "*." before a name with a dot; and the
-- pattern that it returns is the one that the text was written from.
pub parse_iff : (s : Bytes) (p : Pattern) → (parse s ≡ ok p) ↔ (IsPattern p × (p.raw ≡ s))
parse_iff s p =
    (parse_sound s p, λ (g, e). subst (λ (t : Bytes). parse t ≡ ok p) e (parse_complete p g))
