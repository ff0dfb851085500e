-- ===== src/Cors/Matching.antt =====
-- Which origins a pattern of the grammar lets through.
use workstation_probe.Common.{
  ◌+◌, ◌≡◌, refl, ap, ◌≢◌, ◌↔◌, ◌⊎◌, inl, inr, Bool, true, false, [], ◌∷◌, ◌++◌, arith, take, drop,
  Bytes, bytes_eq_iff, bytes_eq_refl, contains_byte, contains_byte-append, Lacks, Option-cases,
  index_byte, index_byte-some, index_byte-append, take-length-append,
}
use workstation_probe.Cors.{
  Pattern, http, https, split_scheme, strip_slashes, match_origin, match_parts, match_tail,
  match_host, match_subdomain,
}
use workstation_probe.Cors.Scan.{split_scheme_iff, strip_slashes_iff, drop-suc-append}
use workstation_probe.Cors.Grammar.{IsPattern, scheme_facts, not_special, host_text}

-- "scheme://host"
abbrev pub origin_text : Bytes → Bytes → Bytes
origin_text scheme host = scheme ++ b':' ∷ b'/' ∷ b'/' ∷ host

-- The label that a wildcard stands for.
pub record IsLabel (sub : Bytes) : Type 0 where
  pub named : sub ≢ []
  pub single : Lacks b'.' sub
  pub no_star : contains_byte sub b'*' ≡ false
  pub no_userinfo : contains_byte sub b'@' ≡ false

-- `Match` compares the scheme and hands the host part on.
match_cut :
    (p : Pattern) (o : Bytes)
    → match_origin p o ≡ true
    → (host : Bytes) × (o ≡ origin_text p.scheme host) × (match_host p host ≡ true)
unfolding match_parts match_tail match_origin
match_cut p o h = elim (Option-cases (split_scheme o)) [
  | inl e ↦ ground arith
  | inr ((scheme, tail), e) ↦ elim (Option-cases (strip_slashes 2 tail)) [
    | inl f ↦ ground arith
    | inr (host, f) ↦
        let (cut, _, _) = (split_scheme_iff o scheme tail).0 e in
        let (slashes, _) = (strip_slashes_iff 2 tail host).0 f in
        let same : scheme ≡ p.scheme = ground (arith, bytes_eq_iff scheme p.scheme) in
        (host, rw (cut, slashes, same), ground arith)
  ]
]

match_join :
    (p : Pattern) (host : Bytes)
    → (p.scheme ≡ http) ⊎ (p.scheme ≡ https)
    → match_host p host ≡ true
    → match_origin p (origin_text p.scheme host) ≡ true
unfolding match_parts match_tail match_origin
match_join p host k h =
    let (lacks, some_scheme, (t, begins)) = scheme_facts p.scheme k in
    let (plain, _) =
      not_special (t ++ b':' ∷ b'/' ∷ b'/' ∷ host) (origin_text p.scheme host)
        (ap (λ a. origin_text a host) begins) in
    let cut =
      (split_scheme_iff (origin_text p.scheme host) p.scheme (b'/' ∷ b'/' ∷ host)).1
        (refl, lacks, some_scheme) in
    let slashes = (strip_slashes_iff 2 (b'/' ∷ b'/' ∷ host) host).1 (refl, omega arith) in
    ground (arith, bytes_eq_refl p.scheme)

dot_plain : (h : Bytes) → contains_byte h b'@' ≡ false → contains_byte (b'.' ∷ h) b'@' ≡ false
unfolding contains_byte
dot_plain h e = e

module _ (p : Pattern) (g : IsPattern p) where
  -- The host of a pattern holds no '@'.
  host_plain : contains_byte p.host b'@' ≡ false
  unfolding contains_byte
  host_plain = plain p.wildcard g.no_userinfo
    where
      plain :
          (w : Bool)
          → contains_byte (host_text w p.host) b'@' ≡ false
          → contains_byte p.host b'@' ≡ false
      plain true h = h
      plain false h = h

  -- A literal pattern of the grammar matches the one origin that it spells.
  pub match-literal_iff :
      (o : Bytes)
      → p.wildcard ≡ false
      → (match_origin p o ≡ true) ↔ (o ≡ origin_text p.scheme p.host)
  unfolding match_host
  match-literal_iff o w = (
    λ h.
        let (host, e, k) = match_cut p o h in
        let same : host ≡ p.host = ground (arith, bytes_eq_iff host p.host) in rw (e, same),
    λ e. rw e (match_join p p.host g.scheme (ground (arith, host_plain, bytes_eq_refl p.host))),
  )

  subdomain_cut :
      (host : Bytes)
      → match_host p host ≡ true
      → p.wildcard ≡ true
      → (sub : Bytes) × IsLabel sub × (host ≡ sub ++ b'.' ∷ p.host)
  unfolding match_host match_subdomain
  subdomain_cut host k w = elim (Option-cases (index_byte host b'.')) [
    | inl e ↦ ground arith
    | inr (i, e) ↦
        let (sub, rest, cut, n, single) = index_byte-some host b'.' i e in
        let front : take i host ≡ sub = rw (cut, ← n) (take-length-append sub (b'.' ∷ rest)) in
        let back : drop (i + 1) host ≡ rest = rw (cut, ← n) (drop-suc-append sub rest b'.') in
        let plain : contains_byte host b'@' ≡ false = ground arith in
        let parts : (sub ≢ []) × (contains_byte sub b'*' ≡ false) × (rest ≡ p.host) =
          ground (arith, bytes_eq_iff sub [], bytes_eq_iff rest p.host) in
        (
          sub,
          record {
            named = parts.0;
            single = single;
            no_star = parts.1;
            no_userinfo = ground (
              arith,
              contains_byte-append sub (b'.' ∷ rest) b'@',
              ap (λ t. contains_byte t b'@') cut,
            );
          },
          rw (cut, parts.2),
        )
  ]

  joined_plain : (sub : Bytes) → IsLabel sub → contains_byte (sub ++ b'.' ∷ p.host) b'@' ≡ false
  joined_plain sub l = rw (contains_byte-append, l.no_userinfo) (dot_plain p.host host_plain)

  subdomain_join :
      (sub : Bytes) → IsLabel sub → p.wildcard ≡ true → match_host p (sub ++ b'.' ∷ p.host) ≡ true
  unfolding match_host match_subdomain
  subdomain_join sub l w = ground (
    arith,
    joined_plain sub l,
    index_byte-append sub p.host b'.' l.single,
    take-length-append sub (b'.' ∷ p.host),
    drop-suc-append sub p.host b'.',
    bytes_eq_iff sub [],
    bytes_eq_refl p.host,
  )

  -- A wildcard pattern of the grammar matches exactly one label, which is not empty and holds no '.', '*' or '@',
  -- in front of the pattern's host, under the pattern's scheme.
  pub match-wildcard_iff :
      (o : Bytes)
      → p.wildcard ≡ true
      → (match_origin p o ≡ true)
        ↔ ((sub : Bytes) × IsLabel sub × (o ≡ origin_text p.scheme (sub ++ b'.' ∷ p.host)))
  match-wildcard_iff o w = (
    λ h.
        let (host, e, k) = match_cut p o h in
        let (sub, l, c) = subdomain_cut host k w in (sub, l, rw (e, c)),
    λ (sub, l, e). rw e (match_join p _ g.scheme (subdomain_join sub l w)),
  )
