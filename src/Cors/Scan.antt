-- ===== src/Cors/Scan.antt =====
-- What the two cuts of origin.go find: the scheme before the first ':', and the text behind "//".
use workstation_probe.Common.{
  ℕ, suc, ◌+◌, ◌≤◌, ◌≡◌, refl, ap₂, subst, ◌∙◌, ◌≢◌, ◌↔◌, some, [], ◌∷◌, ◌++◌, arith, length, drop,
  Bytes, index_byte, Lacks, index_byte-append, index_byte-some, take-length-append, Option-cases,
  inl, inr,
}
use native.Mathlib.Numerals.{add-one}
use workstation_probe.Cors.{cut_at, split_scheme, strip_slashes}

-- Behind a found byte.
pub drop-suc-append : (a b : Bytes) (c : ℕ) → drop (length a + 1) (a ++ c ∷ b) ≡ b
drop-suc-append a b c = rw add-one (behind a)
  where
    behind : (a : Bytes) → drop (suc (length a)) (a ++ c ∷ b) ≡ b
    behind [] = refl
    behind (x ∷ a) = behind a

cut_at-length : (a b : Bytes) (c : ℕ) → a ≢ [] → cut_at (a ++ c ∷ b) (some (length a)) ≡ some (a, b)
cut_at-length [] b c ne = absurd (ne refl)
cut_at-length (x ∷ a) b c ne =
    ap₂ (λ u v. some (u, v)) (take-length-append (x ∷ a) (c ∷ b)) (drop-suc-append (x ∷ a) b c)

cut_at-some :
    (u v : Bytes) (c : ℕ) (a b : Bytes)
    → cut_at (u ++ c ∷ v) (some (length u)) ≡ some (a, b)
    → (u ≡ a) × (v ≡ b) × (a ≢ [])
cut_at-some [] v c a b h = cc
cut_at-some (x ∷ u) v c a b h = ground (arith, cut_at-length (x ∷ u) v c (λ e. cc e))

split_scheme-append :
    (a b : Bytes) → Lacks b':' a → a ≢ [] → split_scheme (a ++ b':' ∷ b) ≡ some (a, b)
unfolding split_scheme
split_scheme-append a b l ne = rw (index_byte-append a b b':' l) (cut_at-length a b b':' ne)

split_scheme-some :
    (s a b : Bytes) → split_scheme s ≡ some (a, b) → (s ≡ a ++ b':' ∷ b) × Lacks b':' a × (a ≢ [])
unfolding split_scheme
split_scheme-some s a b h = elim (Option-cases (index_byte s b':')) [
  | inl e ↦ cc (rw e at h)
  | inr (i, e) ↦ found i e (rw e at h)
]
  where
    found :
        (i : ℕ)
        → index_byte s b':' ≡ some i
        → cut_at s (some i) ≡ some (a, b)
        → (s ≡ a ++ b':' ∷ b) × Lacks b':' a × (a ≢ [])
    found i e k =
        let (u, v, p, n, l) = index_byte-some s b':' i e in
        let (p', q', ne) = cut_at-some u v b':' a b (rw (← p, n) k) in
        (p ∙ ap₂ (λ x y. x ++ b':' ∷ y) p' q', subst (Lacks b':') p' l, ne)

-- A cut is found exactly where a first ':' stands behind a text that is not empty.
pub split_scheme_iff :
    (s a b : Bytes)
    → (split_scheme s ≡ some (a, b)) ↔ ((s ≡ a ++ b':' ∷ b) × Lacks b':' a × (a ≢ []))
split_scheme_iff s a b =
    (split_scheme-some s a b, λ (e, l, ne). rw e (split_scheme-append a b l ne))

pub strip_slashes_iff :
    (least : ℕ) (rest host : Bytes)
    → (strip_slashes least rest ≡ some host)
      ↔ ((rest ≡ b'/' ∷ b'/' ∷ host) × (least ≤ length host + 2))
unfolding strip_slashes
strip_slashes_iff least [] host = ground arith
strip_slashes_iff least (x ∷ []) host = ground arith
strip_slashes_iff least (x ∷ y ∷ rest) host = ground arith
