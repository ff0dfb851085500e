-- ===== src/Logging/Laws.antt =====
-- The texts of the configuration that mean the same.
use workstation_probe.Common.{
  ℕ, ◌≡◌, refl, ap, ap₂, sym, ◌∙◌, inl, inr, Bool, true, false, ◌&&◌, [], ◌∷◌, ◌++◌, all, map,
  Bytes, bytes_eq, Bool-cases, arith,
}
use workstation_probe.Trim.{is_space, is_ascii, trim_front, trim_back, trim_space}
use workstation_probe.Logging.{Unicode, lower_byte, to_lower, level_named, format_named, setup}

is_space-lower_byte : (c : ℕ) → is_space (lower_byte c) ≡ is_space c
is_space-lower_byte c = ground arith

trim_front-lower : (s : Bytes) → trim_front (map lower_byte s) ≡ map lower_byte (trim_front s)
unfolding trim_front
trim_front-lower [] = refl
trim_front-lower (c ∷ s) = elim (Bool-cases (is_space c)) [
  | inl e ↦ rw (is_space-lower_byte c, e) (trim_front-lower s)
  | inr e ↦ rw (is_space-lower_byte c, e) refl
]

bytes_eq-lower_nil : (s : Bytes) → bytes_eq (map lower_byte s) [] ≡ bytes_eq s []
unfolding bytes_eq
bytes_eq-lower_nil [] = refl
bytes_eq-lower_nil (c ∷ s) = refl

trim_back-lower : (s : Bytes) → trim_back (map lower_byte s) ≡ map lower_byte (trim_back s)
unfolding trim_back
trim_back-lower [] = refl
trim_back-lower (c ∷ s) = elim (Bool-cases (is_space c && bytes_eq (trim_back s) [])) [
  | inl e ↦ rw (is_space-lower_byte c, trim_back-lower s, bytes_eq-lower_nil (trim_back s), e) refl
  | inr e ↦ rw (is_space-lower_byte c, trim_back-lower s, bytes_eq-lower_nil (trim_back s), e) refl
]

trim_front-padded : (p s : Bytes) → all is_space p ≡ true → trim_front (p ++ s) ≡ trim_front s
unfolding trim_front
trim_front-padded [] s h = refl
trim_front-padded (c ∷ p) s h = elim (Bool-cases (is_space c)) [
  | inl e ↦ rw e (trim_front-padded p s (rw e at h))
  | inr e ↦ absurd (let t : false ≡ true = rw e at h in cc)
]

trim_back-spaces : (q : Bytes) → all is_space q ≡ true → trim_back q ≡ []
unfolding trim_back bytes_eq
trim_back-spaces [] h = refl
trim_back-spaces (c ∷ q) h = elim (Bool-cases (is_space c)) [
  | inl e ↦ rw (e, trim_back-spaces q (rw e at h)) refl
  | inr e ↦ absurd (let t : false ≡ true = rw e at h in cc)
]

trim_front-spaces : (q : Bytes) → all is_space q ≡ true → trim_front q ≡ []
unfolding trim_front
trim_front-spaces [] h = refl
trim_front-spaces (c ∷ q) h = elim (Bool-cases (is_space c)) [
  | inl e ↦ rw e (trim_front-spaces q (rw e at h))
  | inr e ↦ absurd (let t : false ≡ true = rw e at h in cc)
]

trim_back-padded : (s q : Bytes) → all is_space q ≡ true → trim_back (s ++ q) ≡ trim_back s
unfolding trim_back
trim_back-padded [] q h = trim_back-spaces q h
trim_back-padded (c ∷ s) q h = rw (trim_back-padded s q h) refl

trim-padded :
    (s q : Bytes)
    → all is_space q ≡ true
    → trim_back (trim_front (s ++ q)) ≡ trim_back (trim_front s)
unfolding trim_front
trim-padded [] q h = ap trim_back (trim_front-spaces q h)
trim-padded (c ∷ s) q h = elim (Bool-cases (is_space c)) [
  | inl e ↦ rw e (trim-padded s q h)
  | inr e ↦ rw e (trim_back-padded (c ∷ s) q h)
]

all-trim_front : (s : Bytes) → all is_ascii s ≡ true → all is_ascii (trim_front s) ≡ true
unfolding trim_front
all-trim_front [] h = refl
all-trim_front (c ∷ s) h = elim (Bool-cases (is_ascii c)) [
  | inr e ↦ absurd (let t : false ≡ true = rw e at h in cc)
  | inl e ↦ elim (Bool-cases (is_space c)) [
    | inl z ↦ rw z (all-trim_front s (rw e at h))
    | inr z ↦ rw z h
  ]
]

all-trim_back : (s : Bytes) → all is_ascii s ≡ true → all is_ascii (trim_back s) ≡ true
unfolding trim_back
all-trim_back [] h = refl
all-trim_back (c ∷ s) h = elim (Bool-cases (is_ascii c)) [
  | inr e ↦ absurd (let t : false ≡ true = rw e at h in cc)
  | inl e ↦ elim (Bool-cases (is_space c && bytes_eq (trim_back s) [])) [
    | inl z ↦ rw z refl
    | inr z ↦ rw (z, e) (all-trim_back s (rw e at h))
  ]
]

all-append : (P : ℕ → Bool) (a b : Bytes) → all P a ≡ true → all P b ≡ true → all P (a ++ b) ≡ true
all-append P [] b h k = k
all-append P (c ∷ a) b h k = elim (Bool-cases (P c)) [
  | inl e ↦ rw e (all-append P a b (rw e at h) k)
  | inr e ↦ absurd (let t : false ≡ true = rw e at h in cc)
]

is_ascii-is_space : (c : ℕ) → is_space c ≡ true → is_ascii c ≡ true
is_ascii-is_space c h = ground arith

spaces-ascii : (p : Bytes) → all is_space p ≡ true → all is_ascii p ≡ true
spaces-ascii [] h = refl
spaces-ascii (c ∷ p) h = elim (Bool-cases (is_space c)) [
  | inl e ↦ rw (is_ascii-is_space c e) (spaces-ascii p (rw e at h))
  | inr e ↦ absurd (let t : false ≡ true = rw e at h in cc)
]

module _ (u : Unicode) where
  -- What `Setup` compares with its words.
  abbrev pub word : Bytes → Bytes
  word s = to_lower u (trim_space u.trim s)

  word-ascii :
      (s : Bytes) → all is_ascii s ≡ true → word s ≡ map lower_byte (trim_back (trim_front s))
  unfolding to_lower trim_space
  word-ascii s h = rw (h, all-trim_back (trim_front s) (all-trim_front s h)) refl

  -- One text is the other one in upper or lower case letters, with space around it.
  pub record IsAlike (s t : Bytes) : Type 0 where
    pub before : Bytes
    pub inner : Bytes
    pub after : Bytes
    pub whole : s ≡ before ++ (inner ++ after)
    pub spaces : (all is_space before ≡ true) × (all is_space after ≡ true)
    pub ascii : (all is_ascii inner ≡ true) × (all is_ascii t ≡ true)
    pub letters : map lower_byte inner ≡ map lower_byte t

  word-IsAlike : (s t : Bytes) → IsAlike s t → word s ≡ word t
  word-IsAlike s t a =
      let all_ascii =
        all-append is_ascii a.before (a.inner ++ a.after) (spaces-ascii a.before a.spaces.0)
          (all-append is_ascii a.inner a.after a.ascii.0 (spaces-ascii a.after a.spaces.1)) in
      let trimmed = λ (x : Bytes). trim_back (trim_front x) in
      let lowered = λ (x : Bytes).
        sym (trim_back-lower (trim_front x)) ∙ ap trim_back (sym (trim_front-lower x)) in
      ap word a.whole
      ∙ word-ascii (a.before ++ (a.inner ++ a.after)) all_ascii
      ∙ ap (λ x. map lower_byte (trim_back x))
          (trim_front-padded a.before (a.inner ++ a.after) a.spaces.0)
      ∙ ap (map lower_byte) (trim-padded a.inner a.after a.spaces.1)
      ∙ lowered a.inner
      ∙ ap trimmed a.letters
      ∙ sym (lowered t)
      ∙ sym (word-ascii t a.ascii.1)

  -- Two texts for the level that differ only in the case of their letters and in space around the first, and two such texts
  -- for the format, all of them ASCII, set up the same level and the same handler.
  pub setup-IsAlike :
      (level level' format format' : Bytes)
      → IsAlike level level'
      → IsAlike format format'
      → setup u level format ≡ setup u level' format'
  unfolding setup
  setup-IsAlike level level' format format' same_level same_format =
      ap₂ (λ (l f : Bytes). (level_named l, format_named f)) (word-IsAlike level level' same_level)
        (word-IsAlike format format' same_format)
