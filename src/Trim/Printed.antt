-- ===== src/Trim/Printed.antt =====
-- A printed number loses nothing but what was put around it.
use workstation_probe.Common.{
  ℕ, zero, suc, ◌+◌, ◌/◌, ◌%◌, ◌≡◌, refl, ap, Bool, true, false, ◌&&◌, [], ◌∷◌, ◌++◌, arith, ltb,
  all, Bytes, bytes_eq, Bool-cases, inl, inr,
}
use workstation_probe.Common.Int.{ℤ, pos, negsuc}
use workstation_probe.Strconv.{decimal, itoa}
use workstation_probe.Trim.{is_space, is_ascii, trim_front, trim_back, trim_space}

-- ASCII and no white space.
abbrev is_plain : ℕ → Bool
is_plain c = ltb b' ' c && ltb c 128

all-snoc :
    (s : Bytes) (c : ℕ)
    → all is_plain s ≡ true
    → is_plain c ≡ true
    → all is_plain (s ++ c ∷ []) ≡ true
all-snoc [] c h k = rw k refl
all-snoc (x ∷ s) c h k = elim (Bool-cases (is_plain x)) [
  | inl p ↦ rw p (all-snoc s c (rw p at h) k)
  | inr p ↦ ground arith
]

all-decimal : (fuel n : ℕ) → all is_plain (decimal fuel n) ≡ true
unfolding decimal
all-decimal zero n = refl
all-decimal (suc fuel) n = elim (Bool-cases (ltb n 10)) [
  | inl small ↦ ground arith
  | inr big ↦
      let digit : is_plain (b'0' + n % 10) ≡ true = ground arith in
      rw big (all-snoc (decimal fuel (n / 10)) (b'0' + n % 10) (all-decimal fuel (n / 10)) digit)
]

all-itoa : (z : ℤ) → all is_plain (itoa z) ≡ true
unfolding itoa
all-itoa (pos n) = all-decimal (suc n) n
all-itoa (negsuc n) = all-decimal (suc (suc n)) (suc n)

all_ascii : (s : Bytes) → all is_plain s ≡ true → all is_ascii (s ++ 10 ∷ []) ≡ true
all_ascii [] h = refl
all_ascii (c ∷ s) h = elim (Bool-cases (is_plain c)) [
  | inl p ↦ let a : is_ascii c ≡ true = ground arith in rw a (all_ascii s (rw p at h))
  | inr p ↦ ground arith
]

trim_back-snoc : (s : Bytes) → all is_plain s ≡ true → trim_back (s ++ 10 ∷ []) ≡ s
unfolding trim_back bytes_eq
trim_back-snoc [] h = refl
trim_back-snoc (c ∷ s) h = elim (Bool-cases (is_plain c)) [
  | inl p ↦
      let n : is_space c ≡ false = ground arith in
      rw n (ap (λ t. c ∷ t) (trim_back-snoc s (rw p at h)))
  | inr p ↦ ground arith
]

trim_both : (s : Bytes) → all is_plain s ≡ true → trim_back (trim_front (s ++ 10 ∷ [])) ≡ s
unfolding trim_front trim_back
trim_both [] h = refl
trim_both (c ∷ s) h = elim (Bool-cases (is_plain c)) [
  | inl p ↦ let n : is_space c ≡ false = ground arith in rw n (trim_back-snoc (c ∷ s) h)
  | inr p ↦ ground arith
]

-- A printed number with a newline is trimmed to the number.
pub trim_space-itoa :
    (trim_unicode : Bytes → Bytes) (z : ℤ) → trim_space trim_unicode (itoa z ++ 10 ∷ []) ≡ itoa z
unfolding trim_space
trim_space-itoa trim_unicode z =
    rw (all_ascii (itoa z) (all-itoa z)) (trim_both (itoa z) (all-itoa z))
