-- ===== src/Strconv/Laws.antt =====
-- Reading back what was printed, and the range of what is read.
use workstation_probe.Common.{
  ℕ, zero, suc, ◌+◌, ◌-◌, ◌*◌, ◌/◌, ◌%◌, ◌^◌, ◌≤◌, ◌<◌, ◌≡◌, refl, true, some, [], ◌∷◌, ◌++◌, arith,
  ltb, Bytes, Bool-cases, inl, inr, ◌∙◌, ap,
}
use workstation_probe.Common.Int.{ℤ, pos, negsuc, pos_part, neg_part}
use workstation_probe.Strconv.{is_digit, digits_from, magnitude, atoi, decimal, itoa}

digits_from-snoc :
    (acc : ℕ) (s : Bytes) (c m : ℕ)
    → is_digit c ≡ true
    → digits_from acc s ≡ some m
    → digits_from acc (s ++ c ∷ []) ≡ some (m * 10 + (c - b'0'))
unfolding digits_from
digits_from-snoc acc [] c m h e = ground arith
digits_from-snoc acc (x ∷ s) c m h e = elim (Bool-cases (is_digit x)) [
  | inl d ↦ rw d (digits_from-snoc (acc * 10 + (x - b'0')) s c m h (rw (d, digits_from) at e))
  | inr d ↦ ground arith
]

digits_from-decimal : (fuel n : ℕ) → n < fuel → digits_from 0 (decimal fuel n) ≡ some n
unfolding decimal digits_from
digits_from-decimal zero n h = elim h [ ]
digits_from-decimal (suc fuel) n h = elim (Bool-cases (ltb n 10)) [
  | inl small ↦ ground arith
  | inr big ↦
      let value : n / 10 * 10 + (b'0' + n % 10 - b'0') ≡ n = omega arith in
      let digit : is_digit (b'0' + n % 10) ≡ true = ground arith in
      let front = digits_from-decimal fuel (n / 10) (ground arith) in
      rw big (
        digits_from-snoc 0 (decimal fuel (n / 10)) (b'0' + n % 10) (n / 10) digit front
        ∙ ap some value)
]

-- What is printed begins with a digit.
decimal-cons :
    (fuel n : ℕ) → n < fuel → (c : ℕ) × (s : Bytes) × (decimal fuel n ≡ c ∷ s) × (is_digit c ≡ true)
unfolding decimal
decimal-cons zero n h = elim h [ ]
decimal-cons (suc fuel) n h = elim (Bool-cases (ltb n 10)) [
  | inl small ↦ (b'0' + n, [], rw small, ground arith)
  | inr big ↦
      let (c, s, e, d) = decimal-cons fuel (n / 10) (ground arith) in
      (c, s ++ (b'0' + n % 10) ∷ [], rw (big, e), d)
]

magnitude-decimal :
    (limit fuel n : ℕ) → n < fuel → n ≤ limit → magnitude limit (decimal fuel n) ≡ some n
unfolding magnitude
magnitude-decimal limit fuel n h k =
    let (c, s, e, _) = decimal-cons fuel n h in
    let back : digits_from 0 (c ∷ s) ≡ some n = rw (← e) (digits_from-decimal fuel n h) in
    rw e (ground (arith, back))

atoi-decimal : (fuel n : ℕ) → n < fuel → n < 2 ^ 63 → atoi (decimal fuel n) ≡ some (pos n)
unfolding atoi
atoi-decimal fuel n h k =
    let (c, s, e, d) = decimal-cons fuel n h in
    let back : magnitude (2 ^ 63 - 1) (c ∷ s) ≡ some n =
      rw (← e) (magnitude-decimal (2 ^ 63 - 1) fuel n h (omega arith)) in
    rw e (ground (arith, back))

-- The value of an `int64` survives printing and reading.
pub atoi-itoa : (z : ℤ) → pos_part z < 2 ^ 63 → neg_part z ≤ 2 ^ 63 → atoi (itoa z) ≡ some z
unfolding atoi itoa
atoi-itoa (pos n) h k = atoi-decimal (suc n) n (omega arith) h
atoi-itoa (negsuc n) h k =
    rw (magnitude-decimal (2 ^ 63) (suc (suc n)) (suc n) (omega arith) k) (ground arith)

magnitude-le : (limit : ℕ) (s : Bytes) (n : ℕ) → magnitude limit s ≡ some n → n ≤ limit
unfolding magnitude
magnitude-le limit [] n h = ground arith
magnitude-le limit (c ∷ s) n h = ground arith

-- What `Atoi` returns fits an `int64`.
pub atoi-range :
    (s : Bytes) (z : ℤ) → atoi s ≡ some z → (pos_part z < 2 ^ 63) × (neg_part z ≤ 2 ^ 63)
unfolding atoi
atoi-range [] z h = ground arith
atoi-range (c ∷ s) z h =
    grind (
      arith,
      magnitude-le (2 ^ 63) s,
      magnitude-le (2 ^ 63 - 1) s,
      magnitude-le (2 ^ 63 - 1) (c ∷ s),
    )

-- What is printed is not empty.
pub itoa-cons : (z : ℤ) → (c : ℕ) × (s : Bytes) × (itoa z ≡ c ∷ s)
unfolding itoa
itoa-cons (pos n) = let (c, s, e, _) = decimal-cons (suc n) n (omega arith) in (c, s, e)
itoa-cons (negsuc n) = (b'-', decimal (suc (suc n)) (suc n), refl)
