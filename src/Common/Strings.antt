-- ===== src/Common/Strings.antt =====
-- Go strings as lists of bytes, with the searches that the source calls from `strings`.
use Prim.Native.Nat.{ℕ, suc}
use Prim.Native.Char.{code}
use Prim.Native.String.{String}
use mathlib.Core.Path.{◌≡◌, refl, ap}
use mathlib.Core.Logic.{◌↔◌, ◌≢◌, inl, inr}
use mathlib.Core.Bool.{Bool, true, false, ◌&&◌, ◌||◌}
use mathlib.Core.Option
use mathlib.Core.Option.{Option, none, some}
use mathlib.Core.List.{List, [], ◌∷◌, ◌++◌}
use native.Mathlib.Omega.{arith}
use workstation_probe.Common.Tests.{◌==◌, if◌then◌else◌, Bool-cases, Option-cases}
use workstation_probe.Common.Lists.{length, any, All}

abbrev pub Bytes : Type 0
Bytes = List ℕ

-- The bytes of an ASCII text.
abbrev pub codes : String → Bytes
codes String.[] = []
codes (String.◌∷◌ c s) = code c ∷ codes s

unfoldable pub bytes_eq : Bytes → Bytes → Bool
bytes_eq [] [] = true
bytes_eq [] (_ ∷ _) = false
bytes_eq (_ ∷ _) [] = false
bytes_eq (x ∷ xs) (y ∷ ys) = x == y && bytes_eq xs ys

pub bytes_eq→eq : (a b : Bytes) → bytes_eq a b ≡ true → a ≡ b
unfolding bytes_eq
bytes_eq→eq [] [] h = refl
bytes_eq→eq [] (_ ∷ _) h = cc
bytes_eq→eq (_ ∷ _) [] h = cc
bytes_eq→eq (x ∷ xs) (y ∷ ys) h = ground (arith, bytes_eq→eq xs ys)

pub bytes_eq_refl : (a : Bytes) → bytes_eq a a ≡ true
unfolding bytes_eq
bytes_eq_refl [] = refl
bytes_eq_refl (x ∷ xs) = ground (arith, bytes_eq_refl xs)

pub bytes_eq_iff : (a b : Bytes) → (bytes_eq a b ≡ true) ↔ (a ≡ b)
bytes_eq_iff a b = (bytes_eq→eq a b, λ e. rw e (bytes_eq_refl b))

-- `strings.IndexByte(s, c)`, with `none` for -1.
unfoldable pub index_byte : Bytes → ℕ → Option ℕ
index_byte [] c = none
index_byte (x ∷ xs) c = if x == c then some 0 else Option.map suc (index_byte xs c)

-- `strings.ContainsRune(s, c)` for an ASCII character.
unfoldable pub contains_byte : Bytes → ℕ → Bool
contains_byte s c = any (λ x. x == c) s

-- The byte does not occur.
abbrev pub Lacks : ℕ → Bytes → Type 0
Lacks c s = All (λ x. x ≢ c) s

pub contains_byte-Lacks : (s : Bytes) (c : ℕ) → (contains_byte s c ≡ false) ↔ Lacks c s
unfolding contains_byte
contains_byte-Lacks [] c = (λ _. tt, λ _. refl)
contains_byte-Lacks (x ∷ xs) c = ground (arith, contains_byte-Lacks xs c)

pub Lacks-append : (c : ℕ) (a b : Bytes) → Lacks c a → Lacks c b → Lacks c (a ++ b)
Lacks-append c [] b h k = k
Lacks-append c (x ∷ a) b h k = (h.0, Lacks-append c a b h.1 k)

pub index_byte-append :
    (a b : Bytes) (c : ℕ) → Lacks c a → index_byte (a ++ c ∷ b) c ≡ some (length a)
unfolding index_byte
index_byte-append [] b c h = ground arith
index_byte-append (x ∷ a) b c h = ground (arith, index_byte-append a b c h.1)

-- What the head adds to the search of a tail.
index_byte-cons :
    (x c : ℕ) (s : Bytes)
    → index_byte (x ∷ s) c ≡ (if x == c then some 0 else Option.map suc (index_byte s c))
unfolding index_byte
index_byte-cons x c s = refl

pub index_byte-none : (s : Bytes) (c : ℕ) → index_byte s c ≡ none → Lacks c s
index_byte-none [] c h = tt
index_byte-none (x ∷ s) c h = elim (Option-cases (index_byte s c)) [
  | inl e ↦ ground (arith, index_byte-cons x c s, index_byte-none s c e)
  | inr (i, e) ↦ ground (arith, index_byte-cons x c s)
]

-- A found byte splits the string at its first occurrence.
pub index_byte-some :
    (s : Bytes) (c i : ℕ)
    → index_byte s c ≡ some i
    → (a : Bytes) × (b : Bytes) × (s ≡ a ++ c ∷ b) × (length a ≡ i) × Lacks c a
unfolding index_byte
index_byte-some [] c i h = cc
index_byte-some (x ∷ s) c i h = elim (Bool-cases (x == c)) [
  | inl e ↦ ([], s, ground arith, ground arith, tt)
  | inr e ↦ elim (Option-cases (index_byte s c)) [
    | inl f ↦ ground arith
    | inr (j, f) ↦
        let (a, b, p, q, l) = index_byte-some s c j f in
        (x ∷ a, b, ap (λ t. x ∷ t) p, ground arith, (ground arith, l))
  ]
]

pub contains_byte-append :
    (a b : Bytes) (c : ℕ) → contains_byte (a ++ b) c ≡ (contains_byte a c || contains_byte b c)
unfolding contains_byte
contains_byte-append [] b c = refl
contains_byte-append (x ∷ a) b c = elim (Bool-cases (x == c)) [
  | inl e ↦ rw e
  | inr e ↦ rw e (contains_byte-append a b c)
]

pub bytes_eq-differ : (j k : Bytes) → j ≢ k → bytes_eq j k ≡ false
bytes_eq-differ j k h = elim (Bool-cases (bytes_eq j k)) [
  | inl e ↦ absurd (h ((bytes_eq_iff j k).0 e))
  | inr e ↦ e
]

pub differ : (a b : Bytes) → bytes_eq a b ≡ false → a ≢ b
differ a b h e = let same = (bytes_eq_iff a b).1 e in cc
