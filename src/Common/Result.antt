-- ===== src/Common/Result.antt =====
-- A value or an error, as the pairs `(T, error)` of the source are read.
use mathlib.Core.Path.{◌≡◌, refl}
use mathlib.Core.Logic.{◌⊎◌, inl, inr}
use mathlib.Core.Bool.{Bool, true, false}
use workstation_probe.Common.Tests.{if◌then◌else◌}
use mathlib.Core.Option.{Option, none, some}

pub data Result (E : Type 0) (A : Type 0) : Type 0 where
  ok : A → Result E A
  err : E → Result E A

-- `if err != nil { return err }`, and then the rest.
infixl 5 ◌>>=◌
abbrev pub ◌>>=◌ : {E A B : Type 0} → Result E A → (A → Result E B) → Result E B
err e >>= rest = err e
ok value >>= rest = rest value

-- `if test { return err }`
abbrev pub refuse_if : {E : Type 0} → Bool → E → Result E (Unit {0})
refuse_if test e = if test then err e else ok tt

infixl 5 ◌>>◌
abbrev pub ◌>>◌ : {E B : Type 0} → Result E (Unit {0}) → Result E B → Result E B
check >> rest = check >>= (λ done. rest)

abbrev pub or_error : {E A : Type 0} → Option A → E → Result E A
or_error none e = err e
or_error (some a) e = ok a

-- Inversions of a chain that succeeds.
pub refuse_if-eq-ok :
    {E B : Type 0} (t : Bool) (e : E) (k : Result E B) {b : B}
    → (refuse_if t e >> k) ≡ ok b
    → (t ≡ false) × (k ≡ ok b)
refuse_if-eq-ok true e k h = cc
refuse_if-eq-ok false e k h = (refl, h)

pub or_error-eq-ok :
    {E A B : Type 0} (o : Option A) (e : E) (f : A → Result E B) {b : B}
    → (or_error o e >>= f) ≡ ok b
    → (a : A) × (o ≡ some a) × (f a ≡ ok b)
or_error-eq-ok none e f h = cc
or_error-eq-ok (some a) e f h = (a, refl, h)

pub Result-cases :
    {E A : Type 0} (r : Result E A) → ((a : A) × (r ≡ ok a)) ⊎ ((e : E) × (r ≡ err e))
Result-cases (ok a) = inl (a, refl)
Result-cases (err e) = inr (e, refl)
