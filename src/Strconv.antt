-- ===== src/Strconv.antt =====
-- `strconv.Atoi` and `strconv.Itoa` of the Go library on a 64-bit machine, which the query
-- parameters, the lock file and the headers go through.
pub mod Laws
use workstation_probe.Common.{
  ℕ, zero, suc, ◌+◌, ◌-◌, ◌*◌, ◌/◌, ◌%◌, ◌^◌, Bool, Option, none, some, List, [], ◌∷◌, ◌++◌, leb,
  ltb, ◌==◌, ◌&&◌, if◌then◌else◌, Bytes,
}
use workstation_probe.Common.Int.{ℤ, pos, negsuc, sub_ℕ}

abbrev pub is_digit : ℕ → Bool
is_digit c = leb b'0' c && leb c b'9'

-- The value of a run of decimal digits behind `acc`; `none` at any other byte.
pub digits_from : ℕ → Bytes → Option ℕ
digits_from acc [] = some acc
digits_from acc (c ∷ s) =
    let rest = digits_from (acc * 10 + (c - b'0')) s in if is_digit c then rest else none

-- A non-empty run of digits whose value is at most `limit`.
pub magnitude : ℕ → Bytes → Option ℕ
magnitude limit [] = none
magnitude limit (c ∷ s) = elim (digits_from 0 (c ∷ s)) [
  | none ↦ none
  | some n ↦ if leb n limit then some n else none
]

abbrev negated : Option ℕ → Option ℤ
negated none = none
negated (some n) = some (sub_ℕ 0 n)

abbrev signed : Option ℕ → Option ℤ
signed none = none
signed (some n) = some (pos n)

-- `strconv.Atoi` on a 64-bit machine; `none` is an error, of syntax or of range.
pub atoi : Bytes → Option ℤ
atoi [] = none
atoi (c ∷ s) =
    if c == b'-'
    then negated (magnitude (2 ^ 63) s)
    else if c == b'+'
    then signed (magnitude (2 ^ 63 - 1) s)
    else signed (magnitude (2 ^ 63 - 1) (c ∷ s))

-- The decimal digits of a number. The fuel counts the digits; `suc n` is enough.
unfoldable pub decimal : ℕ → ℕ → Bytes
decimal zero n = []
decimal (suc fuel) n =
    let more = decimal fuel (n / 10) ++ (b'0' + n % 10) ∷ [] in
    if ltb n 10 then (b'0' + n) ∷ [] else more

unfoldable pub itoa : ℤ → Bytes
unfolding decimal
itoa (pos n) = decimal (suc n) n
itoa (negsuc n) = b'-' ∷ decimal (suc (suc n)) (suc n)
