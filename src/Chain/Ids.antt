-- ===== src/Chain/Ids.antt =====
-- The request ids that the middleware hands out.
use workstation_probe.Common.{
  ℕ, zero, suc, ◌*◌, ◌/◌, ◌%◌, ◌<◌, ◌≡◌, inl, inr, refl, ap, true, false, Option, none, some, [],
  ◌∷◌, length, all, ltb, Bool-cases, arith, Bytes, bytes_eq,
}
use workstation_probe.Chain.{
  Surroundings, is_id_byte, valid_request_id, hex_digit, hex, id_bytes, clock_bytes, new_request_id,
  request_id_of,
}

hex_digit-is_id_byte : (n : ℕ) → n < 16 → is_id_byte (hex_digit n) ≡ true
hex_digit-is_id_byte n h = ground arith

hex-all : (b : Bytes) → all is_id_byte (hex b) ≡ true
unfolding hex
hex-all [] = refl
hex-all (c ∷ b) =
    rw
      (
        hex_digit-is_id_byte (c / 16 % 16) (omega arith),
        hex_digit-is_id_byte (c % 16) (omega arith),
        hex-all b,
      )
      refl

length-hex : (b : Bytes) → length (hex b) ≡ 2 * length b
unfolding hex
length-hex [] = refl
length-hex (c ∷ b) = let e = length-hex b in omega arith

length-clock_bytes : (n now : ℕ) → length (clock_bytes n now) ≡ n
unfolding clock_bytes
length-clock_bytes zero now = refl
length-clock_bytes (suc n) now = ap suc (length-clock_bytes n (now / 256))

-- `rand.Read` fills the eight bytes unless it fails.
abbrev pub IsFull : Option Bytes → Type 0
IsFull none = Unit
IsFull (some b) = length b ≡ 8

hex-valid_request_id : (b : Bytes) → length b ≡ 8 → valid_request_id (hex b) ≡ true
unfolding valid_request_id bytes_eq hex
hex-valid_request_id [] h = absurd (omega arith)
hex-valid_request_id (c ∷ b) h =
    let n = length-hex (c ∷ b) in
    let short : ltb 128 (length (hex (c ∷ b))) ≡ false = ground arith in
    rw (short, hex-all (c ∷ b)) refl

pub new_request_id-valid :
    (s : Surroundings) → IsFull s.random → valid_request_id (new_request_id s) ≡ true
unfolding new_request_id
new_request_id-valid s h = by_source s.random h
  where
    by_source :
        (random : Option Bytes)
        → IsFull random
        → valid_request_id (hex (id_bytes random s.unix_nano)) ≡ true
    by_source none h =
        hex-valid_request_id (clock_bytes 8 s.unix_nano) (length-clock_bytes 8 s.unix_nano)
    by_source (some b) h = hex-valid_request_id b h

pub request_id_of-valid :
    (s : Surroundings) (id : Bytes) → IsFull s.random → valid_request_id (request_id_of s id) ≡ true
unfolding request_id_of
request_id_of-valid s id full = elim (Bool-cases (valid_request_id id)) [
  | inl e ↦ rw e e
  | inr e ↦ rw e (new_request_id-valid s full)
]
