-- ===== src/Chain/Sizes.antt =====
-- The sizes of what a request brings into the log.
use workstation_probe.Common.{
  ℕ, suc, zero, ◌≤◌, ◌<◌, ◌≡◌, inl, inr, true, List, [], ◌∷◌, length, length-append, leb, take, all,
  Bool-cases, arith, Bytes, codes, bytes_eq,
}
use workstation_probe.Chain.{log_path, is_id_byte, valid_request_id}

length-take_le : {A : Type 0} (n : ℕ) (xs : List A) → length (take n xs) ≤ n
length-take_le zero xs = omega arith
length-take_le (suc n) [] = omega arith
length-take_le (suc n) (x ∷ xs) = omega (arith, length-take_le n xs)

-- 512 bytes of the path, and 14 that say so if there were more.
pub length-log_path : (path : Bytes) → length (log_path path) ≤ 526
unfolding log_path
length-log_path path = elim (Bool-cases (leb (length path) 512)) [
  | inl e ↦ rw e (ground arith)
  | inr e ↦ rw e (
      omega (
        arith,
        length-append {0} (take 512 path) (codes "...(truncated)"),
        length-take_le 512 path,
      ))
]

abbrev pub IsId : Bytes → Type 0
IsId id = (0 < length id) × (length id ≤ 128) × (all is_id_byte id ≡ true)

pub valid_request_id-IsId : (id : Bytes) → valid_request_id id ≡ true → IsId id
unfolding valid_request_id bytes_eq
valid_request_id-IsId [] h = cc
valid_request_id-IsId (c ∷ id) h = ground arith
