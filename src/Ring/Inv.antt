-- ===== src/Ring/Inv.antt =====
-- The representation invariant of the ring buffer, and what it holds in chronological order.
use workstation_probe.Common.{
  Bool, ℕ, zero, suc, ◌+◌, ◌-◌, ◌≤◌, ◌<◌, ◌≡◌, refl, some, List, [], ◌∷◌, ◌++◌, arith, length, take,
  drop, replicate, length-set, length-replicate, Bool-cases, inl, inr, if◌then◌else◌, length-append,
  length-drop, take-length-append, drop-length-append, ap,
}
use workstation_probe.Common.Int.{ℤ, pos}
use workstation_probe.Ring.{RingBuffer, copy, copy_at, new_ring_buffer, snapshot, push, len}

pub record IsValid {ℓ} {T : Type ℓ} (r : RingBuffer T) : Type 0 where
  pub storage : length r.storage ≡ r.cap
  pub head_in : r.head < r.cap

-- Oldest first: the part behind the write index, then the part before it.
abbrev pub contents {ℓ} : {T : Type ℓ} → RingBuffer T → List T
contents r =
    if r.full then drop r.head r.storage ++ take r.head r.storage else take r.head r.storage

module _ {ℓ} {T : Type ℓ} where
  pub new_ring_buffer-IsValid :
      (zero_value : T) (fits : ℕ → Bool) (capacity : ℤ) {r : RingBuffer T}
      → new_ring_buffer zero_value fits capacity ≡ some r
      → IsValid r × (contents r ≡ []) × (pos r.cap ≡ capacity)
  unfolding new_ring_buffer
  new_ring_buffer-IsValid zero_value fits (pos n) h = ground (arith, length-replicate n zero_value)
  new_ring_buffer-IsValid zero_value fits capacity h = ground arith

  pub push-IsValid : {r : RingBuffer T} (v : T) → IsValid r → IsValid (push r v)
  unfolding push
  push-IsValid {r} v w =
      let l = length-set r.storage r.head v in
      record { storage = omega (arith, l); head_in = omega arith }

  pub cap-push : (r : RingBuffer T) (v : T) → (push r v).cap ≡ r.cap
  unfolding push
  cap-push r v = refl

  length-take-le : (n : ℕ) (xs : List T) → n ≤ length xs → length (take n xs) ≡ n
  length-take-le zero xs h = refl
  length-take-le (suc n) [] h = absurd (omega arith)
  length-take-le (suc n) (x ∷ xs) h = ap suc (length-take-le n xs (omega arith))

  -- Copying onto as many fresh elements leaves the source.
  copy-replicate : (z : T) (n : ℕ) (src : List T) → length src ≡ n → copy (replicate n z) src ≡ src
  copy-replicate z zero [] h = refl
  copy-replicate z zero (s ∷ src) h = absurd (omega arith)
  copy-replicate z (suc n) [] h = absurd (omega arith)
  copy-replicate z (suc n) (s ∷ src) h = ap (λ t. s ∷ t) (copy-replicate z n src (omega arith))

  -- Copying fewer leaves the rest of the fresh elements.
  copy-replicate_short :
      (z : T) (n : ℕ) (src : List T)
      → length src ≤ n
      → copy (replicate n z) src ≡ src ++ replicate (n - length src) z
  copy-replicate_short z zero [] h = refl
  copy-replicate_short z zero (s ∷ src) h = absurd (omega arith)
  copy-replicate_short z (suc n) [] h = let e : suc n - 0 ≡ suc n = omega arith in rw e
  copy-replicate_short z (suc n) (s ∷ src) h =
      let e : suc n - suc (length src) ≡ n - length src = omega arith in
      rw e (ap (λ t. s ∷ t) (copy-replicate_short z n src (omega arith)))

  -- The two copies of a full buffer join its two parts.
  copy_at-halves :
      (z : T) (a b : List T)
      → copy_at (copy (replicate (length b + length a) z) b) (length b) a ≡ b ++ a
  copy_at-halves z a b =
      let e : length b + length a - length b ≡ length a = omega arith in
      rw (
        copy-replicate_short z (length b + length a) b (omega arith),
        e,
        take-length-append,
        drop-length-append,
        copy-replicate z (length a) a refl,
      )

  -- Together the two parts of the storage are as long as the storage.
  halves-length :
      {r : RingBuffer T}
      → IsValid r
      → length (drop r.head r.storage) + length (take r.head r.storage) ≡ r.cap
  halves-length {r} w =
      omega (arith, length-drop {ℓ} r.head r.storage, length-take-le r.head r.storage (omega arith))

  pub length-contents : {r : RingBuffer T} → IsValid r → length (contents r) ≡ len r
  unfolding len
  length-contents {r} w = elim (Bool-cases r.full) [
    | inl e ↦ rw (e, length-append) (halves-length w)
    | inr e ↦ rw e (length-take-le r.head r.storage (omega arith))
  ]

  -- The slice that `snapshot` copies out is the content in chronological order.
  pub snapshot-contents :
      (zero_value : T) {r : RingBuffer T} → IsValid r → snapshot zero_value r ≡ contents r
  unfolding snapshot
  snapshot-contents z {r} w = elim (Bool-cases r.full) [
    | inl e ↦ rw e (
        full_case (take r.head r.storage) (drop r.head r.storage)
          (omega (arith, length-drop {ℓ} r.head r.storage)) (halves-length w))
    | inr e ↦ rw e (
        copy-replicate z r.head (take r.head r.storage)
          (length-take-le r.head r.storage (omega arith)))
  ]
    where
      full_case :
          (a b : List T)
          → length b ≡ r.cap - r.head
          → length b + length a ≡ r.cap
          → copy_at (copy (replicate r.cap z) b) (r.cap - r.head) a ≡ b ++ a
      full_case a b p q = rw (← p, ← q) (copy_at-halves z a b)
