-- ===== src/Ring.antt =====
-- internal/metrics/ringbuffer.go: the fixed-capacity FIFO under every collector. Each method holds
-- the buffer's lock from its first to its last access, so a call is one step on the state.
pub mod Inv
pub mod Latest
pub mod Refine
use workstation_probe.Common.{
  ℕ, ◌+◌, ◌-◌, ◌%◌, Bool, true, false, not, ◌&&◌, Option, none, some, List, [], ◌∷◌, ◌++◌, ltb,
  ◌==◌, if◌then◌else◌, get_elem?, set, take, drop, replicate,
}
use workstation_probe.Common.Int.{ℤ, pos, leb_ℤ, pos_part}

-- The mutex has no content here, and `storage` is the field `data`.
pub record RingBuffer {ℓ} (T : Type ℓ) : Type ℓ where
  pub cap : ℕ
  pub storage : List T
  pub head : ℕ
  pub full : Bool

-- `copy(dst, src)`: as many elements as both have.
abbrev pub copy {ℓ} : {T : Type ℓ} → List T → List T → List T
copy [] src = []
copy (d ∷ dst) [] = d ∷ dst
copy (d ∷ dst) (s ∷ src) = s ∷ copy dst src

-- `copy(dst[k:], src)`, as the whole of `dst` afterwards.
abbrev pub copy_at {ℓ} : {T : Type ℓ} → List T → ℕ → List T → List T
copy_at dst k src = take k dst ++ copy (drop k dst) src

-- `zero` is the zero value of the element type, with which `make` fills a slice.
module _ {ℓ} {T : Type ℓ} (zero_value : T) where
  -- `none` is a panic: the one on a capacity that is not positive, or that of `make` on a length that
  -- the runtime does not allocate for this element type, which `fits` tells.
  unfoldable pub new_ring_buffer : (fits : ℕ → Bool) → ℤ → Option (RingBuffer T)
  new_ring_buffer fits capacity =
      if leb_ℤ capacity (pos 0)
      then none
      else if fits (pos_part capacity)
      then some (record {
        cap = pos_part capacity;
        storage = replicate (pos_part capacity) zero_value;
        head = 0;
        full = false;
      })
      else none

  -- The copied slices: `out` is made with `n` zero values and then written to.
  unfoldable pub snapshot : RingBuffer T → List T
  snapshot r =
      let n = if r.full then r.cap else r.head in
      let out = replicate n zero_value in
      if r.full
      then copy_at (copy out (drop r.head r.storage)) (r.cap - r.head) (take r.head r.storage)
      else copy out (take r.head r.storage)

module _ {ℓ} {T : Type ℓ} where
  pub len : RingBuffer T → ℕ
  len r = if r.full then r.cap else r.head

  abbrev advance : RingBuffer T → ℕ
  advance r = (r.head + 1) % r.cap

  -- `IsValid.head_in` rules out the write out of range.
  pub push : RingBuffer T → T → RingBuffer T
  push r v = record r {
    storage = set r.storage r.head v;
    head = advance r;
    full = if advance r == 0 then true else r.full;
  }

  -- `none` for the second result `false`. `r.head - 1` is negative exactly at head 0.
  unfoldable pub latest : RingBuffer T → Option T
  latest r =
      if not r.full && r.head == 0
      then none
      else get_elem? r.storage (if ltb r.head 1 then r.cap - 1 else r.head - 1)
