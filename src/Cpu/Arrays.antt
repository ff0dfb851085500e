-- ===== src/Cpu/Arrays.antt =====
-- The arrays behind the slices of float64, by address. Nothing frees an array that is referred to.
use workstation_probe.Common.{
  ℕ, ◌+◌, ◌≡◌, ◌≢◌, Option, none, some, List, [], arith, set, ◌==◌, if◌then◌else◌,
}
use workstation_probe.Common.Float.{Float64}

pub record Store (f : Float64) : Type 0 where
  pub cells : ℕ → List f.Float
  pub next : ℕ

-- `none` is the nil slice; every other slice spans its array.
abbrev pub Slice : Type 0
Slice = Option ℕ

abbrev pub nil_slice : Slice
nil_slice = none

module _ (f : Float64) where
  abbrev pub read : Store f → Slice → List f.Float
  read st none = []
  read st (some a) = st.cells a

  -- `s[i] = v`; nothing is written through the nil slice, which has no index in range.
  abbrev pub write : Store f → Slice → ℕ → f.Float → Store f
  write st none i v = st
  write st (some a) i v = record st {
    cells = λ b. if b == a then set (st.cells a) i v else st.cells b;
  }

  -- A fresh array with the given content.
  abbrev pub alloc : List f.Float → Store f → Slice × Store f
  alloc content st = (
    some st.next,
    record { cells = λ b. if b == st.next then content else st.cells b; next = st.next + 1 },
  )

  pub read-write_self :
      (st : Store f) (a i : ℕ) (v : f.Float)
      → read (write st (some a) i v) (some a) ≡ set (read st (some a)) i v
  read-write_self st a i v = ground arith

  pub read-write_ne :
      (st : Store f) (a b i : ℕ) (v : f.Float)
      → b ≢ a
      → read (write st (some a) i v) (some b) ≡ read st (some b)
  read-write_ne st a b i v h = ground arith
