-- ===== src/Ring/Latest.antt =====
-- `Latest` against the content of the ring buffer.
use workstation_probe.Common.{
  ℕ, zero, suc, ◌-◌, ◌<◌, ◌≡◌, refl, ◌∙◌, Bool, true, false, List, [], ◌∷◌, ◌++◌, arith, length,
  take, drop, get_elem?, last?, split_at, append_assoc, append-nil, last?-append, ap,
  get_elem?-length-append,
}
use native.Mathlib.Numerals.{add-one}
use workstation_probe.Ring.{RingBuffer, snapshot, latest}
use workstation_probe.Ring.Inv.{IsValid, contents, snapshot-contents}
use workstation_probe.Ring.Refine.{take-suc-length}

index : (k : ℕ) → suc k - 1 ≡ k
index k = omega arith

module _ {ℓ} {T : Type ℓ} where
  last?-eq-get_elem? : (xs : List T) → last? xs ≡ get_elem? xs (length xs - 1)
  last?-eq-get_elem? [] = refl
  last?-eq-get_elem? (x ∷ []) = refl
  last?-eq-get_elem? (x ∷ y ∷ xs) =
      let e : suc (suc (length xs)) - 1 ≡ suc (length xs) = omega arith in
      let f : suc (length xs) - 1 ≡ length xs = omega arith in
      rw e (last?-eq-get_elem? (y ∷ xs) ∙ ap (get_elem? (y ∷ xs)) f)

  last?-append-take :
      (before s : List T) (h : ℕ) → h < length s → last? (before ++ take (suc h) s) ≡ get_elem? s h
  last?-append-take before s h lt =
      let (us, y, vs, e, n) = split_at s h lt in
      rw (
        e,
        ← n,
        ← add-one,
        take-suc-length us y vs,
        ← append_assoc,
        last?-append,
        get_elem?-length-append us y vs,
      )

  latest-contents :
      (cap : ℕ) (storage : List T) (head : ℕ) (full : Bool)
      → length storage ≡ cap
      → head < cap
      → let r : RingBuffer T = record { cap = cap; storage = storage; head = head; full = full } in
        latest r ≡ last? (contents r)
  unfolding latest
  latest-contents cap storage zero false l h = refl
  latest-contents cap storage zero true l h = rw (append-nil, last?-eq-get_elem? storage, l)
  latest-contents cap storage (suc k) false l h =
      ground (arith, last?-append-take [] storage k (omega arith), index k)
  latest-contents cap storage (suc k) true l h =
      ground (arith, last?-append-take (drop (suc k) storage) storage k (omega arith), index k)

  -- On a valid buffer `Latest` is the last element of `Snapshot`; both are absent together.
  pub latest-snapshot :
      (zero_value : T) {r : RingBuffer T} → IsValid r → latest r ≡ last? (snapshot zero_value r)
  unfolding latest
  latest-snapshot z {r} w =
      rw (snapshot-contents z w) (latest-contents r.cap r.storage r.head r.full w.storage w.head_in)
