-- ===== src/Ring/Refine.antt =====
-- A valid ring buffer against a queue that keeps the newest `cap` elements.
use workstation_probe.Common.{
  ℕ, suc, ◌+◌, ◌-◌, ◌%◌, ◌≤◌, ◌<◌, ◌≡◌, refl, ◌∙◌, subst, Bool, true, false, some, List, [], ◌∷◌,
  ◌++◌, arith, length, take, drop, if◌then◌else◌, length-append, length-drop, take-length-append,
  drop-length-append, set-length-append, split_at, append_assoc, append-nil, drop-drop, drop-append,
  ap, sym, ◌==◌,
}
use native.Mathlib.Numerals.{add-one}
use native.Mathlib.Nat.{mod-eq_of_lt}
use workstation_probe.Common.Int.{pos}
use workstation_probe.Ring.{RingBuffer, new_ring_buffer, snapshot, push, len}
use workstation_probe.Ring.Inv.{
  IsValid, contents, length-contents, push-IsValid, cap-push, new_ring_buffer-IsValid,
  snapshot-contents,
}

-- Append, and forget the oldest elements beyond `cap`.
abbrev pub push_bounded {ℓ} : {T : Type ℓ} → ℕ → List T → T → List T
push_bounded cap q v = drop (length q + 1 - cap) (q ++ v ∷ [])

module _ {ℓ} {T : Type ℓ} where
  drop-suc-length : (us : List T) (v : T) (vs : List T) → drop (length us + 1) (us ++ v ∷ vs) ≡ vs
  drop-suc-length us v vs = rw (add-one, drop_suc us v vs)
    where
      drop_suc : (us : List T) (v : T) (vs : List T) → drop (suc (length us)) (us ++ v ∷ vs) ≡ vs
      drop_suc [] v vs = refl
      drop_suc (u ∷ us) v vs = drop_suc us v vs

  pub take-suc-length :
      (us : List T) (v : T) (vs : List T) → take (length us + 1) (us ++ v ∷ vs) ≡ us ++ v ∷ []
  take-suc-length us v vs = rw (add-one, take_suc us v vs)
    where
      take_suc :
          (us : List T) (v : T) (vs : List T) → take (suc (length us)) (us ++ v ∷ vs) ≡ us ++ v ∷ []
      take_suc [] v vs = refl
      take_suc (u ∷ us) v vs = ap (λ t. u ∷ t) (take_suc us v vs)

  no_wrap : (us vs : List T) → (length us + 1) % (length us + suc (suc (length vs))) ≡ length us + 1
  no_wrap us vs =
      let lt : length us + 1 < length us + suc (suc (length vs)) = omega arith in mod-eq_of_lt lt

  ne_zero : (us : List T) → ((length us + 1) == 0) ≡ false
  ne_zero us = ground arith

  -- One push at the index `length us` of the storage `us ++ y ∷ vs`. An element is forgotten
  -- exactly if the buffer is full.
  push_at :
      (us : List T) (y : T) (vs : List T) (full : Bool) (v : T)
      → let r : RingBuffer T = record {
        cap = length us + suc (length vs);
        storage = us ++ y ∷ vs;
        head = length us;
        full = full;
      } in
        contents (push r v) ≡ (if full then vs ++ (us ++ v ∷ []) else us ++ v ∷ [])
  unfolding push
  push_at us y [] full v =
      let wrap : (length us + 1) % (length us + 1) ≡ 0 = grind arith in
      rw (wrap, set-length-append us y [] v, append-nil) (same full)
    where
      same : (b : Bool) → us ++ v ∷ [] ≡ (if b then us ++ v ∷ [] else us ++ v ∷ [])
      same true = refl
      same false = refl
  push_at us y (z ∷ vs) true v =
      rw
        (
          no_wrap us vs,
          set-length-append us y (z ∷ vs) v,
          ne_zero us,
          drop-suc-length,
          take-suc-length,
        )
        refl
  push_at us y (z ∷ vs) false v =
      rw (no_wrap us vs, set-length-append us y (z ∷ vs) v, ne_zero us, take-suc-length) refl

  -- What the bounded queue does with the same contents.
  bounded_at :
      (us : List T) (y : T) (vs : List T) (full : Bool) (v : T)
      → let r : RingBuffer T = record {
        cap = length us + suc (length vs);
        storage = us ++ y ∷ vs;
        head = length us;
        full = full;
      } in
        push_bounded r.cap (contents r) v ≡ (if full then vs ++ (us ++ v ∷ []) else us ++ v ∷ [])
  bounded_at us y vs true v =
      let e : suc (length vs + length us) + 1 - (length us + suc (length vs)) ≡ 1 = omega arith in
      rw (drop-length-append us (y ∷ vs), take-length-append us (y ∷ vs), length-append, e)
        (append_assoc vs us (v ∷ []))
  bounded_at us y vs false v =
      let e : length us + 1 - (length us + suc (length vs)) ≡ 0 = omega arith in
      rw (take-length-append us (y ∷ vs), e)

  -- A push on a valid buffer is a push on the bounded queue of its contents.
  pub push_refines :
      {r : RingBuffer T} (v : T)
      → IsValid r
      → contents (push r v) ≡ push_bounded r.cap (contents r) v
  push_refines {r} v w =
      let (us, y, vs, e, n) = split_at r.storage r.head (omega arith) in
      let c : r.cap ≡ length us + suc (length vs) =
        omega (arith, w.storage, ap length e, length-append {ℓ} us (y ∷ vs)) in
      let same : r ≡ record {
        cap = length us + suc (length vs);
        storage = us ++ y ∷ vs;
        head = length us;
        full = r.full;
      } =
        λ i. record { cap = c i; storage = e i; head = sym n i; full = r.full } in
      subst (λ (s : RingBuffer T). contents (push s v) ≡ push_bounded s.cap (contents s) v)
        (sym same) (push_at us y vs r.full v ∙ sym (bounded_at us y vs r.full v))

  -- The calls of `push` for the elements of a list, in order.
  abbrev pub push_all : RingBuffer T → List T → RingBuffer T
  push_all r [] = r
  push_all r (x ∷ xs) = push_all (push r x) xs

  pub push_all-IsValid : (xs : List T) {r : RingBuffer T} → IsValid r → IsValid (push_all r xs)
  push_all-IsValid [] w = w
  push_all-IsValid (x ∷ xs) w = push_all-IsValid xs (push-IsValid x w)

  pub cap-push_all : (r : RingBuffer T) (xs : List T) → (push_all r xs).cap ≡ r.cap
  cap-push_all r [] = refl
  cap-push_all r (x ∷ xs) = cap-push_all (push r x) xs ∙ cap-push r x

  -- Forgetting step by step is forgetting at the end.
  bounded_trim :
      (cap : ℕ) (q xs : List T) (x : T)
      → length q ≤ cap
      → drop (length (push_bounded cap q x) + length xs - cap) (push_bounded cap q x ++ xs)
        ≡ drop (length q + suc (length xs) - cap) (q ++ x ∷ xs)
  bounded_trim cap q xs x h =
      let room : length q + 1 - cap ≤ length (q ++ x ∷ []) =
        omega (arith, length-append {ℓ} q (x ∷ [])) in
      let e : length q
            + 1
            - cap
            + (length (drop (length q + 1 - cap) (q ++ x ∷ [])) + length xs - cap)
          ≡ length q + suc (length xs) - cap =
        omega (
          arith,
          length-drop {ℓ} (length q + 1 - cap) (q ++ x ∷ []),
          length-append {ℓ} q (x ∷ []),
        ) in
      rw (← drop-append (length q + 1 - cap) (q ++ x ∷ []) xs room, drop-drop, e, append_assoc)

  length-contents-le : {r : RingBuffer T} → IsValid r → length (contents r) ≤ r.cap
  unfolding len
  length-contents-le {r} w = ground (arith, length-contents w)

  contents-push_all :
      (xs : List T) {r : RingBuffer T}
      → IsValid r
      → contents (push_all r xs) ≡ drop (length (contents r) + length xs - r.cap) (contents r ++ xs)
  contents-push_all [] {r} w =
      let e : length (contents r) + 0 - r.cap ≡ 0 = omega (arith, length-contents-le w) in
      rw (e, append-nil)
  contents-push_all (x ∷ xs) {r} w =
      rw (contents-push_all xs (push-IsValid x w), push_refines x w, cap-push)
        (bounded_trim r.cap (contents r) xs x (length-contents-le w))

  -- After any pushes onto a new buffer, `Snapshot` is the newest `cap` of them, oldest first.
  pub snapshot-push_all :
      (zero_value : T) (fits : ℕ → Bool) (capacity : ℕ) (xs : List T) {r : RingBuffer T}
      → new_ring_buffer zero_value fits (pos capacity) ≡ some r
      → snapshot zero_value (push_all r xs) ≡ drop (length xs - capacity) xs
  snapshot-push_all z fits capacity xs {r} h =
      let (w, empty, c) = new_ring_buffer-IsValid z fits (pos capacity) h in
      let e : r.cap ≡ capacity = ground arith in
      let k : 0 + length xs ≡ length xs = omega arith in
      rw (snapshot-contents z (push_all-IsValid xs w), contents-push_all xs w, empty, e, k)

  -- On a valid buffer `Len` counts what `Snapshot` returns, and does not exceed the capacity.
  pub len-snapshot :
      (zero_value : T) {r : RingBuffer T}
      → IsValid r
      → (len r ≡ length (snapshot zero_value r)) × (len r ≤ r.cap)
  len-snapshot z w = (
    rw (snapshot-contents z w, length-contents w),
    rw (← length-contents w) (length-contents-le w),
  )
