-- ===== src/Cpu/Peak.antt =====
-- What `Peak` does to the arrays: its first sample of the window is a struct copy, so the maxima are
-- written into the array that the stored sample refers to.
use workstation_probe.Common.{
  ℕ, zero, suc, ◌+◌, ◌≤◌, ◌≡◌, ◌≢◌, refl, ap, ◌∙◌, none, some, List, [], ◌∷◌, arith, if◌then◌else◌,
  length, get_elem?, set,
}
use workstation_probe.Common.Float.{Float64}
use workstation_probe.Cpu.Arrays.{Store, read}
use workstation_probe.Cpu.{Sample, raise_at, raise_cores, longer_of, raise}

module _ (f : Float64) where
  abbrev Floats : Type 0
  Floats = List f.Float

  -- The larger value at each core, of two readings; the older reading's further cores are ignored.
  abbrev pub zip_raise : Floats → Floats → Floats
  zip_raise [] qs = qs
  zip_raise (v ∷ vs) [] = []
  zip_raise (v ∷ vs) (q ∷ qs) = (if f.gt v q then v else q) ∷ zip_raise vs qs

  -- One round of the inner loop, on the contents of the two arrays.
  abbrev raise_index : Floats → ℕ → Floats → Floats
  raise_index vs i qs = elim (get_elem? vs i) [
    | none ↦ qs
    | some v ↦ elim (get_elem? qs i) [ none ↦ qs | some q ↦ if f.gt v q then set qs i v else qs ]
  ]

  abbrev raise_list : ℕ → Floats → ℕ → Floats → Floats
  raise_list zero vs i qs = qs
  raise_list (suc n) vs i qs = raise_list n vs (i + 1) (raise_index vs i qs)

  raise_at_self :
      (st : Store f) (b a i : ℕ)
      → read f (raise_at f (some b) (some a) i st) (some a)
        ≡ raise_index (read f st (some b)) i (read f st (some a))
  unfolding raise_at
  raise_at_self st b a i = ground arith

  raise_at-ne :
      (st : Store f) (b a c i : ℕ)
      → c ≢ a
      → read f (raise_at f (some b) (some a) i st) (some c) ≡ read f st (some c)
  unfolding raise_at
  raise_at-ne st b a c i h = ground arith

  -- The inner loop, while the array that it reads is not the one that it writes.
  raise_cores_self :
      (n : ℕ) (st : Store f) (b a i : ℕ)
      → b ≢ a
      → read f (raise_cores f n (some b) (some a) i st) (some a)
        ≡ raise_list n (read f st (some b)) i (read f st (some a))
  unfolding raise_cores
  raise_cores_self zero st b a i h = refl
  raise_cores_self (suc n) st b a i h = rw (
    raise_cores_self n (raise_at f (some b) (some a) i st) b a (i + 1) h,
    raise_at_self st b a i,
    raise_at-ne st b a b i h,
  )

  raise_cores-ne :
      (n : ℕ) (st : Store f) (b a c i : ℕ)
      → c ≢ a
      → read f (raise_cores f n (some b) (some a) i st) (some c) ≡ read f st (some c)
  unfolding raise_cores
  raise_cores-ne zero st b a c i h = refl
  raise_cores-ne (suc n) st b a c i h =
      raise_cores-ne n (raise_at f (some b) (some a) i st) b a c (i + 1) h
      ∙ raise_at-ne st b a c i h

  raise_list-nil : (n : ℕ) (qs : Floats) (i : ℕ) → raise_list n [] i qs ≡ qs
  raise_list-nil zero qs i = refl
  raise_list-nil (suc n) qs i = raise_list-nil n qs (i + 1)

  raise_index-nil : (vs : Floats) (i : ℕ) → raise_index vs i [] ≡ []
  raise_index-nil vs i = ground arith

  raise_list-full : (n : ℕ) (vs : Floats) (i : ℕ) → raise_list n vs i [] ≡ []
  raise_list-full zero vs i = refl
  raise_list-full (suc n) vs i = rw (raise_index-nil vs i) (raise_list-full n vs (i + 1))

  raise_index-cons :
      (v q : f.Float) (vs qs : Floats) (i : ℕ)
      → raise_index (v ∷ vs) (suc i) (q ∷ qs) ≡ q ∷ raise_index vs i qs
  raise_index-cons v q vs qs i = ground arith

  raise_list-cons :
      (n : ℕ) (v q : f.Float) (vs qs : Floats) (i : ℕ)
      → raise_list n (v ∷ vs) (suc i) (q ∷ qs) ≡ q ∷ raise_list n vs i qs
  raise_list-cons zero v q vs qs i = refl
  raise_list-cons (suc n) v q vs qs i =
      let e : suc i + 1 ≡ suc (i + 1) = omega arith in
      rw (raise_index-cons v q vs qs i, e) (raise_list-cons n v q vs (raise_index vs i qs) (i + 1))

  raise_list-zip : (vs qs : Floats) → raise_list (length vs) vs 0 qs ≡ zip_raise vs qs
  raise_list-zip [] qs = refl
  raise_list-zip (v ∷ vs) [] = raise_list-full (suc (length vs)) (v ∷ vs) 0
  raise_list-zip (v ∷ vs) (q ∷ qs) =
      let larger : f.Float = if f.gt v q then v else q in
      let here : raise_index (v ∷ vs) 0 (q ∷ qs) ≡ larger ∷ qs = ground arith in
      ap (raise_list (length vs) (v ∷ vs) 1) here
      ∙ raise_list-cons (length vs) v larger vs qs 0
      ∙ ap (λ t. larger ∷ t) (raise_list-zip vs qs)

  longer_of-same :
      (st : Store f) (b a : ℕ)
      → length (st.cells b) ≤ length (st.cells a)
      → longer_of f (some b) (some a) st ≡ (some a, st)
  unfolding longer_of
  longer_of-same st b a h = ground arith

  -- One round of the loop on samples with as many cores as the peak, whose arrays differ.
  pub raise-arrays :
      (p s : Sample f) (st : Store f) (a b n : ℕ)
      → p.per_core_percent ≡ some a
      → s.per_core_percent ≡ some b
      → b ≢ a
      → length (st.cells a) ≡ n
      → length (st.cells b) ≡ n
      → ((raise f p s st).0.per_core_percent ≡ some a)
        × ((raise f p s st).1.cells a ≡ zip_raise (st.cells b) (st.cells a))
        × ((c : ℕ) → c ≢ a → (raise f p s st).1.cells c ≡ st.cells c)
  unfolding raise
  raise-arrays p s st a b n pa sb ne la lb =
      rw (pa, sb, longer_of-same st b a (omega arith))
        (
          refl,
          raise_cores_self (length (st.cells b)) st b a 0 ne
              ∙ raise_list-zip (st.cells b) (st.cells a),
          λ c h. raise_cores-ne (length (st.cells b)) st b a c 0 h,
        )
