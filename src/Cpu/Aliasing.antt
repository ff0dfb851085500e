-- ===== src/Cpu/Aliasing.antt =====
-- The whole loop of `Peak`: whose array holds the maxima afterwards.
use workstation_probe.Common.{
  ℕ, suc, ◌≡◌, ◌≢◌, refl, ap, sym, ◌∙◌, subst, Option, none, some, List, [], ◌∷◌, keep, reverse,
  length, Bool-cases, inl, inr, All,
}
use workstation_probe.Common.Time.{Time, Duration, before, add_neg}
use workstation_probe.Common.Float.{Float64}
use workstation_probe.Ring
use workstation_probe.Ring.{RingBuffer}
use workstation_probe.Base.{not_before}
use workstation_probe.Cpu.Arrays.{Store, read}
use workstation_probe.Cpu.{Sample, raise, fold_in, zero_sample, peak_loop, peak}
use workstation_probe.Cpu.Peak.{zip_raise, raise-arrays}

module _ (f : Float64) where
  abbrev Floats : Type 0
  Floats = List f.Float

  abbrev pub recent : Time → List (Sample f) → List (Sample f)
  recent cutoff = keep (λ s. not_before (λ (t : Sample f). t.timestamp) s cutoff)

  -- The sample has an array of its own, with `n` cores.
  abbrev pub IsSeparate : Store f → ℕ → ℕ → Sample f → Type 0
  IsSeparate st a n s =
      (b : ℕ) × (s.per_core_percent ≡ some b) × (b ≢ a) × (length (st.cells b) ≡ n)

  -- The maxima per core of an array and the arrays of older samples.
  abbrev pub merged : Store f → List (Sample f) → Floats → Floats
  merged st [] qs = qs
  merged st (s ∷ older) qs = merged st older (zip_raise f (read f st s.per_core_percent) qs)

  length-zip_raise : (vs qs : Floats) → length (zip_raise f vs qs) ≡ length qs
  length-zip_raise [] qs = refl
  length-zip_raise (v ∷ vs) [] = refl
  length-zip_raise (v ∷ vs) (q ∷ qs) = ap suc (length-zip_raise vs qs)

  -- The loop has run: the result refers to the array `a`, which holds the maxima, and every other
  -- array is as it was in `base`.
  pub record IsMerged (base : Store f) (a : ℕ) (maxima : Floats) (r : Option (Sample f) × Store f)
      : Type 0 where
    pub result : Sample f
    pub returned : r.0 ≡ some result
    pub shares : result.per_core_percent ≡ some a
    pub holds : r.1.cells a ≡ maxima
    pub others : (c : ℕ) → c ≢ a → r.1.cells c ≡ base.cells c

  peak_loop-IsMerged :
      (cutoff : Time) (base : Store f) (a n : ℕ) (l : List (Sample f)) (p : Sample f) (st : Store f)
      → p.per_core_percent ≡ some a
      → length (st.cells a) ≡ n
      → ((c : ℕ) → c ≢ a → st.cells c ≡ base.cells c)
      → All (IsSeparate base a n) (recent cutoff l)
      → IsMerged base a
          (merged base (recent cutoff l) (st.cells a))
          (peak_loop f cutoff (some p) l st)
  unfolding peak_loop fold_in
  peak_loop-IsMerged cutoff base a n [] p st pa la same sep = record {
    result = p;
    returned = refl;
    shares = pa;
    holds = refl;
    others = same;
  }
  peak_loop-IsMerged cutoff base a n (s ∷ l) p st pa la same sep =
      elim (Bool-cases (before s.timestamp cutoff)) [
        | inl old ↦ rw old (peak_loop-IsMerged cutoff base a n l p st pa la same (rw old at sep))
        | inr now ↦
            let sep' : All (IsSeparate base a n) (s ∷ recent cutoff l) = rw now at sep in
            let (b, sb, ne, lb) = sep'.0 in
            let (shares, holds, others) =
              raise-arrays f p s st a b n pa sb ne la (ap length (same b ne) ∙ lb) in
            let done =
              peak_loop-IsMerged cutoff base a n l (raise f p s st).0 (raise f p s st).1 shares
                (ap length holds ∙ length-zip_raise (st.cells b) (st.cells a) ∙ la)
                (λ c h. others c h ∙ same c h) sep'.1 in
            let raised : (raise f p s st).1.cells a
                ≡ zip_raise f (read f base s.per_core_percent) (st.cells a) =
              holds
              ∙ ap (λ v. zip_raise f v (st.cells a)) (same b ne ∙ sym (ap (read f base) sb)) in
            rw now (
              subst
                (λ q.
                  IsMerged base a (merged base (recent cutoff l) q)
                    (peak_loop f cutoff (some (raise f p s st).0) l (raise f p s st).1))
                raised done)
      ]

  peak_loop-first :
      (cutoff : Time) (l : List (Sample f)) (st : Store f) (newest : Sample f)
      (older : List (Sample f)) (a n : ℕ)
      → recent cutoff l ≡ newest ∷ older
      → newest.per_core_percent ≡ some a
      → length (st.cells a) ≡ n
      → All (IsSeparate st a n) older
      → IsMerged st a (merged st older (st.cells a)) (peak_loop f cutoff none l st)
  unfolding peak_loop fold_in
  peak_loop-first cutoff [] st newest older a n w na la sep = absurd (cc w)
  peak_loop-first cutoff (s ∷ l) st newest older a n w na la sep =
      elim (Bool-cases (before s.timestamp cutoff)) [
        | inl old ↦ rw old (peak_loop-first cutoff l st newest older a n (rw old at w) na la sep)
        | inr now ↦
            let w' : s ∷ recent cutoff l ≡ newest ∷ older = rw now at w in
            let front : s ≡ newest = cc w' in
            let rest : recent cutoff l ≡ older = cc w' in
            rw (now, ← rest)
              (peak_loop-IsMerged cutoff st a n l s st
                (ap (λ (t : Sample f). t.per_core_percent) front ∙ na) la (λ c h. refl)
                (rw rest sep))
      ]

  -- `Peak` hands out the per-core slice of the newest stored sample of the window, and has written
  -- the maxima of the window into that sample's own array, if the samples of the window have equally
  -- many cores and arrays of their own. No other array is touched.
  pub peak-IsMerged :
      (now : Time) (buf : RingBuffer (Sample f)) (d : Duration) (st : Store f) (newest : Sample f)
      (older : List (Sample f)) (a n : ℕ)
      → recent (add_neg now d) (reverse (Ring.snapshot (zero_sample f) buf)) ≡ newest ∷ older
      → newest.per_core_percent ≡ some a
      → length (st.cells a) ≡ n
      → All (IsSeparate st a n) older
      → IsMerged st a (merged st older (st.cells a)) (peak f now buf d st)
  unfolding peak
  peak-IsMerged now buf d st newest older a n =
      peak_loop-first (add_neg now d) (reverse (Ring.snapshot (zero_sample f) buf)) st newest older
        a n
