-- ===== src/Memory/Peak.antt =====
-- `Peak` against the window that it folds over.
use Prim.Native.Nat.{max}
use workstation_probe.Common.{
  ℕ, ◌≡◌, refl, ap, sym, ◌∙◌, Option, none, some, List, [], ◌∷◌, arith, keep, reverse, Bool-cases,
  inl, inr,
}
use workstation_probe.Common.Time.{Time, Duration, before, add_neg}
use workstation_probe.Common.Float.{Float64}
use workstation_probe.Ring
use workstation_probe.Ring.{RingBuffer}
use workstation_probe.Base.{not_before}
use workstation_probe.Memory.{Sample, raise, zero_sample, peak_loop, finish, with_percent, peak}

module _ (f : Float64) where
  abbrev stamp : Sample f → Time
  stamp s = s.timestamp

  -- The samples of the window, newest first.
  abbrev pub window : Time → List (Sample f) → List (Sample f)
  window cutoff samples = keep (λ s. not_before stamp s cutoff) (reverse samples)

  abbrev pub max_used : List (Sample f) → ℕ
  max_used [] = 0
  max_used (s ∷ rest) = max s.used_no_cache_bytes (max_used rest)

  -- The newest sample with the largest figure of the window, and the percentage that follows.
  abbrev pub peak_of : List (Sample f) → Option (Sample f)
  peak_of [] = none
  peak_of (s ∷ rest) =
      some (with_percent f (record s { used_no_cache_bytes = max_used (s ∷ rest) }))

  raise_lem :
      (p s : Sample f) (n : ℕ)
      → record (raise f p s) { used_no_cache_bytes = max (raise f p s).used_no_cache_bytes n }
        ≡ record p { used_no_cache_bytes = max p.used_no_cache_bytes (max s.used_no_cache_bytes n) }
  raise_lem p s n = ground arith

  peak_loop-some :
      (cutoff : Time) (p : Sample f) (l : List (Sample f))
      → peak_loop f cutoff (some p) l
        ≡ some (record p {
          used_no_cache_bytes =
              max p.used_no_cache_bytes (max_used (keep (λ s. not_before stamp s cutoff) l));
        })
  unfolding peak_loop
  peak_loop-some cutoff p [] =
      let e : max p.used_no_cache_bytes 0 ≡ p.used_no_cache_bytes = omega arith in
      ap (λ n. some (record p { used_no_cache_bytes = n })) (sym e)
  peak_loop-some cutoff p (s ∷ l) = elim (Bool-cases (before s.timestamp cutoff)) [
    | inl old ↦ rw old (peak_loop-some cutoff p l)
    | inr recent ↦ rw recent (peak_loop-some cutoff (raise f p s) l ∙ ap some (raise_lem p s _))
  ]

  peak_loop-none :
      (cutoff : Time) (l : List (Sample f))
      → finish f (peak_loop f cutoff none l) ≡ peak_of (keep (λ s. not_before stamp s cutoff) l)
  unfolding peak_loop
  peak_loop-none cutoff [] = refl
  peak_loop-none cutoff (s ∷ l) = elim (Bool-cases (before s.timestamp cutoff)) [
    | inl old ↦ rw old (peak_loop-none cutoff l)
    | inr recent ↦ rw recent (ap (finish f) (peak_loop-some cutoff s l))
  ]

  -- `Peak` is absent exactly on an empty window. Otherwise it is the newest sample of the window
  -- with the largest `UsedNoCacheBytes` of the window, and the percentage recomputed from that
  -- figure and the newest total where that total is not 0.
  pub peak-max_used :
      (now : Time) (buf : RingBuffer (Sample f)) (d : Duration)
      → peak f now buf d ≡ peak_of (window (add_neg now d) (Ring.snapshot (zero_sample f) buf))
  unfolding peak
  peak-max_used now buf d =
      peak_loop-none (add_neg now d) (reverse (Ring.snapshot (zero_sample f) buf))
