-- ===== src/Cpu/Failed.antt =====
-- internal/cpu/collector.go: the samples of failed readings, in the history.
use workstation_probe.Common.{
  Bool, ℕ, zero, suc, ◌-◌, ◌≡◌, refl, inl, inr, sym, subst, true, false, some, List, [], ◌∷◌,
  length, drop, keep, All, Bytes, Bool-cases,
}
use workstation_probe.Common.Int.{pos}
use workstation_probe.Common.Time.{Time, Duration, before, zero_time, add_neg}
use workstation_probe.Common.Float.{Float64}
use workstation_probe.Common.Result.{Result, ok, err}
use workstation_probe.Ring.{RingBuffer, new_ring_buffer}
use workstation_probe.Ring.Refine.{push_all, snapshot-push_all}
use workstation_probe.Base.{history_within, not_before}
use workstation_probe.Cpu.{Sample, zero_sample, collect_sample}
use workstation_probe.Cpu.Arrays.{Store}

module _ (f : Float64) where
  -- The sample is one that the collector made.
  pub data IsCollected : Sample f → Type 0 where
    collected :
        (now : Time) (overall per : Result Bytes (List f.Float)) (st : Store f)
        → IsCollected (collect_sample f now overall per st).0

  abbrev stamp : Sample f → Time
  stamp s = s.timestamp

  -- A sample with an error is older than the window.
  IsCollected-error :
      (cutoff : Time) (s : Sample f)
      → before zero_time cutoff ≡ true
      → IsCollected s
      → not_before stamp s cutoff ≡ true
      → s.error ≡ []
  unfolding collect_sample
  IsCollected-error cutoff _ past (collected now (err message) per st) kept =
      absurd (let t : false ≡ true = rw past at kept in cc)
  IsCollected-error cutoff _ past (collected now (ok overall) (err message) st) kept =
      absurd (let t : false ≡ true = rw past at kept in cc)
  IsCollected-error cutoff _ past (collected now (ok overall) (ok per) st) kept = refl

  keep-error :
      (cutoff : Time) (l : List (Sample f))
      → before zero_time cutoff ≡ true
      → All IsCollected l
      → All (λ (s : Sample f). s.error ≡ []) (keep (λ s. not_before stamp s cutoff) l)
  keep-error cutoff [] past all_collected = tt
  keep-error cutoff (s ∷ l) past all_collected = elim (Bool-cases (not_before stamp s cutoff)) [
    | inl kept ↦ rw kept (
      IsCollected-error cutoff s past all_collected.0 kept,
      keep-error cutoff l past all_collected.1,
    )
    | inr old ↦ rw old (keep-error cutoff l past all_collected.1)
  ]

  All-drop : (n : ℕ) (l : List (Sample f)) → All IsCollected l → All IsCollected (drop n l)
  All-drop zero l h = h
  All-drop (suc n) [] h = tt
  All-drop (suc n) (s ∷ l) h = All-drop n l h.1

  -- After any collections, failed ones among them, no history of a window that begins after the zero time has a sample with
  -- an error.
  pub history_within-error :
      (fits : ℕ → Bool) (capacity : ℕ) (samples : List (Sample f)) {r : RingBuffer (Sample f)}
      (now : Time) (d : Duration)
      → new_ring_buffer (zero_sample f) fits (pos capacity) ≡ some r
      → All IsCollected samples
      → before zero_time (add_neg now d) ≡ true
      → All
          (λ (s : Sample f). s.error ≡ [])
          (history_within (zero_sample f) now (push_all r samples) d (not_before stamp))
  unfolding history_within
  history_within-error fits capacity samples now d new all_collected past =
      subst
        (λ l.
          All (λ (s : Sample f). s.error ≡ []) (keep (λ s. not_before stamp s (add_neg now d)) l))
        (sym (snapshot-push_all (zero_sample f) fits capacity samples new))
        (keep-error (add_neg now d) (drop (length samples - capacity) samples) past
          (All-drop (length samples - capacity) samples all_collected))
