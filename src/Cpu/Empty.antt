-- ===== src/Cpu/Empty.antt =====
-- internal/cpu/module.go: the peak over a window that holds no sample.
use workstation_probe.Common.{◌≡◌, refl, true, none, List, [], ◌∷◌, reverse, All}
use workstation_probe.Common.Time.{Time, Duration, before, add_neg}
use workstation_probe.Common.Float.{Float64}
use workstation_probe.Ring
use workstation_probe.Ring.{RingBuffer}
use workstation_probe.Cpu.{Sample, zero_sample, peak_loop, peak}
use workstation_probe.Cpu.Arrays.{Store}

module _ (f : Float64) where
  -- All the samples are older than the window.
  abbrev pub IsOutside : Time → List (Sample f) → Type 0
  IsOutside cutoff = All (λ (s : Sample f). before s.timestamp cutoff ≡ true)

  peak_loop-IsOutside :
      (cutoff : Time) (l : List (Sample f)) (st : Store f)
      → IsOutside cutoff l
      → peak_loop f cutoff none l st ≡ (none, st)
  unfolding peak_loop
  peak_loop-IsOutside cutoff [] st outside = refl
  peak_loop-IsOutside cutoff (s ∷ l) st outside =
      rw outside.0 (peak_loop-IsOutside cutoff l st outside.1)

  pub peak-IsOutside :
      (now : Time) (buf : RingBuffer (Sample f)) (d : Duration) (st : Store f)
      → IsOutside (add_neg now d) (reverse (Ring.snapshot (zero_sample f) buf))
      → peak f now buf d st ≡ (none, st)
  unfolding peak
  peak-IsOutside now buf d st outside =
      peak_loop-IsOutside (add_neg now d) (reverse (Ring.snapshot (zero_sample f) buf)) st outside
