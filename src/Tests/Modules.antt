-- ===== src/Tests/Modules.antt =====
-- The memory, cpu and storage modules at concrete inputs.
use workstation_probe.Common.{
  leb, ℕ, ◌≡◌, true, false, zero, suc, refl, All, some, List, [], ◌∷◌, arith, codes,
}
use workstation_probe.Common.Int.{pos}
use workstation_probe.Common.Time.{add_neg}
use workstation_probe.Common.Result.{ok, err}
use workstation_probe.Ring.{RingBuffer, new_ring_buffer, snapshot}
use workstation_probe.Ring.Refine.{push_all}
use workstation_probe.Base.{history_within, not_before}
use workstation_probe.Cpu.Failed.{collected, history_within-error}
use workstation_probe.Cpu
use workstation_probe.Cpu.Arrays.{Store}
use workstation_probe.Cpu.Aliasing.{IsMerged, peak-IsMerged}
use workstation_probe.Tests.Floats.{whole}

abbrev cpu_at : ℕ → ℕ → Cpu.Sample whole
cpu_at at a = record (Cpu.zero_sample whole) {
  timestamp = pos at;
  per_core_percent = some a;
  core_count = 2;
}

abbrev cpu_ring : RingBuffer (Cpu.Sample whole)
cpu_ring = record { cap = 2; storage = cpu_at 8 0 ∷ cpu_at 9 1 ∷ []; head = 0; full = true }

abbrev cells : Store whole
cells = record { cells = λ a. elim a [ zero ↦ 50 ∷ 10 ∷ [] | suc b ↦ 20 ∷ 30 ∷ [] ]; next = 2 }

peak-IsMerged_example :
    IsMerged whole cells 1 (50 ∷ 30 ∷ []) (Cpu.peak whole (pos 10) cpu_ring (pos 5) cells)
unfolding snapshot add_neg
peak-IsMerged_example =
    peak-IsMerged whole (pos 10) cpu_ring (pos 5) cells (cpu_at 9 1) (cpu_at 8 0 ∷ []) 1 2 refl refl
      refl ((0, refl, omega arith, refl), tt)

-- A reading and a failed one.
abbrev readings : List (Cpu.Sample whole)
readings =
    (Cpu.collect_sample whole (pos 9) (ok (4 ∷ [])) (ok (4 ∷ [])) cells).0
    ∷ (Cpu.collect_sample whole (pos 9) (err (codes "busy")) (ok []) cells).0
    ∷ []

abbrev new_ring : RingBuffer (Cpu.Sample whole)
new_ring = record {
  cap = 2;
  storage = Cpu.zero_sample whole ∷ Cpu.zero_sample whole ∷ [];
  head = 0;
  full = false;
}

history_within-error_example :
    All
      (λ (s : Cpu.Sample whole). s.error ≡ [])
      (history_within
        (Cpu.zero_sample whole)
        (pos 10)
        (push_all new_ring readings)
        (pos 5)
        (not_before (λ (s : Cpu.Sample whole). s.timestamp)))
unfolding new_ring_buffer add_neg
history_within-error_example =
    history_within-error whole (λ n. leb n 100) 2 readings {r = new_ring} (pos 10) (pos 5) refl
      (
        collected (pos 9) (ok (4 ∷ [])) (ok (4 ∷ [])) cells,
        (collected (pos 9) (err (codes "busy")) (ok []) cells, tt),
      )
      refl
