-- ===== src/Tests/Metrics.antt =====
-- The ring buffer, the base and the decimal texts at concrete inputs.
use workstation_probe.Common.{leb, ℕ, ◌≡◌, refl, false, none, some, [], ◌∷◌, arith, codes}
use workstation_probe.Common.Int.{pos, negsuc}
use workstation_probe.Ring.{RingBuffer, new_ring_buffer, snapshot}
use workstation_probe.Ring.Refine.{push_all, snapshot-push_all}
use workstation_probe.Base.{Base, new_base}
use workstation_probe.Base.Reading.{
  storing, store_latest, push_sample, mark, IsReachable, begun, stores, pushes, marks,
  IsReachable-snapshot,
}
use workstation_probe.Strconv.{itoa, atoi}
use workstation_probe.Strconv.Laws.{atoi-itoa}

abbrev empty_two : RingBuffer ℕ
empty_two = record { cap = 2; storage = 0 ∷ 0 ∷ []; head = 0; full = false }

snapshot-push_all_example : snapshot 0 (push_all empty_two (1 ∷ 2 ∷ 3 ∷ [])) ≡ 2 ∷ 3 ∷ []
unfolding new_ring_buffer
snapshot-push_all_example =
    snapshot-push_all 0 (λ n. leb n 100) 2 (1 ∷ 2 ∷ 3 ∷ []) {r = empty_two} refl

itoa_runs : itoa (negsuc 119) ≡ codes "-120"
unfolding itoa
itoa_runs = refl

atoi-itoa_example : atoi (itoa (negsuc 119)) ≡ some (negsuc 119)
atoi-itoa_example = atoi-itoa (negsuc 119) (omega arith) (omega arith)

abbrev new_two : Base ℕ
new_two = record { interval = pos 1000; buf = empty_two; latest = none; last_sample_unix = pos 0 }

abbrev ahead : Base ℕ
ahead = store_latest 8 (mark (pos 3) (push_sample 7 (store_latest 7 new_two)))

ahead_IsReachable : IsReachable new_two (7 ∷ []) (storing 8) ahead
ahead_IsReachable = stores (7 ∷ []) (mark (pos 3) (push_sample 7 (store_latest 7 new_two))) 8 (
    marks (7 ∷ []) (push_sample 7 (store_latest 7 new_two)) (pos 3)
      (pushes [] (store_latest 7 new_two) 7 (stores [] new_two 7 begun)))

IsReachable-snapshot_example : (snapshot 0 ahead.buf ≡ 7 ∷ []) × (ahead.latest ≡ some 8)
unfolding new_base new_ring_buffer
IsReachable-snapshot_example =
    IsReachable-snapshot 0 (pos 1000) (λ n. leb n 100) 2 {new = new_two} (7 ∷ []) (storing 8) ahead
      refl ahead_IsReachable
