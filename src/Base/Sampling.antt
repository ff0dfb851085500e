-- ===== src/Base/Sampling.antt =====
-- The sampling of a module: the sample at its construction, and then one for each tick.
use workstation_probe.Common.{
  Bool, ℕ, ◌-◌, ◌≡◌, refl, ap, ◌∙◌, Option, none, some, List, [], ◌∷◌, length, drop, last?,
}
use workstation_probe.Common.Int.{ℤ, pos}
use workstation_probe.Common.Time.{Time, Duration}
use workstation_probe.Ring.{RingBuffer, new_ring_buffer, snapshot}
use workstation_probe.Ring.Refine.{push_all, snapshot-push_all}
use workstation_probe.Base.{Base, new_base, publish, Signal, ticked, cancelled, run_loop}

module _ {ℓ} {S : Type ℓ} where
  -- A collection that reads its sample, and the clock after it.
  abbrev pub collect : Time × S → Base S → Base S
  collect (now, s) b = publish now s b

  -- The samples of the ticks before the end of the context.
  unfoldable pub sampled : List (Signal (Time × S)) → List S
  sampled [] = []
  sampled (cancelled ∷ signals) = []
  sampled (ticked (now, s) ∷ signals) = s ∷ sampled signals

  run_loop-push_all :
      (signals : List (Signal (Time × S))) (b : Base S)
      → (run_loop collect signals b).buf ≡ push_all b.buf (sampled signals)
  unfolding run_loop sampled publish
  run_loop-push_all [] b = refl
  run_loop-push_all (cancelled ∷ signals) b = refl
  run_loop-push_all (ticked (now, s) ∷ signals) b = run_loop-push_all signals (publish now s b)

  run_loop-latest :
      (signals : List (Signal (Time × S))) (b : Base S) (s : S)
      → b.latest ≡ some s
      → (run_loop collect signals b).latest ≡ last? (s ∷ sampled signals)
  unfolding run_loop sampled publish
  run_loop-latest [] b s h = h
  run_loop-latest (cancelled ∷ signals) b s h = h
  run_loop-latest (ticked (now, x) ∷ signals) b s h =
      run_loop-latest signals (publish now x b) x refl

  pub new_base-buf :
      (zero_value : S) (interval : Duration) (fits : ℕ → Bool) (capacity : ℤ) {b : Base S}
      → new_base zero_value interval fits capacity ≡ some b
      → new_ring_buffer zero_value fits capacity ≡ some b.buf
  unfolding new_base
  new_base-buf zero_value interval fits capacity {b} =
      by_buffer (new_ring_buffer zero_value fits capacity)
    where
      by_buffer :
          (o : Option (RingBuffer S))
          → (elim o [
            | none ↦ none
            | some buf ↦
                some (record {
                  interval = interval;
                  buf = buf;
                  latest = none;
                  last_sample_unix = pos 0;
                })
          ])
            ≡ some b
          → o ≡ some b.buf
      by_buffer none h = cc
      by_buffer (some buf) h = cc

  -- A module with a buffer of a positive capacity that publishes a first sample and then one for each tick until its
  -- context ends holds the newest `capacity` of these samples, oldest first, and the last of them as the latest;
  -- what is ticked after the end of the context is not sampled.
  pub run_loop-snapshot :
      (zero_value : S) (interval : Duration) (fits : ℕ → Bool) (capacity : ℕ) (now : Time)
      (first : S) (signals : List (Signal (Time × S))) {b : Base S}
      → new_base zero_value interval fits (pos capacity) ≡ some b
      → let samples = first ∷ sampled signals in
        let b' = run_loop collect signals (publish now first b) in
        (snapshot zero_value b'.buf ≡ drop (length samples - capacity) samples)
        × (b'.latest ≡ last? samples)
  unfolding publish
  run_loop-snapshot zero_value interval fits capacity now first signals {b} h =
      let samples = first ∷ sampled signals in
      let filled =
        snapshot-push_all zero_value fits capacity samples
          (new_base-buf zero_value interval fits (pos capacity) h) in
      (
        ap (snapshot zero_value) (run_loop-push_all signals (publish now first b)) ∙ filled,
        run_loop-latest signals (publish now first b) first refl,
      )
