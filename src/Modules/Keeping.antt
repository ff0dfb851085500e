-- ===== src/Modules/Keeping.antt =====
-- What the sampling loop of a module leaves as it is, and what its route for the latest sample answers meanwhile.
use workstation_probe.Common.{
  ℕ, ◌≡◌, ◌≢◌, refl, ap, ◌∙◌, ◌==◌, inl, inr, Bool, Option, none, some, List, [], ◌∷◌,
  if◌then◌else◌, Bytes, Bool-cases, Option-cases,
}
use workstation_probe.Common.Time.{Time}
use workstation_probe.Common.Float.{Float64}
use workstation_probe.Base.{Base, Signal, ticked, cancelled, run_loop, publish}
use workstation_probe.Base.History.{latest-publish}
use workstation_probe.Cpu
use workstation_probe.Cpu.Arrays.{Store}
use workstation_probe.Memory
use workstation_probe.Gpu.Stub.{Collector}
use workstation_probe.Gpu.Lifecycle
use workstation_probe.Storage
use workstation_probe.Http.{blank, respond_all, status_of}
use workstation_probe.Routes.{call_disabled, latest_handler}
use workstation_probe.Routes.Sent.{code_of, send-status}
use workstation_probe.Modules.{
  ProbeModule, cpu_module, memory_module, gpu_module, storage_module, name, enabled,
  disabled_reason, profile, latest_route, collect_once, start,
}
use workstation_probe.Samples.{Codec, Tick}

abbrev pub ready_status : Bool → ℕ
ready_status on = if on then 200 else 404

pub latest-publish_present :
    {S : Type 0} (now : Time) (s : S) (b : Base S) → (publish now s b).latest ≢ none
latest-publish_present now s b e = cc (latest-publish now s b, e)

module _ (f : Float64) (k : Collector f) where
  -- A sample is there, as each constructor leaves a module.
  unfoldable pub IsPrimed : ProbeModule f k → Type 0
  IsPrimed (cpu_module m) = m.base.latest ≢ none
  IsPrimed (memory_module m) = m.base.latest ≢ none
  IsPrimed (gpu_module m) = m.base.latest ≢ none
  IsPrimed (storage_module m) = m.base.latest ≢ none

  -- What the module says of itself is the same.
  pub record IsSame (m m' : ProbeModule f k) : Type 0 where
    pub named : name f k m' ≡ name f k m
    pub flag : enabled f k m' ≡ enabled f k m
    pub reason : disabled_reason f k m' ≡ disabled_reason f k m
    pub described : profile f k m' ≡ profile f k m

  IsSame-refl : (m : ProbeModule f k) → IsSame m m
  IsSame-refl m = record { named = refl; flag = refl; reason = refl; described = refl }

  IsSame-trans : (a b c : ProbeModule f k) → IsSame a b → IsSame b c → IsSame a c
  IsSame-trans a b c p q = record {
    named = q.named ∙ p.named;
    flag = q.flag ∙ p.flag;
    reason = q.reason ∙ p.reason;
    described = q.described ∙ p.described;
  }

  collect_once-IsSame :
      (t : Tick f) (m : ProbeModule f k) (st : Store f)
      → let r = collect_once f k t (m, st) in IsSame m r.0 × IsPrimed r.0
  unfolding collect_once IsPrimed name enabled disabled_reason profile Cpu.collect_once
      Memory.collect_once Lifecycle.collect_once Lifecycle.disabled_reason Storage.collect_once
  collect_once-IsSame t (cpu_module m) st = (
    record { named = refl; flag = refl; reason = refl; described = refl },
    latest-publish_present t.published (Cpu.collect_sample f t.now t.overall t.per_core st).0
        m.base,
  )
  collect_once-IsSame t (memory_module m) st = (
    record { named = refl; flag = refl; reason = refl; described = refl },
    latest-publish_present t.published _ m.base,
  )
  collect_once-IsSame t (gpu_module m) st = (
    record { named = refl; flag = refl; reason = refl; described = refl },
    latest-publish_present t.published _ m.base,
  )
  collect_once-IsSame t (storage_module m) st = (
    record { named = refl; flag = refl; reason = refl; described = refl },
    latest-publish_present t.published _ m.base,
  )

  run_loop-IsSame :
      (signals : List (Signal (Tick f))) (m : ProbeModule f k) (st : Store f)
      → IsPrimed m
      → let r = run_loop (collect_once f k) signals (m, st) in IsSame m r.0 × IsPrimed r.0
  unfolding run_loop
  run_loop-IsSame [] m st primed = (IsSame-refl m, primed)
  run_loop-IsSame (cancelled ∷ signals) m st primed = (IsSame-refl m, primed)
  run_loop-IsSame (ticked t ∷ signals) m st primed =
      let next = collect_once f k t (m, st) in
      let (same, there) = collect_once-IsSame t m st in
      let (later, still) = run_loop-IsSame signals next.0 next.1 there in
      (IsSame-trans m next.0 (run_loop (collect_once f k) signals next).0 same later, still)

  start-IsSame :
      (signals : List (Signal (Tick f))) (m : ProbeModule f k) (st : Store f)
      → IsPrimed m
      → let r = start f k signals (m, st) in IsSame m r.0 × IsPrimed r.0
  unfolding start
  start-IsSame signals (cpu_module m) st primed = run_loop-IsSame signals (cpu_module m) st primed
  start-IsSame signals (memory_module m) st primed =
      run_loop-IsSame signals (memory_module m) st primed
  start-IsSame signals (storage_module m) st primed =
      run_loop-IsSame signals (storage_module m) st primed
  start-IsSame signals (gpu_module m) st primed = elim (Bool-cases (Lifecycle.start f k m)) [
    | inl e ↦ rw e (run_loop-IsSame signals (gpu_module m) st primed)
    | inr e ↦ rw e (IsSame-refl (gpu_module m), primed)
  ]

  -- The reply for a sample that is there.
  code_of-latest_handler :
      {S : Type 0} (disabled : Option (ℕ × Bytes)) (b : Base S)
      → b.latest ≢ none
      → code_of (latest_handler disabled (some b) b.latest)
        ≡ (if (call_disabled disabled).0 == 0 then 200 else (call_disabled disabled).0)
  unfolding latest_handler call_disabled
  code_of-latest_handler none b primed = elim (Option-cases b.latest) [
    | inl e ↦ absurd (primed e)
    | inr (s, e) ↦ rw e refl
  ]
  code_of-latest_handler (some (code, body)) b primed = elim (Option-cases b.latest) [
    | inl e ↦ absurd (primed e)
    | inr (s, e) ↦ rw e (elim (Bool-cases (code == 0)) [ inl z ↦ rw z refl | inr z ↦ rw z refl ])
  ]

  status_of-latest_route :
      (c : Codec f) (st : Store f) (m : ProbeModule f k)
      → IsPrimed m
      → status_of (respond_all blank (latest_route f k c st m)) ≡ ready_status (enabled f k m)
  unfolding latest_route IsPrimed enabled call_disabled Lifecycle.disabled
  status_of-latest_route c st (cpu_module m) primed =
      send-status c.taken _ (latest_handler none (some m.base) m.base.latest)
      ∙ code_of-latest_handler none m.base primed
  status_of-latest_route c st (memory_module m) primed =
      send-status c.taken _ (latest_handler none (some m.base) m.base.latest)
      ∙ code_of-latest_handler none m.base primed
  status_of-latest_route c st (storage_module m) primed =
      send-status c.taken _ (latest_handler none (some m.base) m.base.latest)
      ∙ code_of-latest_handler none m.base primed
  status_of-latest_route c st (gpu_module m) primed =
      let off = some (Lifecycle.disabled f k m) in
      send-status c.taken _ (latest_handler off (some m.base) m.base.latest)
      ∙ code_of-latest_handler off m.base primed
      ∙ elim (Bool-cases m.enabled) [ inl e ↦ rw e refl | inr e ↦ rw e refl ]

  -- For a module that holds a sample, and whatever the ticks of its loop read and wherever the loop ends: its
  -- name, its flag, its reason and its profile are those from before, it still holds a sample, and its
  -- route for the latest sample answers 200 if it is enabled and 404 if not, never 503.
  pub start-status :
      (c : Codec f) (signals : List (Signal (Tick f))) (m : ProbeModule f k) (st : Store f)
      → IsPrimed m
      → let r = start f k signals (m, st) in
        IsSame m r.0
        × IsPrimed r.0
        × (status_of (respond_all blank (latest_route f k c r.1 r.0))
            ≡ ready_status (enabled f k m))
  start-status c signals m st primed =
      let r = start f k signals (m, st) in
      let (same, still) = start-IsSame signals m st primed in
      (same, still, status_of-latest_route c r.1 r.0 still ∙ ap ready_status same.flag)
