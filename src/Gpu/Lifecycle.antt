-- ===== src/Gpu/Lifecycle.antt =====
-- gpu/module.go: the module over a collector, from `New` to `Shutdown`.
use workstation_probe.Common.{
  ℕ, ◌≡◌, ◌≢◌, refl, Bool, true, false, not, Option, none, some, [], arith, if◌then◌else◌,
  Option-cases, inl, inr, subst, Bytes, codes,
}
use mathlib.Core.Option
use workstation_probe.Common.Int.{ℤ}
use workstation_probe.Common.Time.{Time, Duration}
use workstation_probe.Common.Float.{Float64}
use workstation_probe.Base.{Base, new_base, publish}
use workstation_probe.Base.History.{latest-publish}
use workstation_probe.Gpu.{Sample, ProfileInfo, zero_sample}
use workstation_probe.Gpu.Stub.{Collector}

module _ (f : Float64) (k : Collector f) where
  -- `once` has fired if `released` is true.
  pub record Module : Type 0 where
    pub collector : k.State
    pub base : Base (Sample f)
    pub enabled : Bool
    pub profile : ProfileInfo
    pub released : Bool

  unfoldable pub collect_once : Time → Time → Module → Module
  collect_once now published m = record m {
    base = publish published (k.collect now m.collector) m.base;
  }

  -- The two branches of `NewWithCollector`, by what `Init` returned.
  abbrev pub start_profile : (Bool × Bytes) × k.State → ProfileInfo
  start_profile ((false, reason), c) = record {
    disabled_reason = reason;
    device_count = 0;
    devices = [];
  }
  start_profile ((true, reason), c) = k.profile c

  abbrev pub primed : k.State → Time → Time → Base (Sample f) → Module
  primed c now published base = collect_once now published (record {
    collector = (k.init c).1;
    base = base;
    enabled = (k.init c).0.0;
    profile = start_profile (k.init c);
    released = false;
  })

  -- `none` is a panic of the ring buffer, and `fits` which lengths the runtime allocates.
  unfoldable pub new_with_collector :
      k.State → Duration → (ℕ → Bool) → ℤ → Time → Time → Option Module
  new_with_collector c interval fits history_capacity now published =
      Option.map (primed c now published) (new_base (zero_sample f) interval fits history_capacity)

  pub shutdown : Module → Module
  shutdown m =
      if m.released then m else record m { collector = k.shutdown m.collector; released = true }

  unfoldable pub disabled_reason : Module → Bytes
  disabled_reason m = if m.enabled then [] else m.profile.disabled_reason

  -- Whether `Start` launches the sampling loop.
  unfoldable pub start : Module → Bool
  start m = if not m.enabled then false else true

  abbrev pub gpu_disabled : Bytes
  gpu_disabled = codes "{\"error\":\"gpu_disabled\"}"

  -- The `DisabledFunc` that `RegisterRoutes` hands on.
  unfoldable pub disabled : Module → ℕ × Bytes
  disabled m = if not m.enabled then (404, gpu_disabled) else (0, [])

  -- What a new module is, by the result of `Init`: its flags come from there, a sample is there, and
  -- nothing is released.
  pub record IsStarted (r : (Bool × Bytes) × k.State) (m : Module) : Type 0 where
    pub flag : m.enabled ≡ r.0.0
    pub held : m.collector ≡ r.1
    pub primed : m.base.latest ≢ none
    pub kept : m.released ≡ false
    pub reason : disabled_reason m ≡ (if r.0.0 then [] else r.0.1)
    pub loop : start m ≡ m.enabled
    pub answers : disabled m ≡ (if r.0.0 then (0, []) else (404, gpu_disabled))

  started :
      (r : (Bool × Bytes) × k.State) (base : Base (Sample f)) (now published : Time)
      → IsStarted r (
          collect_once now published (record {
            collector = r.1;
            base = base;
            enabled = r.0.0;
            profile = start_profile r;
            released = false;
          }))
  unfolding collect_once disabled_reason start disabled
  started ((true, reason), c) base now published = record {
    flag = refl;
    held = refl;
    primed = λ e. cc (latest-publish published (k.collect now c) base, e);
    kept = refl;
    reason = refl;
    loop = refl;
    answers = refl;
  }
  started ((false, reason), c) base now published = record {
    flag = refl;
    held = refl;
    primed = λ e. cc (latest-publish published (k.collect now c) base, e);
    kept = refl;
    reason = refl;
    loop = refl;
    answers = refl;
  }

  -- A module takes its state from `Init`: disabled, it gives `Init`'s reason, launches no loop and
  -- has its routes answer 404; enabled, it gives no reason. Either way it holds a first sample.
  pub new_with_collector-IsStarted :
      (c : k.State) (interval : Duration) (fits : ℕ → Bool) (capacity : ℤ) (now published : Time)
      (m : Module)
      → new_with_collector c interval fits capacity now published ≡ some m
      → IsStarted (k.init c) m
  unfolding new_with_collector
  new_with_collector-IsStarted c interval fits capacity now published m h =
      elim (Option-cases (new_base (zero_sample f) interval fits capacity)) [
        | inl e ↦ absurd (cc (rw e at h))
        | inr (base, e) ↦
            let same : some (primed c now published base) ≡ some m = rw e at h in
            subst (IsStarted (k.init c)) (cc same) (started (k.init c) base now published)
      ]

  -- A second `Shutdown` changes nothing, so the collector is released once.
  pub shutdown-shutdown : (m : Module) → shutdown (shutdown m) ≡ shutdown m
  unfolding shutdown
  shutdown-shutdown m = ground arith
