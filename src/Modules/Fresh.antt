-- ===== src/Modules/Fresh.antt =====
-- The modules as their constructors leave them, and what they answer after the ticks of their loops.
use workstation_probe.Common.{ℕ, Bool, ◌≡◌, ◌≢◌, subst, Option, none, some, List, [], ◌∷◌, Bytes}
use workstation_probe.Common.Int.{ℤ}
use workstation_probe.Common.Time.{Time, Duration}
use workstation_probe.Common.Float.{Float64}
use workstation_probe.Common.Result.{Result, ok, err, ◌>>=◌, or_error}
use workstation_probe.Base.{Base, Signal, new_base}
use workstation_probe.Cpu
use workstation_probe.Cpu.Arrays.{Store}
use workstation_probe.Memory
use workstation_probe.Gpu.Stub.{Collector}
use workstation_probe.Gpu.Lifecycle
use workstation_probe.Gpu.Lifecycle.{new_with_collector-IsStarted}
use workstation_probe.Storage
use workstation_probe.Storage.{MountConfig, MountEntry}
use workstation_probe.Http.{blank, respond_all, status_of}
use workstation_probe.Modules.{
  ProbeModule, cpu_module, memory_module, gpu_module, storage_module, enabled, latest_route, start,
}
use workstation_probe.Samples.{Codec, Tick}
use workstation_probe.Modules.Keeping.{
  IsPrimed, IsSame, ready_status, latest-publish_present, start-status,
}

module _ (f : Float64) (k : Collector f) where
  -- What the constructors return, by package.
  pub data IsNew : ProbeModule f k → Store f → Type 0 where
    new_cpu :
        (interval : Duration) (fits : ℕ → Bool) (capacity : ℤ)
        (infos : Result Bytes (List Cpu.InfoStat)) (now published : Time)
        (overall per : Result Bytes (List f.Float)) (st st' : Store f) (m : Cpu.Module f)
        → Cpu.new_with_collector f interval fits capacity infos now published overall per st
          ≡ some (m, st')
        → IsNew (cpu_module m) st'
    new_memory :
        (interval : Duration) (fits : ℕ → Bool) (capacity : ℤ) (now published : Time)
        (first second : Memory.Reading f) (st : Store f) (m : Memory.Module f)
        → Memory.new_with_collector f interval fits capacity now published first second ≡ some m
        → IsNew (memory_module m) st
    new_gpu :
        (c : k.State) (interval : Duration) (fits : ℕ → Bool) (capacity : ℤ) (now published : Time)
        (st : Store f) (m : Lifecycle.Module f k)
        → Lifecycle.new_with_collector f k c interval fits capacity now published ≡ some m
        → IsNew (gpu_module m) st
    new_storage :
        (mounts : List MountConfig) (interval : Duration) (fits : ℕ → Bool) (capacity : ℤ)
        (table : Result Bytes (List MountEntry)) (usage : Bytes → Result Bytes (Storage.Usage f))
        (now published : Time) (st : Store f) (m : Storage.Module f)
        → Storage.new_with_deps f mounts interval fits capacity table usage now published ≡ ok m
        → IsNew (storage_module m) st

  cpu_primed :
      (o : Option (Base (Cpu.Sample f))) (infos : Result Bytes (List Cpu.InfoStat))
      (now published : Time) (overall per : Result Bytes (List f.Float)) (st st' : Store f)
      (m : Cpu.Module f)
      → (elim o [
        | none ↦ none
        | some base ↦ some (
            Cpu.collect_once f now published overall per
              (record { base = base; profile = Cpu.info infos })
              st)
      ])
        ≡ some (m, st')
      → m.base.latest ≢ none
  unfolding Cpu.collect_once
  cpu_primed none infos now published overall per st st' m h = cc
  cpu_primed (some b) infos now published overall per st st' m h =
      let s = (Cpu.collect_sample f now overall per st).0 in
      subst
        (λ (o : Option (Cpu.Module f × Store f)). elim o [
          | none ↦ Unit {0}
          | some r ↦ r.0.base.latest ≢ none
        ])
        h (latest-publish_present published s b)

  memory_primed :
      (o : Option (Base (Memory.Sample f))) (now published : Time) (first second : Memory.Reading f)
      (m : Memory.Module f)
      → (elim o [
        | none ↦ none
        | some base ↦ some (
            Memory.collect_once f now published second
              (record { base = base; profile = Memory.capture_profile f first }))
      ])
        ≡ some m
      → m.base.latest ≢ none
  unfolding Memory.collect_once
  memory_primed none now published first second m h = cc
  memory_primed (some b) now published first second m h =
      subst
        (λ (o : Option (Memory.Module f)). elim o [
          | none ↦ Unit {0}
          | some r ↦ r.base.latest ≢ none
        ])
        h (latest-publish_present published _ b)

  storage_primed :
      (r : Result Storage.SetupError (List Storage.MountPoint))
      (o : Result Storage.SetupError (Base (Storage.Sample f)))
      (usage : Bytes → Result Bytes (Storage.Usage f)) (now published : Time) (m : Storage.Module f)
      → (do
        resolved ← r
        base ← o
        ok (Storage.collect_once f usage now published (record { mounts = resolved; base = base })))
        ≡ ok m
      → m.base.latest ≢ none
  unfolding Storage.collect_once
  storage_primed (err e) o usage now published m h = cc
  storage_primed (ok mounts) (err e) usage now published m h = cc
  storage_primed (ok mounts) (ok b) usage now published m h =
      subst
        (λ (r : Result Storage.SetupError (Storage.Module f)). elim r [
          | ok m ↦ m.base.latest ≢ none
          | err e ↦ Unit {0}
        ])
        h (latest-publish_present published _ b)

  IsNew-IsPrimed : (m : ProbeModule f k) (st : Store f) → IsNew m st → IsPrimed f k m
  unfolding IsPrimed Cpu.new_with_collector Memory.new_with_collector Storage.new_with_deps
  IsNew-IsPrimed _ _ (new_cpu interval fits capacity infos now published overall per st st' m h) =
      cpu_primed (new_base (Cpu.zero_sample f) interval fits capacity) infos now published overall
        per st st' m h
  IsNew-IsPrimed _ _ (new_memory interval fits capacity now published first second st m h) =
      memory_primed (new_base (Memory.zero_sample f) interval fits capacity) now published first
        second m h
  IsNew-IsPrimed _ _ (new_gpu c interval fits capacity now published st m h) =
      (new_with_collector-IsStarted f k c interval fits capacity now published m h).primed
  IsNew-IsPrimed _ _ (new_storage [] interval fits capacity table usage now published st m h) = cc
  IsNew-IsPrimed _ _
        (new_storage (mp ∷ mounts) interval fits capacity (err e) usage now published st m h) =
      cc
  IsNew-IsPrimed _ _
        (new_storage (mp ∷ mounts) interval fits capacity (ok table) usage now published st m h) =
      storage_primed (Storage.validate_mount_points (mp ∷ mounts) table)
        (or_error (new_base (Storage.zero_sample f) interval fits capacity) Storage.bad_capacity)
        usage now published m h

  -- A module as its constructor returned it, after any ticks of its loop, whatever they read and wherever the loop ends:
  -- its name, its flag, its reason and its profile are those that the constructor gave it, and its
  -- route for the latest sample answers 200 if it is enabled and 404 if not, never 503.
  pub IsNew-status :
      (c : Codec f) (signals : List (Signal (Tick f))) (m : ProbeModule f k) (st : Store f)
      → IsNew m st
      → let r = start f k signals (m, st) in
        IsSame f k m r.0
        × (status_of (respond_all blank (latest_route f k c r.1 r.0))
            ≡ ready_status (enabled f k m))
  IsNew-status c signals m st new =
      let (same, still, status) = start-status f k c signals m st (IsNew-IsPrimed m st new) in
      (same, status)
