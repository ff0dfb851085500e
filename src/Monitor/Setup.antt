-- ===== src/Monitor/Setup.antt =====
-- Which modules a process has after its setup.
use workstation_probe.Common.{
  ◌≡◌, ◌↔◌, refl, ap, sym, subst, ◌∙◌, Bool, true, false, Option, none, some, List, [], ◌∷◌, ◌++◌,
  append-nil, append_assoc, map, Bytes, codes, All,
}
use workstation_probe.Common.Float.{Float64}
use workstation_probe.Common.Result.{Result, ok, err, ◌>>=◌, ◌>>◌}
use workstation_probe.Config.{Config}
use workstation_probe.Monitor.{
  Packages, SetupError, mount_config, append_enabled, if_enabled, started, start_all, build_modules,
}

-- A module that may be asked for: its flag, its name and what its constructor returns.
abbrev pub Wanted : Type 0 → Type 0 → Type 0
Wanted E M = Bool × Bytes × Result E M

-- The modules that are there for a list of wanted ones: those whose flag is set, in order, each built.
pub data IsBuilt {E M : Type 0} : List (Wanted E M) → List M → Type 0 where
  nothing : IsBuilt [] []
  left_out :
      (name : Bytes) (r : Result E M) (wanted : List (Wanted E M)) (mods : List M)
      → IsBuilt wanted mods
      → IsBuilt ((false, name, r) ∷ wanted) mods
  built :
      (name : Bytes) (m : M) (wanted : List (Wanted E M)) (mods : List M)
      → IsBuilt wanted mods
      → IsBuilt ((true, name, ok m) ∷ wanted) (m ∷ mods)

module _ {E M : Type 0} (p : Packages E M) where
  abbrev pub wanted_of : {f : Float64} → Config f → List (Wanted E M)
  wanted_of c =
      let interval = c.sampler.interval in
      let capacity = c.sampler.history_capacity in
      (c.modules.cpu_enabled, codes "cpu", p.new_cpu interval capacity)
      ∷ (c.modules.memory_enabled, codes "memory", ok (p.new_memory interval capacity))
      ∷ (c.modules.gpu_enabled, codes "gpu", ok (p.new_gpu interval capacity))
      ∷ (
        c.modules.storage.enabled,
        codes "storage",
        p.new_storage (map mount_config c.modules.storage.mount_points) interval capacity,
      )
      ∷ []

  -- The constructors in a row, on any list of wanted modules, and what is done with the result.
  in_order :
      List (Wanted E M)
      → (List M → Result (SetupError E) (List M))
      → List M
      → Result (SetupError E) (List M)
  in_order [] rest mods = rest mods
  in_order ((enabled, name, r) ∷ wanted) rest mods =
      if_enabled p enabled name r mods >>= in_order wanted rest

  in_order-IsBuilt :
      (wanted : List (Wanted E M)) (rest : List M → Result (SetupError E) (List M))
      (mods all : List M)
      → in_order wanted rest mods ≡ ok all
      → (added : List M) × IsBuilt wanted added × (rest (mods ++ added) ≡ ok all)
  unfolding in_order append_enabled
  in_order-IsBuilt [] rest mods all h = ([], nothing, ap rest (append-nil mods) ∙ h)
  in_order-IsBuilt ((false, name, r) ∷ wanted) rest mods all h =
      let (added, b, e) = in_order-IsBuilt wanted rest mods all h in
      (added, left_out name r wanted added b, e)
  in_order-IsBuilt ((true, name, err x) ∷ wanted) rest mods all h = cc
  in_order-IsBuilt ((true, name, ok m) ∷ wanted) rest mods all h =
      let (added, b, e) = in_order-IsBuilt wanted rest (mods ++ m ∷ []) all h in
      (m ∷ added, built name m wanted added b, ap rest (sym (append_assoc mods (m ∷ []) added)) ∙ e)

  IsBuilt-in_order :
      (wanted : List (Wanted E M)) (rest : List M → Result (SetupError E) (List M))
      (mods added : List M)
      → IsBuilt wanted added
      → in_order wanted rest mods ≡ rest (mods ++ added)
  unfolding in_order append_enabled
  IsBuilt-in_order _ rest mods _ nothing = ap rest (sym (append-nil mods))
  IsBuilt-in_order _ rest mods _ (left_out name r wanted added b) =
      IsBuilt-in_order wanted rest mods added b
  IsBuilt-in_order _ rest mods _ (built name m wanted added b) =
      IsBuilt-in_order wanted rest (mods ++ m ∷ []) added b
      ∙ ap rest (append_assoc mods (m ∷ []) added)

  abbrev AllStarted : List M → Type 0
  AllStarted = All (λ m. p.start m ≡ none)

  started_iff :
      {P : Type 0} (m : M) (e : Option E) (k : Result (SetupError E) (Unit {0}))
      → (k ≡ ok tt) ↔ P
      → ((started p m e >> k) ≡ ok tt) ↔ (e ≡ none) × P
  started_iff m none k q = (λ h. (refl, q.0 h), λ h. q.1 h.1)
  started_iff m (some x) k q = (λ h. cc, λ h. let t = h.0 in cc)

  start_all_iff : (mods : List M) → (start_all p mods ≡ ok tt) ↔ AllStarted mods
  unfolding start_all
  start_all_iff [] = (λ h. tt, λ h. refl)
  start_all_iff (m ∷ mods) = started_iff m (p.start m) (start_all p mods) (start_all_iff mods)

  start : List M → Result (SetupError E) (List M)
  start mods = start_all p mods >> ok mods

  start_iff : (all mods : List M) → (start all ≡ ok mods) ↔ (all ≡ mods) × AllStarted all
  unfolding start
  start_iff all mods = by_result (start_all p all) (start_all_iff all)
    where
      by_result :
          (r : Result (SetupError E) (Unit {0}))
          → (r ≡ ok tt) ↔ AllStarted all
          → ((r >> ok all) ≡ ok mods) ↔ (all ≡ mods) × AllStarted all
      by_result (ok u) q = (λ h. (cc, q.0 refl), λ h. ap ok h.0)
      by_result (err e) q = (λ h. cc, λ h. let t = q.1 h.1 in cc)

  -- The setup succeeds with a list of modules exactly if these are the enabled ones of cpu, memory, gpu and storage, in this
  -- order, none of their constructors failed, and each of them started.
  pub build_modules_iff :
      {f : Float64} (c : Config f) (mods : List M)
      → (build_modules p c ≡ ok mods)
        ↔ IsBuilt (wanted_of c) mods × All (λ m. p.start m ≡ none) mods
  unfolding build_modules in_order start append_enabled
  build_modules_iff c mods = (
    λ h.
        let (added, b, e) = in_order-IsBuilt (wanted_of c) start [] mods h in
        let (same, all) = (start_iff added mods).0 e in
        (subst (IsBuilt (wanted_of c)) same b, subst AllStarted same all),
    λ h. IsBuilt-in_order (wanted_of c) start [] mods h.0 ∙ (start_iff mods mods).1 (refl, h.1),
  )
