-- ===== src/Monitor/Ending.antt =====
-- How a run of the process ends, and what it leaves of the lock file.
use workstation_probe.Common.{
  ◌≡◌, ◌≢◌, ◌↔◌, inl, inr, refl, ap, ap₂, sym, ◌∙◌, Option, none, some, List, [], Bytes, bytes_eq,
  bytes_eq_iff, bytes_eq-differ, Bool-cases, arith,
}
use workstation_probe.Common.Int.{ℤ}
use workstation_probe.Common.Float.{Float64}
use workstation_probe.Common.Result.{Result, ok, err}
use workstation_probe.Config.{Config, ConfigError}
use workstation_probe.Lock.{
  Lock, AcquireError, System, written, take_over, holder, recorded, acquire, release,
}
use workstation_probe.Monitor.{
  Launch, End, SetupError, build_modules, served, configured, work, ended, run,
}

module _ {f : Float64} {E M : Type 0} (l : Launch f E M) where
  -- `os.Remove` removes a file that is there, and `os.WriteFile` without an error leaves one.
  abbrev pub IsRemoving : System → Type 0
  IsRemoving sys =
      ((content : Bytes) → sys.remove (some content) ≡ (none, none))
      × ((text : Bytes) (old : Option Bytes) (file : Option Bytes)
          → sys.write_file text old ≡ (none, file)
          → file ≡ some text)

  -- What is left of the lock file, by what taking the lock gave.
  pub IsLeft : Result AcquireError Lock × Option Bytes → End M → Type 0
  IsLeft (err e, file) end = (end.code ≡ 1) × (end.shut_down ≡ []) × (end.file ≡ file)
  IsLeft (ok lock, file) end = (end.file ≡ none) × ((end.code, end.shut_down) ≡ work l)

  -- When `run` returns, by whichever of its returns: a process that took the lock has removed the lock file, and its exit
  -- code and the modules that it shut down are those of the work; one that did not take it leaves the file as it is
  -- after the attempt, exits with 1 and shut nothing down. A process that is killed does not return. It holds where removing the file works and the path is not empty.
  pub run-IsLeft :
      l.pid_file ≢ []
      → IsRemoving l.sys
      → (file : Option Bytes)
      → IsLeft (acquire l.sys l.running l.our_pid l.pid_file file) (run l file)
  unfolding run acquire release IsLeft
  run-IsLeft path sys file = by_holder (holder l.sys l.running (recorded l.sys file))
    where
      by_write :
          (w : Option Bytes × Option Bytes)
          → ((file' : Option Bytes)
              → w ≡ (none, file')
              → ((content : Bytes) × (file' ≡ some content)))
          → IsLeft (written l.sys l.pid_file w) (ended l (written l.sys l.pid_file w))
      by_write (some e, file') h = (refl, refl, refl)
      by_write (none, file') h =
          let (content, e) = h file' refl in
          rw (bytes_eq-differ l.pid_file [] path, e, sys.0 content) (refl, refl)

      by_holder :
          (h : Option ℤ)
          → IsLeft
              (take_over l.sys l.pid_file l.our_pid h file)
              (ended l (take_over l.sys l.pid_file l.our_pid h file))
      by_holder none = by_write (l.sys.write_file _ file) (λ file' e. (_, sys.1 _ file file' e))
      by_holder (some pid) = (refl, refl, refl)

  served_iff :
      (built : Result (SetupError E) (List M)) (stop : Option Bytes) (mods : List M)
      → (served l built stop ≡ (0, mods)) ↔ (built ≡ ok mods) × (stop ≡ none)
  served_iff (err e) stop mods =
      (λ h. absurd (omega (arith, ap (λ x. x.0) h)), λ h. let t = h.0 in cc)
  served_iff (ok all) (some e) mods =
      (λ h. absurd (omega (arith, ap (λ x. x.0) h)), λ h. let t = h.1 in cc)
  served_iff (ok all) none mods = (
    λ h. (ap ok (ap (λ x. x.1) h), refl),
    λ h. let e : all ≡ mods = let t = h.0 in cc in ap (λ x. (0, x)) e,
  )

  -- The process shut down these modules in the regular way.
  abbrev pub IsRegular : List M → Type 0
  IsRegular mods =
      (c : Config f) × (l.loaded ≡ ok c)
      × (build_modules l.packages c ≡ ok mods)
      × (l.listener_error ≡ none)

  configured_iff :
      (r : Result ConfigError (Config f)) (mods : List M)
      → l.loaded ≡ r
      → (configured l r ≡ (0, mods)) ↔ IsRegular mods
  configured_iff (err e) mods h = (
    λ k. absurd (omega (arith, ap (λ x. x.0) k)),
    λ k. let t : err e ≡ ok k.0 = sym h ∙ k.1 in cc,
  )
  configured_iff (ok c) mods h =
      let s = served_iff (build_modules l.packages c) l.listener_error mods in
      (
        λ k. (c, h, (s.0 k).0, (s.0 k).1),
        λ k.
            let same : k.0 ≡ c = let t : ok k.0 ≡ ok c = sym k.1 ∙ h in cc in
            s.1 (ap (build_modules l.packages) (sym same) ∙ k.2, k.3),
      )

  work_iff : (mods : List M) → (work l ≡ (0, mods)) ↔ (l.config_path ≢ []) × IsRegular mods
  work_iff mods = elim (Bool-cases (bytes_eq l.config_path [])) [
    | inl e ↦ rw e (
      λ h. absurd (omega (arith, ap (λ x. x.0) h)),
      λ h. absurd (h.0 ((bytes_eq_iff l.config_path []).0 e)),
    )
    | inr e ↦
        let c = configured_iff l.loaded mods refl in
        let there : l.config_path ≢ [] = λ q. let t = (bytes_eq_iff l.config_path []).1 q in cc in
        rw e (λ h. (there, c.0 h), λ h. c.1 h.1)
  ]

  -- A process that holds the lock exits with 0, after it called `Shutdown` on a list of modules, exactly if a
  -- configuration path was given, the configuration was loaded, these are the modules that the setup built from it, and
  -- serving ended by a signal.
  pub run-IsRegular :
      (file file' : Option Bytes) (lock : Lock)
      → acquire l.sys l.running l.our_pid l.pid_file file ≡ (ok lock, file')
      → (mods : List M)
      → (((run l file).code ≡ 0) × ((run l file).shut_down ≡ mods))
        ↔ (l.config_path ≢ []) × IsRegular mods
  unfolding run
  run-IsRegular file file' lock held mods =
      let w = work_iff mods in
      rw held (
        λ h. w.0 (ap₂ (λ x y. (x, y)) h.0 h.1),
        λ h. let e = w.1 h in (ap (λ x. x.0) e, ap (λ x. x.1) e),
      )
