-- ===== src/Monitor/Log/Told.antt =====
-- The last line of a run, its exit code, and the warning about proxies.
use workstation_probe.Common.{
  ℕ, ◌≡◌, ◌≢◌, ◌⊎◌, All, Bool, true, false, Option, List, [], ◌∷◌, Bytes, bytes_eq,
}
use workstation_probe.Common.Float.{Float64}
use workstation_probe.Common.Result.{Result, ok, err}
use workstation_probe.Config.{Config, ConfigError}
use workstation_probe.Lock.{Lock, AcquireError, acquire}
use workstation_probe.Logging.{level_info, level_warn, enabled}
use workstation_probe.Monitor.{Launch}
use workstation_probe.Monitor.Log.{
  Line, lock_refused, config_required, load_failed, config_loaded, trusts_proxies, setup_failed,
  signal_received, server_failed, shutdown_failed, module_failed, bye, Closing, logger_level,
}

module _ {f : Float64} {E M : Type 0} (l : Launch f E M) (closing : Closing E M) where
  -- The exit code that a line ends a run with; the other lines end none.
  abbrev pub Ends : Line E → ℕ → Type 0
  Ends bye code = code ≡ 0
  Ends config_required code = code ≡ 2
  Ends (lock_refused e) code = code ≡ 1
  Ends (load_failed e) code = code ≡ 1
  Ends (setup_failed e) code = code ≡ 1
  Ends (server_failed e) code = code ≡ 1
  Ends config_loaded code = ⊥
  Ends trusts_proxies code = ⊥
  Ends signal_received code = ⊥
  Ends (shutdown_failed e) code = ⊥
  Ends (module_failed name e) code = ⊥

  -- Only the last line ends the run, and it tells the code.
  pub IsTold : List (Line E) → ℕ → Type 0
  IsTold [] code = ⊥
  IsTold (line ∷ []) code = Ends line code
  IsTold (line ∷ next ∷ lines) code = ((c : ℕ) → ¬ Ends line c) × IsTold (next ∷ lines) code

  abbrev pub IsInner : Line E → Type 0
  IsInner line = (c : ℕ) → ¬ Ends line c

  -- The lines where those of the level info are written, or where they are not: then the end with 0 is not told.
  unfoldable pub IsToldAt : Bool → List (Line E) → ℕ → Type 0
  IsToldAt true lines code = IsTold lines code
  IsToldAt false lines code = ((code ≢ 0) × IsTold lines code) ⊎ ((code ≡ 0) × All IsInner lines)

  -- Whether lines of the level info are written after `Setup`.
  abbrev pub tells_loaded : Result ConfigError (Config f) → Bool
  tells_loaded (err e) = true
  tells_loaded (ok c) = enabled (logger_level l closing c) level_info

  -- By whether the flag is missing.
  abbrev pub reaches : Bool → Bool
  reaches true = true
  reaches false = tells_loaded l.loaded

  -- Lines of the level info are written: always before the configuration sets another level.
  abbrev pub tells : Result AcquireError Lock → Bool
  tells (err e) = true
  tells (ok lock) = reaches (bytes_eq l.config_path [])

  -- The run comes to a configuration that trusts the headers of a proxy, with warnings written.
  abbrev pub IsTrusting : Option Bytes → Type 0
  IsTrusting file =
      (lock : Lock) × ((acquire l.sys l.running l.our_pid l.pid_file file).0 ≡ ok lock)
      × (l.config_path ≢ [])
      × ((c : Config f) × (l.loaded ≡ ok c)
          × (c.security.rate_limit.enabled ≡ true)
          × (c.security.rate_limit.trust_proxy_headers ≡ true)
          × (enabled (logger_level l closing c) level_warn ≡ true))
