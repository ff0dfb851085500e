-- ===== src/Monitor/Log.antt =====
-- The lines that a run of cmd/monitor/main.go writes on its own account, the one to stderr included; the line of the
-- listener's goroutine is left out, since it comes at any place after the modules are built.
pub mod Warned
pub mod Told
use workstation_probe.Common.{
  ℕ, ◌≡◌, ◌≢◌, ◌↔◌, inl, inr, refl, ap, sym, ◌∙◌, subst, Bool, true, false, ◌&&◌, ◌||◌, Option,
  none, some, List, [], ◌∷◌, ◌++◌, append_assoc, any, if◌then◌else◌, Bytes, bytes_eq, bytes_eq_iff,
  Bool-cases, arith,
}
use workstation_probe.Common.Float.{Float64}
use workstation_probe.Common.Result.{Result, ok, err}
use workstation_probe.Config.{Config, ConfigError}
use workstation_probe.Logging.{Level, level_info, level_warn, level_error, enabled, setup}
use workstation_probe.Lock.{Lock, AcquireError, acquire, release}
use workstation_probe.Monitor.{
  Launch, End, SetupError, build_modules, served, configured, work, ended, run,
}

pub data Line (E : Type 0) : Type 0 where
  lock_refused : AcquireError → Line E
  config_required : Line E
  load_failed : ConfigError → Line E
  config_loaded : Line E
  trusts_proxies : Line E
  setup_failed : SetupError E → Line E
  signal_received : Line E
  server_failed : Bytes → Line E
  shutdown_failed : Bytes → Line E
  module_failed : Bytes → E → Line E
  bye : Line E

-- The `Error` lines of before `Setup` go to slog's default logger, which writes them, and the refused lock to stderr.
abbrev pub severity : {E : Type 0} → Line E → Level
severity (lock_refused e) = level_error
severity config_required = level_error
severity (load_failed e) = level_error
severity config_loaded = level_info
severity trusts_proxies = level_warn
severity (setup_failed e) = level_error
severity signal_received = level_info
severity (server_failed e) = level_error
severity (shutdown_failed e) = level_error
severity (module_failed name e) = level_warn
severity bye = level_info

abbrev pub unless_quiet : {E : Type 0} → Bool → Line E → List (Line E) → List (Line E)
unless_quiet true line lines = line ∷ lines
unless_quiet false line lines = lines

-- What a logger of this level writes.
pub shown : {E : Type 0} → Level → List (Line E) → List (Line E)
shown minimum [] = []
shown minimum (line ∷ lines) =
    unless_quiet (enabled minimum (severity line)) line (shown minimum lines)

-- What `Shutdown` of the server and of each module returns.
pub record Closing (E M : Type 0) : Type 0 where
  pub server : Option Bytes
  pub module_of : M → Option E

module _ {f : Float64} {E M : Type 0} (l : Launch f E M) (closing : Closing E M) where
  abbrev pub server_line : Option Bytes → List (Line E)
  server_line none = []
  server_line (some e) = shutdown_failed e ∷ []

  abbrev pub module_line : M → Option E → List (Line E)
  module_line m none = []
  module_line m (some e) = module_failed (l.packages.name m) e ∷ []

  -- The loop over the modules goes on after an error.
  pub module_lines : List M → List (Line E)
  module_lines [] = []
  module_lines (m ∷ mods) = module_line m (closing.module_of m) ++ module_lines mods

  pub closing_lines : List M → List (Line E)
  closing_lines mods = server_line closing.server ++ (module_lines mods ++ bye ∷ [])

  abbrev pub served_lines : Result (SetupError E) (List M) → Option Bytes → List (Line E)
  served_lines (err e) stop = setup_failed e ∷ []
  served_lines (ok mods) (some e) = server_failed e ∷ []
  served_lines (ok mods) none = signal_received ∷ closing_lines mods

  abbrev pub trusts : Config f → Bool
  trusts c = c.security.rate_limit.enabled && c.security.rate_limit.trust_proxy_headers

  abbrev pub warning : Config f → List (Line E)
  warning c = if trusts c then trusts_proxies ∷ [] else []

  abbrev pub logger_level : Config f → Level
  logger_level c = (setup l.unicode c.logging.level c.logging.format).0

  abbrev pub configured_lines : Result ConfigError (Config f) → List (Line E)
  configured_lines (err e) = load_failed e ∷ []
  configured_lines (ok c) =
      shown (logger_level c)
        (config_loaded ∷ (warning c ++ served_lines (build_modules l.packages c) l.listener_error))

  abbrev pub work_lines : List (Line E)
  work_lines = if bytes_eq l.config_path [] then config_required ∷ [] else configured_lines l.loaded

  abbrev pub by_lock : Result AcquireError Lock → List (Line E)
  by_lock (err e) = lock_refused e ∷ []
  by_lock (ok lock) = work_lines

  pub run_lines : Option Bytes → List (Line E)
  run_lines file = by_lock (acquire l.sys l.running l.our_pid l.pid_file file).0
