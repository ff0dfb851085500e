-- ===== src/Monitor/Log/Warned.antt =====
-- Where the warning about proxies stands among the lines of a run.
use workstation_probe.Common.{
  ◌≡◌, ◌≢◌, ◌↔◌, inl, inr, refl, Bool, true, false, ◌&&◌, Option, none, some, List, [], ◌∷◌, ◌++◌,
  any, sym, ◌∙◌, ◌||◌, if◌then◌else◌, Bytes, bytes_eq, bytes_eq_iff, Bool-cases,
}
use workstation_probe.Common.Float.{Float64}
use workstation_probe.Common.Result.{Result, ok, err}
use workstation_probe.Config.{Config, ConfigError}
use workstation_probe.Logging.{Level, level_info, level_warn, level_error, enabled}
use workstation_probe.Monitor.{Launch, SetupError, build_modules}
use workstation_probe.Monitor.Log.{
  Line, lock_refused, config_required, load_failed, config_loaded, trusts_proxies, setup_failed,
  signal_received, server_failed, shutdown_failed, module_failed, bye, severity, unless_quiet,
  shown, logger_level, warning, Closing, server_line, module_line, module_lines, closing_lines,
  served_lines, trusts, configured_lines, work_lines,
}

abbrev pub is_trust : {E : Type 0} → Line E → Bool
is_trust trusts_proxies = true
is_trust _ = false

and-both : (a b : Bool) → (a && b) ≡ true → (a ≡ true) × (b ≡ true)
and-both true b h = (refl, h)
and-both false b h = cc

and-false : (a : Bool) → (a && false) ≡ false
and-false true = refl
and-false false = refl

-- The warning is among the lines that are written exactly if it is there and its level is written.
shown-trust :
    {E : Type 0} (minimum : Level) (lines : List (Line E))
    → any is_trust (shown minimum lines) ≡ (any is_trust lines && enabled minimum level_warn)
unfolding shown
shown-trust minimum [] = refl
shown-trust {E = E} minimum (line ∷ lines) = by_line line (shown-trust minimum lines)
  where
    other :
        (on : Bool) (line : Line E)
        → is_trust line ≡ false
        → any is_trust (shown minimum lines) ≡ (any is_trust lines && enabled minimum level_warn)
        → any is_trust (unless_quiet on line (shown minimum lines))
          ≡ ((is_trust line || any is_trust lines) && enabled minimum level_warn)
    other true line quiet ih = rw quiet ih
    other false line quiet ih = rw quiet ih

    warned :
        (on : Bool)
        → any is_trust (shown minimum lines) ≡ (any is_trust lines && on)
        → any is_trust (unless_quiet on trusts_proxies (shown minimum lines)) ≡ on
    warned true ih = refl
    warned false ih = ih ∙ and-false (any is_trust lines)

    by_line :
        (line : Line E)
        → any is_trust (shown minimum lines) ≡ (any is_trust lines && enabled minimum level_warn)
        → any is_trust (unless_quiet (enabled minimum (severity line)) line (shown minimum lines))
          ≡ ((is_trust line || any is_trust lines) && enabled minimum level_warn)
    by_line trusts_proxies ih = warned (enabled minimum level_warn) ih
    by_line (lock_refused e) ih = other (enabled minimum level_error) (lock_refused e) refl ih
    by_line config_required ih = other (enabled minimum level_error) config_required refl ih
    by_line (load_failed e) ih = other (enabled minimum level_error) (load_failed e) refl ih
    by_line config_loaded ih = other (enabled minimum level_info) config_loaded refl ih
    by_line (setup_failed e) ih = other (enabled minimum level_error) (setup_failed e) refl ih
    by_line signal_received ih = other (enabled minimum level_info) signal_received refl ih
    by_line (server_failed e) ih = other (enabled minimum level_error) (server_failed e) refl ih
    by_line (shutdown_failed e) ih = other (enabled minimum level_error) (shutdown_failed e) refl ih
    by_line (module_failed n e) ih = other (enabled minimum level_warn) (module_failed n e) refl ih
    by_line bye ih = other (enabled minimum level_info) bye refl ih

module _ {f : Float64} {E M : Type 0} (l : Launch f E M) (closing : Closing E M) where
  -- No line but the warning counts as one.
  module_lines-quiet :
      (mods : List M) (rest : List (Line E))
      → any is_trust (module_lines l closing mods ++ rest) ≡ any is_trust rest
  unfolding module_lines
  module_lines-quiet [] rest = refl
  module_lines-quiet (m ∷ mods) rest =
      by_result (closing.module_of m) (module_lines-quiet mods rest)
    where
      by_result :
          (o : Option E)
          → any is_trust (module_lines l closing mods ++ rest) ≡ any is_trust rest
          → any is_trust ((module_line l closing m o ++ module_lines l closing mods) ++ rest)
            ≡ any is_trust rest
      by_result none ih = ih
      by_result (some e) ih = ih

  closing_lines-quiet :
      (mods : List M) (o : Option Bytes)
      → any is_trust (server_line l closing o ++ (module_lines l closing mods ++ bye ∷ [])) ≡ false
  closing_lines-quiet mods none = module_lines-quiet mods (bye ∷ [])
  closing_lines-quiet mods (some e) = module_lines-quiet mods (bye ∷ [])

  served_lines-quiet :
      (built : Result (SetupError E) (List M)) (stop : Option Bytes)
      → any is_trust (served_lines l closing built stop) ≡ false
  unfolding closing_lines
  served_lines-quiet (err e) stop = refl
  served_lines-quiet (ok mods) (some e) = refl
  served_lines-quiet (ok mods) none = closing_lines-quiet mods closing.server

  warning_iff :
      (on : Bool) (rest : List (Line E))
      → any is_trust rest ≡ false
      → (any is_trust ((if on then trusts_proxies ∷ [] else []) ++ rest) ≡ true) ↔ (on ≡ true)
  warning_iff true rest h = (λ e. refl, λ e. refl)
  warning_iff false rest h = (λ e. cc, λ e. cc)

  configured_lines_iff :
      (r : Result ConfigError (Config f))
      → (any is_trust (configured_lines l closing r) ≡ true) ↔ (
          (c : Config f) × (r ≡ ok c)
          × (c.security.rate_limit.enabled ≡ true)
          × (c.security.rate_limit.trust_proxy_headers ≡ true)
          × (enabled (logger_level l closing c) level_warn ≡ true))
  configured_lines_iff (err e) = (λ h. cc, λ h. let (c, same, on, trusted, level) = h in cc)
  configured_lines_iff (ok c) =
      let rest = served_lines l closing (build_modules l.packages c) l.listener_error in
      let all = config_loaded ∷ (warning l closing c ++ rest) in
      let (to, from) =
        warning_iff (trusts l closing c) rest
          (served_lines-quiet (build_modules l.packages c) l.listener_error) in
      let seen = shown-trust (logger_level l closing c) all in
      (
        λ h.
            let (there, level) =
              and-both (any is_trust all) (enabled (logger_level l closing c) level_warn)
                (sym seen ∙ h) in
            let (on, trusted) =
              and-both c.security.rate_limit.enabled c.security.rate_limit.trust_proxy_headers
                (to there) in
            (c, refl, on, trusted, level),
        λ h.
            let (c', same, on, trusted, level) = h in
            let e : c ≡ c' = cc in seen ∙ rw (from (rw e (rw (on, trusted) refl)), e, level) refl,
      )

  pub work_lines_iff :
      (any is_trust (work_lines l closing) ≡ true)
      ↔ (l.config_path ≢ [])
        × ((c : Config f) × (l.loaded ≡ ok c)
            × (c.security.rate_limit.enabled ≡ true)
            × (c.security.rate_limit.trust_proxy_headers ≡ true)
            × (enabled (logger_level l closing c) level_warn ≡ true))
  unfolding bytes_eq
  work_lines_iff = elim (Bool-cases (bytes_eq l.config_path [])) [
    | inl e ↦ rw e (λ h. cc, λ h. absurd (h.0 ((bytes_eq_iff l.config_path []).0 e)))
    | inr e ↦
        let (to, from) = configured_lines_iff l.loaded in
        rw e (
          λ h. (λ empty. let t : bytes_eq l.config_path [] ≡ true = rw empty refl in cc, to h),
          λ h. from h.1,
        )
  ]
