-- ===== src/Monitor/Routes/Registered.antt =====
-- All the routes of the process: the two of each module and the three merged views.
use workstation_probe.Common.{
  ◌+◌, ◌*◌, ◌≡◌, ◌≢◌, refl, ap, subst, ◌∙◌, some, List, [], ◌∷◌, ◌++◌, append_assoc, length,
  length-append, All, Bytes, codes, bytes_eq, differ, arith,
}
use workstation_probe.Http.{Handler}
use workstation_probe.Http.Mux.{Route, find}
use workstation_probe.Http.Mux.Laws.{IsFree, handle-IsFree, find-AreApart}
use workstation_probe.Monitor.Routes.{Mount, latest_path, history_path, register}
use workstation_probe.Monitor.Routes.Mounted.{
  AreNamed, IsFresh-nil, IsFree-append, module_routes, register_all-IsFresh, IsFree-module_routes,
  IsFound, length-module_routes, All-IsFound,
}

latest_path-metrics : (name : Bytes) → latest_path name ≢ codes "/metrics"
unfolding bytes_eq
latest_path-metrics name = differ (latest_path name) (codes "/metrics") refl

history_path-metrics : (name : Bytes) → history_path name ≢ codes "/metrics"
unfolding bytes_eq
history_path-metrics name = differ (history_path name) (codes "/metrics") refl

latest_path-health : (name : Bytes) → latest_path name ≢ codes "/health"
unfolding bytes_eq
latest_path-health name = differ (latest_path name) (codes "/health") refl

history_path-health : (name : Bytes) → history_path name ≢ codes "/health"
unfolding bytes_eq
history_path-health name = differ (history_path name) (codes "/health") refl

latest_path-profile : (name : Bytes) → latest_path name ≢ codes "/profile"
unfolding bytes_eq
latest_path-profile name = differ (latest_path name) (codes "/profile") refl

history_path-profile : (name : Bytes) → history_path name ≢ codes "/profile"
unfolding bytes_eq
history_path-profile name = differ (history_path name) (codes "/profile") refl

module _ {W : Type 0} (mounts : List (Mount W)) (metrics health profile : Handler W) where
  abbrev at_metrics : Route W
  at_metrics = record { path = codes "/metrics"; handler = metrics }

  abbrev at_health : Route W
  at_health = record { path = codes "/health"; handler = health }

  abbrev at_profile : Route W
  at_profile = record { path = codes "/profile"; handler = profile }

  abbrev pub all_routes : List (Route W)
  all_routes = module_routes mounts ++ (at_metrics ∷ at_health ∷ at_profile ∷ [])

  -- Every registered handler is found, each module's two and the three views, and there is no further route.
  abbrev pub IsComplete : List (Route W) → Type 0
  IsComplete routes =
      All (IsFound routes) mounts
      × (find (codes "/metrics") routes ≡ some metrics)
      × (find (codes "/health") routes ≡ some health)
      × (find (codes "/profile") routes ≡ some profile)
      × (length routes ≡ 2 * length mounts + 3)

  abbrev free_metrics : IsFree (codes "/metrics") (module_routes mounts)
  free_metrics =
      IsFree-module_routes (codes "/metrics") mounts latest_path-metrics history_path-metrics

  free_health : IsFree (codes "/health") (module_routes mounts ++ at_metrics ∷ [])
  unfolding bytes_eq
  free_health =
      IsFree-append (codes "/health") (module_routes mounts) (at_metrics ∷ [])
        (IsFree-module_routes (codes "/health") mounts latest_path-health history_path-health)
        (differ (codes "/metrics") (codes "/health") refl, tt)

  free_profile : IsFree (codes "/profile") (module_routes mounts ++ at_metrics ∷ at_health ∷ [])
  unfolding bytes_eq
  free_profile =
      IsFree-append (codes "/profile") (module_routes mounts) (at_metrics ∷ at_health ∷ [])
        (IsFree-module_routes (codes "/profile") mounts latest_path-profile history_path-profile)
        (
          differ (codes "/metrics") (codes "/profile") refl,
          (differ (codes "/health") (codes "/profile") refl, tt),
        )

  register-all_routes : AreNamed mounts → register mounts metrics health profile ≡ some all_routes
  unfolding register
  register-all_routes named =
      let base = module_routes mounts in
      rw (register_all-IsFresh mounts [] named (IsFresh-nil mounts)) (
        rw (handle-IsFree (codes "/metrics") metrics base free_metrics) (
          rw (handle-IsFree (codes "/health") health (base ++ at_metrics ∷ []) free_health) (
            rw (append_assoc base (at_metrics ∷ []) (at_health ∷ [])) (
              handle-IsFree (codes "/profile") profile (base ++ at_metrics ∷ at_health ∷ [])
                free_profile
              ∙ ap some (append_assoc base (at_metrics ∷ at_health ∷ []) (at_profile ∷ []))))))

  find-health : find (codes "/health") all_routes ≡ some health
  find-health =
      subst (λ l. find (codes "/health") l ≡ some health)
        (append_assoc (module_routes mounts) (at_metrics ∷ []) (at_health ∷ at_profile ∷ []))
        (find-AreApart (module_routes mounts ++ at_metrics ∷ []) (codes "/health") health
          (at_profile ∷ []) free_health)

  find-profile : find (codes "/profile") all_routes ≡ some profile
  find-profile =
      subst (λ l. find (codes "/profile") l ≡ some profile)
        (append_assoc (module_routes mounts) (at_metrics ∷ at_health ∷ []) (at_profile ∷ []))
        (find-AreApart (module_routes mounts ++ at_metrics ∷ at_health ∷ []) (codes "/profile")
          profile [] free_profile)

  length-all_routes : length all_routes ≡ 2 * length mounts + 3
  length-all_routes = let n = length-module_routes mounts in omega (arith, length-append {0}, n)

  -- For modules with different names that hold no slash, the registration does not panic. In the routes
  -- that it leaves, the two paths of each module lead to the module's two handlers, `/metrics`, `/health`
  -- and `/profile` lead to the merged views, and there are no more than these `2 n + 3` routes.
  pub register-IsComplete :
      AreNamed mounts
      → (routes : List (Route W)) × (register mounts metrics health profile ≡ some routes)
        × IsComplete routes
  register-IsComplete named = (
    all_routes,
    register-all_routes named,
    (
      All-IsFound mounts [] (at_metrics ∷ at_health ∷ at_profile ∷ []) named (IsFresh-nil mounts),
      find-AreApart (module_routes mounts) (codes "/metrics") metrics (at_health ∷ at_profile ∷ [])
          free_metrics,
      find-health,
      find-profile,
      length-all_routes,
    ),
  )
