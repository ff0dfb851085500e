-- ===== src/Monitor/Routes.antt =====
-- cmd/monitor/main.go and internal/metrics/base.go: the routes that the process registers on its mux, over any
-- handlers of the modules and of the three merged views.
pub mod Mounted
pub mod Registered
use workstation_probe.Common.{Option, none, some, List, [], ◌∷◌, ◌++◌, Bytes, codes}
use workstation_probe.Http.{Handler}
use workstation_probe.Http.Mux.{Route, handle}

-- A module with the handlers of its two routes.
pub record Mount (W : Type 0) : Type 0 where
  pub name : Bytes
  pub latest : Handler W
  pub history : Handler W

abbrev pub latest_path : Bytes → Bytes
latest_path name = codes "/metrics/" ++ name

abbrev pub history_path : Bytes → Bytes
history_path name = latest_path name ++ codes "/history"

module _ {W : Type 0} where
  -- The panic of a step ends the registration.
  abbrev pub and_then :
      Option (List (Route W)) → (List (Route W) → Option (List (Route W))) → Option (List (Route W))
  and_then none rest = none
  and_then (some routes) rest = rest routes

  -- `metrics.RegisterRoutes`
  pub register_routes : Mount W → List (Route W) → Option (List (Route W))
  register_routes m routes =
      and_then (handle (latest_path m.name) m.latest routes)
        (handle (history_path m.name) m.history)

  pub register_all : List (Mount W) → List (Route W) → Option (List (Route W))
  unfolding register_routes
  register_all [] routes = some routes
  register_all (m ∷ mounts) routes = and_then (register_routes m routes) (register_all mounts)

  -- The registrations of `run`, in their order.
  pub register : List (Mount W) → (metrics health profile : Handler W) → Option (List (Route W))
  unfolding register_all
  register mounts metrics health profile =
      and_then
        (and_then (and_then (register_all mounts []) (handle (codes "/metrics") metrics))
          (handle (codes "/health") health))
        (handle (codes "/profile") profile)
