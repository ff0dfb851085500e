-- ===== src/Http/Mux/Laws.antt =====
-- Registering routes one after the other, and finding them.
use workstation_probe.Common.{
  ℕ, ◌≡◌, ◌≢◌, refl, false, Option, none, some, List, [], ◌∷◌, ◌++◌, any, All, Bytes, codes,
  bytes_eq, bytes_eq_iff, bytes_eq-differ,
}
use workstation_probe.Http.{Request, Call, Handler}
use workstation_probe.Http.Mux.{Route, is_at, handle, find, serve}

module _ {W : Type 0} where
  abbrev pub IsFree : Bytes → List (Route W) → Type 0
  IsFree path = All (λ (r : Route W). r.path ≢ path)

  -- No two routes have the same path.
  abbrev pub AreApart : List (Route W) → Type 0
  AreApart [] = Unit
  AreApart (r ∷ routes) = IsFree r.path routes × AreApart routes

  any-IsFree :
      (path : Bytes) (routes : List (Route W))
      → IsFree path routes
      → any (is_at path) routes ≡ false
  any-IsFree path [] free = refl
  any-IsFree path (r ∷ routes) free =
      rw (bytes_eq-differ r.path path free.0, any-IsFree path routes free.1) refl

  pub handle-IsFree :
      (path : Bytes) (h : Handler W) (routes : List (Route W))
      → IsFree path routes
      → handle path h routes ≡ some (routes ++ record { path = path; handler = h } ∷ [])
  unfolding handle
  handle-IsFree path h routes free = rw (any-IsFree path routes free) refl

  -- A route that stands in the list is found by its path.
  pub find-AreApart :
      (before : List (Route W)) (path : Bytes) (h : Handler W) (after : List (Route W))
      → IsFree path before
      → find path (before ++ record { path = path; handler = h } ∷ after) ≡ some h
  unfolding find
  find-AreApart [] path h after free = rw ((bytes_eq_iff path path).1 refl) refl
  find-AreApart (r ∷ before) path h after free =
      rw (bytes_eq-differ r.path path free.0) (find-AreApart before path h after free.1)

  pub find-none :
      (path : Bytes) (routes : List (Route W)) → IsFree path routes → find path routes ≡ none
  unfolding find
  find-none path [] free = refl
  find-none path (r ∷ routes) free =
      rw (bytes_eq-differ r.path path free.0) (find-none path routes free.1)

-- A route for GET that is found is served by its handler.
pub serve-found :
    {W : Type 0} (early : Request → Option (List Call)) (taken : Bytes → ℕ)
    (routes : List (Route W)) (h : Handler W) (req : Request) (w : W)
    → early req ≡ none
    → req.method ≡ codes "GET"
    → find req.path routes ≡ some h
    → serve early taken routes req w ≡ h req w
unfolding serve bytes_eq
serve-found early taken routes h req w on_time get found = rw (on_time, found, get) refl
