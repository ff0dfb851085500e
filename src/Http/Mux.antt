-- ===== src/Http/Mux.antt =====
-- `http.ServeMux` as the program uses it: patterns of the method GET and a path without wildcards and
-- without a final slash.
pub mod Laws
use workstation_probe.Common.{
  ℕ, Bool, true, false, ◌||◌, Option, none, some, List, [], ◌∷◌, ◌++◌, if◌then◌else◌, any, Bytes,
  codes, bytes_eq,
}
use workstation_probe.Http.{
  Request, Call, set_header, Exit, returned, Run, Handler, after_calls, http_error,
}

pub record Route (W : Type 0) : Type 0 where
  pub path : Bytes
  pub handler : Handler W

-- A pattern with GET also takes HEAD.
abbrev pub takes : Bytes → Bool
takes method = bytes_eq method (codes "GET") || bytes_eq method (codes "HEAD")

abbrev pub not_found : Bytes
not_found = codes "404 page not found"

abbrev pub not_allowed : Bytes
not_allowed = codes "Method Not Allowed"

module _ {W : Type 0} where
  abbrev pub is_at : Bytes → Route W → Bool
  is_at path r = bytes_eq r.path path

  -- `mux.Handle("GET " + path, h)`; `none` is its panic on a pattern that is there.
  pub handle : Bytes → Handler W → List (Route W) → Option (List (Route W))
  handle path h routes =
      if any (is_at path) routes
      then none
      else some (routes ++ record { path = path; handler = h } ∷ [])

  pub find : Bytes → List (Route W) → Option (Handler W)
  find path [] = none
  find path (r ∷ routes) =
      let rest = find path routes in if is_at path r then some r.handler else rest

  abbrev pub replied : List Call → W → Run W
  replied calls w = record { calls = calls; exit = returned; world = w }

  abbrev pub dispatch : (Bytes → ℕ) → Option (Handler W) → Handler W
  dispatch taken none req w = replied (http_error not_found 404 (taken (not_found ++ 10 ∷ []))) w
  dispatch taken (some h) req w =
      if takes req.method
      then h req w
      else after_calls (set_header (codes "Allow") (codes "GET, HEAD") ∷ [])
          (replied (http_error not_allowed 405 (taken (not_allowed ++ 10 ∷ []))) w)

  abbrev pub unless_early : Option (List Call) → W → Run W → Run W
  unless_early none w r = r
  unless_early (some calls) w r = replied calls w

  -- `early` is the mux's answer before it looks at its patterns: the redirect of a path that is not clean.
  pub serve : (Request → Option (List Call)) → (Bytes → ℕ) → List (Route W) → Handler W
  unfolding find
  serve early taken routes req w =
      unless_early (early req) w (dispatch taken (find req.path routes) req w)
