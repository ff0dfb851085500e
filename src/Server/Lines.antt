-- ===== src/Server/Lines.antt =====
-- The lines that requests in a row leave in the log, and their sizes.
use workstation_probe.Logging.{level_info, enabled}
use workstation_probe.Common.{
  refl, ap, Bool, true, false, not, ◌||◌, any, ℕ, suc, ◌+◌, ◌≤◌, ◌≡◌, inl, inr, List, [], ◌∷◌, ◌++◌,
  All, length, length-append, arith, Bytes, codes,
}
use workstation_probe.Common.Float.{Float64}
use workstation_probe.Config
use workstation_probe.Http.{Request, Handler, Run}
use workstation_probe.Chain.{World, Surroundings, AccessLine, PanicLine, request_id_of}
use workstation_probe.Chain.Ids.{IsFull, request_id_of-valid}
use workstation_probe.Chain.Sizes.{length-log_path, IsId, valid_request_id-IsId}
use workstation_probe.RateLimit.{Rate, Moments, Table}
use workstation_probe.Server.{build}
use workstation_probe.Server.Recorded.{IsSilent, IsRecorded, build-IsRecorded}

abbrev pub IsSmall : AccessLine → Type 0
IsSmall line = (length line.path ≤ 526) × IsId line.request_id

module _ {L : Type 0} where
  abbrev pub IsInBounds : World L → Type 0
  IsInBounds w = All IsSmall w.access × All (λ (line : PanicLine). length line.path ≤ 526) w.panics

  abbrev pub lines : World L → ℕ
  lines w = length w.access + length w.panics

All-snoc :
    {A : Type 0} (P : A → Type 0) (xs : List A) (x : A) → All P xs → P x → All P (xs ++ x ∷ [])
All-snoc P [] x h p = (p, tt)
All-snoc P (y ∷ xs) x h p = (h.0, All-snoc P xs x h.1 p)

-- The logger of the request drops the lines of the level info.
abbrev pub is_quiet : Surroundings → Bool
is_quiet s = not (enabled s.level level_info)

-- The log grew by at most `n` lines, and by exactly `n` unless some line was dropped.
abbrev pub HasGrown : Bool → (before n after : ℕ) → Type 0
HasGrown dropped before n after =
    (before ≤ after) × (after ≤ before + n) × ((dropped ≡ false) → after ≡ before + n)

IsRecorded-IsInBounds :
    {L : Type 0} (s : Surroundings) (req : Request) (w : World L) (run : Run (World L))
    → IsFull s.random
    → IsRecorded s req w run
    → IsInBounds w
    → IsInBounds run.world × HasGrown (is_quiet s) (lines w) 1 (lines run.world)
IsRecorded-IsInBounds s req w run full (inl (level, line, access, path, status, id, panics))
      (a, p) =
    let size : length line.path ≤ 526 = rw path (length-log_path req.path) in
    let own : IsId line.request_id = rw id (
      valid_request_id-IsId (request_id_of s (req.header (codes "X-Request-Id")))
        (request_id_of-valid s (req.header (codes "X-Request-Id")) full)) in
    let grown : lines run.world ≡ lines w + 1 =
      rw (access, panics) (omega (arith, length-append {0} w.access (line ∷ []))) in
    (
      rw (access, panics) (All-snoc IsSmall w.access line a (size, own), p),
      (omega (arith, grown), omega (arith, grown), λ e. grown),
    )
IsRecorded-IsInBounds s req w run full (inr (inl (level, access, panics))) (a, p) =
    let grown : lines run.world ≡ lines w = rw (access, panics) refl in
    (
      rw (access, panics) (a, p),
      (omega (arith, grown), omega (arith, grown), λ e. let t = ap not level in cc),
    )
IsRecorded-IsInBounds s req w run full (inr (inr (access, (line, panics, path)))) (a, p) =
    let size : length line.path ≤ 526 = rw path (length-log_path req.path) in
    let grown : lines run.world ≡ lines w + 1 =
      rw (access, panics) (omega (arith, length-append {0} w.panics (line ∷ []))) in
    (
      rw (access, panics) (a, All-snoc (λ line. length line.path ≤ 526) w.panics line p size),
      (omega (arith, grown), omega (arith, grown), λ e. grown),
    )

HasGrown-trans :
    (dropped dropped' : Bool) (a b c n : ℕ)
    → HasGrown dropped a 1 b
    → HasGrown dropped' b n c
    → HasGrown (dropped || dropped') a (suc n) c
HasGrown-trans true dropped' a b c n h k = (omega arith, omega arith, λ e. cc)
HasGrown-trans false dropped' a b c n (low, high, same) (low', high', same') =
    (omega arith, omega arith, λ e. omega (arith, same refl, same' e))

module _ {f : Float64} (r : Rate f) (trim_unicode : Bytes → Bytes) (c : Config.SecurityConfig f)
    (mux : Handler (World (Table r))) where
  -- Requests one after the other, each with what it meets outside and its moments.
  abbrev pub serve_all : List (Surroundings × Moments × Request) → World (Table r) → World (Table r)
  serve_all [] w = w
  serve_all ((s, m, req) ∷ rest) w = serve_all rest (build r trim_unicode s m c mux req w).world

  -- However many requests go through the chain, and whatever paths and ids they come with, the log never loses a line and
  -- grows by at most one for each request, and by exactly one for each unless the logger of some request drops lines of
  -- the level info; this if the mux writes none of the two kinds and the random bytes, where they
  -- can be read, are eight. And if the lines were in these bounds before, all are afterwards: a path of at
  -- most 526 bytes, and in an access line an id of 1 to 128 bytes, each of those that an id may have.
  pub serve_all-IsInBounds :
      IsSilent mux
      → (requests : List (Surroundings × Moments × Request)) (w : World (Table r))
      → All (λ (q : Surroundings × Moments × Request). IsFull q.0.random) requests
      → IsInBounds w
      → IsInBounds (serve_all requests w)
        × HasGrown
            (any (λ (q : Surroundings × Moments × Request). is_quiet q.0) requests)
            (lines w)
            (length requests)
            (lines (serve_all requests w))
  serve_all-IsInBounds silent [] w full h = (h, (omega arith, omega arith, λ e. omega arith))
  serve_all-IsInBounds silent ((s, m, req) ∷ rest) w full h =
      let run = build r trim_unicode s m c mux req w in
      let (h', more) =
        IsRecorded-IsInBounds s req w run full.0
          (build-IsRecorded r trim_unicode s m c mux silent req w) h in
      let (ih, sum) = serve_all-IsInBounds silent rest run.world full.1 h' in
      (
        ih,
        HasGrown-trans (is_quiet s)
            (any (λ (q : Surroundings × Moments × Request). is_quiet q.0) rest) (lines w)
            (lines run.world) (lines (serve_all rest run.world)) (length rest) more sum,
      )
