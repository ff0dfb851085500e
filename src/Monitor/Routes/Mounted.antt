-- ===== src/Monitor/Routes/Mounted.antt =====
-- The routes of a list of modules: their paths, their registration, and finding them.
use workstation_probe.Common.{
  ℕ, ◌*◌, ◌≡◌, ◌≢◌, refl, ap, sym, subst, ◌∙◌, some, List, [], ◌∷◌, ◌++◌, append-nil, append_assoc,
  length, take, All, Lacks, Bytes, codes, index_byte, index_byte-append, take-length-append, arith,
}
use workstation_probe.Http.Mux.{Route, find}
use workstation_probe.Http.Mux.Laws.{IsFree, handle-IsFree, find-AreApart}
use workstation_probe.Monitor.Routes.{
  Mount, latest_path, history_path, register_routes, register_all,
}

append-cancel : (a b c : Bytes) → a ++ b ≡ a ++ c → b ≡ c
append-cancel [] b c e = e
append-cancel (x ∷ a) b c e = append-cancel a b c (tail_of e)
  where
    tail_of : {x y : ℕ} {s t : Bytes} → x ∷ s ≡ y ∷ t → s ≡ t
    tail_of e = cc

Lacks-no_byte : (c : ℕ) (a b : Bytes) → ¬ Lacks c (a ++ c ∷ b)
Lacks-no_byte c [] b h = h.0 refl
Lacks-no_byte c (x ∷ a) b h = Lacks-no_byte c a b h.1

-- The text before the first byte `c` is known.
append_byte-cancel :
    (c : ℕ) (a b s : Bytes) → Lacks c a → Lacks c b → a ++ c ∷ s ≡ b ++ c ∷ s → a ≡ b
append_byte-cancel c a b s in_a in_b e =
    let lengths : some (length a) ≡ some (length b) =
      sym (index_byte-append a s c in_a)
      ∙ ap (λ t. index_byte t c) e
      ∙ index_byte-append b s c in_b in
    let same : length a ≡ length b = let t = lengths in cc in
    sym (take-length-append a (c ∷ s))
    ∙ ap (take (length a)) e
    ∙ rw same (take-length-append b (c ∷ s))

latest_path-inj : (a b : Bytes) → a ≢ b → latest_path a ≢ latest_path b
latest_path-inj a b h e = h (append-cancel (codes "/metrics/") a b e)

latest_path-history_path : (a b : Bytes) → Lacks b'/' a → latest_path a ≢ history_path b
latest_path-history_path a b lacks e =
    let tail : a ≡ b ++ codes "/history" =
      append-cancel (codes "/metrics/") a (b ++ codes "/history") e in
    Lacks-no_byte b'/' b (codes "history") (rw tail at lacks)

history_path-inj :
    (a b : Bytes) → Lacks b'/' a → Lacks b'/' b → a ≢ b → history_path a ≢ history_path b
history_path-inj a b in_a in_b h e = h (
    append_byte-cancel b'/' a b (codes "history") in_a in_b
      (append-cancel (codes "/metrics/") (a ++ codes "/history") (b ++ codes "/history") e))

history_path-latest_path : (a b : Bytes) → Lacks b'/' b → history_path a ≢ latest_path b
history_path-latest_path a b lacks e = latest_path-history_path b a lacks (sym e)

module _ {W : Type 0} where
  -- Different names without a slash.
  unfoldable pub AreNamed : List (Mount W) → Type 0
  AreNamed [] = Unit
  AreNamed (m ∷ mounts) =
      Lacks b'/' m.name × All (λ (n : Mount W). n.name ≢ m.name) mounts × AreNamed mounts

  abbrev pub routes_of : Mount W → List (Route W)
  routes_of m =
      record { path = latest_path m.name; handler = m.latest }
      ∷ record { path = history_path m.name; handler = m.history }
      ∷ []

  -- What the modules register, one module after the other.
  pub module_routes : List (Mount W) → List (Route W)
  module_routes [] = []
  module_routes (m ∷ mounts) = routes_of m ++ module_routes mounts

  -- The paths of the modules do not stand in the list yet.
  unfoldable pub IsFresh : List (Route W) → List (Mount W) → Type 0
  IsFresh routes [] = Unit
  IsFresh routes (m ∷ mounts) =
      IsFree (latest_path m.name) routes
      × IsFree (history_path m.name) routes
      × IsFresh routes mounts

  pub IsFree-append :
      (path : Bytes) (a b : List (Route W)) → IsFree path a → IsFree path b → IsFree path (a ++ b)
  IsFree-append path [] b in_a in_b = in_b
  IsFree-append path (r ∷ a) b in_a in_b = (in_a.0, IsFree-append path a b in_a.1 in_b)

  IsFresh-routes_of :
      (routes : List (Route W)) (m : Mount W) (mounts : List (Mount W))
      → IsFresh routes mounts
      → Lacks b'/' m.name
      → All (λ (n : Mount W). n.name ≢ m.name) mounts
      → AreNamed mounts
      → IsFresh (routes ++ routes_of m) mounts
  unfolding IsFresh AreNamed
  IsFresh-routes_of routes m [] fresh lacks apart named = tt
  IsFresh-routes_of routes m (n ∷ mounts) fresh lacks apart named = (
    IsFree-append (latest_path n.name) routes (routes_of m) fresh.0 (
      latest_path-inj m.name n.name (λ e. apart.0 (sym e)),
      (history_path-latest_path m.name n.name named.0, tt),
    ),
    IsFree-append (history_path n.name) routes (routes_of m) fresh.1 (
      latest_path-history_path m.name n.name lacks,
      (history_path-inj m.name n.name lacks named.0 (λ e. apart.0 (sym e)), tt),
    ),
    IsFresh-routes_of routes m mounts fresh.2 lacks apart.1 named.2,
  )

  pub IsFresh-nil : (mounts : List (Mount W)) → IsFresh [] mounts
  unfolding IsFresh
  IsFresh-nil [] = tt
  IsFresh-nil (m ∷ mounts) = (tt, tt, IsFresh-nil mounts)

  pub register_all-IsFresh :
      (mounts : List (Mount W)) (routes : List (Route W))
      → AreNamed mounts
      → IsFresh routes mounts
      → register_all mounts routes ≡ some (routes ++ module_routes mounts)
  unfolding register_all register_routes module_routes IsFresh AreNamed
  register_all-IsFresh [] routes named fresh = ap some (sym (append-nil routes))
  register_all-IsFresh (m ∷ mounts) routes named fresh =
      let first = record { path = latest_path m.name; handler = m.latest } ∷ [] in
      let free : IsFree (history_path m.name) (routes ++ first) =
        IsFree-append (history_path m.name) routes first fresh.1
          (latest_path-history_path m.name m.name named.0, tt) in
      rw (handle-IsFree (latest_path m.name) m.latest routes fresh.0) (
        rw (handle-IsFree (history_path m.name) m.history (routes ++ first) free) (
          rw
            (append_assoc routes first
              (record { path = history_path m.name; handler = m.history } ∷ []))
            (register_all-IsFresh mounts (routes ++ routes_of m) named.2
                (IsFresh-routes_of routes m mounts fresh.2 named.0 named.1 named.2)
              ∙ ap some (append_assoc routes (routes_of m) (module_routes mounts)))))

  -- A path that is no path of a module.
  pub IsFree-module_routes :
      (path : Bytes) (mounts : List (Mount W))
      → ((name : Bytes) → latest_path name ≢ path)
      → ((name : Bytes) → history_path name ≢ path)
      → IsFree path (module_routes mounts)
  unfolding module_routes
  IsFree-module_routes path [] no_latest no_history = tt
  IsFree-module_routes path (m ∷ mounts) no_latest no_history =
      (no_latest m.name, (no_history m.name, IsFree-module_routes path mounts no_latest no_history))

  -- Both routes of a mount lead to its handlers.
  abbrev pub IsFound : List (Route W) → Mount W → Type 0
  IsFound routes m =
      (find (latest_path m.name) routes ≡ some m.latest)
      × (find (history_path m.name) routes ≡ some m.history)

  pub All-IsFound :
      (mounts : List (Mount W)) (before after : List (Route W))
      → AreNamed mounts
      → IsFresh before mounts
      → All (IsFound (before ++ (module_routes mounts ++ after))) mounts
  unfolding module_routes IsFresh AreNamed
  All-IsFound [] before after named fresh = tt
  All-IsFound (m ∷ mounts) before after named fresh =
      let first : List (Route W) = record { path = latest_path m.name; handler = m.latest } ∷ [] in
      let second : Route W = record { path = history_path m.name; handler = m.history } in
      let free : IsFree (history_path m.name) (before ++ first) =
        IsFree-append (history_path m.name) before first fresh.1
          (latest_path-history_path m.name m.name named.0, tt) in
      let rest = module_routes mounts ++ after in
      (
        (
          find-AreApart before (latest_path m.name) m.latest (second ∷ rest) fresh.0,
          subst (λ l. find (history_path m.name) l ≡ some m.history)
              (append_assoc before first (second ∷ rest))
              (find-AreApart (before ++ first) (history_path m.name) m.history rest free),
        ),
        subst (λ l. All (IsFound l) mounts) (append_assoc before (routes_of m) rest)
            (All-IsFound mounts (before ++ routes_of m) after named.2
              (IsFresh-routes_of before m mounts fresh.2 named.0 named.1 named.2)),
      )

  pub length-module_routes :
      (mounts : List (Mount W)) → length (module_routes mounts) ≡ 2 * length mounts
  unfolding module_routes
  length-module_routes [] = refl
  length-module_routes (m ∷ mounts) = omega (arith, length-module_routes mounts)
