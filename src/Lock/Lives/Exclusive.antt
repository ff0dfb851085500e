-- ===== src/Lock/Lives/Exclusive.antt =====
-- Who holds the lock over the lives of processes.
use workstation_probe.Common.{
  [], ◌≡◌, ◌≢◌, ◌++◌, ◌∙◌, refl, ap, sym, subst, inl, inr, true, false, Bool, Option, none, some,
  Bytes, Bool-cases, Option-cases, bytes_eq-differ,
}
use workstation_probe.Common.Int.{ℤ, eq_ℤ, eq_ℤ-refl, eq_ℤ-true}
use workstation_probe.Common.Result.{ok, err}
use workstation_probe.Strconv.{itoa}
use workstation_probe.Lock.{
  Lock, System, newline, already_running, recorded, holder, acquire, release,
}
use workstation_probe.Lock.Processes.{IsPid}
use workstation_probe.Lock.Lives.{
  Machine, set_at, acquires, releases, Step, begins, takes, leaves, dies, IsReachable, at_first,
  next,
}
use workstation_probe.Lock.Lives.Holder.{
  IsHeld, IsHolder, IsHolder-holder, IsHolder-unique, dropped-IsHeld, path_in, set_at_other,
}

module _ (sys : System) (path : Bytes) where
  module _
      (writable : (content : Bytes) (old : Option Bytes)
        → sys.write_file content old ≡ (none, some content))
      (removing : (content : Bytes) → sys.remove (some content) ≡ (none, none))
      (named : path ≢ []) where
    acquire-free :
        (m : Machine) (pid : ℤ)
        → holder sys m.running (recorded sys m.file) ≡ none
        → acquire sys m.running pid path m.file
          ≡ (ok (record { path = path }), some (itoa pid ++ newline))
    unfolding acquire
    acquire-free m pid free = rw (free, writable (itoa pid ++ newline) m.file) refl

    acquire-busy :
        (m : Machine) (pid q : ℤ)
        → holder sys m.running (recorded sys m.file) ≡ some q
        → acquire sys m.running pid path m.file ≡ (err (already_running q), m.file)
    unfolding acquire
    acquire-busy m pid q busy = rw busy refl

    release-removes :
        (m : Machine) (pid : ℤ) (l : Lock)
        → m.held pid ≡ some l
        → IsHolder sys path m pid l
        → (releases sys path pid m).file ≡ none
    unfolding releases release
    release-removes m pid l e h =
        rw (e, h.path_of, bytes_eq-differ path [] named, h.content, removing (itoa pid ++ newline))
          refl

    taken-IsHeld :
        (m : Machine) (pid : ℤ)
        → IsPid pid
        → m.running pid ≡ true
        → holder sys m.running (recorded sys m.file) ≡ none
        → IsHeld sys path m
        → IsHeld sys path (record {
          file = some (itoa pid ++ newline);
          running = m.running;
          held = set_at pid (some (record { path = path })) m.held;
        })
    taken-IsHeld m pid in_range alive free held other l e = elim (Bool-cases (eq_ℤ pid other)) [
      | inl own ↦
          let same = eq_ℤ-true pid other own in
          let mine : ◌≡◌ {A = Option Lock} (some (record { path = path })) (some l) = rw own at e in
          record {
            in_range = subst IsPid same in_range;
            alive = ap m.running (sym same) ∙ alive;
            path_of = path_in mine;
            content = ap (λ n. some (itoa n ++ newline)) same;
          }
      | inr apart ↦
          let old : m.held other ≡ some l = rw apart at e in
          let named_there = IsHolder-holder sys path m other l (held other l old) in cc
    ]

    takes-IsHeld :
        (m : Machine) (pid : ℤ)
        → IsPid pid
        → m.running pid ≡ true
        → IsHeld sys path m
        → IsHeld sys path (acquires sys path pid m)
    unfolding acquires
    takes-IsHeld m pid in_range alive held =
        elim (Option-cases (holder sys m.running (recorded sys m.file))) [
          | inr (q, busy) ↦
              rw (acquire-busy m pid q busy)
                (dropped-IsHeld sys path m pid m.running (λ other e. refl) held)
          | inl free ↦ rw (acquire-free m pid free) (taken-IsHeld m pid in_range alive free held)
        ]

    leaves-IsHeld :
        (m : Machine) (pid : ℤ) (l : Lock)
        → m.held pid ≡ some l
        → IsHeld sys path m
        → IsHeld sys path (releases sys path pid m)
    unfolding releases
    leaves-IsHeld m pid l e held other l' e' = elim (Bool-cases (eq_ℤ pid other)) [
      | inl own ↦ let gone : ◌≡◌ {A = Option Lock} none (some l') = rw own at e' in cc
      | inr apart ↦
          let old : m.held other ≡ some l' = rw apart at e' in
          let same = IsHolder-unique sys path m pid other l l' (held pid l e) (held other l' old) in
          let t : eq_ℤ pid other ≡ true = rw (← same) (eq_ℤ-refl pid) in cc
    ]

    Step-IsHeld : (m m' : Machine) → Step sys path m m' → IsHeld sys path m → IsHeld sys path m'
    Step-IsHeld m m' (begins pid _ in_range off) held =
        dropped-IsHeld sys path m pid (set_at pid true m.running)
          (λ other e. set_at_other pid other true m.running e) held
    Step-IsHeld m m' (takes pid _ in_range alive free) held = takes-IsHeld m pid in_range alive held
    Step-IsHeld m m' (leaves pid _ l e) held = leaves-IsHeld m pid l e held
    Step-IsHeld m m' (dies pid _) held =
        dropped-IsHeld sys path m pid (set_at pid false m.running)
          (λ other e. set_at_other pid other false m.running e) held

    none_other :
        (m : Machine) (owner other : ℤ) (l : Lock)
        → IsHeld sys path m
        → m.held owner ≡ some l
        → owner ≢ other
        → m.held other ≡ none
    none_other m owner other l held e apart = elim (Option-cases (m.held other)) [
      | inl free ↦ free
      | inr (l', e') ↦
          absurd (
            apart (IsHolder-unique sys path m owner other l l' (held owner l e) (held other l' e')))
    ]

    acquires-busy :
        (m : Machine) (pid q : ℤ)
        → holder sys m.running (recorded sys m.file) ≡ some q
        → (acquires sys path pid m).held pid ≡ none
    unfolding acquires
    acquires-busy m pid q busy = rw (acquire-busy m pid q busy, eq_ℤ-refl pid) refl

    pub acquires-free :
        (m : Machine) (pid : ℤ)
        → holder sys m.running (recorded sys m.file) ≡ none
        → (acquires sys path pid m).held pid ≡ some (record { path = path })
    unfolding acquires
    acquires-free m pid free = rw (acquire-free m pid free, eq_ℤ-refl pid) refl

    acquires_other :
        (m : Machine) (pid other : ℤ)
        → other ≢ pid
        → holder sys m.running (recorded sys m.file) ≡ none
        → (acquires sys path pid m).held other ≡ m.held other
    unfolding acquires
    acquires_other m pid other apart free = elim (Bool-cases (eq_ℤ pid other)) [
      | inl e ↦ absurd (apart (sym (eq_ℤ-true pid other e)))
      | inr e ↦ rw e refl
    ]

    releases_self : (m : Machine) (pid : ℤ) → (releases sys path pid m).held pid ≡ none
    unfolding releases
    releases_self m pid = rw (eq_ℤ-refl pid) refl

    IsReachable-IsHeld :
        (file : Option Bytes) (running : ℤ → Bool) (m : Machine)
        → IsReachable sys path file running m
        → IsHeld sys path m
    IsReachable-IsHeld file running m at_first = λ pid l e. cc
    IsReachable-IsHeld file running m (next m0 _ r step) =
        Step-IsHeld m0 m step (IsReachable-IsHeld file running m0 r)

    -- Processes start, take the lock, release it and die in any order, one `Acquire` not overlapping another, and a process
    -- number may come again, from any file and any processes that run at first. While a process
    -- holds the lock no other one does, and another that asks for it does not get it; once the holder has
    -- released it, that other one gets it. It holds where writing and removing the file work and the path is not empty.
    pub IsReachable-IsExclusive :
        (file : Option Bytes) (running : ℤ → Bool) (m : Machine) (owner other : ℤ) (l : Lock)
        → IsReachable sys path file running m
        → m.held owner ≡ some l
        → owner ≢ other
        → let released = acquires sys path other (releases sys path owner m) in
          (m.held other ≡ none)
          × ((acquires sys path other m).held other ≡ none)
          × (released.held other ≡ some (record { path = path }))
          × (released.held owner ≡ none)
    IsReachable-IsExclusive file running m owner other l reachable e apart =
        let held = IsReachable-IsHeld file running m reachable in
        let h = held owner l e in
        let gone = release-removes m owner l e h in
        let free : holder sys (releases sys path owner m).running
              (recorded sys (releases sys path owner m).file)
            ≡ none =
          rw gone refl in
        (
          none_other m owner other l held e apart,
          acquires-busy m other owner (IsHolder-holder sys path m owner l h),
          acquires-free (releases sys path owner m) other free,
          acquires_other (releases sys path owner m) other owner apart free ∙ releases_self m owner,
        )
