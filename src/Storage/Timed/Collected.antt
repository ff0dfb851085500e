-- ===== src/Storage/Timed/Collected.antt =====
-- What a collection with the clock comes to.
use workstation_probe.Common.{
  ℕ, ◌+◌, ◌*◌, ◌≤◌, ◌≡◌, ◌⊎◌, refl, subst, inl, inr, Bool, ◌&&◌, ◌||◌, Option, none, some, List, [],
  ◌∷◌, arith, length, ltb, ◌==◌, Bytes, Bool-cases, ◌++◌, ◌≢◌, subst, bytes_eq, bytes_eq_iff,
  Option-cases,
}
use workstation_probe.Common.Result.{ok, err}
use workstation_probe.Common.Float.{Float64}
use workstation_probe.Storage.{Disk, MountPoint, Usage, disk_of}
use workstation_probe.Storage.InFlight.{begun, State, call_for, request, IsReachable, after}
use workstation_probe.Storage.InFlight.Names.{IsFor, call_for-IsFor, IsReachable-IsNamed}
use workstation_probe.Storage.Timed.{
  per_disk_timeout, deadline_exceeded, Answer, KernelReply, Kernel, wait, collect_from,
}

module _ (f : Float64) where
  abbrev IsBy : ℕ → Option ℕ → Type 0
  IsBy deadline none = ⊥
  IsBy deadline (some due) = due ≤ deadline

  abbrev IsLate : ℕ → Option ℕ → Type 0
  IsLate deadline none = Unit
  IsLate deadline (some due) = deadline ≤ due

  -- The entry of a mount point for an answer of the collector.
  pub record IsEntry (mp : MountPoint) (error : Bytes) (u : Usage f) (fs_type : Bytes) (d : Disk f)
      : Type 0 where
    pub path : d.path ≡ mp.path
    pub label : d.label ≡ mp.label
    pub total_bytes : d.total_bytes ≡ u.total_bytes
    pub used_bytes : d.used_bytes ≡ u.used_bytes
    pub free_bytes : d.free_bytes ≡ u.free_bytes
    pub used_percent : d.used_percent ≡ u.used_percent
    pub fs_type_of : d.fs_type ≡ fs_type
    pub error_of : d.error ≡ error

  abbrev pub no_usage : Usage f
  no_usage = record {
    total_bytes = 0;
    used_bytes = 0;
    free_bytes = 0;
    used_percent = f.zero_float;
    fs_type = [];
  }

  -- An error gives its text and no figures, and figures no error; the type is the table's where the figures have none.
  abbrev pub IsDisk : MountPoint → (Answer f) → Disk f → Type 0
  IsDisk mp (err message) d = IsEntry mp message no_usage [] d
  IsDisk mp (ok u) d =
      ((u.fs_type ≡ []) × IsEntry mp [] u mp.fs_type d)
      ⊎ ((u.fs_type ≢ []) × IsEntry mp [] u u.fs_type d)

  -- The collector after a call for a path: it has the call `id` for the path, which is the one in flight or,
  -- where none is, the one new call.
  pub record IsCalled (st : State (Answer f)) (path : Bytes) (id : ℕ) (st1 : State (Answer f))
      : Type 0 where
    pub own : IsFor (Answer f) st1 id path
    pub calls :
        ((st.in_flight path ≡ some id) × (st1.calls ≡ st.calls))
        ⊎ ((st.in_flight path ≡ none)
            × (id ≡ length st.calls)
            × (st1.calls ≡ st.calls ++ begun (Answer f) path ∷ []))

  -- One disk of the sample, asked for at the time `now` in the state `st` of the collector, by the call `id`.
  pub record IsAsked (k : Kernel f) (now : ℕ) (st : State (Answer f)) (mp : MountPoint) (id : ℕ)
      (st1 : State (Answer f)) (d : Disk f) : Type 0 where
    pub called : IsCalled (k.workers now st) mp.path id st1
    pub outcome :
        (IsDisk mp (k.replies id).answer d × IsBy (now + per_disk_timeout) (k.replies id).due)
        ⊎ (IsDisk mp (err deadline_exceeded) d × IsLate (now + per_disk_timeout) (k.replies id).due)

  -- The disks of the mount points in their order, asked for one after the other from the time `now` and the
  -- state `st` on, each within the timeout and in the state that the one before it left, up to the
  -- time `end` and the state `last`.
  pub data IsCollected (k : Kernel f)
      : ℕ → State (Answer f) → List MountPoint → List (Disk f) → ℕ → State (Answer f) → Type 0 where
    nothing : (now : ℕ) (st : State (Answer f)) → IsCollected k now st [] [] now st
    asked :
        (now : ℕ) (st : State (Answer f)) (mp : MountPoint) (mounts : List MountPoint) (d : Disk f)
        (disks : List (Disk f)) (id later end : ℕ) (st1 last : State (Answer f))
        → IsAsked k now st mp id st1 d
        → now ≤ later
        → later ≤ now + per_disk_timeout
        → IsCollected k later st1 mounts disks end last
        → IsCollected k now st (mp ∷ mounts) (d ∷ disks) end last

  disk_of-IsDisk : (mp : MountPoint) (answer : (Answer f)) → IsDisk mp answer (disk_of f mp answer)
  unfolding disk_of
  disk_of-IsDisk mp (err message) = record {
    path = refl;
    label = refl;
    total_bytes = refl;
    used_bytes = refl;
    free_bytes = refl;
    used_percent = refl;
    fs_type_of = refl;
    error_of = refl;
  }
  disk_of-IsDisk mp (ok u) = elim (Bool-cases (bytes_eq u.fs_type [])) [
    | inl e ↦ inl (
      (bytes_eq_iff u.fs_type []).0 e,
      record {
        path = refl;
        label = refl;
        total_bytes = refl;
        used_bytes = refl;
        free_bytes = refl;
        used_percent = refl;
        fs_type_of = rw e refl;
        error_of = refl;
      },
    )
    | inr e ↦ inr (
      (λ h. let t = (bytes_eq_iff u.fs_type []).1 h in cc),
      record {
        path = refl;
        label = refl;
        total_bytes = refl;
        used_bytes = refl;
        free_bytes = refl;
        used_percent = refl;
        fs_type_of = rw e refl;
        error_of = refl;
      },
    )
  ]

  call_for-IsCalled :
      (path : Bytes) (st : State (Answer f))
      → IsReachable (Answer f) st
      → let (id, st1) = call_for (Answer f) path st in IsCalled st path id st1
  unfolding call_for
  call_for-IsCalled path st r =
      let named = call_for-IsFor (Answer f) path st (IsReachable-IsNamed (Answer f) r) in
      record { own = named.1; calls = call_for-calls path st }
    where
      call_for-calls :
          (path : Bytes) (st : State (Answer f))
          → let (id, st1) = call_for (Answer f) path st in
            ((st.in_flight path ≡ some id) × (st1.calls ≡ st.calls))
            ⊎ ((st.in_flight path ≡ none)
                × (id ≡ length st.calls)
                × (st1.calls ≡ st.calls ++ begun (Answer f) path ∷ []))
      call_for-calls path st = elim (Option-cases (st.in_flight path)) [
        | inl free ↦ rw (call_for, free) (inr (refl, refl, refl))
        | inr (id, e) ↦ rw (call_for, e) (inl (refl, refl))
      ]

  -- The outcomes of a wait, as one.
  IsWaited : ℕ → KernelReply f → (Answer f) × ℕ → Type 0
  IsWaited now r (answer, later) =
      (((answer ≡ r.answer) × IsBy (now + per_disk_timeout) r.due)
        ⊎ ((answer ≡ err deadline_exceeded) × IsLate (now + per_disk_timeout) r.due))
      × (now ≤ later)
      × (later ≤ now + per_disk_timeout)

  wait-IsWaited :
      (chosen : Bool) (now : ℕ) (r : KernelReply f) → IsWaited now r (wait f chosen now r)
  unfolding wait IsWaited
  wait-IsWaited chosen now r = by_reply r.answer r.due
    where
      by_reply :
          (answer : (Answer f)) (due : Option ℕ)
          → IsWaited now
              (record { due = due; answer = answer })
              (wait f chosen now (record { due = due; answer = answer }))
      by_reply answer none = (inr (refl, tt), omega arith, omega arith)
      by_reply answer (some due) =
          let deadline : ℕ = now + per_disk_timeout in
          elim (Bool-cases (ltb due deadline || (due == deadline && chosen))) [
            | inl e ↦
                let by : due ≤ deadline = ground arith in
                rw e (inl (refl, by), ground arith, ground arith)
            | inr e ↦
                let late : deadline ≤ due = ground arith in
                rw e (inr (refl, late), omega arith, omega arith)
          ]

  module _ (k : Kernel f)
      (work : (t : ℕ) (st : State (Answer f))
        → IsReachable (Answer f) st
        → IsReachable (Answer f) (k.workers t st)) where
    collect_from-IsCollected :
        (mounts : List MountPoint) (st : State (Answer f)) (now : ℕ)
        → IsReachable (Answer f) st
        → let (disks, st', end) = collect_from f k st now mounts in
          IsCollected k now st mounts disks end st' × IsReachable (Answer f) st'
    unfolding collect_from IsWaited
    collect_from-IsCollected [] st now r = (nothing now st, r)
    collect_from-IsCollected (mp ∷ mounts) st now r =
        let st0 = k.workers now st in
        let r0 = work now st r in
        let (id, st1) = call_for (Answer f) mp.path st0 in
        let r1 = after st0 st1 r0 (request mp.path st0) in
        let (answer, later) = wait f (k.chosen id) now (k.replies id) in
        let (outcome, low, high) = wait-IsWaited (k.chosen id) now (k.replies id) in
        let (rest, r2) = collect_from-IsCollected mounts st1 later r1 in
        let shown = disk_of-IsDisk mp answer in
        let ask : IsAsked k now st mp id st1 (disk_of f mp answer) = record {
          called = call_for-IsCalled mp.path st0 r0;
          outcome = elim outcome [
            | inl (e, by) ↦ inl (subst (λ x. IsDisk mp x (disk_of f mp answer)) e shown, by)
            | inr (e, late) ↦ inr (subst (λ x. IsDisk mp x (disk_of f mp answer)) e shown, late)
          ];
        } in
        (asked now st mp mounts (disk_of f mp answer) _ id later _ st1 _ ask low high rest, r2)

    IsCollected-le :
        (now : ℕ) (st : State (Answer f)) (mounts : List MountPoint) (disks : List (Disk f))
        (end : ℕ) (last : State (Answer f))
        → IsCollected k now st mounts disks end last
        → end ≤ now + per_disk_timeout * length mounts
    IsCollected-le now st mounts disks end last (nothing _ _) = omega arith
    IsCollected-le now st mounts disks end last
          (asked _ _ mp mounts' d disks' id later _ st1 _ ask low high rest) =
        let ih = IsCollected-le later st1 mounts' disks' end last rest in omega arith

    -- Whatever the kernel answers, and when, if ever, a collection comes to its end, at most 500 ms for each mount
    -- point after its begin. It has one disk for each mount point, in their order; each is asked for
    -- within 500 ms by a call for its own path, in flight or new, in the state of the collector that the one
    -- before it left. If that call was answered by the deadline, the disk has the path and label of the mount point and the call's
    -- figures or its error, with the mount table's type where the figures name none; if it was not there before the
    -- deadline, the disk has the deadline's error and no figures. The workers may do anything that
    -- leads to a reachable state.
    pub collect_from-IsTimed :
        (mounts : List MountPoint) (st : State (Answer f)) (now : ℕ)
        → IsReachable (Answer f) st
        → let (disks, st', end) = collect_from f k st now mounts in
          IsCollected k now st mounts disks end st'
          × (end ≤ now + per_disk_timeout * length mounts)
          × IsReachable (Answer f) st'
    collect_from-IsTimed mounts st now r =
        let (disks, st', end) = collect_from f k st now mounts in
        let (collected, reachable) = collect_from-IsCollected mounts st now r in
        (collected, IsCollected-le now st mounts disks end st' collected, reachable)
