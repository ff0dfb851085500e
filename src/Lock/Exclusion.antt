-- ===== src/Lock/Exclusion.antt =====
-- What holding the lock file guarantees.
use workstation_probe.Common.{
  ◌≡◌, ◌<◌, ◌≤◌, ◌^◌, ◌++◌, refl, sym, ◌∙◌, Bool, true, Option, none, some, [], Bytes, bytes_eq,
  Bool-cases, inl, inr,
}
use workstation_probe.Common.Int.{ℤ, pos_part, neg_part}
use workstation_probe.Common.Result.{ok, err}
use workstation_probe.Trim.Printed.{trim_space-itoa}
use workstation_probe.Strconv.{itoa}
use workstation_probe.Strconv.Laws.{atoi-itoa}
use workstation_probe.Lock.{
  Lock, System, already_running, newline, recorded, holder, written, take_over, acquire, release,
}

module _ (sys : System) where
  -- After a successful write the file holds what was written.
  abbrev IsStoring : Type 0
  IsStoring =
      (content : Bytes) (old : Option Bytes)
      → (sys.write_file content old).0 ≡ none
      → (sys.write_file content old).1 ≡ some content

  written-ok :
      (path : Bytes) (w : Option Bytes × Option Bytes) (file : Option Bytes) (l : Lock)
      → written sys path w ≡ (ok l, file)
      → (w.0 ≡ none) × (w.1 ≡ file)
  written-ok path (none, stored) file l h = (refl, cc)
  written-ok path (some message, stored) file l h = cc

  take_over-recorded :
      (path : Bytes) (pid : ℤ) (current : Option ℤ) (old file : Option Bytes) (l : Lock)
      → IsStoring
      → take_over sys path pid current old ≡ (ok l, file)
      → file ≡ some (itoa pid ++ newline)
  take_over-recorded path pid (some other) old file l stores h = cc
  take_over-recorded path pid none old file l stores h =
      let (done, same) = written-ok path (sys.write_file (itoa pid ++ newline) old) file l h in
      sym same ∙ stores (itoa pid ++ newline) old done

  -- After a process with a number of the int64 range has taken the lock, every further attempt on the
  -- same file while that process runs is refused with its number and leaves the file as it is, if a
  -- successful write stores its content.
  pub acquire-acquire :
      (running later : ℤ → Bool) (path : Bytes) (pid other : ℤ) (old file : Option Bytes) (l : Lock)
      → IsStoring
      → pos_part pid < 2 ^ 63
      → neg_part pid ≤ 2 ^ 63
      → acquire sys running pid path old ≡ (ok l, file)
      → later pid ≡ true
      → acquire sys later other path file ≡ (err (already_running pid), file)
  unfolding acquire
  acquire-acquire running later path pid other old file l stores hi lo h alive =
      let stored =
        take_over-recorded path pid (holder sys running (recorded sys old)) old file l stores h in
      rw (stored, trim_space-itoa sys.trim_unicode pid, atoi-itoa pid hi lo, alive) refl

  -- After one `Release`, whatever it returned, a second does nothing and reports no error.
  pub release-release :
      (l : Option Lock) (file : Option Bytes)
      → let (error, l', file') = release sys l file in release sys l' file' ≡ (none, l', file')
  unfolding release bytes_eq
  release-release none file = refl
  release-release (some l) file = elim (Bool-cases (bytes_eq l.path [])) [
    | inl e ↦ rw (e, e) refl
    | inr e ↦ rw e refl
  ]
