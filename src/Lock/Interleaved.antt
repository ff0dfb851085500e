-- ===== src/Lock/Interleaved.antt =====
-- Which processes can hold the lock when several of them start together.
use workstation_probe.Common.{
  ◌≡◌, ◌≢◌, ◌++◌, refl, ap, sym, inl, inr, true, false, Bool, Option, none, some, Bytes, Bool-cases,
}
use workstation_probe.Common.Int.{ℤ, eq_ℤ, eq_ℤ-refl, eq_ℤ-true}
use workstation_probe.Strconv.{itoa}
use workstation_probe.Lock.{System, newline, recorded, holder}
use workstation_probe.Lock.Processes.{
  idle, holding, Host, stored, IsPid, read, write, reads, writes, IsReachable, begun, next,
}

module _ (sys : System) (running : ℤ → Bool) where
  -- Every write succeeds and stores its content.
  abbrev pub IsWritable : Type 0
  IsWritable =
      (content : Bytes) (old : Option Bytes) → sys.write_file content old ≡ (none, some content)

  -- The file names a process that runs and holds the lock.
  pub record IsNamed (h : Host) : Type 0 where
    pub pid : ℤ
    pub in_range : IsPid pid
    pub alive : running pid ≡ true
    pub held : h.phase pid ≡ holding
    pub content : h.file ≡ some (itoa pid ++ newline)

  -- Any two different processes that run, with numbers of the int64 range, can both hold the lock, if
  -- every write of the file succeeds and the file names no running process when they start: both read
  -- before either writes.
  pub IsReachable-both :
      (file : Option Bytes) (a b : ℤ)
      → IsWritable
      → IsPid a
      → IsPid b
      → running a ≡ true
      → running b ≡ true
      → a ≢ b
      → holder sys running (recorded sys file) ≡ none
      → (h : Host) × IsReachable sys running file h × (h.phase a ≡ holding) × (h.phase b ≡ holding)
  unfolding read write
  IsReachable-both file a b writable in_a in_b on_a on_b apart free =
      let h0 : Host = record { file = file; phase = λ pid. idle } in
      let h1 = read sys running a h0 in
      let h2 = read sys running b h1 in
      let h3 = write sys running a h2 in
      let h4 = write sys running b h3 in
      let not_same = eq_ℤ-apart a b apart in
      let not_same' = eq_ℤ-apart b a (λ e. apart (sym e)) in
      (
        h4,
        next h3 h4
            (next h2 h3
              (next h1 h2 (next h0 h1 begun (reads a h0 in_a on_a refl))
                (reads b h1 in_b on_b (rw not_same refl)))
              (writes a h2 in_a on_a (rw (not_same', eq_ℤ-refl a, free) refl)))
            (writes b h3 in_b on_b (rw (not_same, eq_ℤ-refl b, free) refl)),
        rw (not_same', eq_ℤ-refl a) (ap (λ r. stored r.0) (writable (itoa a ++ newline) file)),
        rw (eq_ℤ-refl b) (ap (λ r. stored r.0) (writable (itoa b ++ newline) h3.file)),
      )
    where
      eq_ℤ-apart : (x y : ℤ) → x ≢ y → eq_ℤ x y ≡ false
      eq_ℤ-apart x y h = elim (Bool-cases (eq_ℤ x y)) [
        | inl e ↦ absurd (h (eq_ℤ-true x y e))
        | inr e ↦ e
      ]
