-- ===== src/Lock/Lives/Holder.antt =====
-- What the holder of the lock is, and what a process that gives it up leaves of that.
use workstation_probe.Common.{
  ◌≡◌, ◌++◌, ◌∙◌, refl, ap, sym, inl, inr, true, false, Bool, Option, none, some, Bytes, Bool-cases,
}
use workstation_probe.Common.Int.{ℤ, eq_ℤ}
use workstation_probe.Trim.Printed.{trim_space-itoa}
use workstation_probe.Strconv.{itoa}
use workstation_probe.Strconv.Laws.{atoi-itoa}
use workstation_probe.Lock.{Lock, System, newline, recorded, holder}
use workstation_probe.Lock.Processes.{IsPid}
use workstation_probe.Lock.Lives.{Machine, set_at}

pub set_at_other :
    {A : Type 0} (pid other : ℤ) (a : A) (g : ℤ → A)
    → eq_ℤ pid other ≡ false
    → set_at pid a g other ≡ g other
set_at_other pid other a g e = rw e refl

pub path_in :
    {q : Bytes} {l : Lock}
    → ◌≡◌ {A = Option Lock} (some (record { path = q })) (some l)
    → l.path ≡ q
path_in {q} {l} e = sym (ap (λ (o : Option Lock). elim o [ none ↦ q | some x ↦ x.path ]) e)

module _ (sys : System) (path : Bytes) where
  -- The file names the process, which runs.
  pub record IsHolder (m : Machine) (pid : ℤ) (l : Lock) : Type 0 where
    pub in_range : IsPid pid
    pub alive : m.running pid ≡ true
    pub path_of : l.path ≡ path
    pub content : m.file ≡ some (itoa pid ++ newline)

  abbrev pub IsHeld : Machine → Type 0
  IsHeld m = (pid : ℤ) (l : Lock) → m.held pid ≡ some l → IsHolder m pid l

  pub IsHolder-holder :
      (m : Machine) (pid : ℤ) (l : Lock)
      → IsHolder m pid l
      → holder sys m.running (recorded sys m.file) ≡ some pid
  IsHolder-holder m pid l h =
      rw
        (
          h.content,
          trim_space-itoa sys.trim_unicode pid,
          atoi-itoa pid h.in_range.0 h.in_range.1,
          h.alive,
        )
        refl

  pub IsHolder-unique :
      (m : Machine) (a b : ℤ) (l l' : Lock) → IsHolder m a l → IsHolder m b l' → a ≡ b
  IsHolder-unique m a b l l' h h' =
      let e = IsHolder-holder m a l h in let e' = IsHolder-holder m b l' h' in cc

  -- `pid` holds nothing any more, and the other processes and the file are as before.
  pub dropped-IsHeld :
      (m : Machine) (pid : ℤ) (running : ℤ → Bool)
      → ((other : ℤ) → eq_ℤ pid other ≡ false → running other ≡ m.running other)
      → IsHeld m
      → IsHeld (record { file = m.file; running = running; held = set_at pid none m.held })
  dropped-IsHeld m pid running same held other l e = elim (Bool-cases (eq_ℤ pid other)) [
    | inl own ↦ let gone : ◌≡◌ {A = Option Lock} none (some l) = rw own at e in cc
    | inr apart ↦
        let old : m.held other ≡ some l = rw apart at e in
        let h = held other l old in
        record {
          in_range = h.in_range;
          alive = same other apart ∙ h.alive;
          path_of = h.path_of;
          content = h.content;
        }
  ]
