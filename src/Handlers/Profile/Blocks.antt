-- ===== src/Handlers/Profile/Blocks.antt =====
-- The four blocks of the profile reply, over the modules that the handler keeps.
use workstation_probe.Common.{
  ℕ, ◌≡◌, refl, ap, sym, ◌∙◌, subst, inl, inr, Bool, false, Option, none, some, List, [], ◌∷◌,
  foldl, if◌then◌else◌, All, Bytes, codes, bytes_eq, bytes_eq_iff, differ, Bool-cases,
}
use workstation_probe.Common.Int.{ℤ}
use workstation_probe.Common.Result.{Result, ok}
use workstation_probe.Handlers.Profile.{
  Profile, cpu, memory, gpu, storage, Profiled, ProfileBlocks, ProfileSamplerConfig, new_profile,
  ProfileResponse, with_module, index, put_cpu, put_memory, put_gpu, put_storage, if_there,
  no_blocks, blocks, response_of, serve_profile,
}

-- The type of a profile goes with one name.
abbrev kind_of : Profile → Bytes
kind_of (cpu info) = codes "cpu"
kind_of (memory info) = codes "memory"
kind_of (gpu info) = codes "gpu"
kind_of (storage points) = codes "storage"

abbrev pub IsTyped : Profiled → Type 0
IsTyped m = m.name ≡ kind_of m.profile

-- What is found under a name has the profile of this name.
abbrev IsKeyed : (Bytes → Option Profiled) → Type 0
IsKeyed mods = (name : Bytes) (m : Profiled) → mods name ≡ some m → kind_of m.profile ≡ name

index-IsKeyed :
    (f : Bytes → Option Profiled) (mods : List Profiled)
    → IsKeyed f
    → All IsTyped mods
    → IsKeyed (foldl with_module f mods)
index-IsKeyed f [] keyed typed = keyed
index-IsKeyed f (m ∷ mods) keyed typed =
    index-IsKeyed (with_module f m) mods
      (λ name found h. elim (Bool-cases (bytes_eq m.name name)) [
        | inl e ↦
            let same : m ≡ found = let t : some m ≡ some found = rw e at h in cc in
            subst (λ x. kind_of x.profile ≡ name) same
              (sym typed.0 ∙ (bytes_eq_iff m.name name).0 e)
        | inr e ↦ keyed name found (rw e at h)
      ])
      typed.1

-- The flags of the four blocks.
abbrev pub Flags : Type 0
Flags = Bool × Bool × Bool × Bool

abbrev pub flags : ProfileBlocks → Flags
flags b = (b.cpu.enabled, b.memory.enabled, b.gpu.enabled, b.storage.enabled)

-- A step that succeeds and sets the flags as told.
abbrev Sets : Result Bytes ProfileBlocks → Flags → Type 0
Sets r fs = (b : ProfileBlocks) × (r ≡ ok b) × (flags b ≡ fs)

put_cpu-kind_of :
    (on : Bool) (p : Profile) (b : ProfileBlocks)
    → kind_of p ≡ codes "cpu"
    → Sets (put_cpu on p b) (on, b.memory.enabled, b.gpu.enabled, b.storage.enabled)
unfolding bytes_eq
put_cpu-kind_of on (cpu info) b k = (_, refl, refl)
put_cpu-kind_of on (memory info) b k = absurd (differ _ _ refl k)
put_cpu-kind_of on (gpu info) b k = absurd (differ _ _ refl k)
put_cpu-kind_of on (storage info) b k = absurd (differ _ _ refl k)

put_memory-kind_of :
    (on : Bool) (p : Profile) (b : ProfileBlocks)
    → kind_of p ≡ codes "memory"
    → Sets (put_memory on p b) (b.cpu.enabled, on, b.gpu.enabled, b.storage.enabled)
unfolding bytes_eq
put_memory-kind_of on (cpu info) b k = absurd (differ _ _ refl k)
put_memory-kind_of on (memory info) b k = (_, refl, refl)
put_memory-kind_of on (gpu info) b k = absurd (differ _ _ refl k)
put_memory-kind_of on (storage info) b k = absurd (differ _ _ refl k)

put_gpu-kind_of :
    (on : Bool) (p : Profile) (b : ProfileBlocks)
    → kind_of p ≡ codes "gpu"
    → Sets (put_gpu on p b) (b.cpu.enabled, b.memory.enabled, on, b.storage.enabled)
unfolding bytes_eq
put_gpu-kind_of on (cpu info) b k = absurd (differ _ _ refl k)
put_gpu-kind_of on (memory info) b k = absurd (differ _ _ refl k)
put_gpu-kind_of on (gpu info) b k = (_, refl, refl)
put_gpu-kind_of on (storage info) b k = absurd (differ _ _ refl k)

put_storage-kind_of :
    (on : Bool) (p : Profile) (b : ProfileBlocks)
    → kind_of p ≡ codes "storage"
    → Sets (put_storage on p b) (b.cpu.enabled, b.memory.enabled, b.gpu.enabled, on)
unfolding bytes_eq
put_storage-kind_of on (cpu info) b k = absurd (differ _ _ refl k)
put_storage-kind_of on (memory info) b k = absurd (differ _ _ refl k)
put_storage-kind_of on (gpu info) b k = absurd (differ _ _ refl k)
put_storage-kind_of on (storage info) b k = (_, refl, refl)

-- The flag under a name: that of the module, and false without one.
abbrev pub flag : Option Profiled → Bool
flag none = false
flag (some m) = m.enabled

if_there-Sets :
    (put : Bool → Profile → ProfileBlocks → Result Bytes ProfileBlocks) (name : Bytes)
    (set : Bool → Flags)
    → (o : Option Profiled) (b : ProfileBlocks)
    → ((on : Bool) (p : Profile) → kind_of p ≡ name → Sets (put on p b) (set on))
    → flags b ≡ set false
    → ((m : Profiled) → o ≡ some m → kind_of m.profile ≡ name)
    → Sets (if_there put o b) (set (flag o))
if_there-Sets put name set none b does off keyed = (b, refl, off)
if_there-Sets put name set (some m) b does off keyed = does m.enabled m.profile (keyed m refl)

four_flags :
    (b1 b2 b3 b4 : ProfileBlocks) {p q r s : Bool}
    → flags b1 ≡ (p, false, false, false)
    → flags b2 ≡ (b1.cpu.enabled, q, b1.gpu.enabled, b1.storage.enabled)
    → flags b3 ≡ (b2.cpu.enabled, b2.memory.enabled, r, b2.storage.enabled)
    → flags b4 ≡ (b3.cpu.enabled, b3.memory.enabled, b3.gpu.enabled, s)
    → flags b4 ≡ (p, q, r, s)
four_flags b1 b2 b3 b4 {q} {r} {s} f1 f2 f3 f4 =
    f4
    ∙ ap (λ (x : Flags). (x.0, x.1, x.2, s)) f3
    ∙ ap (λ (x : Flags). (x.0, x.1, r, s)) f2
    ∙ ap (λ (x : Flags). (x.0, q, r, s)) f1

-- The flag that a step is about was not set before.
with_memory :
    (b1 : ProfileBlocks)
    → b1.memory.enabled ≡ false
    → flags b1 ≡ (b1.cpu.enabled, false, b1.gpu.enabled, b1.storage.enabled)
with_memory b1 e = ap (λ x. (b1.cpu.enabled, x, b1.gpu.enabled, b1.storage.enabled)) e

with_gpu :
    (b1 b2 : ProfileBlocks) {p q : Bool}
    → flags b1 ≡ (p, false, false, false)
    → flags b2 ≡ (b1.cpu.enabled, q, b1.gpu.enabled, b1.storage.enabled)
    → flags b2 ≡ (b2.cpu.enabled, b2.memory.enabled, false, b2.storage.enabled)
with_gpu b1 b2 f1 f2 =
    ap (λ x. (b2.cpu.enabled, b2.memory.enabled, x, b2.storage.enabled))
      (ap (λ x. x.2) f2 ∙ ap (λ x. x.2) f1)

with_storage :
    (b1 b2 b3 : ProfileBlocks) {p q r : Bool}
    → flags b1 ≡ (p, false, false, false)
    → flags b2 ≡ (b1.cpu.enabled, q, b1.gpu.enabled, b1.storage.enabled)
    → flags b3 ≡ (b2.cpu.enabled, b2.memory.enabled, r, b2.storage.enabled)
    → flags b3 ≡ (b3.cpu.enabled, b3.memory.enabled, b3.gpu.enabled, false)
with_storage b1 b2 b3 f1 f2 f3 =
    ap (λ x. (b3.cpu.enabled, b3.memory.enabled, b3.gpu.enabled, x))
      (ap (λ x. x.3) f3 ∙ ap (λ x. x.3) f2 ∙ ap (λ x. x.3) f1)

blocks-Sets :
    (mods : Bytes → Option Profiled)
    → IsKeyed mods
    → Sets (blocks mods) (
      flag (mods (codes "cpu")),
      flag (mods (codes "memory")),
      flag (mods (codes "gpu")),
      flag (mods (codes "storage")),
    )
unfolding blocks
blocks-Sets mods keyed =
    let (b1, e1, f1) =
      if_there-Sets put_cpu (codes "cpu") (λ on. (on, false, false, false)) (mods (codes "cpu"))
        no_blocks (λ on p k. put_cpu-kind_of on p no_blocks k) refl (keyed (codes "cpu")) in
    let (b2, e2, f2) =
      if_there-Sets put_memory (codes "memory")
        (λ on. (b1.cpu.enabled, on, b1.gpu.enabled, b1.storage.enabled)) (mods (codes "memory")) b1
        (λ on p k. put_memory-kind_of on p b1 k) (with_memory b1 (ap (λ x. x.1) f1))
        (keyed (codes "memory")) in
    let (b3, e3, f3) =
      if_there-Sets put_gpu (codes "gpu")
        (λ on. (b2.cpu.enabled, b2.memory.enabled, on, b2.storage.enabled)) (mods (codes "gpu")) b2
        (λ on p k. put_gpu-kind_of on p b2 k) (with_gpu b1 b2 f1 f2) (keyed (codes "gpu")) in
    let (b4, e4, f4) =
      if_there-Sets put_storage (codes "storage")
        (λ on. (b3.cpu.enabled, b3.memory.enabled, b3.gpu.enabled, on)) (mods (codes "storage")) b3
        (λ on p k. put_storage-kind_of on p b3 k) (with_storage b1 b2 b3 f1 f2 f3)
        (keyed (codes "storage")) in
    (b4, rw (e1, e2, e3) e4, four_flags b1 b2 b3 b4 f1 f2 f3 f4)

-- The flag of the last module of a name in a list, and false without one.
pub last_flag : Bytes → Bool → List Profiled → Bool
last_flag name on [] = on
last_flag name on (m ∷ mods) = last_flag name (if bytes_eq m.name name then m.enabled else on) mods

index-flag :
    (name : Bytes) (f : Bytes → Option Profiled) (mods : List Profiled)
    → flag (foldl with_module f mods name) ≡ last_flag name (flag (f name)) mods
unfolding last_flag
index-flag name f [] = refl
index-flag name f (m ∷ mods) =
    index-flag name (with_module f m) mods
    ∙ elim (Bool-cases (bytes_eq m.name name)) [ inl e ↦ rw e refl | inr e ↦ rw e refl ]

-- For modules whose profiles have the types that go with their names, the profile request does not panic, and
-- each of the four blocks is shown as enabled exactly if the last module of its name in the list is
-- there and enabled.
pub serve_profile-IsTyped :
    (go_version hostname : Bytes) (sampler : ProfileSamplerConfig) (mods : List Profiled)
    → (zone : Bytes) (offset : ℤ) (boot : Result Bytes ℕ) (format : ℕ → Bytes) (started_at : Bytes)
    → All IsTyped mods
    → let h = new_profile hostname sampler mods zone offset boot format started_at in
      (r : ProfileResponse) × (serve_profile go_version h ≡ ok r)
      × (flags r.modules ≡ (
        last_flag (codes "cpu") false mods,
        last_flag (codes "memory") false mods,
        last_flag (codes "gpu") false mods,
        last_flag (codes "storage") false mods,
      ))
unfolding serve_profile new_profile index
serve_profile-IsTyped go_version hostname sampler mods zone offset boot format started_at typed =
    let h = new_profile hostname sampler mods zone offset boot format started_at in
    let (b, served, set) =
      blocks-Sets (index mods) (index-IsKeyed (λ name. none) mods (λ name m k. cc) typed) in
    let found = λ (name : Bytes). index-flag name (λ name. none) mods in
    (
      record { go_version = go_version; host = h.host; sampler = h.sampler; modules = b },
      ap (response_of go_version h) served,
      set ∙ (λ i. (
        found (codes "cpu") i,
        found (codes "memory") i,
        found (codes "gpu") i,
        found (codes "storage") i,
      )),
    )
