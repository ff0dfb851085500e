-- ===== src/Storage/Mounts.antt =====
-- What the startup check of the mount points guarantees.
use workstation_probe.Common.{
  ◌≡◌, ◌≢◌, subst, ◌⊎◌, refl, true, Option, none, some, List, [], ◌∷◌, All, Bytes, bytes_eq,
  bytes_eq_iff, Option-cases, Bool-cases, inl, inr,
}
use workstation_probe.Common.Result.{Result, ok, err, ◌>>=◌}
use workstation_probe.Storage.{
  MountPoint, MountConfig, MountEntry, SetupError, not_mounted, prefer, entry_of, mount_point,
  validate_mount_points,
}

-- The last entry of the table with the path.
pub data IsMounted (path : Bytes) : List MountEntry → MountEntry → Type 0 where
  here :
      (m : MountEntry) (table : List MountEntry)
      → m.path ≡ path
      → All (λ (e : MountEntry). e.path ≢ path) table
      → IsMounted path (m ∷ table) m
  later :
      (m : MountEntry) (table : List MountEntry) (e : MountEntry)
      → IsMounted path table e
      → IsMounted path (m ∷ table) e

prefer-none :
    (path : Bytes) (m : MountEntry) (o : Option MountEntry)
    → prefer path m o ≡ none
    → (m.path ≢ path) × (o ≡ none)
unfolding prefer
prefer-none path m (some x) h = cc
prefer-none path m none h = elim (Bool-cases (bytes_eq m.path path)) [
  | inl e ↦ cc
  | inr e ↦ (λ q. let t : bytes_eq m.path path ≡ true = (bytes_eq_iff m.path path).1 q in cc, refl)
]

prefer-some :
    (path : Bytes) (m e : MountEntry) (o : Option MountEntry)
    → prefer path m o ≡ some e
    → (o ≡ some e) ⊎ ((o ≡ none) × (m ≡ e) × (m.path ≡ path))
unfolding prefer
prefer-some path m e (some x) h = inl h
prefer-some path m e none h = elim (Bool-cases (bytes_eq m.path path)) [
  | inl q ↦ inr (refl, cc, (bytes_eq_iff m.path path).0 q)
  | inr q ↦ cc
]

entry_of-none :
    (path : Bytes) (table : List MountEntry)
    → entry_of path table ≡ none
    → All (λ (e : MountEntry). e.path ≢ path) table
unfolding entry_of
entry_of-none path [] h = tt
entry_of-none path (m ∷ table) h =
    let q = prefer-none path m (entry_of path table) h in (q.0, entry_of-none path table q.1)

ap_here :
    {path : Bytes} (m e : MountEntry) (table : List MountEntry)
    → m ≡ e
    → m.path ≡ path
    → All (λ (x : MountEntry). x.path ≢ path) table
    → IsMounted path (m ∷ table) e
ap_here {path} m e table same p none_later =
    subst (IsMounted path (m ∷ table)) same (here m table p none_later)

entry_of-IsMounted :
    (path : Bytes) (table : List MountEntry) (e : MountEntry)
    → entry_of path table ≡ some e
    → IsMounted path table e
unfolding entry_of
entry_of-IsMounted path [] e h = cc
entry_of-IsMounted path (m ∷ table) e h = elim (prefer-some path m e (entry_of path table) h) [
  | inl q ↦ later m table e (entry_of-IsMounted path table e q)
  | inr (n, same, p) ↦ ap_here m e table same p (entry_of-none path table n)
]

-- The mount points made for the configured ones, in their order.
pub data IsResolved (table : List MountEntry) : List MountConfig → List MountPoint → Type 0 where
  resolved : IsResolved table [] []
  resolve :
      (mp : MountConfig) (cfg : List MountConfig) (entry : MountEntry) (mounts : List MountPoint)
      → IsMounted mp.path table entry
      → IsResolved table cfg mounts
      → IsResolved table (mp ∷ cfg) (mount_point mp entry ∷ mounts)

-- The path of the first configured mount point that the table lacks.
pub data IsMissing (table : List MountEntry) : List MountConfig → Bytes → Type 0 where
  first :
      (mp : MountConfig) (cfg : List MountConfig)
      → All (λ (e : MountEntry). e.path ≢ mp.path) table
      → IsMissing table (mp ∷ cfg) mp.path
  next :
      (mp : MountConfig) (cfg : List MountConfig) (entry : MountEntry) (path : Bytes)
      → IsMounted mp.path table entry
      → IsMissing table cfg path
      → IsMissing table (mp ∷ cfg) path

-- The two outcomes of the startup check.
unfoldable pub IsOutcome :
    List MountEntry → List MountConfig → Result SetupError (List MountPoint) → Type 0
IsOutcome table cfg (ok mounts) = IsResolved table cfg mounts
IsOutcome table cfg (err e) = (path : Bytes) × (e ≡ not_mounted path) × IsMissing table cfg path

extend :
    (table : List MountEntry) (mp : MountConfig) (cfg : List MountConfig) (entry : MountEntry)
    (rest : Result SetupError (List MountPoint))
    → IsMounted mp.path table entry
    → IsOutcome table cfg rest
    → IsOutcome table (mp ∷ cfg) (rest >>= (λ mounts. ok (mount_point mp entry ∷ mounts)))
unfolding IsOutcome
extend table mp cfg entry (ok mounts) m h = resolve mp cfg entry mounts m h
extend table mp cfg entry (err e) m (path, q, h) = (path, q, next mp cfg entry path m h)

-- The startup check either gives, for each configured mount point in order, its path and label with
-- the device and file-system type of the last entry of the table with that path, or refuses, naming
-- the first configured path that no entry has; it has no other outcome.
pub validate_mount_points-IsOutcome :
    (cfg : List MountConfig) (table : List MountEntry)
    → IsOutcome table cfg (validate_mount_points cfg table)
unfolding IsOutcome validate_mount_points
validate_mount_points-IsOutcome [] table = resolved
validate_mount_points-IsOutcome (mp ∷ cfg) table = elim (Option-cases (entry_of mp.path table)) [
  | inr (entry, e) ↦ rw e (
      extend table mp cfg entry (validate_mount_points cfg table)
        (entry_of-IsMounted mp.path table entry e) (validate_mount_points-IsOutcome cfg table))
  | inl n ↦ rw n (mp.path, refl, first mp cfg (entry_of-none mp.path table n))
]
