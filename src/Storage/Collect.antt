-- ===== src/Storage/Collect.antt =====
-- What one sample of the disks holds.
use workstation_probe.Common.{
  ℕ, suc, ◌≡◌, ◌≢◌, sym, ◌∙◌, ◌&&◌, ◌↔◌, refl, Bool, true, false, List, [], ◌∷◌, arith, length, all,
  All, Bytes, bytes_eq, Bool-cases, inl, inr, ltb,
}
use workstation_probe.Common.Result.{Result, ok, err}
use workstation_probe.Common.Float.{Float64}
use workstation_probe.Storage.{
  Disk, MountPoint, Usage, disk_of, disks_of, top_level_error, all_failed, failed,
}

-- An answer of the collector that is an error with a text.
pub IsFailed : {A : Type 0} → Result Bytes A → Type 0
IsFailed (ok a) = ⊥
IsFailed (err message) = message ≢ []

positive : (n : ℕ) → ltb 0 (suc n) ≡ true
positive n = ground arith

true≢false : true ≢ false
true≢false h = cc

and-split : (a b : Bool) → (a && b) ≡ true → (a ≡ true) × (b ≡ true)
and-split true b h = (refl, h)
and-split false b h = cc

module _ (f : Float64) where
  failed-IsFailed :
      (mp : MountPoint) (r : Result Bytes (Usage f))
      → (failed f (disk_of f mp r) ≡ true) ↔ IsFailed r
  unfolding disk_of IsFailed bytes_eq
  failed-IsFailed mp (ok u) = (λ h. cc, λ h. absurd h)
  failed-IsFailed mp (err []) = (λ h. cc, λ h. absurd (h refl))
  failed-IsFailed mp (err (c ∷ cs)) = (λ h q. cc, λ h. refl)

  all-top :
      (d : Disk f) (ds : List (Disk f))
      → all (failed f) (d ∷ ds) ≡ true
      → top_level_error f (d ∷ ds) ≡ all_failed f
  unfolding top_level_error
  all-top d ds e = rw (positive (length ds), e) refl

  not_all-top :
      (d : Disk f) (ds : List (Disk f))
      → all (failed f) (d ∷ ds) ≡ false
      → top_level_error f (d ∷ ds) ≡ []
  unfolding top_level_error
  not_all-top d ds e = rw (positive (length ds), e) refl

  all-failed-IsFailed :
      (usage : Bytes → Result Bytes (Usage f)) (mounts : List MountPoint)
      → (all (failed f) (disks_of f usage mounts) ≡ true)
        ↔ All (λ (mp : MountPoint). IsFailed (usage mp.path)) mounts
  unfolding disks_of
  all-failed-IsFailed usage [] = (λ h. tt, λ h. refl)
  all-failed-IsFailed usage (mp ∷ mounts) =
      let here = failed-IsFailed mp (usage mp.path) in
      let rest = all-failed-IsFailed usage mounts in
      (
        λ h.
            let q =
              and-split (failed f (disk_of f mp (usage mp.path)))
                (all (failed f) (disks_of f usage mounts)) h in
            (here.0 q.0, rest.0 q.1),
        λ h. rw (here.1 h.0) (rest.1 h.1),
      )

  -- The sample of a mount-point list has a top-level error exactly when there is a mount point and the
  -- collector's call for each of them returned an error with a text.
  pub top_level_error-IsFailed :
      (usage : Bytes → Result Bytes (Usage f)) (mounts : List MountPoint)
      → (top_level_error f (disks_of f usage mounts) ≢ [])
        ↔ (mounts ≢ []) × All (λ (mp : MountPoint). IsFailed (usage mp.path)) mounts
  unfolding top_level_error disks_of
  top_level_error-IsFailed usage [] = (λ h. absurd (h refl), λ h. absurd (h.0 refl))
  top_level_error-IsFailed usage (mp ∷ mounts) =
      let d = disk_of f mp (usage mp.path) in
      let ds = disks_of f usage mounts in
      let every = all-failed-IsFailed usage (mp ∷ mounts) in
      elim (Bool-cases (all (failed f) (disks_of f usage (mp ∷ mounts)))) [
        | inl e ↦ (λ h. (λ q. cc, every.0 e), λ h q. (let top = all-top d ds e in cc))
        | inr e ↦
            (λ h. absurd (h (not_all-top d ds e)), λ h. absurd (true≢false (sym (every.1 h.1) ∙ e)))
      ]
