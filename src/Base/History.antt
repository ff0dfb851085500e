-- ===== src/Base/History.antt =====
-- Publishing and history windows of internal/metrics/base.go.
use workstation_probe.Common.{
  ℕ, zero, suc, ◌+◌, ◌-◌, ◌≤◌, ◌<◌, ◌≡◌, ◌⊎◌, inl, inr, refl, true, false, some, List, [], ◌∷◌,
  ◌++◌, arith, length, drop, keep, last?, All, Bool-cases, inl, inr, if◌then◌else◌, keep-All, take,
  length-drop, last?-append,
}
use workstation_probe.Common.Int.{ℤ, pos, negsuc, ◌≤ℤ◌, wrap64, ◌-ℤ◌}
use workstation_probe.Common.Time.{Time, Duration, add_neg, max_duration, sub_time}
use workstation_probe.Common.Float.{Float64}
use workstation_probe.Ring.{RingBuffer, snapshot, latest}
use workstation_probe.Ring
use workstation_probe.Ring.Inv.{IsValid, contents, snapshot-contents, push-IsValid}
use workstation_probe.Ring.Refine.{push_refines, push_bounded}
use workstation_probe.Ring.Latest.{latest-snapshot}
use workstation_probe.Base.{
  Base, publish, last_sample_age, history_within, not_before, build_history_response,
}

-- The published pointer and the ring buffer agree on the newest sample.
pub record IsCoherent {ℓ} {S : Type ℓ} (b : Base S) : Type ℓ where
  pub valid : IsValid b.buf
  pub agree : b.latest ≡ latest b.buf

module _ {ℓ} {S : Type ℓ} where
  -- The last element is kept by the trim of a push, unless the capacity is 0.
  last?-push_bounded :
      (cap : ℕ) (q : List S) (v : S) → 0 < cap → last? (push_bounded cap q v) ≡ some v
  last?-push_bounded cap q v h = last_drop (length q + 1 - cap) q (omega arith)
    where
      last_drop : (n : ℕ) (q : List S) → n ≤ length q → last? (drop n (q ++ v ∷ [])) ≡ some v
      last_drop zero q h = last?-append q v
      last_drop (suc n) [] h = absurd (omega arith)
      last_drop (suc n) (x ∷ q) h = last_drop n q (omega arith)

  latest-push : (r : RingBuffer S) (v : S) → IsValid r → latest (Ring.push r v) ≡ some v
  latest-push r v w =
      rw
        (
          latest-snapshot v (push-IsValid v w),
          snapshot-contents v (push-IsValid v w),
          push_refines v w,
        )
        (last?-push_bounded r.cap (contents r) v (omega (arith, w.head_in)))

  -- `Publish` keeps the agreement of the stored pointer with what the buffer gives back, and stores
  -- the published sample.
  pub publish-IsCoherent :
      (now : Time) (s : S) {b : Base S}
      → IsCoherent b
      → IsCoherent (publish now s b) × ((publish now s b).latest ≡ some s)
  unfolding publish
  publish-IsCoherent now s {b} c =
      (record { valid = push-IsValid s c.valid; agree = rw (latest-push b.buf s c.valid) }, refl)

  pub latest-publish : (now : Time) (s : S) (b : Base S) → (publish now s b).latest ≡ some s
  unfolding publish
  latest-publish now s b = refl

  -- Right after a publication at a positive `t`, the age at a `now` that is not earlier, and not
  -- later than the largest duration, is the time between.
  pub last_sample_age-publish :
      (t now : Time) (s : S) (b : Base S)
      → pos 1 ≤ℤ t
      → t ≤ℤ now
      → now ≤ℤ max_duration
      → last_sample_age now (publish t s b) ≡ now -ℤ t
  unfolding publish last_sample_age sub_time ◌-ℤ◌ wrap64
  last_sample_age-publish t now s b p q r = ground arith

module _ {ℓ} {S : Type ℓ} (stamp : S → Time) where
  -- No sample is older than one that stands before it.
  abbrev pub IsChronological : List S → Type 0
  IsChronological [] = Unit
  IsChronological (x ∷ xs) = All (λ y. stamp x ≤ℤ stamp y) xs × IsChronological xs

  abbrev pub IsRecent : Time → S → Type 0
  IsRecent cutoff s = not_before stamp s cutoff ≡ true

  abbrev pub IsOld : Time → S → Type 0
  IsOld cutoff s = not_before stamp s cutoff ≡ false

  -- How many samples stand before the first recent one.
  abbrev pub old_count : Time → List S → ℕ
  old_count cutoff [] = 0
  old_count cutoff (x ∷ xs) =
      let rest = suc (old_count cutoff xs) in if not_before stamp x cutoff then 0 else rest

  keep_id :
      (cutoff : Time) (xs : List S)
      → All (IsRecent cutoff) xs
      → keep (λ s. not_before stamp s cutoff) xs ≡ xs
  keep_id cutoff [] h = refl
  keep_id cutoff (x ∷ xs) (h, hs) = rw (h, keep_id cutoff xs hs)

  later_in_window :
      (cutoff : Time) (x : S) (xs : List S)
      → IsRecent cutoff x
      → All (λ y. stamp x ≤ℤ stamp y) xs
      → All (IsRecent cutoff) xs
  later_in_window cutoff x [] h o = tt
  later_in_window cutoff x (y ∷ ys) h (o, os) = (ground arith, later_in_window cutoff x ys h os)

  keep-eq-drop :
      (cutoff : Time) (xs : List S)
      → IsChronological xs
      → keep (λ s. not_before stamp s cutoff) xs ≡ drop (old_count cutoff xs) xs
  keep-eq-drop cutoff [] o = refl
  keep-eq-drop cutoff (x ∷ xs) (o, os) = elim (Bool-cases (not_before stamp x cutoff)) [
    | inl e ↦ rw (e, keep_id cutoff xs (later_in_window cutoff x xs e o))
    | inr e ↦ rw (e, keep-eq-drop cutoff xs os)
  ]

  old_count-IsOld :
      (cutoff : Time) (xs : List S) → All (IsOld cutoff) (take (old_count cutoff xs) xs)
  old_count-IsOld cutoff [] = tt
  old_count-IsOld cutoff (x ∷ xs) = elim (Bool-cases (not_before stamp x cutoff)) [
    | inl e ↦ rw e tt
    | inr e ↦ rw e (e, old_count-IsOld cutoff xs)
  ]

  -- On a chronological buffer the history is the suffix that starts at the first recent sample: all
  -- of it is recent, and all that it leaves out is older than the cutoff.
  pub history_within-suffix :
      (zero_value : S) (now : Time) (r : RingBuffer S) (d : Duration)
      → IsChronological (snapshot zero_value r)
      → let cutoff = add_neg now d in
        let n = old_count cutoff (snapshot zero_value r) in
        let h = history_within zero_value now r d (not_before stamp) in
        (h ≡ drop n (snapshot zero_value r))
        × All (IsRecent cutoff) h
        × All (IsOld cutoff) (take n (snapshot zero_value r))
  unfolding history_within
  history_within-suffix z now r d o =
      let cutoff = add_neg now d in
      (
        keep-eq-drop cutoff (snapshot z r) o,
        keep-All (λ s. not_before stamp s cutoff) (snapshot z r),
        old_count-IsOld cutoff (snapshot z r),
      )

module _ (f : Float64) {Any : Type 0} where
  drop_none : (n : ℕ) (xs : List Any) → n ≡ 0 → drop n xs ≡ xs
  drop_none n xs e = rw e

  -- The last `limit` of the list for a positive limit, all of it for another.
  abbrev pub newest : ℤ → List Any → List Any
  newest (negsuc n) samples = samples
  newest (pos zero) samples = samples
  newest (pos (suc n)) samples = drop (length samples - suc n) samples

  -- The response holds the newest `limit` samples for a positive limit, all of them otherwise, and
  -- its count is their number, which does not exceed a positive limit.
  pub build_history_response_lem :
      (window : Duration) (samples : List Any) (limit : ℤ)
      → let r = build_history_response f window samples limit in
        (r.count ≡ length r.samples)
        × (r.samples ≡ newest limit samples)
        × ((limit ≤ℤ pos 0) ⊎ (pos r.count ≤ℤ limit))
  unfolding build_history_response
  build_history_response_lem window samples (negsuc n) = ground arith
  build_history_response_lem window samples (pos zero) = ground arith
  build_history_response_lem window samples (pos (suc n)) = ground (
    arith,
    drop_none (length samples - suc n) samples,
    length-drop (length samples - suc n) samples,
  )
