-- ===== src/Base/Reading.antt =====
-- internal/metrics/base.go: `Publish` as its three steps, for readers that come between them. One goroutine publishes.
use workstation_probe.Common.{
  Bool, ℕ, ◌-◌, ◌≡◌, refl, ap, sym, ◌∙◌, Option, none, some, List, [], ◌∷◌, ◌++◌, length, drop,
  last?, last?-append, subst,
}
use workstation_probe.Common.Int.{ℤ, pos}
use workstation_probe.Common.Time.{Time, Duration}
use workstation_probe.Ring.{RingBuffer, push, snapshot, new_ring_buffer}
use workstation_probe.Ring.Refine.{push_all, snapshot-push_all}
use workstation_probe.Base.{Base, unix_nano, new_base, publish}
use workstation_probe.Base.Sampling.{new_base-buf}

-- Where the publishing goroutine is.
pub data Stage (S : Type 0) : Type 0 where
  between : Stage S
  storing : S → Stage S
  marking : Stage S

module _ {S : Type 0} where
  pub store_latest : S → Base S → Base S
  store_latest s b = record b { latest = some s }

  pub push_sample : S → Base S → Base S
  push_sample s b = record b { buf = push b.buf s }

  pub mark : Time → Base S → Base S
  mark now b = record b { last_sample_unix = unix_nano now }

  -- The steps in a row.
  publish-steps :
      (now : Time) (s : S) (b : Base S)
      → publish now s b ≡ mark now (push_sample s (store_latest s b))
  unfolding publish store_latest push_sample mark
  publish-steps now s b = refl

  -- What a reader can meet; the list holds the samples that are in the buffer or were, in order.
  pub data IsReachable (new : Base S) : List S → Stage S → Base S → Type 0 where
    begun : IsReachable new [] between new
    stores :
        (pushed : List S) (b : Base S) (s : S)
        → IsReachable new pushed between b
        → IsReachable new pushed (storing s) (store_latest s b)
    pushes :
        (pushed : List S) (b : Base S) (s : S)
        → IsReachable new pushed (storing s) b
        → IsReachable new (pushed ++ s ∷ []) marking (push_sample s b)
    marks :
        (pushed : List S) (b : Base S) (now : Time)
        → IsReachable new pushed marking b
        → IsReachable new pushed between (mark now b)

  -- The newest sample that a reader sees.
  abbrev pub newest : List S → Stage S → Option S
  newest pushed between = last? pushed
  newest pushed (storing s) = some s
  newest pushed marking = last? pushed

  push_all-snoc :
      (r : RingBuffer S) (xs : List S) (x : S) → push_all r (xs ++ x ∷ []) ≡ push (push_all r xs) x
  push_all-snoc r [] x = refl
  push_all-snoc r (y ∷ xs) x = push_all-snoc (push r y) xs x

  reached :
      (new : Base S) (pushed : List S) (stage : Stage S) (b : Base S)
      → new.latest ≡ none
      → IsReachable new pushed stage b
      → (b.buf ≡ push_all new.buf pushed) × (b.latest ≡ newest pushed stage)
  unfolding store_latest push_sample mark
  reached new _ _ _ fresh begun = (refl, fresh)
  reached new _ _ _ fresh (stores pushed b s r) = ((reached new pushed between b fresh r).0, refl)
  reached new _ _ _ fresh (pushes pushed b s r) =
      let (buf, latest) = reached new pushed (storing s) b fresh r in
      (
        ap (λ x. push x s) buf ∙ sym (push_all-snoc new.buf pushed s),
        latest ∙ sym (last?-append pushed s),
      )
  reached new _ _ _ fresh (marks pushed b now r) = reached new pushed marking b fresh r

  new_base-latest :
      (zero_value : S) (interval : Duration) (fits : ℕ → Bool) (capacity : ℤ) {b : Base S}
      → new_base zero_value interval fits capacity ≡ some b
      → b.latest ≡ none
  unfolding new_base
  new_base-latest zero_value interval fits capacity {b} =
      by_buffer (new_ring_buffer zero_value fits capacity)
    where
      by_buffer :
          (o : Option (RingBuffer S))
          → (elim o [
            | none ↦ none
            | some buf ↦
                some (record {
                  interval = interval;
                  buf = buf;
                  latest = none;
                  last_sample_unix = pos 0;
                })
          ])
            ≡ some b
          → b.latest ≡ none
      by_buffer none h = cc
      by_buffer (some buf) h =
          subst (λ (o : Option (Base S)). elim o [ none ↦ Unit {0} | some x ↦ x.latest ≡ none ]) h
            refl

  -- A reader that comes between any two steps of `Publish`, or after them, on a new module: the buffer shows the newest
  -- `capacity` of the samples that were pushed, oldest first, and the latest sample is the last of
  -- these, or the one whose push comes next; it is never an older one.
  pub IsReachable-snapshot :
      (zero_value : S) (interval : Duration) (fits : ℕ → Bool) (capacity : ℕ) {new : Base S}
      (pushed : List S) (stage : Stage S) (b : Base S)
      → new_base zero_value interval fits (pos capacity) ≡ some new
      → IsReachable new pushed stage b
      → (snapshot zero_value b.buf ≡ drop (length pushed - capacity) pushed)
        × (b.latest ≡ newest pushed stage)
  IsReachable-snapshot zero_value interval fits capacity {new} pushed stage b made r =
      let (buf, latest) =
        reached new pushed stage b (new_base-latest zero_value interval fits (pos capacity) made)
          r in
      (
        ap (snapshot zero_value) buf
            ∙ snapshot-push_all zero_value fits capacity pushed
                (new_base-buf zero_value interval fits (pos capacity) made),
        latest,
      )
