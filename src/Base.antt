-- ===== src/Base.antt =====
-- internal/metrics/base.go: the state shared by the sampling modules, and the shape of a history
-- response. The routes are in `Routes`, the query parameters in `Params`.
pub mod History
pub mod Sampling
pub mod Reading
pub mod Rounds
use workstation_probe.Common.{
  ℕ, ◌-◌, Bool, true, Option, none, some, List, [], ◌∷◌, ltb, ◌&&◌, if◌then◌else◌, length, drop,
  keep, map, not,
}
use workstation_probe.Common.Int.{ℤ, pos, pos_part, ltb_ℤ, eq_ℤ, wrap64}
use workstation_probe.Common.Time.{Time, Duration, before, max_duration, add_neg, sub_time}
use workstation_probe.Common.Float.{Float64}
use workstation_probe.Ring
use workstation_probe.Ring.{RingBuffer}

-- `Base[S]`. Each atomic field is one value.
pub record Base {ℓ} (S : Type ℓ) : Type ℓ where
  pub interval : Duration
  pub buf : RingBuffer S
  pub latest : Option S
  pub last_sample_unix : ℤ

-- `t.UnixNano()`
abbrev unix_nano : Time → ℤ
unix_nano t = wrap64 t

module _ {ℓ} {S : Type ℓ} where
  -- `fits` is which lengths the runtime allocates; `none` is the panic of `NewRingBuffer`.
  unfoldable pub new_base : S → Duration → (ℕ → Bool) → ℤ → Option (Base S)
  new_base zero_value interval fits history_capacity =
      elim (Ring.new_ring_buffer zero_value fits history_capacity) [
        | none ↦ none
        | some buf ↦
            some
              (record { interval = interval; buf = buf; latest = none; last_sample_unix = pos 0 })
      ]

  -- `now` is the reading of the clock after the sample was stored.
  unfoldable pub publish : Time → S → Base S → Base S
  publish now s b = record b {
    latest = some s;
    buf = Ring.push b.buf s;
    last_sample_unix = unix_nano now;
  }

  unfoldable pub last_sample_age : Time → Base S → Duration
  last_sample_age now b =
      if eq_ℤ b.last_sample_unix (pos 0) then max_duration else sub_time now b.last_sample_unix

  -- `test` is the argument `keep` of the source.
  unfoldable pub history_within : S → Time → RingBuffer S → Duration → (S → Time → Bool) → List S
  history_within zero_value now buf d test =
      keep (λ s. test s (add_neg now d)) (Ring.snapshot zero_value buf)

  -- The closure that every module passes as `keep`: not before the cutoff.
  abbrev pub not_before : (S → Time) → S → Time → Bool
  not_before stamp s cutoff = not (before (stamp s) cutoff)

-- Boxing is a function into the type of boxed values.
module _ {ℓ κ} {S : Type ℓ} {Any : Type κ} where
  pub history_any : (S → Any) → S → Time → RingBuffer S → Duration → (S → Time → Bool) → List Any
  history_any box zero_value now buf d test = map box (history_within zero_value now buf d test)

pub record HistoryResponse {ℓ} (Any : Type ℓ) : Type ℓ where
  pub window_seconds : ℤ
  pub count : ℕ
  pub samples : List Any

module _ {ℓ} (f : Float64) {Any : Type ℓ} where
  pub build_history_response : Duration → List Any → ℤ → HistoryResponse Any
  build_history_response window samples limit =
      let trimmed =
        if ltb_ℤ (pos 0) limit && ltb_ℤ limit (pos (length samples))
        then drop (length samples - pos_part limit) samples
        else samples in
      record {
        window_seconds = f.to_int (f.seconds window);
        count = length trimmed;
        samples = trimmed;
      }

-- What the ticker loop waits for: a tick, with what the collection reads at it, or the end of the context.
pub data Signal {ℓ} (R : Type ℓ) : Type ℓ where
  ticked : R → Signal R
  cancelled : Signal R

-- `RunLoop`, over the signals in the order in which the loop takes them.
module _ {ℓ κ} {R : Type ℓ} {M : Type κ} where
  unfoldable pub run_loop : (R → M → M) → List (Signal R) → M → M
  run_loop collect [] m = m
  run_loop collect (cancelled ∷ signals) m = m
  run_loop collect (ticked r ∷ signals) m = run_loop collect signals (collect r m)
