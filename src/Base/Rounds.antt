-- ===== src/Base/Rounds.antt =====
-- The ticker loop of internal/metrics/base.go with the clock, in nanoseconds: `RunLoop` makes its ticker at `start`, and a
-- collection begins at its tick or, where the one before it took longer, at that one's end. The loop is
-- for collections that take no longer than the interval, for the channel of the ticker holds one tick only.
use workstation_probe.Common.{
  ℕ, zero, suc, ◌+◌, ◌-◌, ◌*◌, ◌^◌, ◌≤◌, ◌<◌, ◌≡◌, refl, ◌∙◌, false, if◌then◌else◌, ltb, arith,
}
use workstation_probe.Common.Int.{pos, ltb_ℤ, eq_ℤ, wrap64, wrap64_small}
use workstation_probe.Common.Time.{mul_duration, sub_time}
use workstation_probe.Base.{Base, publish, last_sample_age}

sub_time_pos : (t u : ℕ) → u ≤ t → t < 2 ^ 63 → sub_time (pos t) (pos u) ≡ pos (t - u)
unfolding sub_time
sub_time_pos t u h small = ground arith

mul_duration_pos : (k d : ℕ) → k * d < 2 ^ 63 → mul_duration k (pos d) ≡ pos (k * d)
unfolding mul_duration
mul_duration_pos k d h = ground arith

pub last_sample_unix-publish :
    {S : Type 0} (n : ℕ) (s : S) (b : Base S)
    → (publish (pos n) s b).last_sample_unix ≡ wrap64 (pos n)
unfolding publish
last_sample_unix-publish n s b = refl

last_sample_age_pos :
    {S : Type 0} (t u : ℕ) (b : Base S)
    → 0 < u
    → b.last_sample_unix ≡ pos u
    → u ≤ t
    → t < 2 ^ 63
    → last_sample_age (pos t) b ≡ pos (t - u)
unfolding last_sample_age
last_sample_age_pos t u b positive stamp h small =
    let there : eq_ℤ (pos u) (pos 0) ≡ false = ground arith in
    rw (stamp, there) (sub_time_pos t u h small)

module _ {S C : Type 0} (collection : ℕ → C → S × C × ℕ) (interval start : ℕ) where
  -- `col` is what the collector keeps, and `ended` when the last sample was published.
  pub record Loop : Type 0 where
    pub base : Base S
    pub col : C
    pub ended : ℕ

  abbrev pub tick : ℕ → ℕ
  tick k = start + k * interval

  abbrev pub begins : ℕ → Loop → ℕ
  begins k l = if ltb (tick k) l.ended then l.ended else tick k

  -- The collection of one tick, and the publication of its sample at its end.
  unfoldable pub round : ℕ → Loop → Loop
  round k l =
      let (s, col, end) = collection (begins k l) l.col in
      record { base = publish (pos end) s l.base; col = col; ended = end }

  -- The ticks from the first on.
  unfoldable pub rounds : ℕ → Loop → Loop
  rounds zero l = l
  rounds (suc k) l = round (suc k) (rounds k l)

  -- Each collection from a state that `P` holds of ends, in at most `longest`.
  abbrev pub IsShort : (C → Type 0) → ℕ → Type 0
  IsShort P longest =
      (now : ℕ) (c : C)
      → P c
      → let (s, c', end) = collection now c in (now ≤ end) × (end ≤ now + longest) × P c'

  tick-suc : (k : ℕ) → tick (suc k) ≡ tick k + interval
  tick-suc k = grind arith

  -- The loop at the k-th tick; the first sample was published at most `slack` before the start.
  pub record IsPunctual (P : C → Type 0) (longest slack k : ℕ) (l : Loop) : Type 0 where
    pub kept : P l.col
    pub by : l.ended ≤ tick k + longest
    pub since : tick k ≤ l.ended + slack
    pub stamped : l.base.last_sample_unix ≡ wrap64 (pos l.ended)
    pub positive : 0 < l.ended

  module _ (P : C → Type 0) (longest slack : ℕ) (short : IsShort P longest)
      (within : longest + slack ≤ interval) where
    begins_on_time :
        (k : ℕ) (l : Loop) → IsPunctual P longest slack k l → begins (suc k) l ≡ tick (suc k)
    begins_on_time k l h =
        let by = h.by in
        let next = tick-suc k in
        let e : ltb (tick (suc k)) l.ended ≡ false = ground arith in rw e refl

    round-IsPunctual :
        (k : ℕ) (l : Loop)
        → IsPunctual P longest slack k l
        → IsPunctual P longest slack (suc k) (round (suc k) l)
    unfolding round publish
    round-IsPunctual k l h =
        let (low, high, kept) = short (begins (suc k) l) l.col h.kept in
        let on_time = begins_on_time k l h in
        let later = tick-suc k in
        let since = h.since in
        let positive = h.positive in
        let by = h.by in
        record {
          kept = kept;
          by = omega arith;
          since = omega arith;
          stamped = refl;
          positive = omega arith;
        }

    pub rounds-IsPunctual :
        (k : ℕ) (l : Loop)
        → IsPunctual P longest slack 0 l
        → IsPunctual P longest slack k (rounds k l)
    unfolding rounds
    rounds-IsPunctual zero l h = h
    rounds-IsPunctual (suc k) l h = round-IsPunctual k (rounds k l) (rounds-IsPunctual k l h)

    pub IsPunctual-young :
        (k t : ℕ) (l : Loop)
        → IsPunctual P longest slack k l
        → l.ended ≤ t
        → t < (round (suc k) l).ended
        → t < 2 ^ 63
        → 2 * interval < 2 ^ 63
        → ltb_ℤ (mul_duration 2 (pos interval)) (last_sample_age (pos t) l.base) ≡ false
    IsPunctual-young k t l h reached current in_range small =
        let next = (round-IsPunctual k l h).by in
        let later = tick-suc k in
        let since = h.since in
        let age : t < l.ended + 2 * interval = omega arith in
        let stamp : l.base.last_sample_unix ≡ pos l.ended =
          h.stamped ∙ wrap64_small (pos l.ended) (omega arith) (omega arith) in
        rw
          (
            last_sample_age_pos t l.ended l.base h.positive stamp reached in_range,
            mul_duration_pos 2 interval small,
          )
          (ground arith)
