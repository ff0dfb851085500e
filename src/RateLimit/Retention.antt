-- ===== src/RateLimit/Retention.antt =====
-- How long the cleanup keeps a client's limiter.
use workstation_probe.Common.{
  ℕ, ◌+◌, ◌^◌, ◌≤◌, ◌≡◌, ◌≢◌, refl, ◌∙◌, true, false, none, some, List, [], ◌∷◌, Bytes,
  bytes_eq-differ, arith, All,
}
use workstation_probe.Common.Int.{
  ℤ, pos, pos_part, neg_part, sub_ℕ, ◌+ℤ◌, ◌-ℤ◌, ◌≤ℤ◌, ltb_ℤ, wrap64, wrap64_small,
}
use workstation_probe.Common.Time.{Time, before, add_neg}
use workstation_probe.Common.Float.{Float64}
use workstation_probe.RateLimit.{Rate, RateLimitConfig, IpEntry, Table, or_duration, sweep}
use workstation_probe.RateLimit.Sweeps.{Event, asked, ticked, step, steps, step-apart}

sub_ℕ-parts : (a b : ℕ) → pos_part (sub_ℕ a b) + b ≡ neg_part (sub_ℕ a b) + a
sub_ℕ-parts a b = ground arith

-- The parts of a sum and of a difference.
+ℤ-parts :
    (a b : ℤ)
    → pos_part (a +ℤ b) + (neg_part a + neg_part b) ≡ neg_part (a +ℤ b) + (pos_part a + pos_part b)
unfolding ◌+ℤ◌
+ℤ-parts a b = sub_ℕ-parts (pos_part a + pos_part b) (neg_part a + neg_part b)

negated : (idle : ℕ) → idle ≤ 2 ^ 63 → (wrap64 (pos 0 -ℤ pos idle) ≡ pos 0 -ℤ pos idle)
unfolding ◌-ℤ◌
negated idle small = wrap64_small (pos 0 -ℤ pos idle) (ground arith) (ground arith)

negated-parts : (idle : ℕ) → pos_part (pos 0 -ℤ pos idle) + idle ≡ neg_part (pos 0 -ℤ pos idle)
unfolding ◌-ℤ◌
negated-parts idle = ground arith

add_neg-parts :
    (now : Time) (idle : ℕ)
    → idle ≤ 2 ^ 63
    → pos_part (add_neg now (pos idle)) + (neg_part now + idle)
      ≡ neg_part (add_neg now (pos idle)) + pos_part now
unfolding add_neg
add_neg-parts now idle small =
    rw (negated idle small)
      (let sum = +ℤ-parts now (pos 0 -ℤ pos idle) in let cut = negated-parts idle in omega arith)

-- A time at most `idle` after `seen` does not put it before the cutoff, and a later one does.
within-before :
    (seen now : Time) (idle : ℕ)
    → idle ≤ 2 ^ 63
    → now ≤ℤ (seen +ℤ pos idle)
    → before seen (add_neg now (pos idle)) ≡ false
within-before seen now idle small h =
    let cut = add_neg-parts now idle small in let end = +ℤ-parts seen (pos idle) in ground arith

past-before :
    (seen now : Time) (idle : ℕ)
    → idle ≤ 2 ^ 63
    → ltb_ℤ (seen +ℤ pos idle) now ≡ true
    → before seen (add_neg now (pos idle)) ≡ true
past-before seen now idle small h =
    let cut = add_neg-parts now idle small in let end = +ℤ-parts seen (pos idle) in ground arith

module _ {f : Float64} (r : Rate f) (cfg : RateLimitConfig f) where
  -- A request of another client, or a tick at most `idle` after `seen`.
  abbrev pub IsQuiet : Bytes → Time → ℕ → Event → Type 0
  IsQuiet ip seen idle (asked who m) = who ≢ ip
  IsQuiet ip seen idle (ticked now) = now ≤ℤ (seen +ℤ pos idle)

  step-IsQuiet :
      (ip : Bytes) (e : IpEntry r) (idle : ℕ)
      → idle ≤ 2 ^ 63
      → or_duration cfg.idle_evict_after 600 ≡ pos idle
      → (event : Event) (t : Table r) → t ip ≡ some e
      → IsQuiet ip e.last_seen idle event
      → step r cfg event t ip ≡ some e
  unfolding step sweep
  step-IsQuiet ip e idle small eviction (asked who m) t there quiet =
      step-apart r cfg (asked who m) ip t (bytes_eq-differ who ip quiet) ∙ there
  step-IsQuiet ip e idle small eviction (ticked now) t there quiet =
      rw (there, eviction, within-before e.last_seen now idle small quiet) refl

  -- For a client whose entry `e` is in the table, and an eviction time of `idle` nanoseconds: after any
  -- requests of other clients and any ticks up to `e.last_seen + idle`, the entry with its limiter is as it
  -- was, and a tick later than that removes it.
  pub steps-IsQuiet :
      (ip : Bytes) (e : IpEntry r) (idle : ℕ)
      → idle ≤ 2 ^ 63
      → or_duration cfg.idle_evict_after 600 ≡ pos idle
      → (events : List Event) (t : Table r) → t ip ≡ some e
      → All (IsQuiet ip e.last_seen idle) events
      → (late : Time) → ltb_ℤ (e.last_seen +ℤ pos idle) late ≡ true
      → (steps r cfg events t ip ≡ some e) × (sweep r cfg late (steps r cfg events t) ip ≡ none)
  unfolding steps sweep
  steps-IsQuiet ip e idle small eviction [] t there quiet late past =
      (there, rw (there, eviction, past-before e.last_seen late idle small past) refl)
  steps-IsQuiet ip e idle small eviction (event ∷ events) t there quiet late past =
      steps-IsQuiet ip e idle small eviction events (step r cfg event t)
        (step-IsQuiet ip e idle small eviction event t there quiet.0) quiet.1 late past
