-- ===== src/Tests/Shared.antt =====
-- Two clients whose requests interleave on the limiters.
use workstation_probe.Common.{ℕ, ◌≡◌, refl, Bytes}
use workstation_probe.Common.Int.{pos}
use workstation_probe.RateLimit.{admit}
use workstation_probe.RateLimit.Shared.{Shared, looks, look_up, IsReachable, begun, after, at_start}
use workstation_probe.RateLimit.Apart.{IsApart, IsReachable-IsApart}
use workstation_probe.RateLimit.Alone.{alone, table_of, outcome, alone-admit}
use workstation_probe.Tests.Limits.{bucket, limits, now, alice, bob}

abbrev empty : ℕ → ℕ
empty a = 0

abbrev first_look : Shared bucket
first_look = look_up bucket limits 0 alice (pos 5) (at_start bucket limits empty)

abbrev second_look : Shared bucket
second_look = look_up bucket limits 1 bob (pos 6) first_look

second_look_IsReachable : IsReachable bucket limits empty second_look
unfolding look_up
second_look_IsReachable =
    after first_look second_look
      (after (at_start bucket limits empty) first_look begun (looks 0 alice (pos 5) refl))
      (looks 1 bob (pos 6) refl)

IsReachable-IsApart_example : IsApart bucket second_look
IsReachable-IsApart_example =
    IsReachable-IsApart bucket limits empty second_look second_look_IsReachable

alone-admit_example :
    let st' = alone bucket limits 2 alice now second_look in
    let verdict = admit bucket limits now alice (table_of bucket second_look) in
    (st'.asks 2 ≡ outcome bucket verdict.0) × ((k : Bytes) → table_of bucket st' k ≡ verdict.1 k)
alone-admit_example =
    alone-admit bucket limits alice now empty second_look 2 second_look_IsReachable
