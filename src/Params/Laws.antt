-- ===== src/Params/Laws.antt =====
-- What the query parameters can come out as.
use workstation_probe.Common.{
  ◌^◌, ◌≤◌, ◌<◌, ◌≡◌, ◌≢◌, ◌↔◌, ◌⊎◌, inl, inr, true, false, Option, some, [], ◌∷◌, arith, Bytes,
  bytes_eq, bytes_eq_iff, Option-cases,
}
use workstation_probe.Common.Int.{ℤ, pos, ◌≤ℤ◌, pos_part, neg_part}
use workstation_probe.Common.Time.{Duration}
use workstation_probe.Strconv.{atoi, itoa}
use workstation_probe.Strconv.Laws.{atoi-itoa, atoi-range, itoa-cons}
use workstation_probe.Params.{parse_limit_param, parse_duration_param}

-- A limit is never negative, and fits an `int64`, whatever the client sends.
pub parse_limit_param-range :
    (s : Bytes) → (pos 0 ≤ℤ parse_limit_param s) × (pos_part (parse_limit_param s) < 2 ^ 63)
unfolding parse_limit_param
parse_limit_param-range s = elim (Option-cases (atoi s)) [
  | inl e ↦ rw e (ground arith)
  | inr (z, e) ↦ rw e (ground (arith, atoi-range s z e))
]

-- The decimal form of a limit of the int64 range gives it back; that of a negative number means no
-- limit.
pub parse_limit_param-itoa :
    (z : ℤ)
    → pos_part z < 2 ^ 63
    → neg_part z ≤ 2 ^ 63
    → parse_limit_param (itoa z) ≡ pos (pos_part z)
unfolding parse_limit_param bytes_eq
parse_limit_param-itoa z h k =
    let (c, s, e) = itoa-cons z in
    let back : atoi (c ∷ s) ≡ some z = rw (← e) (atoi-itoa z h k) in rw e (rw back (ground arith))

module _ (parse_duration : Bytes → Option Duration) where
  -- A duration is accepted exactly if it is absent, and then it is the default, or if it is present
  -- and parses to a positive duration, and then it is that one.
  pub parse_duration_param-accepts_iff :
      (s : Bytes) (def d : Duration)
      → (parse_duration_param parse_duration s def ≡ (d, true))
        ↔ (((s ≡ []) × (def ≡ d)) ⊎ ((s ≢ []) × (parse_duration s ≡ some d) × (pos 1 ≤ℤ d)))
  unfolding parse_duration_param
  parse_duration_param-accepts_iff s def d = elim (Option-cases (parse_duration s)) [
    | inl e ↦ ground (arith, bytes_eq_iff s [])
    | inr (z, e) ↦ ground (arith, bytes_eq_iff s [])
  ]

  -- On a refusal the duration is 0, and it happens only to a parameter that is present.
  pub parse_duration_param-refused :
      (s : Bytes) (def d : Duration)
      → parse_duration_param parse_duration s def ≡ (d, false)
      → (s ≢ []) × (d ≡ pos 0)
  unfolding parse_duration_param
  parse_duration_param-refused s def d h = elim (Option-cases (parse_duration s)) [
    | inl e ↦ ground (arith, bytes_eq_iff s [])
    | inr (z, e) ↦ ground (arith, bytes_eq_iff s [])
  ]
