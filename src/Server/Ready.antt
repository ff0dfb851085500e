-- ===== src/Server/Ready.antt =====
-- What the parts of the server may rely on in a configuration that loaded.
use workstation_probe.Common.{
  ℕ, ◌↔◌, Bool-cases, ◌≡◌, ◌⊎◌, inl, inr, refl, Bool, true, false, not, ◌||◌, some, length, arith,
  Bytes,
}
use workstation_probe.Common.Int.{ℤ, pos, pos_part, ◌≤ℤ◌, leb_ℤ}
use workstation_probe.Common.Time.{Duration}
use workstation_probe.Common.Float.{Float64}
use workstation_probe.Common.Result.{Result, ok}
use workstation_probe.Cors.Middleware.{parsed}
use workstation_probe.Cors.Middleware.Calls.{length-parsed}
use workstation_probe.Ring.{new_ring_buffer}
use workstation_probe.Base.{Base, new_base}
use workstation_probe.Config.{Config, DecodeError, load}
use workstation_probe.Config.Defaults.{load-IsAccepted}
use workstation_probe.RateLimit.{Rate, is_off}
use workstation_probe.Server.{limit_config}

leb-positive : (burst : ℤ) → pos 1 ≤ℤ burst → leb_ℤ burst (pos 0) ≡ false
leb-positive burst h = ground arith

-- For a positive capacity the only panic is that of `make`.
new_base-fits :
    {S : Type 0} (zero_value : S) (interval : Duration) (fits : ℕ → Bool) (capacity : ℤ)
    → pos 1 ≤ℤ capacity
    → ((b : Base S) × (new_base zero_value interval fits capacity ≡ some b))
      ↔ (fits (pos_part capacity) ≡ true)
unfolding new_base new_ring_buffer
new_base-fits zero_value interval fits capacity h = elim (Bool-cases (fits (pos_part capacity))) [
  | inl here ↦
      rw (leb-positive capacity h, here, new_base, new_ring_buffer) (λ q. refl, λ e. (_, refl))
  | inr large ↦
      rw (leb-positive capacity h, large, new_base, new_ring_buffer)
        (λ q. let e = q.1 in cc, λ e. cc)
]

off_or_on :
    (enabled slow none_left : Bool)
    → slow ≡ false
    → none_left ≡ false
    → (enabled ≡ false) ⊎ ((not enabled || slow || none_left) ≡ false)
off_or_on true slow none_left h k = inr (rw (h, k) refl)
off_or_on false slow none_left h k = inl refl

module _ {f : Float64} (r : Rate f) where
  -- Each module gets a buffer exactly if the runtime allocates one of that length, CORS skips no configured origin, and the rate limiter is on, where they are enabled.
  abbrev pub IsReady : {S : Type 0} → S → (ℕ → Bool) → Config f → Type 0
  IsReady {S} zero_value fits c =
      (((b : Base S) × (new_base zero_value c.sampler.interval fits c.sampler.history_capacity
            ≡ some b))
        ↔ (fits (pos_part c.sampler.history_capacity) ≡ true))
      × ((c.security.cors.enabled ≡ false)
          ⊎ (length (parsed c.security.cors.allowed_origins)
              ≡ length c.security.cors.allowed_origins))
      × ((c.security.rate_limit.enabled ≡ false)
          ⊎ (is_off r (limit_config c.security.rate_limit) ≡ false))

  -- With a configuration that `Load` returns, the buffer of a module is made, without a panic, exactly if the runtime
  -- can allocate as many elements as the history capacity says, so that this is the only panic left; the CORS
  -- middleware, unless it is disabled, has a pattern for each configured origin; and the rate limiter, unless it is
  -- disabled, is not switched off by its numbers.
  pub load-IsReady :
      {S : Type 0} (zero_value : S) (fits : ℕ → Bool)
      (decode : Bytes → Result DecodeError (Config f)) (file : Result Bytes Bytes) (c : Config f)
      → load f decode file ≡ ok c
      → IsReady zero_value fits c
  load-IsReady zero_value fits decode file c loaded =
      let accepted = ((load-IsAccepted f decode file c).0 loaded).5 in
      (
        new_base-fits zero_value c.sampler.interval fits c.sampler.history_capacity
            accepted.capacity,
        elim accepted.origins [
          | inl off ↦ inl off
          | inr all ↦ inr (length-parsed c.security.cors.allowed_origins all)
        ],
        elim accepted.rate [
          | inl off ↦ inl off
          | inr rate ↦
              (let q = c.security.rate_limit in
                let positive : leb_ℤ q.burst (pos 0) ≡ false = leb-positive q.burst rate.1 in
                off_or_on q.enabled _ _ rate.0 positive)
        ],
      )
