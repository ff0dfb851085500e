-- ===== src/RateLimit/Shared.antt =====
-- internal/middleware/ratelimit.go for requests at the same time: the limiters are shared by their pointers, and the
-- steps of the requests and of the cleanup come in any order. The mutex makes `limiterFor` and a sweep
-- one step each; each operation of a limiter is one step too.
use workstation_probe.Common.{ℕ, ◌+◌, ◌==◌, ◌≡◌, Option, none, some, if◌then◌else◌, Bytes, bytes_eq}
use workstation_probe.Common.Int.{pos, ltb_ℤ}
use workstation_probe.Common.Time.{Time, before, add_neg}
use workstation_probe.Common.Float.{Float64}
use workstation_probe.RateLimit.{Rate, RateLimitConfig, or_duration}

module _ {f : Float64} (r : Rate f) where
  -- Where a request is: the client and the address of its limiter, with the reservation once it is made.
  pub data Ask : Type 0 where
    waiting : Ask
    looked : Bytes → ℕ → Ask
    reserved : Bytes → ℕ → r.Reservation → Ask
    late : Bytes → ℕ → r.Reservation → Ask
    passed : Ask
    turned_away : Ask

  -- `next` is the first free address; `asks` has the requests by number.
  pub record Shared : Type 0 where
    pub heap : ℕ → r.Limiter
    pub next : ℕ
    pub by_ip : Bytes → Option (ℕ × Time)
    pub asks : ℕ → Ask

  abbrev pub stored : ℕ → r.Limiter → (ℕ → r.Limiter) → ℕ → r.Limiter
  stored a lim heap = λ b. if a == b then lim else heap b

  abbrev pub entered : Bytes → ℕ × Time → (Bytes → Option (ℕ × Time)) → Bytes → Option (ℕ × Time)
  entered ip e by_ip = λ k. if bytes_eq ip k then some e else by_ip k

  abbrev pub with_ask : ℕ → Ask → (ℕ → Ask) → ℕ → Ask
  with_ask id x asks = λ j. if id == j then x else asks j

  module _ (cfg : RateLimitConfig f) where
    abbrev pub found : ℕ → Bytes → Time → Option (ℕ × Time) → Shared → Shared
    found id ip now (some (a, seen)) st = record st {
      by_ip = entered ip (a, now) st.by_ip;
      asks = with_ask id (looked ip a) st.asks;
    }
    found id ip now none st = record {
      heap = stored st.next (r.new_limiter cfg.requests_per_second cfg.burst) st.heap;
      next = st.next + 1;
      by_ip = entered ip (st.next, now) st.by_ip;
      asks = with_ask id (looked ip st.next) st.asks;
    }

    -- `limiterFor`
    unfoldable pub look_up : ℕ → Bytes → Time → Shared → Shared
    look_up id ip now st = found id ip now (st.by_ip ip) st

    abbrev pub kept : Time → Option (ℕ × Time) → Option (ℕ × Time)
    kept cutoff none = none
    kept cutoff (some (a, seen)) = if before seen cutoff then none else some (a, seen)

    unfoldable pub clean : Time → Shared → Shared
    unfolding add_neg
    clean now st = record st {
      by_ip = λ ip. kept (add_neg now (or_duration cfg.idle_evict_after 600)) (st.by_ip ip);
    }

  -- `Reserve`, and the test of `OK`.
  unfoldable pub reserve : ℕ → Bytes → ℕ → Time → Shared → Shared
  reserve id ip a now st =
      let (lim, rsv) = r.reserve (st.heap a) now in
      record st {
        heap = stored a lim st.heap;
        asks = with_ask id (if r.is_ok rsv then reserved ip a rsv else turned_away) st.asks;
      }

  -- `Delay`, and the test of it.
  unfoldable pub ask_delay : ℕ → Bytes → ℕ → r.Reservation → Time → Shared → Shared
  ask_delay id ip a rsv now st = record st {
    asks = with_ask id (if ltb_ℤ (pos 0) (r.delay rsv now) then late ip a rsv else passed) st.asks;
  }

  -- `Cancel`
  unfoldable pub cancel : ℕ → ℕ → r.Reservation → Time → Shared → Shared
  cancel id a rsv now st = record st {
    heap = stored a (r.cancel (st.heap a) rsv now) st.heap;
    asks = with_ask id turned_away st.asks;
  }

  module _ (cfg : RateLimitConfig f) where
    pub data Step (st : Shared) : Shared → Type 0 where
      looks :
          (id : ℕ) (ip : Bytes) (now : Time)
          → st.asks id ≡ waiting
          → Step st (look_up cfg id ip now st)
      reserves :
          (id : ℕ) (ip : Bytes) (a : ℕ) (now : Time)
          → st.asks id ≡ looked ip a
          → Step st (reserve id ip a now st)
      asks_delay :
          (id : ℕ) (ip : Bytes) (a : ℕ) (rsv : r.Reservation) (now : Time)
          → st.asks id ≡ reserved ip a rsv
          → Step st (ask_delay id ip a rsv now st)
      cancels :
          (id : ℕ) (ip : Bytes) (a : ℕ) (rsv : r.Reservation) (now : Time)
          → st.asks id ≡ late ip a rsv
          → Step st (cancel id a rsv now st)
      cleans : (now : Time) → Step st (clean cfg now st)

    abbrev pub at_start : (ℕ → r.Limiter) → Shared
    at_start heap = record { heap = heap; next = 0; by_ip = λ ip. none; asks = λ id. waiting }

    -- What the requests and the ticks can come to.
    pub data IsReachable (heap : ℕ → r.Limiter) : Shared → Type 0 where
      begun : IsReachable heap (at_start heap)
      after : (st st' : Shared) → IsReachable heap st → Step st st' → IsReachable heap st'
