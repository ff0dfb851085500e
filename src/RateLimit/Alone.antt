-- ===== src/RateLimit/Alone.antt =====
-- A request whose steps nobody comes between, against the one step of `admit`.
use workstation_probe.Common.{
  ℕ, ◌≡◌, ◌≢◌, refl, ap, sym, ◌∙◌, inl, inr, false, Option, none, some, Bytes, bytes_eq,
  bytes_eq_iff, Bool-cases, arith,
}
use workstation_probe.Common.Int.{pos, ltb_ℤ}
use workstation_probe.Common.Time.{Time}
use workstation_probe.Common.Float.{Float64}
use workstation_probe.RateLimit.{
  Rate, RateLimitConfig, Moments, IpEntry, Table, Verdict, admitted, denied, limiter_or,
  limiter_for, admit, put,
}
use workstation_probe.RateLimit.Shared.{
  Ask, looked, passed, turned_away, Shared, entered, found, look_up, IsReachable,
}
use workstation_probe.RateLimit.Apart.{IsApart, IsReachable-IsApart}
use workstation_probe.RateLimit.Turns.{
  go_on, with_ask_self, charged_with, ended_as, IsDone, stored_self, stored_other,
  three_steps-IsDone,
}

module _ {f : Float64} (r : Rate f) where
  -- All the steps of the request `id` in a row; a request that has its answer stays as it is.
  pub alone : RateLimitConfig f → ℕ → Bytes → Moments → Shared r → Shared r
  alone cfg id ip m st = go_on r id m (go_on r id m (go_on r id m (look_up r cfg id ip m.seen st)))

  abbrev pub entry_of : (ℕ → r.Limiter) → Option (ℕ × Time) → Option (IpEntry r)
  entry_of heap none = none
  entry_of heap (some (a, seen)) = some (record { lim = heap a; last_seen = seen })

  -- The table with the limiters in the place of their addresses.
  abbrev pub table_of : Shared r → Table r
  table_of st = λ ip. entry_of st.heap (st.by_ip ip)

  abbrev pub outcome : Verdict r → Ask r
  outcome admitted = passed
  outcome (denied calls) = turned_away

  module _ (cfg : RateLimitConfig f) (ip : Bytes) (m : Moments) where
    abbrev fresh : r.Limiter
    fresh = r.new_limiter cfg.requests_per_second cfg.burst

    abbrev lim_in : Table r → r.Limiter
    lim_in t = limiter_or r fresh (t ip)

    -- The one step in the same terms.
    admit-charged :
        (t : Table r)
        → (outcome (admit r cfg m ip t).0 ≡ ended_as r m (lim_in t))
          × ((k : Bytes)
              → (admit r cfg m ip t).1 k
                ≡ put r ip (record { lim = charged_with r m (lim_in t); last_seen = m.seen }) t k)
    unfolding admit limiter_for
    admit-charged t =
        let rsv = (r.reserve (lim_in t) m.reserved).1 in
        elim (Bool-cases (r.is_ok rsv)) [
          | inr bad ↦ rw bad (
            refl,
            λ k. elim (Bool-cases (bytes_eq ip k)) [ inl h ↦ rw h refl | inr h ↦ rw h refl ],
          )
          | inl good ↦ elim (Bool-cases (ltb_ℤ (pos 0) (r.delay rsv m.asked))) [
            | inl behind ↦
                rw (good, behind)
                  (
                    refl,
                    λ k. elim (Bool-cases (bytes_eq ip k)) [
                      | inl h ↦ rw h refl
                      | inr h ↦ rw h refl
                    ],
                  )
            | inr soon ↦
                rw (good, soon)
                  (
                    refl,
                    λ k. elim (Bool-cases (bytes_eq ip k)) [
                      | inl h ↦ rw h refl
                      | inr h ↦ rw h refl
                    ],
                  )
          ]
        ]

    -- The state after `limiterFor`, with the limiter at the address `a`.
    record IsFound (id a : ℕ) (st st1 : Shared r) : Type 0 where
      asking : st1.asks id ≡ looked ip a
      table : st1.by_ip ≡ entered r ip (a, m.seen) st.by_ip
      own : st1.heap a ≡ lim_in (table_of st)
      others :
          (k : Bytes) (b : ℕ) (seen : Time)
          → bytes_eq ip k ≡ false
          → st.by_ip k ≡ some (b, seen)
          → (a ≢ b) × (st1.heap b ≡ st.heap b)

    entry_of-same :
        (heap heap' : ℕ → r.Limiter) (o : Option (ℕ × Time))
        → ((b : ℕ) (seen : Time) → o ≡ some (b, seen) → heap' b ≡ heap b)
        → entry_of heap' o ≡ entry_of heap o
    entry_of-same heap heap' none h = refl
    entry_of-same heap heap' (some (b, seen)) h =
        ap (λ lim. some (record { lim = lim; last_seen = seen })) (h b seen refl)

    IsFound-table :
        (id a : ℕ) (st st1 st' : Shared r)
        → IsFound id a st st1
        → IsDone r id a m st1 st'
        → (k : Bytes)
        → table_of st' k
          ≡ put r ip
              (record { lim = charged_with r m (lim_in (table_of st)); last_seen = m.seen })
              (table_of st)
              k
    IsFound-table id a st st1 st' there done k =
        let same : st'.by_ip ≡ entered r ip (a, m.seen) st.by_ip = done.table ∙ there.table in
        ap (λ t. entry_of st'.heap (t k)) same ∙ elim (Bool-cases (bytes_eq ip k)) [
          | inl h ↦ rw h (
              ap (λ lim. some (record { lim = lim; last_seen = m.seen }))
                (done.own ∙ ap (charged_with r m) there.own))
          | inr h ↦ rw h (
              entry_of-same st.heap st'.heap (st.by_ip k)
                (λ b seen e. let (ne, was) = there.others k b seen h e in done.others b ne ∙ was))
        ]

    found-IsFound :
        (id : ℕ) (o : Option (ℕ × Time)) (st : Shared r)
        → st.by_ip ip ≡ o
        → IsApart r st
        → (a : ℕ) × IsFound id a st (found r cfg id ip m.seen o st)
    found-IsFound id (some (a, seen)) st e h = (
      a,
      record {
        asking = with_ask_self r id (looked ip a) st.asks;
        table = refl;
        own = rw e refl;
        others = λ k b s ne at_k. (
          λ same.
              let own = h.apart ip k a (inl (seen, e)) (inl (s, rw (sym same) at at_k)) in
              let t = (bytes_eq_iff ip k).1 own in cc,
          refl,
        );
      },
    )
    found-IsFound id none st e h = (
      st.next,
      record {
        asking = with_ask_self r id (looked ip st.next) st.asks;
        table = refl;
        own = stored_self r st.next fresh st.heap ∙ rw e refl;
        others = λ k b s ne at_k.
            let low = h.below k b (inl (s, at_k)) in
            let ne' : st.next ≢ b = λ same. omega arith in
            (ne', stored_other r st.next b fresh st.heap ne');
      },
    )

    -- A request that takes all its steps with no other between them, from a state that any interleaving has led to, ends as
    -- `admit` says on the table that the shared limiters stand for: it passes exactly if it is
    -- admitted there, and the table afterwards is that of `admit`, for every client.
    pub alone-admit :
        (heap : ℕ → r.Limiter) (st : Shared r) (id : ℕ)
        → IsReachable r cfg heap st
        → let st' = alone cfg id ip m st in
          let verdict = admit r cfg m ip (table_of st) in
          (st'.asks id ≡ outcome verdict.0) × ((k : Bytes) → table_of st' k ≡ verdict.1 k)
    unfolding alone look_up
    alone-admit heap st id reachable =
        let (a, there) =
          found-IsFound id (st.by_ip ip) st refl (IsReachable-IsApart r cfg heap st reachable) in
        let st1 = look_up r cfg id ip m.seen st in
        let done = three_steps-IsDone r id ip a m st1 there.asking in
        let (verdict, table) = admit-charged (table_of st) in
        (
          done.ended ∙ ap (ended_as r m) there.own ∙ sym verdict,
          λ k. IsFound-table id a st st1 (alone cfg id ip m st) there done k ∙ sym (table k),
        )
