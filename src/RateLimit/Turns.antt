-- ===== src/RateLimit/Turns.antt =====
-- The steps of one request after its `limiterFor`, in a row.
use workstation_probe.Common.{
  ℕ, ◌==◌, ◌≡◌, ◌≢◌, refl, ap, sym, ◌∙◌, subst, inl, inr, true, false, not, if◌then◌else◌, Bytes,
  Bool-cases, arith,
}
use workstation_probe.Common.Int.{pos, ltb_ℤ}
use workstation_probe.Common.Float.{Float64}
use workstation_probe.RateLimit.{Rate, Moments}
use workstation_probe.RateLimit.Shared.{
  Ask, waiting, looked, reserved, late, passed, turned_away, Shared, stored, with_ask, reserve,
  ask_delay, cancel,
}

module _ {f : Float64} (r : Rate f) where
  -- The next step of a request after its `limiterFor`.
  abbrev pub next_step : ℕ → Moments → Ask r → Shared r → Shared r
  next_step id m (looked ip a) st = reserve r id ip a m.reserved st
  next_step id m (reserved ip a rsv) st = ask_delay r id ip a rsv m.asked st
  next_step id m (late ip a rsv) st = cancel r id a rsv m.cancelled st
  next_step id m waiting st = st
  next_step id m passed st = st
  next_step id m turned_away st = st

  abbrev pub go_on : ℕ → Moments → Shared r → Shared r
  go_on id m st = next_step id m (st.asks id) st

  pub with_ask_self : (id : ℕ) (x : Ask r) (asks : ℕ → Ask r) → with_ask r id x asks id ≡ x
  with_ask_self id x asks = let e : (id == id) ≡ true = ground arith in rw e refl

  -- The heap after the request, at the address of its limiter.
  abbrev pub charged_with : Moments → r.Limiter → r.Limiter
  charged_with m lim =
      let (lim', rsv) = r.reserve lim m.reserved in
      if not (r.is_ok rsv)
      then lim'
      else if ltb_ℤ (pos 0) (r.delay rsv m.asked)
      then r.cancel lim' rsv m.cancelled
      else lim'

  abbrev pub ended_as : Moments → r.Limiter → Ask r
  ended_as m lim =
      let rsv = (r.reserve lim m.reserved).1 in
      if not (r.is_ok rsv)
      then turned_away
      else if ltb_ℤ (pos 0) (r.delay rsv m.asked)
      then turned_away
      else passed

  -- The steps after `limiterFor` in a row.
  pub record IsDone (id a : ℕ) (m : Moments) (st st' : Shared r) : Type 0 where
    pub table : st'.by_ip ≡ st.by_ip
    pub own : st'.heap a ≡ charged_with m (st.heap a)
    pub others : (b : ℕ) → a ≢ b → st'.heap b ≡ st.heap b
    pub ended : st'.asks id ≡ ended_as m (st.heap a)

  pub stored_self : (a : ℕ) (lim : r.Limiter) (heap : ℕ → r.Limiter) → stored r a lim heap a ≡ lim
  stored_self a lim heap = let e : (a == a) ≡ true = ground arith in rw e refl

  pub stored_other :
      (a b : ℕ) (lim : r.Limiter) (heap : ℕ → r.Limiter) → a ≢ b → stored r a lim heap b ≡ heap b
  stored_other a b lim heap h = let e : (a == b) ≡ false = ground arith in rw e refl

  by_ask :
      (id : ℕ) (m : Moments) (st : Shared r) (x : Ask r)
      → st.asks id ≡ x
      → go_on id m st ≡ next_step id m x st
  by_ask id m st x e = ap (λ y. next_step id m y st) e

  -- Three steps to the state that each of them leads to.
  three :
      (id : ℕ) (m : Moments) (s0 s1 s2 s3 : Shared r)
      → go_on id m s0 ≡ s1
      → go_on id m s1 ≡ s2
      → go_on id m s2 ≡ s3
      → go_on id m (go_on id m (go_on id m s0)) ≡ s3
  three id m s0 s1 s2 s3 e f g = ap (λ s. go_on id m (go_on id m s)) e ∙ ap (go_on id m) f ∙ g

  module _ (id : ℕ) (ip : Bytes) (a : ℕ) (m : Moments) (st : Shared r) where
    abbrev lim1 : r.Limiter
    lim1 = (r.reserve (st.heap a) m.reserved).0

    abbrev rsv1 : r.Reservation
    rsv1 = (r.reserve (st.heap a) m.reserved).1

    abbrev with_lim : r.Limiter → Ask r → Shared r
    with_lim lim x = record st { heap = stored r a lim st.heap; asks = with_ask r id x st.asks }

    refused-IsDone :
        st.asks id ≡ looked ip a
        → r.is_ok rsv1 ≡ false
        → IsDone id a m st (go_on id m (go_on id m (go_on id m st)))
    unfolding reserve
    refused-IsDone e bad =
        let s1 = reserve r id ip a m.reserved st in
        let there : s1.asks id ≡ turned_away = with_ask_self id _ st.asks ∙ rw bad refl in
        let stay = by_ask id m s1 turned_away there in
        subst (IsDone id a m st)
          (sym (three id m st s1 s1 s1 (by_ask id m st (looked ip a) e) stay stay))
          (record {
            table = refl;
            own = stored_self a lim1 st.heap ∙ rw bad refl;
            others = λ b h. stored_other a b lim1 st.heap h;
            ended = there ∙ rw bad refl;
          })

    passed-IsDone :
        st.asks id ≡ looked ip a
        → r.is_ok rsv1 ≡ true
        → ltb_ℤ (pos 0) (r.delay rsv1 m.asked) ≡ false
        → IsDone id a m st (go_on id m (go_on id m (go_on id m st)))
    unfolding reserve ask_delay
    passed-IsDone e good soon =
        let s1 = reserve r id ip a m.reserved st in
        let s2 = ask_delay r id ip a rsv1 m.asked s1 in
        let there1 : s1.asks id ≡ reserved ip a rsv1 = with_ask_self id _ st.asks ∙ rw good refl in
        let there2 : s2.asks id ≡ passed = with_ask_self id _ s1.asks ∙ rw soon refl in
        subst (IsDone id a m st)
          (sym (
            three id m st s1 s2 s2 (by_ask id m st (looked ip a) e)
              (by_ask id m s1 (reserved ip a rsv1) there1) (by_ask id m s2 passed there2)))
          (record {
            table = refl;
            own = stored_self a lim1 st.heap ∙ rw (good, soon) refl;
            others = λ b h. stored_other a b lim1 st.heap h;
            ended = there2 ∙ rw (good, soon) refl;
          })

    late-IsDone :
        st.asks id ≡ looked ip a
        → r.is_ok rsv1 ≡ true
        → ltb_ℤ (pos 0) (r.delay rsv1 m.asked) ≡ true
        → IsDone id a m st (go_on id m (go_on id m (go_on id m st)))
    unfolding reserve ask_delay cancel
    late-IsDone e good behind =
        let s1 = reserve r id ip a m.reserved st in
        let s2 = ask_delay r id ip a rsv1 m.asked s1 in
        let s3 = cancel r id a rsv1 m.cancelled s2 in
        let there1 : s1.asks id ≡ reserved ip a rsv1 = with_ask_self id _ st.asks ∙ rw good refl in
        let there2 : s2.asks id ≡ late ip a rsv1 = with_ask_self id _ s1.asks ∙ rw behind refl in
        subst (IsDone id a m st)
          (sym (
            three id m st s1 s2 s3 (by_ask id m st (looked ip a) e)
              (by_ask id m s1 (reserved ip a rsv1) there1)
              (by_ask id m s2 (late ip a rsv1) there2)))
          (record {
            table = refl;
            own =
                stored_self a (r.cancel (s2.heap a) rsv1 m.cancelled) s2.heap
                ∙ ap (λ lim. r.cancel lim rsv1 m.cancelled) (stored_self a lim1 st.heap)
                ∙ rw (good, behind) refl;
            others = λ b h. stored_other a b _ s2.heap h ∙ stored_other a b lim1 st.heap h;
            ended = with_ask_self id turned_away s2.asks ∙ rw (good, behind) refl;
          })

    pub three_steps-IsDone :
        st.asks id ≡ looked ip a → IsDone id a m st (go_on id m (go_on id m (go_on id m st)))
    three_steps-IsDone e = elim (Bool-cases (r.is_ok rsv1)) [
      | inr bad ↦ refused-IsDone e bad
      | inl good ↦ elim (Bool-cases (ltb_ℤ (pos 0) (r.delay rsv1 m.asked))) [
        | inl behind ↦ late-IsDone e good behind
        | inr soon ↦ passed-IsDone e good soon
      ]
    ]
