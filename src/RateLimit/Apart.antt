-- ===== src/RateLimit/Apart.antt =====
-- Which limiters a client and its requests refer to, over the steps of `Shared`.
use workstation_probe.Common.{
  ℕ, ◌+◌, ◌==◌, ◌<◌, ◌≡◌, ◌⊎◌, refl, ap, sym, ◌∙◌, subst, inl, inr, Option, none, some,
  if◌then◌else◌, Bytes, bytes_eq, bytes_eq_iff, Bool-cases, arith,
}
use workstation_probe.Common.Int.{pos, ltb_ℤ}
use workstation_probe.Common.Time.{Time, before, add_neg}
use workstation_probe.Common.Float.{Float64}
use workstation_probe.RateLimit.{Rate, RateLimitConfig, or_duration}
use workstation_probe.RateLimit.Shared.{
  Ask, waiting, looked, reserved, late, passed, turned_away, Shared, with_ask, found, look_up, kept,
  clean, reserve, ask_delay, cancel, Step, looks, reserves, asks_delay, cancels, cleans,
  IsReachable, begun, after,
}

module _ {f : Float64} (r : Rate f) where
  -- The client and the limiter of a request that is under way.
  abbrev pub held_by : Ask r → Option (Bytes × ℕ)
  held_by waiting = none
  held_by (looked ip a) = some (ip, a)
  held_by (reserved ip a rsv) = some (ip, a)
  held_by (late ip a rsv) = some (ip, a)
  held_by passed = none
  held_by turned_away = none

  -- The client's entry or one of its requests has the limiter at the address.
  abbrev pub Has : Shared r → Bytes → ℕ → Type 0
  Has st ip a =
      ((seen : Time) × (st.by_ip ip ≡ some (a, seen)))
      ⊎ ((id : ℕ) × (held_by (st.asks id) ≡ some (ip, a)))

  pub record IsApart (st : Shared r) : Type 0 where
    pub below : (ip : Bytes) (a : ℕ) → Has st ip a → a < st.next
    pub apart : (ip other : Bytes) (a : ℕ) → Has st ip a → Has st other a → ip ≡ other

  -- A step after which nobody has a limiter that it did not have.
  no_more-IsApart :
      (st st' : Shared r)
      → IsApart st
      → st'.next ≡ st.next
      → ((ip : Bytes) (a : ℕ) → Has st' ip a → Has st ip a)
      → IsApart st'
  no_more-IsApart st st' h same less = record {
    below = λ ip a x. let y = h.below ip a (less ip a x) in omega arith;
    apart = λ ip other a x y. h.apart ip other a (less ip a x) (less other a y);
  }

  -- A step after which one client has the limiter at a free address, and otherwise nobody has more.
  one_more-IsApart :
      (st st' : Shared r) (ip : Bytes)
      → IsApart st
      → st'.next ≡ st.next + 1
      → ((c : Bytes) (b : ℕ) → Has st' c b → Has st c b ⊎ ((c ≡ ip) × (b ≡ st.next)))
      → IsApart st'
  one_more-IsApart st st' ip h grown less = record {
    below = λ c b x. elim (less c b x) [
      | inl y ↦ let z = h.below c b y in omega arith
      | inr (own, free) ↦ omega arith
    ];
    apart = λ c d b x y. elim (less c b x) [
      | inl was ↦ elim (less d b y) [
        | inl also ↦ h.apart c d b was also
        | inr (own, free) ↦ let z = h.below c b was in absurd (omega arith)
      ]
      | inr (own, free) ↦ elim (less d b y) [
        | inl also ↦ let z = h.below d b also in absurd (omega arith)
        | inr (own', free') ↦ own ∙ sym own'
      ]
    ];
  }

  same_pair :
      {c d : Bytes} {a b : ℕ}
      → ◌≡◌ {A = Option (Bytes × ℕ)} (some (c, a)) (some (d, b))
      → (c ≡ d) × (a ≡ b)
  same_pair e = (cc, cc)

  -- What the requests have when one of them has changed: it has what is said, and the others what they had.
  with_ask-Has :
      (st : Shared r) (id : ℕ) (x : Ask r) (c : Bytes) (b j : ℕ)
      → held_by (with_ask r id x st.asks j) ≡ some (c, b)
      → Has st c b ⊎ (held_by x ≡ some (c, b))
  with_ask-Has st id x c b j e = elim (Bool-cases (id == j)) [
    | inl same ↦ inr (rw same at e)
    | inr other ↦ inl (inr (j, rw other at e))
  ]

  -- A step that leaves the table and moves one request on, with the limiter that it had or none.
  moved-IsApart :
      (st st' : Shared r) (id : ℕ) (x : Ask r) (ip : Bytes) (a : ℕ)
      → IsApart st
      → held_by (st.asks id) ≡ some (ip, a)
      → (held_by x ≡ some (ip, a)) ⊎ (held_by x ≡ none)
      → st'.next ≡ st.next
      → st'.by_ip ≡ st.by_ip
      → st'.asks ≡ with_ask r id x st.asks
      → IsApart st'
  moved-IsApart st st' id x ip a h had now same table moved = no_more-IsApart st st' h same more
    where
      own : (c : Bytes) (b : ℕ) → held_by x ≡ some (c, b) → Has st c b
      own c b e = elim now [
        | inl has ↦ inr (id, had ∙ sym has ∙ e)
        | inr nothing ↦ absurd (let t : none ≡ some (c, b) = sym nothing ∙ e in cc)
      ]

      more : (c : Bytes) (b : ℕ) → Has st' c b → Has st c b
      more c b (inl (seen, e)) = inl (seen, rw table at e)
      more c b (inr (j, e)) = elim (with_ask-Has st id x c b j (rw moved at e)) [
        | inl was ↦ was
        | inr e' ↦ own c b e'
      ]

  module _ (cfg : RateLimitConfig f) where
    pub found-IsApart :
        (id : ℕ) (ip : Bytes) (now : Time) (o : Option (ℕ × Time)) (st : Shared r)
        → st.by_ip ip ≡ o
        → IsApart st
        → IsApart (found r cfg id ip now o st)
    found-IsApart id ip now (some (a, seen)) st e h =
        no_more-IsApart st (found r cfg id ip now (some (a, seen)) st) h refl more
      where
        own : (c : Bytes) (b : ℕ) → ip ≡ c → a ≡ b → Has st c b
        own c b p q = subst (λ k. Has st k b) p (subst (λ n. Has st ip n) q (inl (seen, e)))

        more :
            (c : Bytes) (b : ℕ) → Has (found r cfg id ip now (some (a, seen)) st) c b → Has st c b
        more c b (inl (s, q)) = elim (Bool-cases (bytes_eq ip c)) [
          | inl same ↦
              let t : ◌≡◌ {A = Option (ℕ × Time)} (some (a, now)) (some (b, s)) = rw same at q in
              own c b ((bytes_eq_iff ip c).0 same) (cc t)
          | inr other ↦ inl (s, rw other at q)
        ]
        more c b (inr (j, q)) = elim (with_ask-Has st id (looked ip a) c b j q) [
          | inl was ↦ was
          | inr z ↦ let (p, q') = same_pair z in own c b p q'
        ]
    found-IsApart id ip now none st e h =
        one_more-IsApart st (found r cfg id ip now none st) ip h refl more
      where
        more :
            (c : Bytes) (b : ℕ)
            → Has (found r cfg id ip now none st) c b
            → Has st c b ⊎ ((c ≡ ip) × (b ≡ st.next))
        more c b (inl (s, q)) = elim (Bool-cases (bytes_eq ip c)) [
          | inl same ↦
              let t : ◌≡◌ {A = Option (ℕ × Time)} (some (st.next, now)) (some (b, s)) =
                rw same at q in
              inr (sym ((bytes_eq_iff ip c).0 same), cc t)
          | inr other ↦ inl (inl (s, rw other at q))
        ]
        more c b (inr (j, q)) = elim (with_ask-Has st id (looked ip st.next) c b j q) [
          | inl was ↦ inl was
          | inr z ↦ let (p, q') = same_pair z in inr (sym p, sym q')
        ]

    kept-some :
        (cutoff : Time) (o : Option (ℕ × Time)) (e : ℕ × Time)
        → kept r cfg cutoff o ≡ some e
        → o ≡ some e
    kept-some cutoff none e h = cc
    kept-some cutoff (some (a, seen)) e h = elim (Bool-cases (before seen cutoff)) [
      | inl old ↦ absurd (let t : none ≡ some e = rw old at h in cc)
      | inr young ↦ rw young at h
    ]

    pub Step-IsApart : (st st' : Shared r) → IsApart st → Step r cfg st st' → IsApart st'
    unfolding look_up reserve ask_delay cancel clean
    Step-IsApart st _ h (looks id ip now e) = found-IsApart id ip now (st.by_ip ip) st refl h
    Step-IsApart st _ h (reserves id ip a now e) =
        let x = r.reserve (st.heap a) now in
        moved-IsApart st (reserve r id ip a now st) id
          (if r.is_ok x.1 then reserved ip a x.1 else turned_away) ip a h (ap held_by e)
          (elim (Bool-cases (r.is_ok x.1)) [
            | inl ok ↦ rw ok (inl refl)
            | inr bad ↦ rw bad (inr refl)
          ])
          refl refl refl
    Step-IsApart st _ h (asks_delay id ip a rsv now e) =
        let behind = ltb_ℤ (pos 0) (r.delay rsv now) in
        moved-IsApart st (ask_delay r id ip a rsv now st) id
          (if behind then late ip a rsv else passed) ip a h (ap held_by e)
          (elim (Bool-cases behind) [ inl on ↦ rw on (inl refl) | inr off ↦ rw off (inr refl) ])
          refl refl refl
    Step-IsApart st _ h (cancels id ip a rsv now e) =
        moved-IsApart st (cancel r id a rsv now st) id turned_away ip a h (ap held_by e) (inr refl)
          refl refl refl
    Step-IsApart st _ h (cleans now) =
        let cutoff = add_neg now (or_duration cfg.idle_evict_after 600) in
        no_more-IsApart st (clean r cfg now st) h refl (λ ip a x. elim x [
          | inl (seen, e) ↦ inl (seen, kept-some cutoff (st.by_ip ip) (a, seen) e)
          | inr y ↦ inr y
        ])

    -- However the steps of the requests and of the cleanup interleave: a limiter that a client's entry or one of its requests
    -- under way refers to is no limiter of another client, and none that is still to be made.
    pub IsReachable-IsApart :
        (heap : ℕ → r.Limiter) (st : Shared r) → IsReachable r cfg heap st → IsApart st
    IsReachable-IsApart heap _ begun = record {
      below = λ ip a x. elim x [ inl (seen, e) ↦ absurd (cc e) | inr (id, e) ↦ absurd (cc e) ];
      apart =
          λ ip other a x y. elim x [ inl (seen, e) ↦ absurd (cc e) | inr (id, e) ↦ absurd (cc e) ];
    }
    IsReachable-IsApart heap _ (after st st' reachable step) =
        Step-IsApart st st' (IsReachable-IsApart heap st reachable) step
