-- ===== src/Storage/InFlight/Names.antt =====
-- Whose call a request waits on.
use workstation_probe.Common.{
  ℕ, zero, suc, ◌≡◌, refl, ap, ◌∙◌, subst, inl, inr, true, some, Option, List, [], ◌∷◌, ◌++◌, arith,
  length, get_elem?, set, Bytes, bytes_eq, bytes_eq_iff, Bool-cases, Option-cases,
  get_elem?-length-append,
}
use workstation_probe.Storage.InFlight.{
  Call, State, begun, started, call_for, answered, forgotten, Step, request, reply, leave,
  IsReachable, at_start, after,
}

get_elem?-append_left :
    {A : Type 0} (xs ys : List A) (x : A) (i : ℕ)
    → get_elem? xs i ≡ some x
    → get_elem? (xs ++ ys) i ≡ some x
get_elem?-append_left [] ys x i h = cc
get_elem?-append_left (z ∷ xs) ys x zero h = h
get_elem?-append_left (z ∷ xs) ys x (suc i) h = get_elem?-append_left xs ys x i h

module _ (U : Type 0) where
  -- The call with the number `id` is for the path.
  abbrev pub IsFor : State U → ℕ → Bytes → Type 0
  IsFor st id path = (c : Call U) × (get_elem? st.calls id ≡ some c) × (c.path ≡ path)

  abbrev IsNamed : State U → Type 0
  IsNamed st = (path : Bytes) (id : ℕ) → st.in_flight path ≡ some id → IsFor st id path

  set-IsFor :
      (xs : List (Call U)) (n : ℕ) (d d' : Call U) (id : ℕ) (c : Call U)
      → get_elem? xs n ≡ some d
      → d'.path ≡ d.path
      → get_elem? xs id ≡ some c
      → (c' : Call U) × (get_elem? (set xs n d') id ≡ some c') × (c'.path ≡ c.path)
  set-IsFor [] n d d' id c at same h = cc
  set-IsFor (x ∷ xs) zero d d' zero c at same h =
      let e : d ≡ c = cc in (d', refl, same ∙ ap (λ (y : Call U). y.path) e)
  set-IsFor (x ∷ xs) zero d d' (suc id) c at same h = (c, h, refl)
  set-IsFor (x ∷ xs) (suc n) d d' zero c at same h = (c, h, refl)
  set-IsFor (x ∷ xs) (suc n) d d' (suc id) c at same h = set-IsFor xs n d d' id c at same h

  started-IsNamed : (path : Bytes) (st : State U) → IsNamed st → IsNamed (started U path st)
  started-IsNamed path st named q id h = elim (Bool-cases (bytes_eq path q)) [
    | inl e ↦
        let last : length st.calls ≡ id = ground arith in
        subst (λ n. IsFor (started U path st) n q) last
          (
            begun U path,
            get_elem?-length-append st.calls (begun U path) [],
            (bytes_eq_iff path q).0 e,
          )
    | inr e ↦
        let old : st.in_flight q ≡ some id = ground arith in
        let (c, at, own) = named q id old in
        (c, get_elem?-append_left st.calls (begun U path ∷ []) c id at, own)
  ]

  kept-IsNamed :
      (st st' : State U)
      → IsNamed st
      → ((id : ℕ) (path : Bytes) → IsFor st id path → IsFor st' id path)
      → ((path : Bytes) (id : ℕ) → st'.in_flight path ≡ some id → st.in_flight path ≡ some id)
      → IsNamed st'
  kept-IsNamed st st' named calls old path id h = calls id path (named path id (old path id h))

  changed-IsFor :
      (st : State U) (n : ℕ) (d d' : Call U) (in_flight : Bytes → Option ℕ) (id : ℕ) (path : Bytes)
      → get_elem? st.calls n ≡ some d
      → d'.path ≡ d.path
      → IsFor st id path
      → IsFor (record { calls = set st.calls n d'; in_flight = in_flight }) id path
  changed-IsFor st n d d' in_flight id path at same (c, there, own) =
      let (c', there', own') = set-IsFor st.calls n d d' id c at same there in
      (c', there', own' ∙ own)

  forgotten-in_flight :
      (n : ℕ) (d : Call U) (st : State U) (path : Bytes) (id : ℕ)
      → (forgotten U n d st).in_flight path ≡ some id
      → st.in_flight path ≡ some id
  forgotten-in_flight n d st path id h = ground arith

  pub call_for-IsFor :
      (path : Bytes) (st : State U)
      → IsNamed st
      → let (id, st') = call_for U path st in IsNamed st' × IsFor st' id path
  unfolding call_for
  call_for-IsFor path st named = elim (Option-cases (st.in_flight path)) [
    | inl free ↦ rw free (
      started-IsNamed path st named,
      (begun U path, get_elem?-length-append st.calls (begun U path) [], refl),
    )
    | inr (id, e) ↦ rw e (named, named path id e)
  ]

  Step-IsNamed : {st st' : State U} → Step U st st' → IsNamed st → IsNamed st'
  Step-IsNamed (request path st) named = (call_for-IsFor path st named).0
  Step-IsNamed (reply id c u st at pending) named =
      kept-IsNamed st (answered U id c u st) named
        (λ i p. changed-IsFor st id c (record c { answer = some u }) st.in_flight i p at refl)
        (λ p i h. h)
  Step-IsNamed (leave id c u st at closed staying) named =
      kept-IsNamed st (forgotten U id c st) named
        (λ i p.
          changed-IsFor st id c (record c { left = true }) (forgotten U id c st).in_flight i p at
            refl)
        (forgotten-in_flight id c st)

  pub IsReachable-IsNamed : {st : State U} → IsReachable U st → IsNamed st
  IsReachable-IsNamed at_start = λ path id h. cc
  IsReachable-IsNamed (after st st' r step) = Step-IsNamed step (IsReachable-IsNamed r)
