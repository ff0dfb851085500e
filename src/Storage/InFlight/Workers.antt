-- ===== src/Storage/InFlight/Workers.antt =====
-- How many workers a path can have.
use workstation_probe.Common.{
  ℕ, zero, suc, ◌≡◌, ◌≢◌, ◌⊎◌, inl, inr, refl, sym, ap, ◌∙◌, true, false, none, some, List, [], ◌∷◌,
  ◌++◌, arith, length, get_elem?, set, Bytes, bytes_eq, bytes_eq_iff, Bool-cases, Option-cases,
}
use workstation_probe.Storage.InFlight.{
  Call, State, begun, started, call_for, answered, forgotten, Step, request, reply, leave,
  IsReachable, at_start, after,
}

get_elem?-append_one :
    {A : Type 0} (xs : List A) (y x : A) (i : ℕ)
    → get_elem? (xs ++ y ∷ []) i ≡ some x
    → (get_elem? xs i ≡ some x) ⊎ ((i ≡ length xs) × (y ≡ x))
get_elem?-append_one [] y x zero h = inr (refl, cc)
get_elem?-append_one [] y x (suc i) h = cc
get_elem?-append_one (z ∷ xs) y x zero h = inl h
get_elem?-append_one (z ∷ xs) y x (suc i) h = elim (get_elem?-append_one xs y x i h) [
  | inl e ↦ inl e
  | inr (e, k) ↦ inr (ap suc e, k)
]

get_elem?-set_any :
    {A : Type 0} (xs : List A) (v x : A) (i j : ℕ)
    → get_elem? (set xs i v) j ≡ some x
    → ((j ≡ i) × (v ≡ x)) ⊎ ((j ≢ i) × (get_elem? xs j ≡ some x))
get_elem?-set_any [] v x i j h = cc
get_elem?-set_any (z ∷ xs) v x zero zero h = inl (refl, cc)
get_elem?-set_any (z ∷ xs) v x zero (suc j) h = inr (omega arith, h)
get_elem?-set_any (z ∷ xs) v x (suc i) zero h = inr (omega arith, h)
get_elem?-set_any (z ∷ xs) v x (suc i) (suc j) h = elim (get_elem?-set_any xs v x i j h) [
  | inl (e, k) ↦ inl (ap suc e, k)
  | inr (e, k) ↦ inr (omega arith, k)
]

module _ (U : Type 0) where
  -- A worker that has not left is the one in flight for its path.
  abbrev IsHeld : State U → Type 0
  IsHeld st =
      (id : ℕ) (c : Call U)
      → get_elem? st.calls id ≡ some c
      → c.left ≡ false
      → st.in_flight c.path ≡ some id

  started-IsHeld :
      (path : Bytes) (st : State U)
      → st.in_flight path ≡ none
      → IsHeld st
      → IsHeld (started U path st)
  started-IsHeld path st free held id c h k =
      elim (get_elem?-append_one st.calls (begun U path) c id h) [
        | inl old ↦
            let mine = held id c old k in
            elim (Bool-cases (bytes_eq path c.path)) [
              | inl t ↦ let same = (bytes_eq_iff path c.path).0 t in cc
              | inr f ↦ rw f mine
            ]
        | inr (last, new) ↦
            rw ((bytes_eq_iff path c.path).1 (ap (λ (x : Call U). x.path) new)) (ap some (sym last))
      ]

  answered-IsHeld :
      (n : ℕ) (d : Call U) (u : U) (st : State U)
      → get_elem? st.calls n ≡ some d
      → IsHeld st
      → IsHeld (answered U n d u st)
  answered-IsHeld n d u st at held id c h k =
      elim (get_elem?-set_any st.calls (record d { answer = some u }) c n id h) [
        | inl (same, e) ↦
            let here = held n d at (ap (λ (x : Call U). x.left) e ∙ k) in
            let path = ap (λ (x : Call U). x.path) e in
            ap st.in_flight (sym path) ∙ here ∙ ap some (sym same)
        | inr (other, e) ↦ held id c e k
      ]

  forgotten-IsHeld : (n : ℕ) (d : Call U) (st : State U) → IsHeld st → IsHeld (forgotten U n d st)
  forgotten-IsHeld n d st held id c h k =
      elim (get_elem?-set_any st.calls (record d { left = true }) c n id h) [
        | inl (same, e) ↦ let gone = ap (λ (x : Call U). x.left) e in cc
        | inr (other, e) ↦ rw (held id c e k) (ground arith)
      ]

  call_for-IsHeld : (path : Bytes) (st : State U) → IsHeld st → IsHeld (call_for U path st).1
  unfolding call_for
  call_for-IsHeld path st held = elim (Option-cases (st.in_flight path)) [
    | inl free ↦ rw free (started-IsHeld path st free held)
    | inr (id, e) ↦ rw e held
  ]

  Step-IsHeld : {st st' : State U} → Step U st st' → IsHeld st → IsHeld st'
  Step-IsHeld (request path st) = call_for-IsHeld path st
  Step-IsHeld (reply id c u st at pending) = answered-IsHeld id c u st at
  Step-IsHeld (leave id c u st at closed staying) = forgotten-IsHeld id c st

  IsReachable-IsHeld : {st : State U} → IsReachable U st → IsHeld st
  IsReachable-IsHeld at_start = λ id c h k. cc
  IsReachable-IsHeld (after st st' r step) = Step-IsHeld step (IsReachable-IsHeld r)

  -- Whatever requests and workers do, in any order, a path has at most one worker that has not gone
  -- through its last section, so a hung mount holds one worker.
  pub IsReachable-one_worker :
      (st : State U) (i j : ℕ) (c d : Call U)
      → IsReachable U st
      → get_elem? st.calls i ≡ some c
      → get_elem? st.calls j ≡ some d
      → c.left ≡ false
      → d.left ≡ false
      → c.path ≡ d.path
      → i ≡ j
  IsReachable-one_worker st i j c d r h k hl kl same =
      let first = IsReachable-IsHeld r i c h hl in let second = IsReachable-IsHeld r j d k kl in cc

  -- While a path's worker has not left, a further request for the path starts nothing and waits on
  -- that worker's call.
  pub call_for-IsReachable :
      (st : State U) (id : ℕ) (c : Call U)
      → IsReachable U st
      → get_elem? st.calls id ≡ some c
      → c.left ≡ false
      → call_for U c.path st ≡ (id, st)
  unfolding call_for
  call_for-IsReachable st id c r h k = rw (IsReachable-IsHeld r id c h k) refl
