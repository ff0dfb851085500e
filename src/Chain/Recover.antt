-- ===== src/Chain/Recover.antt =====
-- A panic in a handler, as the client and the log see it.
use workstation_probe.Common.{
  ℕ, ◌≡◌, ◌⊎◌, inl, inr, refl, ap, sym, Option, none, some, List, [], ◌∷◌, ◌++◌, take, codes, Bytes,
  bytes_eq, subst,
}
use workstation_probe.Http.{
  Request, Call, set_header, add_header, write_header, write, Exit, returned, panicked, Run,
  Handler, Header, Response, blank, respond, respond_all,
}
use workstation_probe.Http.Responses.{respond_all-append}
use workstation_probe.Chain.{
  World, Surroundings, rescue_calls, rescued, panic_line, recovery, internal_error,
}

-- Nothing is in the body before a status is sent.
abbrev IsUnsent : Option (ℕ × Header) → Bytes → Type 0
IsUnsent none body = body ≡ []
IsUnsent (some first) body = Unit

respond-IsUnsent :
    (header : Header) (sent : Option (ℕ × Header)) (body : Bytes) (c : Call)
    → IsUnsent sent body
    → let r : Response = record { header = header; sent = sent; body = body } in
      IsUnsent (respond r c).sent (respond r c).body
unfolding respond
respond-IsUnsent header sent body (set_header k v) h = h
respond-IsUnsent header sent body (add_header k v) h = h
respond-IsUnsent header none body (write_header code) h = tt
respond-IsUnsent header (some first) body (write_header code) h = tt
respond-IsUnsent header none body (write b n) h = tt
respond-IsUnsent header (some first) body (write b n) h = tt

respond_all-IsUnsent :
    (r : Response) (calls : List Call)
    → IsUnsent r.sent r.body
    → IsUnsent (respond_all r calls).sent (respond_all r calls).body
unfolding respond_all
respond_all-IsUnsent r [] h = h
respond_all-IsUnsent r (c ∷ calls) h =
    respond_all-IsUnsent (respond r c) calls (respond-IsUnsent r.header r.sent r.body c h)

abbrev content_type : Bytes
content_type = codes "Content-Type"

-- The response to a handler that panicked; `first` is the status and header it had sent before, with `body`.
pub IsAnswer : Option (ℕ × Header) → Bytes → Response → ℕ → Type 0
IsAnswer none body r taken =
    (r.sent ≡ some (500, r.header))
    × (r.header content_type ≡ codes "application/json" ∷ [])
    × (r.body ≡ take taken internal_error)
IsAnswer (some first) body r taken =
    (r.sent ≡ some first) × (r.body ≡ body ++ take taken internal_error)

rescue-IsAnswer :
    (s : Surroundings) (header : Header) (sent : Option (ℕ × Header)) (body : Bytes)
    → IsUnsent sent body
    → let begun : Response = record { header = header; sent = sent; body = body } in
      IsAnswer sent body (respond_all begun (rescue_calls s)) (s.taken internal_error)
unfolding IsAnswer respond respond_all bytes_eq
rescue-IsAnswer s header none body unsent =
    (refl, refl, ap (λ b. b ++ take (s.taken internal_error) internal_error) unsent)
rescue-IsAnswer s header (some first) body unsent = (refl, refl)

-- A handler's run that ended one way or the other, and the run of the handler wrapped in the recovery.
unfoldable pub IsRescued :
    {L : Type 0} → Surroundings → Request → Exit → Run (World L) → Run (World L) → Type 0
IsRescued s req returned inner outer = outer ≡ inner
IsRescued s req (panicked cause) inner outer =
    let begun = respond_all blank inner.calls in
    (outer.world
      ≡ record inner.world { panics = inner.world.panics ++ panic_line s req cause ∷ [] })
    × IsAnswer begun.sent begun.body (respond_all blank outer.calls) (s.taken internal_error)

module _ {L : Type 0} (s : Surroundings) where
  -- The handler that recovery wraps may panic; the wrapped one always returns. A run that returns is
  -- passed on as it is. A run that panics adds one panic line with the cause and changes nothing
  -- else of the server; the client gets status 500, the JSON content type and the JSON body if the handler had
  -- sent nothing, and otherwise the status and the body sent so far, followed by the JSON body.
  pub recovery-IsRescued :
      (next : Handler (World L)) (req : Request) (w : World L)
      → let inner = next req w in
        let outer = recovery s next req w in
        (outer.exit ≡ returned) × IsRescued s req inner.exit inner outer
  unfolding recovery IsRescued
  recovery-IsRescued next req w = by_exit (next req w) (next req w).exit refl
    where
      by_exit :
          (inner : Run (World L)) (exit : Exit)
          → inner.exit ≡ exit
          → ((rescued s req inner exit).exit ≡ returned)
            × IsRescued s req exit inner (rescued s req inner exit)
      by_exit inner returned e = (e, refl)
      by_exit inner (panicked cause) e =
          let begun = respond_all blank inner.calls in
          (
            refl,
            (
              refl,
              subst (λ r. IsAnswer begun.sent begun.body r (s.taken internal_error))
                  (sym (respond_all-append blank inner.calls (rescue_calls s)))
                  (rescue-IsAnswer s begun.header begun.sent begun.body
                    (respond_all-IsUnsent blank inner.calls refl)),
            ),
          )

  -- The handler's calls, and those of the rescue if there was one.
  pub recovery-calls :
      (next : Handler (World L)) (req : Request) (w : World L)
      → ((recovery s next req w).calls ≡ (next req w).calls)
        ⊎ ((recovery s next req w).calls ≡ (next req w).calls ++ rescue_calls s)
  unfolding recovery
  recovery-calls next req w = by_exit (next req w) (next req w).exit
    where
      by_exit :
          (inner : Run (World L)) (exit : Exit)
          → ((rescued s req inner exit).calls ≡ inner.calls)
            ⊎ ((rescued s req inner exit).calls ≡ inner.calls ++ rescue_calls s)
      by_exit inner returned = inl refl
      by_exit inner (panicked cause) = inr refl
