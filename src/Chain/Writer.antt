-- ===== src/Chain/Writer.antt =====
-- What the observing writer sees, against what the connection sends.
use workstation_probe.Common.{
  ℕ, ◌≡◌, refl, ap, sym, ◌∙◌, true, false, Option, none, some, List, [], ◌∷◌, ◌++◌, inl, inr,
  Bool-cases, All, Bytes, Bool, append-nil,
}
use workstation_probe.Http.{
  Request, Call, set_header, add_header, write_header, write, Exit, returned, panicked, Run,
  Handler, Header, Response, blank, respond, respond_all, status_sent, status_of,
}
use workstation_probe.Http.Responses.{respond_all-append}
use workstation_probe.Logging.{level_info, enabled}
use workstation_probe.Chain.{
  ResponseWriter, fresh_writer, observe, observe_all, World, Surroundings, AccessLine, access_line,
  logged, informed, access_log, id_from_context, log_path,
}

-- The writer knows whether a status was sent, and which.
abbrev IsInStep : ResponseWriter → Option (ℕ × Header) → Type 0
IsInStep w none = (w.wrote_header ≡ false) × (w.status ≡ 200)
IsInStep w (some (code, header)) = (w.wrote_header ≡ true) × (w.status ≡ code)

abbrev response : Header → Option (ℕ × Header) → Bytes → Response
response header sent body = record { header = header; sent = sent; body = body }

observe-IsInStep :
    (w : ResponseWriter) (header : Header) (sent : Option (ℕ × Header)) (body : Bytes) (c : Call)
    → IsInStep w sent
    → let r = response header sent body in
      IsInStep (observe w c).0 (respond r c).sent × (respond_all r (observe w c).1 ≡ respond r c)
unfolding observe respond respond_all
observe-IsInStep w header sent body (set_header k v) h = (h, refl)
observe-IsInStep w header sent body (add_header k v) h = (h, refl)
observe-IsInStep w header none body (write_header code) (wrote, status) =
    rw wrote ((refl, refl), refl)
observe-IsInStep w header (some (code', sent)) body (write_header code) (wrote, status) =
    rw wrote ((refl, status), refl)
observe-IsInStep w header none body (write b n) (wrote, status) = rw wrote ((refl, refl), refl)
observe-IsInStep w header (some (code', sent)) body (write b n) (wrote, status) =
    rw wrote ((refl, status), refl)

observe_all-IsInStep :
    (w : ResponseWriter) (r : Response) (calls : List Call)
    → IsInStep w r.sent
    → IsInStep (observe_all w calls).0 (respond_all r calls).sent
      × (respond_all r (observe_all w calls).1 ≡ respond_all r calls)
unfolding observe_all respond_all
observe_all-IsInStep w r [] h = (h, refl)
observe_all-IsInStep w r (c ∷ calls) h =
    let (step, same) = observe-IsInStep w r.header r.sent r.body c h in
    let (steps, sames) = observe_all-IsInStep (observe w c).0 (respond r c) calls step in
    (
      steps,
      respond_all-append r (observe w c).1 (observe_all (observe w c).0 calls).1
          ∙ ap (λ x. respond_all x (observe_all (observe w c).0 calls).1) same
          ∙ sames,
    )

-- Only calls of the handler are passed on.
pub observe_all-All :
    (P : Call → Type 0) (w : ResponseWriter) (calls : List Call)
    → All P calls
    → All P (observe_all w calls).1
unfolding observe_all observe
observe_all-All P w [] h = h
observe_all-All P w (set_header k v ∷ calls) h = (h.0, observe_all-All P w calls h.1)
observe_all-All P w (add_header k v ∷ calls) h = (h.0, observe_all-All P w calls h.1)
observe_all-All P w (write_header code ∷ calls) h = elim (Bool-cases w.wrote_header) [
  | inl e ↦ rw e (observe_all-All P (record w { wrote_header = true }) calls h.1)
  | inr e ↦
      rw e (h.0, observe_all-All P (record w { status = code; wrote_header = true }) calls h.1)
]
observe_all-All P w (write b n ∷ calls) h =
    (h.0, observe_all-All P (observe w (write b n)).0 calls h.1)

IsInStep-status :
    (w : ResponseWriter) (sent : Option (ℕ × Header))
    → IsInStep w sent
    → w.status ≡ status_sent sent
IsInStep-status w none h = h.1
IsInStep-status w (some (code, header)) h = h.1

-- One more line with the path, the status and the id, if the handler returned and lines of the level info are
-- written; none otherwise.
unfoldable pub IsLogged :
    Exit → Bool → List AccessLine → List AccessLine → Bytes → ℕ → Bytes → Type 0
IsLogged returned true before after path status id =
    (line : AccessLine) × (after ≡ before ++ line ∷ [])
    × (line.path ≡ log_path path)
    × (line.status ≡ status)
    × (line.request_id ≡ id)
IsLogged returned false before after path status id = after ≡ before
IsLogged (panicked cause) on before after path status id = after ≡ before

informed-IsLogged :
    (on : Bool) (line : AccessLine) (before : List AccessLine) (path : Bytes) {status : ℕ}
    → line.status ≡ status
    → line.path ≡ log_path path
    → IsLogged returned on before (before ++ informed on line) path status line.request_id
unfolding IsLogged
informed-IsLogged true line before path status same = (line, refl, same, status, refl)
informed-IsLogged false line before path status same = append-nil before

module _ {L : Type 0} (s : Surroundings) where
  -- Wrapping a handler in the access log leaves its exit and the response that the connection sends as
  -- they are. If the handler returns and the logger writes lines of the level info, one line is added, with the request's path as it is logged, its id and the status of the
  -- response, also for a handler that sends no status or several; if it panics or the level is
  -- above info, no line is added. No panic line is added
  -- in either case.
  pub access_log-IsLogged :
      (next : Handler (World L)) (req : Request) (w : World L)
      → let inner = next req w in
        let outer = access_log s next req w in
        (outer.exit ≡ inner.exit)
        × (respond_all blank outer.calls ≡ respond_all blank inner.calls)
        × IsLogged inner.exit
            (enabled s.level level_info)
            inner.world.access
            outer.world.access
            req.path
            (status_of (respond_all blank outer.calls))
            (id_from_context req.request_id)
        × (outer.world.panics ≡ inner.world.panics)
  unfolding access_log IsLogged
  access_log-IsLogged next req w =
      let inner = next req w in
      let (step, same) = observe_all-IsInStep fresh_writer blank inner.calls (refl, refl) in
      let status =
        IsInStep-status (observe_all fresh_writer inner.calls).0
          (respond_all blank inner.calls).sent step in
      (refl, same, lines inner inner.exit same status, untouched inner inner.exit)
    where
      lines :
          (inner : Run (World L)) (exit : Exit)
          → respond_all blank (observe_all fresh_writer inner.calls).1
            ≡ respond_all blank inner.calls
          → (observe_all fresh_writer inner.calls).0.status
            ≡ status_of (respond_all blank inner.calls)
          → IsLogged exit
              (enabled s.level level_info)
              inner.world.access
              (logged s req (observe_all fresh_writer inner.calls).0 inner.world exit).access
              req.path
              (status_of (respond_all blank (observe_all fresh_writer inner.calls).1))
              (id_from_context req.request_id)
      lines inner returned same status =
          informed-IsLogged (enabled s.level level_info)
            (access_line s req (observe_all fresh_writer inner.calls).0) inner.world.access req.path
            (status ∙ ap status_of (sym same)) refl
      lines inner (panicked cause) same status = refl

      untouched :
          (inner : Run (World L)) (exit : Exit)
          → (logged s req (observe_all fresh_writer inner.calls).0 inner.world exit).panics
            ≡ inner.world.panics
      untouched inner returned = refl
      untouched inner (panicked cause) = refl
