-- ===== src/Storage/InFlight.antt =====
-- internal/storage/collector.go: the blocking calls in flight. A call outlives the request that
-- started it; each step of a request or of a worker under the mutex is one step here.
pub mod Workers
pub mod Names
use workstation_probe.Common.{
  ℕ, ◌≡◌, Bool, true, false, Option, none, some, List, [], ◌∷◌, ◌++◌, arith, ◌==◌, if◌then◌else◌,
  length, get_elem?, set, Bytes, bytes_eq,
}

abbrev pub is_current : Option ℕ → ℕ → Bool
is_current none id = false
is_current (some current) id = current == id

module _ (U : Type 0) where
  -- `diskUsageCall` with the path of its worker. The channel `done` is closed once `answer` is there;
  -- `left` says that the worker has gone through its last section.
  pub record Call : Type 0 where
    pub path : Bytes
    pub answer : Option U
    pub left : Bool

  -- Every call that was made, a call's number being its place, and the map `inFlight`.
  pub record State : Type 0 where
    pub calls : List Call
    pub in_flight : Bytes → Option ℕ

  abbrev pub idle : State
  idle = record { calls = []; in_flight = λ path. none }

  abbrev pub begun : Bytes → Call
  begun path = record { path = path; answer = none; left = false }

  abbrev pub started : Bytes → State → State
  started path st = record {
    calls = st.calls ++ begun path ∷ [];
    in_flight = λ q. if bytes_eq path q then some (length st.calls) else st.in_flight q;
  }

  abbrev pub joined : Bytes → State → Option ℕ → ℕ × State
  joined path st (some id) = (id, st)
  joined path st none = (length st.calls, started path st)

  -- The number of the call that the request waits on.
  unfoldable pub call_for : Bytes → State → ℕ × State
  call_for path st = joined path st (st.in_flight path)

  -- The worker stores what the system call returned and closes `done`.
  abbrev pub answered : ℕ → Call → U → State → State
  answered id c u st = record st { calls = set st.calls id (record c { answer = some u }) }

  -- The worker's last section: the entry goes if it is still the worker's own.
  abbrev pub forgotten : ℕ → Call → State → State
  forgotten id c st = record {
    calls = set st.calls id (record c { left = true });
    in_flight = λ q.
        if bytes_eq c.path q
        then (if is_current (st.in_flight q) id then none else st.in_flight q)
        else st.in_flight q;
  }

  pub data Step : State → State → Type 0 where
    request : (path : Bytes) (st : State) → Step st (call_for path st).1
    reply :
        (id : ℕ) (c : Call) (u : U) (st : State)
        → get_elem? st.calls id ≡ some c
        → c.answer ≡ none
        → Step st (answered id c u st)
    leave :
        (id : ℕ) (c : Call) (u : U) (st : State)
        → get_elem? st.calls id ≡ some c
        → c.answer ≡ some u
        → c.left ≡ false
        → Step st (forgotten id c st)

  pub data IsReachable : State → Type 0 where
    at_start : IsReachable idle
    after : (st st' : State) → IsReachable st → Step st st' → IsReachable st'
