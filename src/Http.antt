-- ===== src/Http.antt =====
-- net/http as the handlers use it: a request, the calls that a handler makes on its response writer, and
-- the response that a connection sends for them.
pub mod Responses
pub mod Mux
use workstation_probe.Common.{
  ℕ, Bool, Option, none, some, List, [], ◌∷◌, ◌++◌, if◌then◌else◌, take, foldl, Bytes, codes,
  bytes_eq,
}

-- `request_id` is the context value that the request-id middleware sets.
pub record Request : Type 0 where
  pub method : Bytes
  pub path : Bytes
  pub remote_addr : Bytes
  -- `r.Header.Get`, empty for a header that is not there.
  pub header : Bytes → Bytes
  -- `r.URL.Query().Get`, likewise.
  pub query : Bytes → Bytes
  pub request_id : Option Bytes

-- A call on a `http.ResponseWriter` or its header; the number is the count that `Write` returned.
pub data Call : Type 0 where
  set_header add_header : Bytes → Bytes → Call
  write_header : ℕ → Call
  write : Bytes → ℕ → Call

pub data Exit : Type 0 where
  returned : Exit
  panicked : Bytes → Exit

-- What one call of a handler did: its calls in order, its end, and the state of the server after it.
pub record Run (W : Type 0) : Type 0 where
  pub calls : List Call
  pub exit : Exit
  pub world : W

abbrev pub Handler : Type 0 → Type 0
Handler W = Request → W → Run W

-- Calls that a middleware makes before those of the handler it wraps.
abbrev pub after_calls : {W : Type 0} → List Call → Run W → Run W
after_calls calls r = record r { calls = calls ++ r.calls }

-- `http.Error`; `taken` is the count that the write of the text returned.
abbrev pub http_error : Bytes → ℕ → ℕ → List Call
http_error text code taken =
    set_header (codes "Content-Type") (codes "text/plain; charset=utf-8")
    ∷ set_header (codes "X-Content-Type-Options") (codes "nosniff")
    ∷ write_header code
    ∷ write (text ++ 10 ∷ []) taken
    ∷ []

abbrev pub Header : Type 0
Header = Bytes → List Bytes

-- The connection's side: the header is sent with the first status, and a later status is dropped.
pub record Response : Type 0 where
  pub header : Header
  pub sent : Option (ℕ × Header)
  pub body : Bytes

abbrev pub blank : Response
blank = record { header = λ k. []; sent = none; body = [] }

abbrev pub sent_with : ℕ → Header → Option (ℕ × Header) → Option (ℕ × Header)
sent_with code header (some first) = some first
sent_with code header none = some (code, header)

unfoldable pub respond : Response → Call → Response
respond r (set_header k v) = record r { header = λ j. if bytes_eq k j then v ∷ [] else r.header j }
respond r (add_header k v) = record r {
  header = λ j. if bytes_eq k j then r.header j ++ v ∷ [] else r.header j;
}
respond r (write_header code) = record r { sent = sent_with code r.header r.sent }
respond r (write b n) = record r { sent = sent_with 200 r.header r.sent; body = r.body ++ take n b }

unfoldable pub respond_all : Response → List Call → Response
unfolding respond
respond_all r [] = r
respond_all r (c ∷ calls) = respond_all (respond r c) calls

abbrev pub status_sent : Option (ℕ × Header) → ℕ
status_sent none = 200
status_sent (some (code, header)) = code

-- The status of the response once the handler is done; a handler that sent nothing gives 200.
abbrev pub status_of : Response → ℕ
status_of r = status_sent r.sent
