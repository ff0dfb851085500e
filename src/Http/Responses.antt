-- ===== src/Http/Responses.antt =====
-- Runs of calls on a connection.
use workstation_probe.Common.{
  ℕ, ◌≡◌, ◌≢◌, refl, ap, Option, none, some, List, [], ◌∷◌, ◌++◌, All, Bytes, bytes_eq-differ,
}
use workstation_probe.Http.{
  Call, set_header, add_header, write_header, write, Response, Header, sent_with, respond,
  respond_all, status_sent, status_of,
}

pub respond_all-append :
    (r : Response) (a b : List Call) → respond_all r (a ++ b) ≡ respond_all (respond_all r a) b
unfolding respond_all
respond_all-append r [] b = refl
respond_all-append r (c ∷ a) b = respond_all-append (respond r c) a b

-- The call leaves the header `k` alone.
abbrev pub IsApart : Bytes → Call → Type 0
IsApart k (set_header j v) = j ≢ k
IsApart k (add_header j v) = j ≢ k
IsApart k (write_header code) = Unit
IsApart k (write b n) = Unit

abbrev IsSentWith : Bytes → Bytes → Option (ℕ × Header) → Type 0
IsSentWith k v none = Unit
IsSentWith k v (some (code, header)) = header k ≡ v ∷ []

-- The header `k` has this one value, now and in what was sent.
abbrev pub IsKept : Bytes → Bytes → Response → Type 0
IsKept k v r = (r.header k ≡ v ∷ []) × IsSentWith k v r.sent

sent_with-IsSentWith :
    (k v : Bytes) (code : ℕ) (header : Header) (sent : Option (ℕ × Header))
    → header k ≡ v ∷ []
    → IsSentWith k v sent
    → IsSentWith k v (sent_with code header sent)
sent_with-IsSentWith k v code header none h s = h
sent_with-IsSentWith k v code header (some (c, sent)) h s = s

respond-IsKept :
    (k v : Bytes) (r : Response) (c : Call) → IsApart k c → IsKept k v r → IsKept k v (respond r c)
unfolding respond
respond-IsKept k v r (set_header j w) apart (now, sent) = (rw (bytes_eq-differ j k apart) now, sent)
respond-IsKept k v r (add_header j w) apart (now, sent) = (rw (bytes_eq-differ j k apart) now, sent)
respond-IsKept k v r (write_header code) apart (now, sent) =
    (now, sent_with-IsSentWith k v code r.header r.sent now sent)
respond-IsKept k v r (write b n) apart (now, sent) =
    (now, sent_with-IsSentWith k v 200 r.header r.sent now sent)

pub respond_all-IsKept :
    (k v : Bytes) (r : Response) (calls : List Call)
    → All (IsApart k) calls
    → IsKept k v r
    → IsKept k v (respond_all r calls)
unfolding respond_all
respond_all-IsKept k v r [] apart kept = kept
respond_all-IsKept k v r (c ∷ calls) apart kept =
    respond_all-IsKept k v (respond r c) calls apart.1 (respond-IsKept k v r c apart.0 kept)

-- The status that is sent does not depend on the header.
abbrev code_of : Option (ℕ × Header) → Option ℕ
code_of none = none
code_of (some (code, header)) = some code

respond-code_of :
    (c : Call) (h k : Header) (a b : Option (ℕ × Header)) (body body' : Bytes)
    → code_of a ≡ code_of b
    → let r : Response = record { header = h; sent = a; body = body } in
      let r' : Response = record { header = k; sent = b; body = body' } in
      code_of (respond r c).sent ≡ code_of (respond r' c).sent
unfolding respond
respond-code_of (set_header j v) h k a b body body' e = e
respond-code_of (add_header j v) h k a b body body' e = e
respond-code_of (write_header code) h k none none body body' e = refl
respond-code_of (write_header code) h k (some (c, x)) (some (d, y)) body body' e = e
respond-code_of (write_header code) h k none (some (d, y)) body body' e = cc
respond-code_of (write_header code) h k (some (c, x)) none body body' e = cc
respond-code_of (write bs n) h k none none body body' e = refl
respond-code_of (write bs n) h k (some (c, x)) (some (d, y)) body body' e = e
respond-code_of (write bs n) h k none (some (d, y)) body body' e = cc
respond-code_of (write bs n) h k (some (c, x)) none body body' e = cc

respond_all-code_of :
    (calls : List Call) (r r' : Response)
    → code_of r.sent ≡ code_of r'.sent
    → code_of (respond_all r calls).sent ≡ code_of (respond_all r' calls).sent
unfolding respond_all
respond_all-code_of [] r r' e = e
respond_all-code_of (c ∷ calls) r r' e =
    respond_all-code_of calls (respond r c) (respond r' c)
      (respond-code_of c r.header r'.header r.sent r'.sent r.body r'.body e)

status_sent-code_of :
    (a b : Option (ℕ × Header)) → code_of a ≡ code_of b → status_sent a ≡ status_sent b
status_sent-code_of none none e = refl
status_sent-code_of (some (c, x)) (some (d, y)) e = cc
status_sent-code_of none (some (d, y)) e = cc
status_sent-code_of (some (c, x)) none e = cc

pub status_of-code_of :
    (calls : List Call) (r r' : Response)
    → r.sent ≡ r'.sent
    → status_of (respond_all r calls) ≡ status_of (respond_all r' calls)
status_of-code_of calls r r' e =
    status_sent-code_of (respond_all r calls).sent (respond_all r' calls).sent
      (respond_all-code_of calls r r' (ap code_of e))
