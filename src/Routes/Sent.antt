-- ===== src/Routes/Sent.antt =====
-- internal/metrics/base.go: the calls by which a route sends its reply.
use workstation_probe.Common.{ℕ, ◌≡◌, refl, Option, none, some, List, [], ◌∷◌, ◌++◌, Bytes, codes}
use workstation_probe.Http
use workstation_probe.Http.{Call, set_header, write, blank, respond, respond_all, status_of}
use workstation_probe.Routes.{Reply, http_error, json}

abbrev encoded_calls : (Bytes → ℕ) → Option Bytes → List Call
encoded_calls taken none = []
encoded_calls taken (some b) = write b (taken b) ∷ []

-- `WriteJSON`; the encoder writes once, or not at all if it fails.
pub write_json_plain : (Bytes → ℕ) → Option Bytes → List Call
write_json_plain taken encoded =
    set_header (codes "Content-Type") (codes "application/json") ∷ encoded_calls taken encoded

pub send : {A : Type 0} → (Bytes → ℕ) → (A → Option Bytes) → Reply A → List Call
unfolding write_json_plain
send taken encode (http_error code body) = Http.http_error body code (taken (body ++ 10 ∷ []))
send taken encode (json a) = write_json_plain taken (encode a)

abbrev pub code_of : {A : Type 0} → Reply A → ℕ
code_of (http_error code body) = code
code_of (json a) = 200

-- The status that the client gets is that of the reply, also if the encoder fails.
pub send-status :
    {A : Type 0} (taken : Bytes → ℕ) (encode : A → Option Bytes) (reply : Reply A)
    → status_of (respond_all blank (send taken encode reply)) ≡ code_of reply
unfolding send write_json_plain respond respond_all
send-status taken encode (http_error code body) = refl
send-status taken encode (json a) = by_encoded (encode a)
  where
    by_encoded : (o : Option Bytes) → status_of (respond_all blank (write_json_plain taken o)) ≡ 200
    by_encoded none = refl
    by_encoded (some b) = refl
