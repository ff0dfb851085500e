-- ===== src/Routes.antt =====
-- internal/metrics/base.go: the two routes that `RegisterRoutes` wires for a module. A handler
-- returns what it sends: an error text with its status, or a value to be encoded as JSON.
pub mod Laws
pub mod Sent
use Prim.Native.String.{String}
use workstation_probe.Common.{
  ℕ, Bool, true, false, Option, none, some, List, [], ◌∷◌, ◌==◌, if◌then◌else◌, Bytes, codes,
}
use workstation_probe.Common.Int.{ℤ}
use workstation_probe.Common.Time.{Duration, mul_duration}
use workstation_probe.Common.Float.{Float64}
use workstation_probe.Base.{Base, HistoryResponse, build_history_response}
use workstation_probe.Params.{parse_limit_param, parse_duration_param}

-- `http.Error` with its code and text, or `WriteJSON`, which leaves the status at 200.
pub data Reply {ℓ} (A : Type ℓ) : Type ℓ where
  http_error : ℕ → Bytes → Reply A
  json : A → Reply A

abbrev pub not_ready : Bytes
not_ready = codes "{\"error\":\"not_ready\"}"

abbrev pub invalid_duration : Bytes
invalid_duration = codes "{\"error\":\"invalid_duration\"}"

-- A `DisabledFunc` as what it returns now; `none` is the nil function.
unfoldable pub call_disabled : Option (ℕ × Bytes) → ℕ × Bytes
call_disabled none = (0, [])
call_disabled (some r) = r

-- The first test of both handlers: the code 0 means enabled.
abbrev pub unless_disabled {ℓ} : {A : Type ℓ} → ℕ × Bytes → Reply A → Reply A
unless_disabled (code, body) reply = if code == 0 then reply else http_error code body

module _ {ℓ} {S : Type ℓ} where
  sample_reply : Option S → Reply S
  sample_reply none = http_error 503 not_ready
  sample_reply (some p) = json p

  -- "GET /metrics/<name>"; `base` is `none` for a nil base.
  unfoldable pub latest_handler : Option (ℕ × Bytes) → Option (Base S) → Option S → Reply S
  unfolding sample_reply
  latest_handler disabled none latest =
      unless_disabled (call_disabled disabled) (http_error 503 not_ready)
  latest_handler disabled (some base) latest =
      unless_disabled (call_disabled disabled) (sample_reply latest)

-- "GET /metrics/<name>/history"; `query` is `r.URL.Query().Get`.
module _ {κ} (f : Float64) (parse_duration : Bytes → Option Duration) {Any : Type κ}
    (history : Duration → List Any) (query : String → Bytes) where
  abbrev pub history_reply : Duration × Bool → Reply (HistoryResponse Any)
  history_reply (d, false) = http_error 400 invalid_duration
  history_reply (d, true) =
      json (build_history_response f d (history d) (parse_limit_param (query "limit")))

  -- The window that the request asks for; the default is 60 sampling intervals.
  abbrev pub requested_window {ℓ} : {S : Type ℓ} → Base S → Duration × Bool
  requested_window base =
      parse_duration_param parse_duration (query "duration") (mul_duration 60 base.interval)

  unfoldable pub history_handler {ℓ} :
      {S : Type ℓ} → Option (ℕ × Bytes) → Option (Base S) → Reply (HistoryResponse Any)
  history_handler disabled none =
      unless_disabled (call_disabled disabled) (http_error 503 not_ready)
  history_handler disabled (some base) =
      unless_disabled (call_disabled disabled) (history_reply (requested_window base))
