-- ===== src/Routes/Laws.antt =====
-- When each route answers with what.
use Prim.Native.String.{String}
use workstation_probe.Common.{
  ℕ, ◌≡◌, ◌≢◌, ◌↔◌, Bool, true, false, Option, none, some, List, arith, Bytes,
}
use workstation_probe.Common.Time.{Duration}
use workstation_probe.Common.Float.{Float64}
use workstation_probe.Base.{Base, HistoryResponse, build_history_response}
use workstation_probe.Params.{parse_limit_param}
use workstation_probe.Routes.{
  json, call_disabled, latest_handler, history_handler, unless_disabled, history_reply,
  requested_window,
}

module _ {S : Type 0} where
  -- The latest route sends a sample exactly if the module is enabled, its base is there and a sample
  -- was published, and then it sends that one.
  pub latest_handler-json_iff :
      (disabled : Option (ℕ × Bytes)) (base : Option (Base S)) (latest : Option S) (s : S)
      → (latest_handler disabled base latest ≡ json s)
        ↔ (((call_disabled disabled).0 ≡ 0) × (base ≢ none) × (latest ≡ some s))
  unfolding latest_handler
  latest_handler-json_iff none none latest s = ground arith
  latest_handler-json_iff none (some b) none s = ground arith
  latest_handler-json_iff none (some b) (some p) s = ground arith
  latest_handler-json_iff (some (code, body)) none latest s = ground arith
  latest_handler-json_iff (some (code, body)) (some b) none s = ground arith
  latest_handler-json_iff (some (code, body)) (some b) (some p) s = ground arith

module _ (f : Float64) (parse_duration : Bytes → Option Duration) {Any : Type 0}
    (history : Duration → List Any) (query : String → Bytes) where
  abbrev asked : {S : Type 0} → Base S → Duration × Bool
  asked = requested_window f parse_duration history query

  abbrev answer : Duration → HistoryResponse Any
  answer d = build_history_response f d (history d) (parse_limit_param (query "limit"))

  reply_cases :
      (state : ℕ × Bytes) (p : Duration × Bool) (r : HistoryResponse Any)
      → (unless_disabled state (history_reply f parse_duration history query p) ≡ json r)
        ↔ ((state.0 ≡ 0) × (p.1 ≡ true) × (r ≡ answer p.0))
  reply_cases (code, body) (d, true) r = ground arith
  reply_cases (code, body) (d, false) r = ground arith

  -- The history route sends a response exactly if the module is enabled, its base is there and the
  -- requested window is accepted; the response then holds the history of that window, cut to the
  -- requested limit.
  pub history_handler-json_iff :
      {S : Type 0} (disabled : Option (ℕ × Bytes)) (b : Base S) (r : HistoryResponse Any)
      → (history_handler f parse_duration history query disabled (some b) ≡ json r) ↔ (
          ((call_disabled disabled).0 ≡ 0)
          × ((asked b).1 ≡ true)
          × (r
              ≡ build_history_response f
                  (asked b).0
                  (history (asked b).0)
                  (parse_limit_param (query "limit"))))
  unfolding history_handler
  history_handler-json_iff disabled b r = reply_cases (call_disabled disabled) (asked b) r
