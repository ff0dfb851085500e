-- ===== src/Tests/InFlight.antt =====
-- Two requests for a mount that hangs, with one for another mount between.
use workstation_probe.Common.{ℕ, ◌≡◌, refl, Bytes, codes, bytes_eq}
use workstation_probe.Storage.InFlight.{
  State, idle, begun, call_for, request, IsReachable, at_start, after,
}
use workstation_probe.Storage.InFlight.Workers.{IsReachable-one_worker}

abbrev data_path : Bytes
data_path = codes "/data"

abbrev one : State ℕ
one = (call_for ℕ data_path (idle ℕ)).1

abbrev two : State ℕ
two = (call_for ℕ (codes "/") one).1

abbrev two-IsReachable : IsReachable ℕ two
two-IsReachable =
    after one two (after (idle ℕ) one at_start (request data_path (idle ℕ)))
      (request (codes "/") one)

abbrev first_id : ℕ
first_id = 0

IsReachable-one_worker_example : first_id ≡ first_id
unfolding call_for bytes_eq
IsReachable-one_worker_example =
    IsReachable-one_worker ℕ two first_id first_id (begun ℕ data_path) (begun ℕ data_path)
      two-IsReachable refl refl refl refl refl
