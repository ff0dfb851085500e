-- ===== src/Server/Address.antt =====
-- The listen address, and the text of a port in it.
use workstation_probe.Common.{
  ℕ, zero, suc, ◌+◌, ◌/◌, ◌%◌, ◌≤◌, ◌≡◌, inl, inr, some, [], ◌∷◌, ltb, Bytes, Lacks, Lacks-append,
  arith, Bool-cases,
}
use workstation_probe.Common.Int.{ℤ, pos, negsuc}
use workstation_probe.Strconv.{decimal, itoa}
use workstation_probe.HostPort.{split_host_port}
use workstation_probe.HostPort.Join.{split_host_port-join_host_port}
use workstation_probe.Server.{addr}

-- A byte after the digits is in no number.
decimal-Lacks : (c : ℕ) → 58 ≤ c → (fuel n : ℕ) → Lacks c (decimal fuel n)
unfolding decimal
decimal-Lacks c h zero n = tt
decimal-Lacks c h (suc fuel) n = elim (Bool-cases (ltb n 10)) [
  | inl e ↦ rw e (λ q. ground arith, tt)
  | inr e ↦ rw e (
      Lacks-append c (decimal fuel (n / 10)) ((b'0' + n % 10) ∷ [])
        (decimal-Lacks c h fuel (n / 10)) (λ q. omega arith, tt))
]

itoa-Lacks : (c : ℕ) → 58 ≤ c → (z : ℤ) → Lacks c (itoa z)
unfolding itoa
itoa-Lacks c h (pos n) = decimal-Lacks c h (suc n) n
itoa-Lacks c h (negsuc n) = (λ q. omega arith, decimal-Lacks c h (suc (suc n)) (suc n))

-- The listen address of a host without brackets splits into this host and the decimal text of the port, also for
-- an IPv6 host with colons.
pub split_host_port-addr :
    (host : Bytes) (port : ℤ)
    → Lacks b'[' host
    → Lacks b']' host
    → split_host_port (addr host port) ≡ some (host, itoa port)
unfolding addr
split_host_port-addr host port no_open no_close =
    split_host_port-join_host_port host (itoa port) no_open no_close
      (itoa-Lacks b':' (omega arith) port) (itoa-Lacks b'[' (omega arith) port)
      (itoa-Lacks b']' (omega arith) port)
