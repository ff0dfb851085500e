-- ===== src/HostPort/Join.antt =====
-- Splitting what was joined.
use workstation_probe.Common.{
  ℕ, suc, ◌+◌, ◌≡◌, ◌≢◌, refl, ap, sym, ◌∙◌, true, false, none, some, [], ◌∷◌, ◌++◌, arith, length,
  take, drop, ◌==◌, Lacks, Lacks-append, Bytes, index_byte, contains_byte, contains_byte-Lacks,
  index_byte-append, take-length-append, drop-drop, Bool-cases, inl, inr,
}
use workstation_probe.HostPort.{last_index, starts_with, split_host_port, join_host_port}

last_index-Lacks : (s : Bytes) (c : ℕ) → Lacks c s → last_index s c ≡ none
unfolding last_index
last_index-Lacks [] c h = refl
last_index-Lacks (x ∷ s) c h = rw (last_index-Lacks s c h.1) (ground arith)

last_index-append : (a b : Bytes) (c : ℕ) → Lacks c b → last_index (a ++ c ∷ b) c ≡ some (length a)
unfolding last_index
last_index-append [] b c h = rw (last_index-Lacks b c h) (ground arith)
last_index-append (x ∷ a) b c h = rw (last_index-append a b c h) (ground arith)

starts_with-append :
    (a b : Bytes) (c : ℕ) → c ≢ b'[' → Lacks b'[' a → starts_with (a ++ c ∷ b) b'[' ≡ false
starts_with-append [] b c h k = ground arith
starts_with-append (x ∷ a) b c h k = ground arith

lacks→false : (s : Bytes) (c : ℕ) → Lacks c s → contains_byte s c ≡ false
lacks→false s c h = (contains_byte-Lacks s c).1 h

drop-one_after : (a b : Bytes) (c : ℕ) → drop (length a + 1) (a ++ c ∷ b) ≡ b
drop-one_after [] b c = refl
drop-one_after (x ∷ a) b c =
    let e : suc (length a) + 1 ≡ suc (length a + 1) = omega arith in rw e (drop-one_after a b c)

last_index-append_two :
    (a b : Bytes) (d c : ℕ) → Lacks c b → last_index (a ++ d ∷ c ∷ b) c ≡ some (length a + 1)
unfolding last_index
last_index-append_two [] b d c h = rw (last_index-Lacks b c h) (ground arith)
last_index-append_two (x ∷ a) b d c h = rw (last_index-append_two a b d c h) (ground arith)

module _ (host port : Bytes) (no_open : Lacks b'[' host) (no_close : Lacks b']' host)
    (no_colon : Lacks b':' port) (port_open : Lacks b'[' port) (port_close : Lacks b']' port) where
  bracket_case :
      (s : Bytes) (n : ℕ)
      → last_index s b':' ≡ some (n + 1)
      → index_byte s b']' ≡ some n
      → contains_byte (drop 1 s) b'[' ≡ false
      → contains_byte (drop (n + 1) s) b']' ≡ false
      → drop 1 (take n s) ≡ host
      → drop (n + 1 + 1) s ≡ port
      → starts_with s b'[' ≡ true
      → split_host_port s ≡ some (host, port)
  unfolding split_host_port
  bracket_case s n colon close opens closes front ends start =
      let here : ((n + 1) == (n + 1)) ≡ true = ground arith in
      rw (colon, start, close, here, opens, closes, front, ends) refl

  split_brackets : split_host_port ((b'[' ∷ host) ++ b']' ∷ b':' ∷ port) ≡ some (host, port)
  unfolding split_host_port
  split_brackets =
      let a = b'[' ∷ host in
      let s = a ++ b']' ∷ b':' ∷ port in
      let colon : last_index s b':' ≡ some (length a + 1) =
        last_index-append_two a port b']' b':' no_colon in
      let close : index_byte s b']' ≡ some (length a) =
        index_byte-append a (b':' ∷ port) b']' (omega arith, no_close) in
      let rest : drop (length a + 1) s ≡ b':' ∷ port = drop-one_after a (b':' ∷ port) b']' in
      let ends : drop (length a + 1 + 1) s ≡ port =
        sym (drop-drop 1 (length a + 1) s) ∙ ap (drop 1) rest in
      let front : take (length a) s ≡ a = take-length-append a (b']' ∷ b':' ∷ port) in
      let opens : contains_byte (drop 1 s) b'[' ≡ false = lacks→false (drop 1 s) b'[' (
        Lacks-append b'[' host (b']' ∷ b':' ∷ port) no_open
          (omega arith, (omega arith, port_open))) in
      let closes : contains_byte (b':' ∷ port) b']' ≡ false =
        lacks→false (b':' ∷ port) b']' (omega arith, port_close) in
      bracket_case s (length a) colon close opens (rw rest closes) (ap (drop 1) front) ends refl

  split_plain :
      contains_byte host b':' ≡ false → split_host_port (host ++ b':' ∷ port) ≡ some (host, port)
  unfolding split_host_port
  split_plain plain_host =
      let s = host ++ b':' ∷ port in
      let colon : last_index s b':' ≡ some (length host) =
        last_index-append host port b':' no_colon in
      let start : starts_with s b'[' ≡ false =
        starts_with-append host port b':' (omega arith) no_open in
      let front : take (length host) s ≡ host = take-length-append host (b':' ∷ port) in
      let ends : drop (length host + 1) s ≡ port = drop-one_after host port b':' in
      let opens : contains_byte s b'[' ≡ false =
        lacks→false s b'['
          (Lacks-append b'[' host (b':' ∷ port) no_open (omega arith, port_open)) in
      let closes : contains_byte s b']' ≡ false =
        lacks→false s b']'
          (Lacks-append b']' host (b':' ∷ port) no_close (omega arith, port_close)) in
      rw (colon, start, front, plain_host, opens, closes, ends) refl

  -- What `JoinHostPort` makes of a host without brackets and a port without colons and brackets,
  -- `SplitHostPort` takes apart again, whether or not the host has colons.
  pub split_host_port-join_host_port :
      split_host_port (join_host_port host port) ≡ some (host, port)
  unfolding join_host_port
  split_host_port-join_host_port = elim (Bool-cases (contains_byte host b':')) [
    | inl e ↦ rw e split_brackets
    | inr e ↦ rw e (split_plain e)
  ]
