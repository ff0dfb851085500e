-- ===== src/HostPort.antt =====
-- `net.SplitHostPort` and `net.JoinHostPort` of the Go library, which the client's address and the
-- listen address go through.
pub mod Join
use workstation_probe.Common.{
  ℕ, ◌+◌, Bool, true, false, Option, none, some, List, [], ◌∷◌, ◌++◌, length, take, drop, get_elem?,
  ◌==◌, if◌then◌else◌, Bytes, index_byte, contains_byte,
}

-- `strings.LastIndexByte`
pub last_index : Bytes → ℕ → Option ℕ
last_index [] c = none
last_index (x ∷ s) c = elim (last_index s c) [
  | some i ↦ some (i + 1)
  | none ↦ if x == c then some 0 else none
]

-- A host in brackets that end at `close`, with the last colon at `colon`.
abbrev pub bracketed : Bytes → ℕ → ℕ → Option (Bytes × Bytes)
bracketed s colon close =
    if close + 1 == colon
    then (if contains_byte (drop 1 s) b'['
        then none
        else if contains_byte (drop (close + 1) s) b']'
        then none
        else some (drop 1 (take close s), drop (colon + 1) s))
    else none

abbrev pub plain : Bytes → ℕ → Option (Bytes × Bytes)
plain s colon =
    if contains_byte (take colon s) b':'
    then none
    else if contains_byte s b'['
    then none
    else if contains_byte s b']'
    then none
    else some (take colon s, drop (colon + 1) s)

abbrev pub starts_with : Bytes → ℕ → Bool
starts_with [] c = false
starts_with (x ∷ s) c = x == c

abbrev pub within : Bytes → ℕ → Option ℕ → Option (Bytes × Bytes)
within s colon none = none
within s colon (some close) = bracketed s colon close

abbrev pub at_colon : Bytes → Option ℕ → Option (Bytes × Bytes)
at_colon s none = none
at_colon s (some colon) =
    if starts_with s b'[' then within s colon (index_byte s b']') else plain s colon

-- The host and the port; `none` is an error.
unfoldable pub split_host_port : Bytes → Option (Bytes × Bytes)
unfolding last_index index_byte contains_byte
split_host_port s = at_colon s (last_index s b':')

pub join_host_port : Bytes → Bytes → Bytes
join_host_port host port =
    if contains_byte host b':' then b'[' ∷ host ++ b']' ∷ b':' ∷ port else host ++ b':' ∷ port
