-- ===== src/Trim.antt =====
-- `strings.TrimSpace` of the Go library, which the lock file's content goes through.
pub mod Printed
use workstation_probe.Common.{
  ℕ, Bool, true, false, ◌&&◌, ◌||◌, List, [], ◌∷◌, leb, ltb, ◌==◌, if◌then◌else◌, all, Bytes,
  bytes_eq,
}

-- The bytes of `asciiSpace`: tab, newline, vertical tab, form feed, carriage return and space.
abbrev pub is_space : ℕ → Bool
is_space c = leb 9 c && leb c 13 || c == b' '

abbrev pub is_ascii : ℕ → Bool
is_ascii c = ltb c 128

unfoldable pub trim_front : Bytes → Bytes
trim_front [] = []
trim_front (c ∷ s) = let rest = trim_front s in if is_space c then rest else c ∷ s

unfoldable pub trim_back : Bytes → Bytes
trim_back [] = []
trim_back (c ∷ s) =
    let rest = trim_back s in if is_space c && bytes_eq rest [] then [] else c ∷ rest

-- `trim_unicode` is the library's path for a text with a byte of 128 or more.
unfoldable pub trim_space : (trim_unicode : Bytes → Bytes) → Bytes → Bytes
unfolding trim_front trim_back bytes_eq
trim_space trim_unicode s = if all is_ascii s then trim_back (trim_front s) else trim_unicode s
