-- ===== src/Logging.antt =====
-- internal/logging/logging.go: what `Setup` reads out of the two texts of the configuration. Of the
-- handlers of `log/slog` there is only the least level of the records that they write.
pub mod Laws
use workstation_probe.Common.{
  ℕ, ◌+◌, Bool, ◌&&◌, ◌||◌, List, [], ◌∷◌, leb, if◌then◌else◌, all, map, Bytes, codes, bytes_eq,
}
use workstation_probe.Trim.{is_ascii, trim_space}

pub data Level : Type 0 where
  level_debug level_info level_warn level_error : Level

pub data Format : Type 0 where
  json_handler text_handler : Format

-- `slog.LevelDebug` is -4, `LevelInfo` 0, `LevelWarn` 4 and `LevelError` 8; 4 is added here.
abbrev weight : Level → ℕ
weight level_debug = 0
weight level_info = 4
weight level_warn = 8
weight level_error = 12

-- The `Level` of the `HandlerOptions`: the handlers write a record of at least this level.
unfoldable pub enabled : (minimum level : Level) → Bool
enabled minimum level = leb (weight minimum) (weight level)

-- What the Go library does with texts that are not ASCII.
pub record Unicode : Type 0 where
  pub trim : Bytes → Bytes
  pub lower : Bytes → Bytes

abbrev pub lower_byte : ℕ → ℕ
lower_byte c = if leb b'A' c && leb c b'Z' then c + 32 else c

-- `strings.ToLower`
pub to_lower : Unicode → Bytes → Bytes
to_lower u s = if all is_ascii s then map lower_byte s else u.lower s

unfoldable pub level_named : Bytes → Level
unfolding bytes_eq
level_named s =
    if bytes_eq s (codes "debug")
    then level_debug
    else if bytes_eq s (codes "warn") || bytes_eq s (codes "warning")
    then level_warn
    else if bytes_eq s (codes "error")
    then level_error
    else level_info

unfoldable pub format_named : Bytes → Format
unfolding bytes_eq
format_named s = if bytes_eq s (codes "json") then json_handler else text_handler

-- `Setup`, to the level and the handler of the logger.
pub setup : Unicode → (level format : Bytes) → Level × Format
unfolding to_lower level_named format_named
setup u level format = (
  level_named (to_lower u (trim_space u.trim level)),
  format_named (to_lower u (trim_space u.trim format)),
)
