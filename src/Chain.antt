-- ===== src/Chain.antt =====
-- internal/middleware/chain.go: the response writer that observes a status, and the middlewares for
-- panics, request ids and the access log. Flush and Hijack only forward to the connection, and
-- no handler of the program calls them.
pub mod Writer
pub mod Ids
pub mod Sizes
pub mod Recover
use workstation_probe.Common.{
  ℕ, zero, suc, ◌+◌, ◌-◌, ◌/◌, ◌%◌, ◌^◌, Bool, true, false, not, ◌&&◌, ◌||◌, Option, none, some,
  List, [], ◌∷◌, ◌++◌, if◌then◌else◌, length, take, all, ltb, leb, ◌==◌, Bytes, codes, bytes_eq,
}
use workstation_probe.Common.Int.{ℤ, pos, negsuc, ◌-ℤ◌}
use workstation_probe.Common.Time.{Time, sub_time}
use workstation_probe.Logging.{Level, level_info, enabled}
use workstation_probe.HostPort.{split_host_port}
use workstation_probe.Http.{
  Request, Call, set_header, add_header, write_header, write, Exit, returned, panicked, Run,
  Handler, after_calls,
}

pub record ResponseWriter : Type 0 where
  pub status : ℕ
  pub bytes : ℕ
  pub wrote_header : Bool

abbrev pub fresh_writer : ResponseWriter
fresh_writer = record { status = 200; bytes = 0; wrote_header = false }

abbrev pub started : ResponseWriter → ResponseWriter
started w = if not w.wrote_header then record w { status = 200; wrote_header = true } else w

abbrev counted : ℕ → ResponseWriter → ResponseWriter
counted n w = record w { bytes = w.bytes + n }

-- One call on the wrapper: its fields afterwards, and the calls on the writer that it wraps.
pub observe : ResponseWriter → Call → ResponseWriter × List Call
observe w (set_header k v) = (w, set_header k v ∷ [])
observe w (add_header k v) = (w, add_header k v ∷ [])
observe w (write_header code) =
    if w.wrote_header
    then (w, [])
    else (record w { status = code; wrote_header = true }, write_header code ∷ [])
observe w (write b n) = (counted n (started w), write b n ∷ [])

unfoldable pub observe_all : ResponseWriter → List Call → ResponseWriter × List Call
unfolding observe
observe_all w [] = (w, [])
observe_all w (c ∷ calls) =
    let (w', passed) = observe w c in
    let (w'', rest) = observe_all w' calls in (w'', passed ++ rest)

-- The log lines: an `http` line of the access log, and a `panic in handler` line without its stack.
pub record AccessLine : Type 0 where
  pub method : Bytes
  pub path : Bytes
  pub status : ℕ
  pub bytes : ℕ
  pub latency_ms : ℤ
  pub request_id : Bytes
  pub remote : Bytes

pub record PanicLine : Type 0 where
  pub cause : Bytes
  pub path : Bytes
  pub method : Bytes

-- The state of the server that a request goes through: the limiters, and the two kinds of lines.
pub record World (L : Type 0) : Type 0 where
  pub limiters : L
  pub access : List AccessLine
  pub panics : List PanicLine

-- What one request meets outside the program: the clock where the access log reads it, the random
-- bytes (`none` if reading them fails) with the clock for that case, the counts of writes, and the
-- level that the logger was set up with.
pub record Surroundings : Type 0 where
  pub begun : Time
  pub ended : Time
  pub random : Option Bytes
  -- The 64 bits of `UnixNano`.
  pub unix_nano : ℕ
  pub taken : Bytes → ℕ
  pub level : Level

abbrev max_log_path_len : ℕ
max_log_path_len = 512

pub log_path : Bytes → Bytes
log_path path =
    if leb (length path) max_log_path_len
    then path
    else take max_log_path_len path ++ codes "...(truncated)"

abbrev host_of : Bytes → Option (Bytes × Bytes) → Bytes
host_of remote_addr none = remote_addr
host_of remote_addr (some (host, port)) = host

pub client_ip : Request → Bytes
client_ip r = host_of r.remote_addr (split_host_port r.remote_addr)

-- A byte outside the listed ranges is refused, and so is every byte of a character that is not ASCII.
abbrev pub is_id_byte : ℕ → Bool
is_id_byte c =
    (leb b'a' c && leb c b'z')
    || (leb b'A' c && leb c b'Z')
    || (leb b'0' c && leb c b'9')
    || (c == b'-' || c == b'_' || c == b'.' || c == b':')

pub valid_request_id : Bytes → Bool
valid_request_id id = if bytes_eq id [] || ltb 128 (length id) then false else all is_id_byte id

abbrev hex_digit : ℕ → ℕ
hex_digit n = if ltb n 10 then b'0' + n else b'a' + (n - 10)

-- `hex.EncodeToString`
pub hex : Bytes → Bytes
hex [] = []
hex (b ∷ s) = hex_digit (b / 16 % 16) ∷ hex_digit (b % 16) ∷ hex s

-- The clock's bytes, the lowest first; `i % 8` is `i` for eight bytes.
pub clock_bytes : ℕ → ℕ → Bytes
clock_bytes zero now = []
clock_bytes (suc n) now = now % 256 ∷ clock_bytes n (now / 256)

abbrev id_bytes : Option Bytes → ℕ → Bytes
id_bytes (some b) now = b
id_bytes none now = clock_bytes 8 now

pub new_request_id : Surroundings → Bytes
unfolding hex clock_bytes
new_request_id s = hex (id_bytes s.random s.unix_nano)

pub request_id_of : Surroundings → Bytes → Bytes
request_id_of s id = if valid_request_id id then id else new_request_id s

abbrev x_request_id : Bytes
x_request_id = codes "X-Request-Id"

-- `RequestIDFromContext`
abbrev pub id_from_context : Option Bytes → Bytes
id_from_context none = []
id_from_context (some id) = id

abbrev pub internal_error : Bytes
internal_error = codes "{\"error\":\"internal\"}"

-- `d.Milliseconds()`, which rounds toward 0.
abbrev pub milliseconds : ℤ → ℤ
milliseconds (pos n) = pos (n / 1000000)
milliseconds (negsuc n) = pos 0 -ℤ pos ((n + 1) / 1000000)

module _ (s : Surroundings) where
  abbrev pub rescue_calls : List Call
  rescue_calls =
      set_header (codes "Content-Type") (codes "application/json")
      ∷ write_header 500
      ∷ write internal_error (s.taken internal_error)
      ∷ []

  abbrev pub panic_line : Request → Bytes → PanicLine
  panic_line req cause = record { cause = cause; path = log_path req.path; method = req.method }

  abbrev pub access_line : Request → ResponseWriter → AccessLine
  access_line req writer = record {
    method = req.method;
    path = log_path req.path;
    status = writer.status;
    bytes = writer.bytes;
    latency_ms = milliseconds (sub_time s.ended s.begun);
    request_id = id_from_context req.request_id;
    remote = client_ip req;
  }

-- `logger.Info`
abbrev pub informed : Bool → AccessLine → List AccessLine
informed true line = line ∷ []
informed false line = []

module _ {L : Type 0} (s : Surroundings) where
  abbrev pub rescued : Request → Run (World L) → Exit → Run (World L)
  rescued req r returned = r
  rescued req r (panicked cause) = record {
    calls = r.calls ++ rescue_calls s;
    exit = returned;
    world = record r.world { panics = r.world.panics ++ panic_line s req cause ∷ [] };
  }

  unfoldable pub recovery : Handler (World L) → Handler (World L)
  recovery next req w = let r = next req w in rescued req r r.exit

  unfoldable pub request_id : Handler (World L) → Handler (World L)
  request_id next req w =
      let id = request_id_of s (req.header x_request_id) in
      after_calls (set_header x_request_id id ∷ []) (next (record req { request_id = some id }) w)

  -- A panic leaves before the line is written.
  abbrev pub logged : Request → ResponseWriter → World L → Exit → World L
  logged req writer w (panicked cause) = w
  logged req writer w returned = record w {
    access = w.access ++ informed (enabled s.level level_info) (access_line s req writer);
  }

  unfoldable pub access_log : Handler (World L) → Handler (World L)
  access_log next req w =
      let r = next req w in
      let (writer, passed) = observe_all fresh_writer r.calls in
      record { calls = passed; exit = r.exit; world = logged req writer r.world r.exit }
