-- ===== src/Lib.antt =====
-- workstation-probe: a monitor that samples the processor, memory, graphics cards and disks of one
-- host and serves the samples over HTTP. This library models its Go program.
--
-- Parts and files (paths from the repository's root):
--   Ring      internal/metrics/ringbuffer.go: the circular buffer of samples. `push`, `snapshot`,
--             `len`, `latest` are the methods; `Ring/Inv` has the invariant of the three fields,
--             `Ring/Refine` the bounded queue that the buffer stands for.
--   Base      internal/metrics/base.go: the buffer with the pointer to the newest sample and the time of
--             the last one (`Publish`, `LastSampleAge`, `HistoryWithin`, `BuildHistoryResponse`), and
--             the ticker loop of `RunLoop` (`Base/Sampling`, and with the clock `Base/Rounds`). `Base/Reading`
--             has the steps of `Publish`.
--   Params    internal/metrics/base.go: `ParseLimitParam` and `ParseDurationParam`. `Strconv` has
--             `strconv.Atoi` and `strconv.Itoa` on the decimal texts of an int64.
--   Routes    internal/metrics/base.go: the two routes that `RegisterRoutes` gives every module, and
--             how their replies are sent (`Routes/Sent`).
--   Cors      internal/cors/origin.go: `Parse` and `Match` of allowed origins. `Cors/Grammar` has the
--             grammar of the texts, `Cors/Matching` the origins that a pattern stands for,
--             `Cors/Middleware` what internal/cors/middleware.go does to a request.
--   Memory    internal/memory: the sample of /proc/meminfo, `usedWithoutReclaimable`, `Peak`.
--   Cpu       internal/cpu: the sample, `Warmup`, `Peak`. The per-core slices refer to arrays in a store
--             (`Cpu/Arrays`), since `Peak` copies a struct and writes through its slice.
--   Gpu       internal/gpu: the device samples and `Peak` with its map of positions. `Gpu/Nvml` is the
--             NVML collector, `Gpu/Stub` the collector interface and the stub, `Gpu/Lifecycle` the
--             module over any collector.
--   Storage   internal/storage: the mount points checked at startup and the sample of the disks.
--             `Storage/InFlight` is the collector that keeps one blocking call per path, `Storage/Timed`
--             a collection with the clock and the timeout of each call (`Storage/Timed/Collected` says what it
--             collects), `Storage/Punctual` the sampling loop
--             of such collections, and `Storage/Table` the mount table with `New`.
--   Lock      internal/lock/lock.go: the file with the process number that admits one instance.
--             `Lock/Processes` has the two steps of `Acquire` for processes that run at the same time, and
--             `Lock/Lives` the starts, locks, releases and deaths of processes.
--             `Trim` has `strings.TrimSpace` on ASCII texts.
--   Config    internal/config/config.go: the typed file, `applyDefaults`, `Validate` and `Load`.
--   Http      net/http as the program uses it: requests, handlers as functions that list their calls
--             on the response writer, and the response that a connection makes of the calls.
--             `Http/Mux` is the `ServeMux` for the program's patterns. `HostPort` has `net.SplitHostPort`
--             and `net.JoinHostPort`.
--   Chain     internal/middleware/chain.go: the observing response writer (`Chain/Writer`), the
--             recovery (`Chain/Recover`), the request ids (`Chain/Ids`) and the access log.
--             `Chain/Sizes` has the sizes of what goes into a line.
--   RateLimit internal/middleware/ratelimit.go: the table of limiters by client, a request against it
--             (`RateLimit/Admission`, and with the table afterwards `RateLimit/Charged`), and runs of requests
--             and cleanup ticks (`RateLimit/Sweeps`, `RateLimit/Retention`). `RateLimit/Shared` has the limiters behind pointers, for requests
--             at the same time, and `RateLimit/Alone` its relation to the table.
--   Server    internal/server/server.go: the address and the chain round the mux. `Server/Lines` has
--             the log of requests in a row.
--   Handlers  internal/server/handlers: `writeJSON`, the health summary, the merged view, and in
--             `Handlers/Profile` the snapshot of profile.go.
--   Monitor   cmd/monitor/main.go: the modules that are set up, how a run of the process ends, and in
--             `Monitor/Routes` the routes that it registers. `Monitor/Log` has the lines that a run writes.
--   Modules   internal/metrics/module.go and peakable.go with the methods of the four module.go files:
--             one type for the four kinds of module, what each method gives, its loop and its routes.
--             `Samples` has the methods' values, by kind.
--   Logging   internal/logging/logging.go: the level and the handler that `Setup` chooses, and which lines the
--             level lets through. `Chain` and `Monitor/Log` leave out the lines below the level.
--   Common    the shared types and lemmas: numbers, texts as lists of bytes, times, results, floats.
--   Tests     runs of the definitions and each theorem at a concrete input.
--
-- How the parts interact: a module calls its collector, makes a sample and hands it to
-- `Base.publish`, which stores the pointer and pushes onto the ring; the routes read the pointer and
-- the history of the ring. `Peak` folds over the ring's snapshot. `Server.build` composes the
-- handlers of Chain, of Cors/Middleware and of RateLimit; its state is the table of limiters with the
-- lines of the log. `Monitor.run` composes Config, the setup of the modules and Lock. `Modules.mount`
-- gives the handlers of a module, `Monitor.Routes.register` puts them on the mux of Http, and the mux is
-- the innermost handler of `Server.build`.
--
-- Conventions: a uint64 is a natural number, where the source only subtracts what it has compared
-- first; an int is an integer, with the range of int64 written where the source depends on it. A time
-- is its nanoseconds since 1970, a duration its nanoseconds, and `now.Add(-d)` keeps the wrap-around
-- of `-d`. A method under a mutex is one step. A float64 is an interface without laws, `Float64`, so
-- what is proved of it holds for NaN as well. The clock, the readings of gopsutil, NVML and
-- `time.ParseDuration` are arguments. In the parts with the clock a timer fires at its time, and the
-- wall clock is not set while the process runs. No definition runs on fuel, except the digits of `itoa`, which
-- takes the number itself plus one. Which lengths `make` allocates for a ring buffer is an argument, `fits`, since the
-- configuration has no upper bound on the capacity; a length beyond it is a panic. Each loop goes over a list or a count.
--
-- Not modelled: the JSON encoder and the sockets of net/http, the output of the slog handlers that
-- internal/logging sets up, the YAML decoder and the token bucket of golang.org/x/time/rate, which are libraries or input
-- and output. Of the mux there are the patterns of the program, and the redirect of a path that is not
-- clean is an argument. A `Release` does not come between the two steps of another process's
-- `Acquire`. The timeouts of `http.Server` and of the shutdown, the flags' parsing and the line of the listener's
-- goroutine are left out. `Flush` and `Hijack` only forward to the connection. The web
-- view and the scripts are other programs.
pub mod Common
pub mod Strconv
pub mod Trim
pub mod Ring
pub mod Base
pub mod Params
pub mod Routes
pub mod Cors
pub mod Memory
pub mod Cpu
pub mod Gpu
pub mod Storage
pub mod Lock
pub mod Config
pub mod HostPort
pub mod Http
pub mod Chain
pub mod RateLimit
pub mod Server
pub mod Handlers
pub mod Monitor
pub mod Samples
pub mod Modules
pub mod Logging
mod Tests
