-- ===== src/Lib.antt =====
-- modigo-runner: a service that runs students' programs in Docker containers, for the terminal of a
-- browser (a WebSocket session) and for single REST requests.
--
-- The parts of the program, the files that model them, and how they correspond:
--   * Base: texts as lists of character codes, `int` as ℤ, maps as association lists, decimal
--     numbers, and results; what the code uses of Go's strings and strconv packages.
--   * Ratelimit (ratelimit/limiter.go): `Limiter` with the state of each key; `allow` is Allow,
--     `remaining_daily` RemainingDaily, `cleanup` one tick of cleanup, `itoa` itoa. The time is a
--     number of nanoseconds; the date of a time (`time.Format`) is a parameter. Middleware is in
--     Execute.
--   * Semaphore (executor/semaphore.go): the three counters, with `acquire`, `acquire_context`,
--     `release` and `available`. A call that waits is cut at `cond.Wait`; Semaphore.Threads has the
--     goroutines and the condition variable as a step relation, so that every interleaving is a
--     sequence of steps.
--   * Limits (executor/limits.go): limits, and `parse_memory` with the wrap-around of int64.
--   * Paths: the functions Clean, Join, Base, Dir and Ext of Go's path/filepath on Unix.
--   * Docker (executor/container.go): languages, limits and networks; Docker.Calls has the calls to
--     the daemon and the host as events. `create_interactive` (Docker.Create) is CreateInteractive,
--     `create_shell` (Docker.Shell) CreateShell, `run_non_interactive` (Docker.Rest)
--     RunNonInteractive, each cut at the calls that can fail; Docker.Stage writes the code to the
--     host, Docker.Image pulls images, Docker.Inspect is InspectContainer. What the daemon and the
--     host answer is an argument; a function returns its events, the newest first. The start-up
--     script of a shell is a parameter. There, copying files is one event; Docker.Archive has the steps
--     of copyFilesToContainer and of WriteFileToContainer, with a tar archive as its entries, and
--     Docker.Listing is ReadFilesFromContainer with its filters.
--   * Lab (executor/lab.go): `start_lab`, `stop_lab` and the rest of LabManager, with the same events.
--   * Auth (auth/middleware.go): `find_token` and `extract_claims` are extractClaims, `validate_jwt`
--     validateJWT, and `protect` the middleware around any handler. The signature, base64url and JSON
--     are the parameter `Codec`.
--   * Config (config/config.go): `load_env_file` and `load`, on an environment as an association list.
--   * Pool (executor/pool.go): the warm pool, its mutex as a flag.
--   * Execute (handler/execute.go, main.go): `execute` is the handler Execute, `middleware` the
--     limiter's Middleware, and `run_route` both as main.go puts them together.
--   * Cleanup (executor/cleanup.go, executor/reaper.go): `cleanup_aged` is cleanupAged, with what the
--     daemon lists as an argument.
--   * Users (handler/websocket.go): the containers counted for each user, and the tracked runs with
--     the eviction of the oldest. The order of a Go map is that of the list.
--   * Session (handler/websocket.go): the state of a WebSocket session and its handlers. `World` is a
--     session with what it shares with others. Session.Run is handleRunMessage, Session.Shell
--     handleShellMessage, Session.Files and Session.Labs the other handlers, Session.Dispatch the
--     loop over messages. Session.Exit has the goroutines, cut where they take the lock of the
--     session, and the timers; Session.Threads puts them together as a step relation, with labs or
--     without, and with the steps of other sessions and of the timers of labs. There the
--     handler of a run is three steps, up to the wait for a slot, the slot, and the creation, and each
--     other handler one; and the session is the only one of its user: what two sessions of a user do
--     to the counts is in Users.Calls. Session.LabsOwned and Session.LabNetworks are about the labs of a session,
--     Session.Elsewhere about the steps of others, Session.Writer about writeAll.
--   * Service (main.go, handler/websocket.go, handler/health.go, handler/stats.go,
--     handler/languages.go): `serve` is the server's handler with CORS, the routes and the
--     authentication, `start_service` what main makes of the configuration, and Service.Sessions any
--     interleaving of requests, handshakes, ends of sessions and the signal to shut down.
--
-- A session's handlers call Users for the limit per user, take a slot of the semaphore, create a
-- container through Docker, and spawn the goroutine that gives the slot and the count back. The service
-- puts Auth before the limiter and Execute, and passes on the user of the token, whose budget is used.
--
-- Bounds: the loops are structural, on lists or on the two attempts of a pull; `itoa` runs on fuel
-- that its number bounds, and Ratelimit.Decimal shows that this is enough; `write_all` runs on fuel that
-- the number of bytes bounds, and Session.Writer shows that this is enough. Lengths, times and counters
-- other than those of `parse_memory`, the generation and the rejected requests are far from 2 ^ 63 and
-- do not wrap around.
--
-- Not modelled: the JSON of requests and answers, the log lines (logx/log.go, which no file imports,
-- included), the timeouts of the HTTP server and of a WebSocket's reads, and the calls that only hand
-- their arguments to the Docker SDK.
mod Base
pub mod Ratelimit
pub mod Semaphore
pub mod Auth
pub mod Config
pub mod Limits
pub mod Paths
pub mod Docker
pub mod Pool
pub mod Execute
pub mod Lab
pub mod Cleanup
pub mod Users
pub mod Session
pub mod Service
