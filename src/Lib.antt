-- ===== src/Lib.antt =====
-- tinypanel-hub: a hub for small display panels. It keeps users, their devices, todos and messages
-- in one JSON state file, and the devices' telemetry in a JSONL log. Users and devices call it over
-- HTTP (internal/httpapi), whose handlers call services (internal/service), which call the store.
--
-- The files and the code that each is about:
-- - Domain: the records and constants of internal/domain/models.go, one record per struct, with the
--   source's field names.
-- - Store/State: the state of internal/store/store.go and state.go (`FileStore`, `stateData`), the
--   files around it, and what a call takes from outside (`Env`).
-- - Store/File, Store/Commit, Store/Open: internal/store/state.go and `OpenFiles` of store.go.
-- - Store/TelemetryLog: internal/store/telemetry_log.go.
-- - Store/Users, Store/Todos, Store/Messages, Store/Devices, Store/Telemetry: the methods of
--   `FileStore` in users.go, todos.go, messages.go, devices.go and telemetry.go, each under its own
--   name in snake case, with the store before and after made explicit.
-- - Store/Validity, Store/Reachable: the invariant of the state and the steps that change it.
-- - Httpapi/Request, Httpapi/Auth: internal/httpapi/request.go, response.go, auth.go, middleware.go,
--   users.go and public.go; Httpapi/Todos, Httpapi/Devices, Httpapi/Messages, Httpapi/Telemetry:
--   the handlers of todos.go, devices.go, messages.go and telemetry.go, and the routes of router.go
--   that lead to them.
-- - Service: internal/service, with the interfaces of service.go as records of operations
--   (Service/Interface) that the store of Store fills (Service/Files).
-- - Httpapi/Snapshots: snapshot.go, weather.go, health.go and the listings of telemetry.go, with
--   internal/service/snapshot.go and weather.go.
-- - Httpapi/Api: the routes of router.go, all in one function `serve` of a request and the store;
--   Httpapi/Api/Steps, Reports and Runs take requests for runs of the steps of Store/Reachable.
-- - App: internal/app/app.go, and cmd/tinypanel-hub/main.go up to the server.
-- - Weather: internal/weather/qweather.go (Client, Requests, Forecasts) and cache.go (Cache).
-- - Config: internal/config/config.go.
-- - Prelude: numbers, texts, lists and the lemmas on them.
-- - Tests: a small store, and the theorems at concrete inputs.
--
-- How the code is rendered:
-- - A method of `FileStore` that holds the write lock is a function of the store that returns the
--   new store and the results. The change stays in the state where the save fails, as in the code.
-- - int64 and int are integers whose increment wraps around (`succ_int64`); times are numbers of
--   nanoseconds since the zero time, durations are numbers of nanoseconds, and floating point numbers
--   are carried and never computed with.
-- - encoding/json is the parameter `Codec`, whose laws are named where a theorem needs them. The
--   outcome of every system call is a field of `Env`, so a theorem covers every failure.
-- - The random draws are fields of `Env` too. `uniqueBindCode` draws until a code is unused; here it
--   takes the first unused one of the list of draws, and gives none where the list has none. A
--   list with one code that is on no device is enough.
-- - A line that bufio.Scanner refuses ends the loop with an error, as `scanner.Err` does after it.
-- - A handler is a function of the request, the user or device that was let in and the store, which
--   it calls through the services. The body of a request is read by a `Decoder`, SHA-256 is
--   `token_hash`, and the secret that a call draws is `random_secret` of `Server`.
-- - The weather client takes URLs, the network, encoding/json, strconv.ParseFloat and time.Parse from
--   `Net`; a call returns the requests it sent, in order, with its result. The weather cache takes its
--   clock and the provider's answer from the call, and a run lists the calls as they took its lock.
--   In a handler the answer of the provider is an argument.
-- - A method of the store runs under its lock from one store to the next. `Snapshot` and
--   `DeviceTelemetry` let the lock go before they read the log, and take the store at that time as a
--   second argument.
--
-- Not modelled: the locks themselves, and a reader that sees half of a write; the multiplexer that
-- takes a request to its route, and the middleware that sets headers and writes the server's log; the
-- web interface, whose answer to a path that no route has is an argument; listening, signals and the
-- shutdown of the server.
pub mod App
pub mod Prelude
pub mod Domain
pub mod Store
pub mod Service
pub mod Httpapi
pub mod Config
pub mod Weather
mod Tests
