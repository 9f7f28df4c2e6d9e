-- ===== src/Httpapi/Snapshots.antt =====
-- internal/httpapi/snapshot.go, weather.go, health.go and the listings of telemetry.go, with the
-- services of internal/service/snapshot.go and weather.go.
pub mod Own
pub mod Reads
use Prim.Native.Char.{code}
use Prim.Native.String
use tinypanel_hub.Service.Telemetry as TelemetryService
use tinypanel_hub.Service.Messages as MessageService
use tinypanel_hub.Service.Todos as TodoService
use tinypanel_hub.Service.Files.{file_telemetries, file_messages, file_todos}
use tinypanel_hub.Httpapi.Request.{
  Request, Response, FilteredSnapshot, snapshot_body, filtered_body, weather_body, health_body,
  telemetries_body, write_json, write_error, valid, reply, query_int, path_string,
}
use tinypanel_hub.Httpapi.Auth.{Server, require_user_auth, require_device_auth}
use tinypanel_hub.Store.Telemetry.{telemetry, snapshot, weather}
use tinypanel_hub.Store.Todos.{todos}
use tinypanel_hub.Domain.{Weather, Snapshot}
use tinypanel_hub.Prelude.{
  String, List, [], ◌∷◌, map, Option, none, some, pos, if◌then◌else◌, ◌==◌, ◌!=◌, eq_string, eq_int,
  eq_nat, nat_eq, filter, any, trim_space,
}
use tinypanel_hub.Domain.{User, Device}
use tinypanel_hub.Store.State.{Result, ok, err, FileStore, Env}

-- `SnapshotService.Get`. The provider is none where the server has none, and otherwise what it
-- answers to this request.
unfoldable pub get_snapshot :
    Env → Option (Result Weather) → String → FileStore → FileStore → Result Snapshot
unfolding snapshot
get_snapshot env none owner_id s log = ok (snapshot env owner_id s log)
get_snapshot env (some (err e)) owner_id s log = err e
get_snapshot env (some (ok w)) owner_id s log =
    ok (record (snapshot env owner_id s log) { weather = w })

-- `WeatherService.Get`
unfoldable pub get_weather : Option (Result Weather) → FileStore → Result Weather
unfolding weather
get_weather none s = ok (weather s)
get_weather (some answer) s = answer

-- A text cut at its commas, as `strings.Split` cuts it.
unfoldable pub split_commas : String → List String
split_commas String.[] = "" ∷ []
split_commas (String.◌∷◌ c s) =
    let rest = split_commas s in if nat_eq (code c) 44 then "" ∷ rest else add_char rest
  where
    add_char : List String → List String
    add_char [] = String.◌∷◌ c String.[] ∷ []
    add_char (l ∷ ls) = String.◌∷◌ c l ∷ ls

-- The keys of the map `include`; none where there is no such parameter, or none in it.
unfoldable pub snapshot_include : Request → List String
unfolding split_commas
snapshot_include r =
    let raw = trim_space (r.query "include") in
    if raw == "" then [] else filter (λ item. item != "") (map trim_space (split_commas raw))

abbrev pub included : {A : Type 0} → String → List String → A → Option A
included name include a = if any (λ item. item == name) include then some a else none

unfoldable pub filtered_snapshot : Snapshot → List String → FilteredSnapshot
filtered_snapshot snap include = record {
  weather = included "weather" include snap.weather;
  messages = included "messages" include snap.messages;
  todos = included "todos" include snap.todos;
  telemetry = included "telemetry" include snap.telemetry;
}

abbrev pub weather_error : Response
weather_error = write_error 502 "weather provider error"

-- The end of `handleSnapshot`
unfoldable pub snapshot_reply : Snapshot → List String → Response
unfolding filtered_snapshot
snapshot_reply snap [] = write_json 200 (snapshot_body snap)
snapshot_reply snap (x ∷ xs) = write_json 200 (filtered_body (filtered_snapshot snap (x ∷ xs)))

-- `handleSnapshot`
unfoldable pub handle_snapshot :
    Env → Option (Result Weather) → Request → User → FileStore → FileStore → Response
unfolding get_snapshot snapshot_include snapshot_reply write_error
handle_snapshot env provider r user s log = elim (get_snapshot env provider user.id s log) [
  | err e ↦ weather_error
  | ok snap ↦ snapshot_reply snap (snapshot_include r)
]

-- `handleDeviceSnapshot`
unfoldable pub handle_device_snapshot : Option (Result Weather) → Device → FileStore → Response
unfolding get_weather write_error
handle_device_snapshot provider device s = elim (get_weather provider s) [
  | err e ↦ weather_error
  | ok w ↦ write_json 200 (
      snapshot_body (record {
        weather = w;
        messages = MessageService.pending file_messages device.id (pos 20) s;
        todos = TodoService.list file_todos device.owner_id s;
        telemetry = [];
      }))
]

-- `handleGetWeather`
unfoldable pub handle_get_weather : Option (Result Weather) → FileStore → Response
unfolding get_weather write_error
handle_get_weather provider s = elim (get_weather provider s) [
  | err e ↦ weather_error
  | ok w ↦ write_json 200 (weather_body w)
]

-- `handleHealth`
abbrev pub handle_health : Response
handle_health = write_json 200 (health_body "ok")

-- `handleGetTelemetry`, to which no route leads
unfoldable pub handle_get_telemetry : Env → Request → FileStore → Response
unfolding query_int
handle_get_telemetry env r s = write_json 200 (
    telemetries_body (
      TelemetryService.list file_telemetries env (query_int r "limit" (pos 50) (pos 1) (pos 500))
        s))

-- `handleGetDeviceTelemetry`
unfoldable pub handle_get_device_telemetry : Env → Request → User → FileStore → FileStore → Response
unfolding query_int
handle_get_device_telemetry env r user s log =
    let limit = query_int r "limit" (pos 50) (pos 1) (pos 500) in
    write_json 200 (
      telemetries_body (
        TelemetryService.device_list file_telemetries env user.id (path_string r "device_id") limit
          s log))

-- The routes of a user for the snapshot, the weather and the telemetry of a device
pub data ReadRoute : Type 0 where
  snapshots : ReadRoute
  forecasts : ReadRoute
  telemetries : ReadRoute

unfoldable pub route_read :
    Env → Option (Result Weather) → ReadRoute → Request → User → FileStore → FileStore → Response
unfolding handle_snapshot handle_get_weather handle_get_device_telemetry
route_read env provider snapshots r user s log = handle_snapshot env provider r user s log
route_read env provider forecasts r user s log = handle_get_weather provider s
route_read env provider telemetries r user s log = handle_get_device_telemetry env r user s log

-- A request to one of them: the store when the middleware looks the user up, when the handler holds
-- the lock and when it reads the log.
unfoldable pub serve_read :
    Server
    → Env
    → Option (Result Weather)
    → ReadRoute
    → Request
    → FileStore
    → FileStore
    → FileStore
    → Response
unfolding route_read
serve_read server env provider route r auth s log = elim (require_user_auth server r auth) [
  | reply x ↦ x
  | valid user ↦ route_read env provider route r user s log
]

-- `GET /device/snapshot` behind `requireDeviceAuth`
unfoldable pub serve_device_snapshot :
    Server → Option (Result Weather) → Request → FileStore → Response
unfolding handle_device_snapshot
serve_device_snapshot server provider r s = elim (require_device_auth server r s) [
  | reply x ↦ x
  | valid d ↦ handle_device_snapshot provider d s
]
