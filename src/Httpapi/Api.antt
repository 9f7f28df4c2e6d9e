-- ===== src/Httpapi/Api.antt =====
-- internal/httpapi/router.go: every route, the middleware before it and its handler.
pub mod Steps
pub mod Reports
pub mod Access
pub mod Runs
pub mod Reading
pub mod Users
use Prim.Native.String
use tinypanel_hub.Prelude.{has_prefix}
use tinypanel_hub.Domain.{Weather}
use tinypanel_hub.Httpapi.Request.{Request, Response, write_error, valid, reply}
use tinypanel_hub.Httpapi.Auth.{
  Server, require_user_auth, require_device_auth, handle_create_user, handle_me,
}
use tinypanel_hub.Httpapi.Todos.{TodoJson, TodoRoute, handle_device_todos, serve_todo}
use tinypanel_hub.Httpapi.Devices.{DeviceJson, DeviceRoute, handle_device_hello, serve_device}
use tinypanel_hub.Httpapi.Messages.{
  MessageJson, handle_list_device_messages, handle_create_device_message, serve_inbox, serve_ack,
}
use tinypanel_hub.Httpapi.Telemetry.{TelemetryJson, TelemetryRoute, serve_telemetry}
use tinypanel_hub.Httpapi.Snapshots.{ReadRoute, serve_read, serve_device_snapshot, handle_health}
use tinypanel_hub.Prelude.{ℕ, String, List, [], ◌∷◌, Option, none, some, not, if◌then◌else◌}
use tinypanel_hub.Domain.{User}
use tinypanel_hub.Store.State.{Result, FileStore, Env}

-- `GET /me` behind `requireUserAuth`
unfoldable pub serve_me : Server → Request → FileStore → Response
serve_me server r s = elim (require_user_auth server r s) [
  | reply x ↦ x
  | valid user ↦ handle_me user
]

-- `GET /device/todos` behind `requireDeviceAuth`
unfoldable pub serve_device_todos : Server → Request → FileStore → Response
unfolding handle_device_todos
serve_device_todos server r s = elim (require_device_auth server r s) [
  | reply x ↦ x
  | valid d ↦ handle_device_todos d s
]

-- The messages under /devices/{device_id}
pub data MessageRoute : Type 0 where
  listing : MessageRoute
  creation : MessageRoute

unfoldable pub route_message :
    MessageJson → Env → MessageRoute → Request → User → FileStore → FileStore × Response
unfolding handle_list_device_messages handle_create_device_message
route_message json env listing r user s = (s, handle_list_device_messages r user s)
route_message json env creation r user s = handle_create_device_message json env r user s

-- A request to a route, behind `requireUserAuth`
unfoldable pub serve_message :
    Server → MessageJson → Env → MessageRoute → Request → FileStore → FileStore × Response
unfolding route_message
serve_message server json env route r s = elim (require_user_auth server r s) [
  | reply x ↦ (s, x)
  | valid user ↦ route_message json env route r user s
]

-- `handleNotFound`, with the path of the URL and what the web handler answers, if there is one.
unfoldable pub handle_not_found : Option Response → String → Response
unfolding has_prefix write_error
handle_not_found none path = write_error 404 "not found"
handle_not_found (some page) path =
    if has_prefix path "/api/" then write_error 404 "not found" else page

-- What `routes` registers, and the requests that the multiplexer gives to `handleNotFound`.
pub data Route : Type 0 where
  health : Route
  users : Route
  hello : Route
  inbox : Route
  acks : Route
  device_todos : Route
  reports : TelemetryRoute → Route
  device_snapshot : Route
  me : Route
  reads : ReadRoute → Route
  devices : DeviceRoute → Route
  messages : MessageRoute → Route
  todos : TodoRoute → Route
  unknown : Option Response → String → Route

-- The server with the decoders of its handlers.
pub record Hub : Type 0 where
  pub server : Server
  pub todo_json : TodoJson
  pub device_json : DeviceJson
  pub message_json : MessageJson
  pub telemetry_json : TelemetryJson

-- A request with its route, what the weather provider answers to it, and what its calls of the store
-- take from outside.
pub record Call : Type 0 where
  pub route : Route
  pub request : Request
  pub provider : Option (Result Weather)
  pub envs : ℕ → Env

-- A request, from its route to the response. It has none while the draws of a hello give no code.
unfoldable pub serve_route : Hub → Call → Route → FileStore → Option (FileStore × Response)
unfolding handle_create_user handle_device_hello serve_inbox serve_ack serve_device_todos
    serve_telemetry serve_device_snapshot serve_me serve_read serve_device serve_message serve_todo
    handle_not_found
serve_route hub c health s = some (s, handle_health)
serve_route hub c users s = some (handle_create_user hub.server (c.envs 0) c.request s)
serve_route hub c hello s = handle_device_hello hub.server hub.device_json (c.envs 0) c.request s
serve_route hub c inbox s = some (s, serve_inbox hub.server c.request s)
serve_route hub c acks s = some (serve_ack hub.server hub.message_json (c.envs 0) c.request s)
serve_route hub c device_todos s = some (s, serve_device_todos hub.server c.request s)
serve_route hub c (reports route) s =
    some (serve_telemetry hub.server hub.telemetry_json c.envs route c.request s)
serve_route hub c device_snapshot s =
    some (s, serve_device_snapshot hub.server c.provider c.request s)
serve_route hub c me s = some (s, serve_me hub.server c.request s)
serve_route hub c (reads route) s =
    some (s, serve_read hub.server (c.envs 0) c.provider route c.request s s s)
serve_route hub c (devices route) s =
    some (serve_device hub.server hub.device_json (c.envs 0) route c.request s)
serve_route hub c (messages route) s =
    some (serve_message hub.server hub.message_json (c.envs 0) route c.request s)
serve_route hub c (todos route) s =
    some (serve_todo hub.server hub.todo_json (c.envs 0) route c.request s)
serve_route hub c (unknown page path) s = some (s, handle_not_found page path)

unfoldable pub serve : Hub → Call → FileStore → Option (FileStore × Response)
unfolding serve_route
serve hub c s = serve_route hub c c.route s

-- The store after requests, one after the other.
unfoldable pub serve_all : Hub → List Call → FileStore → Option FileStore
unfolding serve
serve_all hub [] s = some s
serve_all hub (c ∷ cs) s = elim (serve hub c s) [
  | none ↦ none
  | some (s', response) ↦ serve_all hub cs s'
]
