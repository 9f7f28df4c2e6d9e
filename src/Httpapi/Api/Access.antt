-- ===== src/Httpapi/Api/Access.antt =====
-- Which requests to internal/httpapi are answered, and which are refused.
use tinypanel_hub.Httpapi.Request.{Response, write_error, reply, Checked-cases}
use tinypanel_hub.Httpapi.Auth.{
  require_user_auth, require_device_auth, admin_authorized, handle_create_user,
}
use tinypanel_hub.Httpapi.Auth.Admission.{require_user_auth-reply}
use tinypanel_hub.Httpapi.Messages.Inbox.{require_device_auth-reply}
use tinypanel_hub.Httpapi.Todos.{serve_todo}
use tinypanel_hub.Httpapi.Devices.{serve_device, hello_id, handle_device_hello}
use tinypanel_hub.Httpapi.Messages.{serve_ack, serve_inbox}
use tinypanel_hub.Httpapi.Telemetry.{serve_telemetry}
use tinypanel_hub.Httpapi.Snapshots.{serve_read, serve_device_snapshot}
use tinypanel_hub.Httpapi.Api.{
  Hub, Call, Route, health, users, hello, inbox, acks, device_todos, reports, device_snapshot, me,
  reads, devices, messages, todos, unknown, serve_me, serve_device_todos, serve_message,
  serve_route, serve,
}
use tinypanel_hub.Store.Devices.Isolation.{hello_total}
use tinypanel_hub.Prelude.{
  String, some, false, if◌then◌else◌, ◌==◌, eq_string, eq_int, eq_nat, trim_space, ◌≡◌, refl, All,
  ◌≢◌, inl, inr, In,
}
use tinypanel_hub.Domain.{Device}
use tinypanel_hub.Store.State.{FileStore}

-- A route that asks for an administrator, a user or a device.
abbrev pub IsGuarded : Route → Type 0
IsGuarded health = ⊥
IsGuarded hello = ⊥
IsGuarded (unknown page path) = ⊥
IsGuarded _ = Unit

abbrev pub Refused : Hub → Call → FileStore → Type 0
Refused hub c s = (message : String) × (serve hub c s ≡ some (s, write_error 401 message))

module _ (hub : Hub) (c : Call) (s : FileStore) (x y : Response)
    (no_admin : admin_authorized hub.server c.request ≡ false)
    (no_user : require_user_auth hub.server c.request s ≡ reply x)
    (no_device : require_device_auth hub.server c.request s ≡ reply y) where
  user_refusal : x ≡ write_error 401 "missing or invalid user token"
  user_refusal = require_user_auth-reply hub.server c.request s x no_user

  device_refusal : y ≡ write_error 401 "missing or invalid device credentials"
  device_refusal = require_device_auth-reply hub.server c.request s y no_device

  refused :
      (route : Route)
      → IsGuarded route
      → (message : String) × (serve_route hub c route s ≡ some (s, write_error 401 message))
  unfolding serve_route handle_create_user serve_inbox serve_ack serve_device_todos serve_telemetry
      serve_device_snapshot serve_me serve_read serve_device serve_message serve_todo
  refused health g = elim g [ ]
  refused hello g = elim g [ ]
  refused (unknown page path) g = elim g [ ]
  refused users g = rw (no_admin, handle_create_user) (_, refl)
  refused inbox g = rw (no_device, serve_inbox) (rw device_refusal (_, refl))
  refused acks g = rw (no_device, serve_ack) (rw device_refusal (_, refl))
  refused device_todos g = rw (no_device, serve_device_todos) (rw device_refusal (_, refl))
  refused (reports route) g = rw (no_device, serve_telemetry) (rw device_refusal (_, refl))
  refused device_snapshot g = rw (no_device, serve_device_snapshot) (rw device_refusal (_, refl))
  refused me g = rw (no_user, serve_me) (rw user_refusal (_, refl))
  refused (reads route) g = rw (no_user, serve_read) (rw user_refusal (_, refl))
  refused (devices route) g = rw (no_user, serve_device) (rw user_refusal (_, refl))
  refused (messages route) g = rw (no_user, serve_message) (rw user_refusal (_, refl))
  refused (todos route) g = rw (no_user, serve_todo) (rw user_refusal (_, refl))

  -- A request that has neither the administrator's token nor the credentials of a user or a device
  -- is answered with 401 on every route but /healthz, /device/hello and those that do not exist, and
  -- changes nothing in the store, memory or files.
  pub serve-Refused : IsGuarded c.route → Refused hub c s
  unfolding serve
  serve-Refused g = refused c.route g

module _ (hub : Hub) (c : Call) (s : FileStore) (code : String) (i : In code (c.envs 0).codes)
    (unused : All (λ (d : Device). d.bind_code ≢ code) s.contents.devices) where
  hello_answered : (a : FileStore × Response) × (serve_route hub c hello s ≡ some a)
  unfolding serve_route handle_device_hello
  hello_answered = elim (Checked-cases (hello_id hub.device_json c.request)) [
    | inr (x, e) ↦ rw (e, handle_device_hello) (_, refl)
    | inl (device_id, e) ↦
        let given = trim_space (c.request.header "X-Device-Secret") in
        let secret = if given == "" then hub.server.random_secret else given in
        let (r, found) =
          hello_total (c.envs 0) device_id (hub.server.token_hash secret) code s i unused in
        rw (e, handle_device_hello) (rw found (_, refl))
  ]

  answered : (route : Route) → (a : FileStore × Response) × (serve_route hub c route s ≡ some a)
  unfolding serve_route
  answered hello = hello_answered
  answered health = (_, refl)
  answered users = (_, refl)
  answered inbox = (_, refl)
  answered acks = (_, refl)
  answered device_todos = (_, refl)
  answered (reports route) = (_, refl)
  answered device_snapshot = (_, refl)
  answered me = (_, refl)
  answered (reads route) = (_, refl)
  answered (devices route) = (_, refl)
  answered (messages route) = (_, refl)
  answered (todos route) = (_, refl)
  answered (unknown page path) = (_, refl)

-- Every request, to whichever route, is answered, if one of the codes drawn is on no device.
pub serve_total :
    (hub : Hub) (c : Call) (s : FileStore) (code : String)
    → In code (c.envs 0).codes
    → All (λ (d : Device). d.bind_code ≢ code) s.contents.devices
    → (a : FileStore × Response) × (serve hub c s ≡ some a)
unfolding serve
serve_total hub c s code i unused = answered hub c s code i unused c.route
