-- ===== src/Tests/ApiTests.antt =====
-- Requests through the routes of internal/httpapi, and a start of the program, at concrete inputs.
use tinypanel_hub.Prelude.{trim_left, trim_right, is_space}
use tinypanel_hub.Httpapi.Request.{Request, Response, write_error, reply, valid}
use tinypanel_hub.Httpapi.Auth.{
  bearer_token, cut_prefix_fold, admin_authorized, require_user_auth, require_device_auth,
  handle_create_user,
}
use tinypanel_hub.Httpapi.Messages.{MessageJson}
use tinypanel_hub.Httpapi.Todos.{TodoRoute, serve_todo}
use tinypanel_hub.Httpapi.Telemetry.{TelemetryRoute, serve_telemetry}
use tinypanel_hub.Httpapi.Api.{Hub, Call, Route, serve_route, serve, serve_all}
use tinypanel_hub.Httpapi.Api.Runs.{HasCodes, serve_all-Reach, serve_all-IsValid}
use tinypanel_hub.Httpapi.Api.Reading.{one_device, ShowsOwn, serve-ShowsOwn}
use tinypanel_hub.Httpapi.Devices.{DeviceRoute}
use tinypanel_hub.Httpapi.Api.Access.{Refused, serve-Refused, serve_total}
use tinypanel_hub.Store.Validity.{IsValid}
use tinypanel_hub.Store.File.{new_state_data}
use tinypanel_hub.Store.Reachable.{Reach}
use tinypanel_hub.Store.Reachable.Named.{IsNamed}
use tinypanel_hub.Store.Todos.{add_todo, update_todo, delete_todo, new_todo}
use tinypanel_hub.Store.Todos.Table.{table, set_cell, updated_cell, deleted_cell, todos_table}
use tinypanel_hub.Tests.Fixtures.{bob, env, store, sample-IsTodoList}
use tinypanel_hub.Tests.HttpTests.{
  always, server, todo_json, device_json, telemetry_json, request, admin, with_bob,
}
use tinypanel_hub.Tests.WeatherTests.{net, config_json}
use tinypanel_hub.Store.State.{Files}
use tinypanel_hub.App.{App, Machine, start}
use tinypanel_hub.App.Untouched.{start-files}
use tinypanel_hub.Prelude.{
  ℕ, ◌*◌, ◌≤◌, String, List, [], ◌∷◌, none, some, pos, false, if◌then◌else◌, ◌==◌, eq_string,
  eq_int, eq_nat, length, trim_space, ◌≡◌, refl, arith, ne_of_==, inl, inr, ◌⊎◌,
}
use tinypanel_hub.Domain.{TodoPatch, User}
use tinypanel_hub.Store.State.{ok, FileStore}

abbrev message_json : MessageJson
message_json = record {
  create_message_json = always (record { body = "hi"; priority = "" });
  ack_messages_json = always (record { message_ids = pos 2 ∷ [] });
}

abbrev hub : Hub
hub = record {
  server = server;
  todo_json = todo_json;
  device_json = device_json;
  message_json = message_json;
  telemetry_json = telemetry_json;
}

abbrev call : Route → Request → Call
call route r = record { route = route; request = r; provider = none; envs = λ _. env }

has_codes : (route : Route) (r : Request) → HasCodes (call route r)
has_codes route r = (ne_of_== "111111" "" refl, (ne_of_== "222222" "" refl, tt))

-- Bob adds a todo, then his device reports a batch.
serve-ShowsOwn_example :
    (serve hub (call (Route.devices DeviceRoute.get) request) with_bob
      ≡ some (with_bob, write_error 401 "missing or invalid user token"))
    ⊎ ((user : User) × (x : Response) × (require_user_auth server request with_bob ≡ valid user)
        × (serve hub (call (Route.devices DeviceRoute.get) request) with_bob ≡ some (with_bob, x))
        × ShowsOwn with_bob user.id x)
serve-ShowsOwn_example =
    serve-ShowsOwn hub (call (Route.devices DeviceRoute.get) request) with_bob one_device
      (ne_of_== bob "" refl, tt)

abbrev calls : List Call
calls =
    call (Route.todos TodoRoute.post) request
    ∷ call (Route.reports TelemetryRoute.batch) request
    ∷ []

abbrev after_todo : FileStore
after_todo = (serve_todo server todo_json env TodoRoute.post request with_bob).0

abbrev after_calls : FileStore
after_calls =
    (serve_telemetry server telemetry_json (λ _. env) TelemetryRoute.batch request after_todo).0

served : serve_all hub calls with_bob ≡ some after_calls
unfolding serve_all serve serve_route
served = refl

serve_all-Reach_example :
    (n : ℕ) × (n ≤ 100 * length calls) × Reach with_bob n after_calls × IsNamed after_calls
serve_all-Reach_example =
    serve_all-Reach hub calls with_bob after_calls (ne_of_== bob "" refl, tt)
      (
        has_codes (Route.todos TodoRoute.post) request,
        (has_codes (Route.reports TelemetryRoute.batch) request, tt),
      )
      served

abbrev new_store : FileStore
new_store = record store { contents = new_state_data 1 }

abbrev first_call : List Call
first_call = call Route.users admin ∷ []

abbrev after_first : FileStore
after_first = (handle_create_user server env admin new_store).0

first_served : serve_all hub first_call new_store ≡ some after_first
unfolding serve_all serve serve_route
first_served = refl

serve_all-IsValid_example : IsValid (100 * length first_call) after_first.contents
serve_all-IsValid_example =
    serve_all-IsValid 1 hub first_call new_store after_first refl (has_codes Route.users admin, tt)
      (omega arith) first_served

abbrev anonymous : Request
anonymous = record request { header = λ name. "" }

no_admin : admin_authorized server anonymous ≡ false
unfolding admin_authorized bearer_token cut_prefix_fold trim_space trim_left trim_right is_space
no_admin = refl

no_user :
    require_user_auth server anonymous with_bob
    ≡ reply (write_error 401 "missing or invalid user token")
unfolding require_user_auth bearer_token cut_prefix_fold trim_space trim_left trim_right is_space
no_user = refl

no_device :
    require_device_auth server anonymous with_bob
    ≡ reply (write_error 401 "missing or invalid device credentials")
unfolding require_device_auth
no_device = refl

serve-Refused_example : Refused hub (call (Route.todos TodoRoute.delete) anonymous) with_bob
serve-Refused_example =
    serve-Refused hub (call (Route.todos TodoRoute.delete) anonymous) with_bob
      (write_error 401 "missing or invalid user token")
      (write_error 401 "missing or invalid device credentials") no_admin no_user no_device tt

serve_total_example :
    (a : FileStore × Response) × (serve hub (call Route.hello request) with_bob ≡ some a)
serve_total_example =
    serve_total hub (call Route.hello request) with_bob "222222" (inr (inl refl))
      (ne_of_== "" "222222" refl, (ne_of_== "111111" "222222" refl, tt))

abbrev new_text : TodoPatch
new_text = record { text = some "dust"; status = none }

todos_table_example :
    ((o : String) → table store o (pos 2) ≡ none)
    × (table (add_todo env bob "sweep" (pos 0) store).0
        ≡ set_cell bob (pos 2) (some (new_todo 100 (pos 2) bob "sweep" (pos 0))) (table store))
    × (table (update_todo env bob (pos 1) (pos 1) new_text store).0
        ≡ set_cell bob
            (pos 1)
            (updated_cell 100 (pos 1) new_text (table store bob (pos 1)))
            (table store))
    × (table (delete_todo env bob (pos 1) (pos 1) store).0
        ≡ set_cell bob (pos 1) (deleted_cell (pos 1) (table store bob (pos 1))) (table store))
todos_table_example =
    todos_table env bob "sweep" (pos 0) (pos 1) (pos 1) new_text store sample-IsTodoList

-- A machine with a configuration, a state file that is not there yet and an empty log.
abbrev machine : Machine
machine = record {
  lib = record {
    to_lower = λ s. s;
    parse_duration = λ s. ok (pos 600);
    config_json = config_json;
    net = net;
  };
  env = env;
  etc_faults = record { mkdir_fails = none; stat_fails = none; write_fails = none };
  embedded = ok "example";
  flag = none;
  variable = "";
  config_fails = none;
  state_fails = none;
}

abbrev disk : Files
disk p = if p == "etc/config.json" then some "{}" else none

start-files_example : (start machine disk).0 "etc/config.json" ≡ some "{}"
start-files_example = start-files machine disk "etc/config.json" "{}" refl
